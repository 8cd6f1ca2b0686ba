-- ===== src/Party/Resolve.antt =====
-- The parties of an operation (wms/shipment_party_rules.py).
use asf_wms.Prelude.{
  ℕ, ◌==◌, eq_option, Bool, ◌&&◌, not, Option, none, some, or_else, List, [], ◌∷◌, any, filter,
  if◌then◌else◌, Result, ok, ◌>>=◌, ◌>>◌, raise_if, or_raise,
}
use asf_wms.Prelude.Table.{find}
use asf_wms.Prelude.OrderBy.{order_by}
use asf_wms.Party.{
  Directory, Contact, Destination, ShipmentShipper, ShipmentRecipientOrganization,
  ShipmentShipperRecipientLink, contact_pk, shipper_organization, is_person, is_validated,
  contact_is_active,
}
use asf_wms.Party.Eligible.{
  is_valid_shipper, links_to, eligible_shippers_for_stopover,
  eligible_recipient_organizations_for_shipper,
}

-- The messages of `ShipmentPartyResolutionError`.
pub data PartyError : Type 0 where
  destination_required shipper_required shipper_review_pending : PartyError
  shipper_out_of_scope recipient_required recipient_review_pending : PartyError
  recipient_binding_missing : PartyError

abbrev pub first_of {ℓ} : {A : Type ℓ} → List A → Option A
first_of [] = none
first_of (x ∷ _) = some x

abbrev pub organization_of : Directory → Contact → Option ℕ → Option Contact
organization_of d c none = some c
organization_of d c (some o) = find contact_pk o d.contacts

unfoldable pub normalize_party_contact_to_org : Directory → Option Contact → Option Contact
normalize_party_contact_to_org d none = none
normalize_party_contact_to_org d (some c) =
    if is_person c.contact_type then organization_of d c c.organization else some c

abbrev pub shipper_of : Directory → Option Contact → Option ShipmentShipper
shipper_of d none = none
shipper_of d (some o) =
    let valid = filter (is_valid_shipper d) d.shippers in
    or_else
      (first_of (filter (λ (s : ShipmentShipper). eq_option s.default_contact (some o.id)) valid))
      (find shipper_organization o.id valid)

-- `_shipment_shipper_record`
unfoldable pub shipment_shipper_record : Directory → Option Contact → Option ShipmentShipper
shipment_shipper_record d c = shipper_of d (normalize_party_contact_to_org d c)

abbrev pub is_recipient : Directory → ℕ → ℕ → ShipmentRecipientOrganization → Bool
is_recipient d organization destination r =
    (r.organization == organization)
    && (r.destination == destination)
    && r.is_active
    && contact_is_active d r.organization

abbrev pub recipient_key : ShipmentRecipientOrganization → List ℕ
recipient_key r = r.id ∷ []

abbrev pub recipient_of : Directory → Option Contact → ℕ → Option ShipmentRecipientOrganization
recipient_of d none destination = none
recipient_of d (some o) destination =
    first_of (order_by recipient_key (filter (is_recipient d o.id destination) d.recipients))

-- `_shipment_recipient_organization_record`, with a destination
unfoldable pub shipment_recipient_organization_record :
    Directory → Option Contact → ℕ → Option ShipmentRecipientOrganization
shipment_recipient_organization_record d c destination =
    recipient_of d (normalize_party_contact_to_org d c) destination

abbrev pub is_among_shippers : ShipmentShipper → List ShipmentShipper → Bool
is_among_shippers s ss = any (λ (t : ShipmentShipper). t.id == s.id) ss

abbrev pub is_among_recipients :
    ShipmentRecipientOrganization → List ShipmentRecipientOrganization → Bool
is_among_recipients r rs = any (λ (t : ShipmentRecipientOrganization). t.id == r.id) rs

unfoldable pub resolve_shipper_for_operation :
    Directory → Option Contact → Option Destination → Result PartyError ShipmentShipper
resolve_shipper_for_operation d contact destination = do
  x ← or_raise destination destination_required
  o ← or_raise (normalize_party_contact_to_org d contact) shipper_required
  s ← or_raise (shipment_shipper_record d (some o)) shipper_review_pending
  raise_if (not (is_among_shippers s (eligible_shippers_for_stopover d (some x))))
      shipper_out_of_scope
  ok s

-- `link or recipient_organization`
pub data Binding : Type 0 where
  by_link : ShipmentShipperRecipientLink → Binding
  to_organization : ShipmentRecipientOrganization → Binding

abbrev pub link_key : ShipmentShipperRecipientLink → List ℕ
link_key l = l.id ∷ []

abbrev pub binding : Option ShipmentShipperRecipientLink → ShipmentRecipientOrganization → Binding
binding none r = to_organization r
binding (some l) r = by_link l

unfoldable pub resolve_recipient_binding_for_operation :
    Directory → Option Contact → Option Contact → Option Destination → Result PartyError Binding
resolve_recipient_binding_for_operation d shipper_contact recipient_contact destination = do
  x ← or_raise destination destination_required
  o ← or_raise (normalize_party_contact_to_org d recipient_contact) recipient_required
  s ← resolve_shipper_for_operation d shipper_contact (some x)
  r ← or_raise (shipment_recipient_organization_record d (some o) x.id) recipient_binding_missing
  raise_if (not (is_validated r.validation_status)) recipient_review_pending
  raise_if (not (is_among_recipients r (eligible_recipient_organizations_for_shipper d s (some x))))
      recipient_binding_missing
  ok (binding (first_of (order_by link_key (filter (links_to s.id r.id) d.links))) r)
