-- ===== src/Party/Eligible.antt =====
-- Which shippers and recipients may take part in a shipment (wms/shipment_party_registry.py).
use asf_wms.Prelude.{
  ℕ, ◌==◌, Bool, false, ◌&&◌, ◌||◌, Option, none, some, List, [], any, filter, if◌then◌else◌,
}
use asf_wms.Prelude.Table.{find}
use asf_wms.Party.{
  Directory, Destination, ShipmentShipper, ShipmentRecipientOrganization,
  ShipmentShipperRecipientLink, recipient_pk, is_validated, contact_is_active,
  destination_is_active,
}

-- `_validated_active_shippers`
unfoldable pub is_valid_shipper : Directory → ShipmentShipper → Bool
is_valid_shipper d s =
    s.is_active && is_validated s.validation_status && contact_is_active d s.organization

-- `_validated_active_recipient_organization_filters`
unfoldable pub is_valid_recipient : Directory → ShipmentRecipientOrganization → Bool
is_valid_recipient d r =
    r.is_active
    && is_validated r.validation_status
    && contact_is_active d r.organization
    && destination_is_active d r.destination

abbrev pub is_valid_at : Directory → ℕ → ShipmentRecipientOrganization → Bool
is_valid_at d destination r = (r.destination == destination) && is_valid_recipient d r

-- The link leads from the shipper to a valid recipient at the destination.
unfoldable pub link_reaches : Directory → ℕ → ℕ → ShipmentShipperRecipientLink → Bool
link_reaches d shipper destination l =
    (l.shipper == shipper)
    && l.is_active
    && elim (find recipient_pk l.recipient_organization d.recipients) [
      | none ↦ false
      | some r ↦ is_valid_at d destination r
    ]

abbrev pub may_send : Directory → ℕ → ShipmentShipper → Bool
may_send d destination s =
    is_valid_shipper d s && (s.can_send_to_all || any (link_reaches d s.id destination) d.links)

unfoldable pub eligible_shippers_for_stopover :
    Directory → Option Destination → List ShipmentShipper
eligible_shippers_for_stopover d none = []
eligible_shippers_for_stopover d (some x) =
    if x.is_active then filter (may_send d x.id) d.shippers else []

-- An active link from the shipper to the recipient.
abbrev pub links_to : ℕ → ℕ → ShipmentShipperRecipientLink → Bool
links_to shipper recipient l =
    (l.shipper == shipper) && (l.recipient_organization == recipient) && l.is_active

abbrev pub is_stored_valid : Directory → ShipmentShipper → Bool
is_stored_valid d s =
    any (λ (t : ShipmentShipper). t.id == s.id) (filter (is_valid_shipper d) d.shippers)

abbrev pub receives_from : Directory → ShipmentShipper → ShipmentRecipientOrganization → Bool
receives_from d s r = s.can_send_to_all || any (links_to s.id r.id) d.links

unfoldable pub eligible_recipient_organizations_for_shipper :
    Directory → ShipmentShipper → Option Destination → List ShipmentRecipientOrganization
eligible_recipient_organizations_for_shipper d s none = []
eligible_recipient_organizations_for_shipper d s (some x) =
    if x.is_active && is_stored_valid d s
    then filter (receives_from d s) (filter (is_valid_at d x.id) d.recipients)
    else []
