-- ===== src/Party/Sound.antt =====
-- What an accepted recipient is (wms/shipment_party_rules.py).
use asf_wms.Prelude.{
  ◌||◌, ◌≡◌, refl, sym, ap, ◌∙◌, Bool, true, false, not, any, filter, filter-test, Option, none,
  some, List, Result, ok, or_raise, raise_if,
}
use asf_wms.Prelude.Results.{>>=-eq-ok, ok_transport, or_raise-eq-ok}
use asf_wms.Prelude.OrderBy.{order_by, All-order_by}
use asf_wms.Party.{
  Directory, Contact, Destination, ShipmentShipper, ShipmentRecipientOrganization,
  ShipmentShipperRecipientLink, is_validated,
}
use asf_wms.Party.Eligible.{
  is_valid_at, receives_from, links_to, is_stored_valid,
  eligible_recipient_organizations_for_shipper,
}
use asf_wms.Party.Resolve.{
  PartyError, recipient_required, recipient_binding_missing, recipient_review_pending, Binding,
  by_link, to_organization, binding, first_of, link_key, normalize_party_contact_to_org,
  shipment_recipient_organization_record, is_among_recipients, resolve_shipper_for_operation,
  resolve_recipient_binding_for_operation,
}
use asf_wms.Party.Recipients.{first_of-All}
use asf_wms.Party.Structure.{IsStructureOf, normalized-IsStructureOf, given_contact}
use asf_wms.Party.Sender.{IsSender, resolve_shipper_for_operation-IsSender}
use asf_wms.Party.Listed.{listed-recipients, recipient_found, valid_recipient}

-- A link of the shipper to the recipient, or the recipient itself.
abbrev pub Connects : ShipmentShipper → ShipmentRecipientOrganization → Binding → Type 0
Connects s r (by_link l) = links_to s.id r.id l ≡ true
Connects s r (to_organization t) = t.id ≡ r.id

-- The shipper is that of its contact's structure, accepted and valid, the recipient is that of its
-- contact's structure, valid at the destination, and receives from the shipper, and the binding is
-- between the two. The structure of a contact is taken twice, as the code does.
pub record IsBound (d : Directory) (shipper_contact recipient_contact : Option Contact)
    (x : Destination) (b : Binding) : Type 0 where
  pub shipper : ShipmentShipper
  pub structure : Contact
  pub recipient : ShipmentRecipientOrganization
  pub contact : Contact
  pub own : Contact
  pub contact_given : recipient_contact ≡ some contact
  pub own_structure : IsStructureOf d contact own
  pub structure_of_own : IsStructureOf d own structure
  pub recipient_of_structure : recipient.organization ≡ structure.id
  pub sender : IsSender d shipper_contact shipper
  pub accepted : resolve_shipper_for_operation d shipper_contact (some x) ≡ ok shipper
  pub destination_active : x.is_active ≡ true
  pub shipper_valid : is_stored_valid d shipper ≡ true
  pub recipient_valid : is_valid_at d x.id recipient ≡ true
  pub receives : receives_from d shipper recipient ≡ true
  pub connects : Connects shipper recipient b

first_link :
    (d : Directory) (s : ShipmentShipper) (r : ShipmentRecipientOrganization)
    → Connects s r (binding (first_of (order_by link_key (filter (links_to s.id r.id) d.links))) r)
first_link d s r = connected (first_of ls) refl
  where
    ls : List ShipmentShipperRecipientLink
    ls = order_by link_key (filter (links_to s.id r.id) d.links)

    connected :
        (o : Option ShipmentShipperRecipientLink) → first_of ls ≡ o → Connects s r (binding o r)
    connected none e = refl
    connected (some l) e =
        first_of-All (λ (l : ShipmentShipperRecipientLink). links_to s.id r.id l ≡ true)
          (order_by link_key (filter (links_to s.id r.id) d.links))
          (All-order_by link_key (λ (l : ShipmentShipperRecipientLink). links_to s.id r.id l ≡ true)
            (filter (links_to s.id r.id) d.links) (filter-test (links_to s.id r.id) d.links))
          e

-- If a recipient is accepted for a shipper and a destination, then the shipper is that of the structure
-- of the shipper's contact, accepted and valid, the destination is active, the structure of the
-- recipient's contact has a recipient that is valid there and receives from the shipper, and the binding
-- that is returned is a link between the two or the recipient itself.
pub resolve_recipient_binding_for_operation-IsBound :
    (d : Directory) (shipper_contact recipient_contact : Option Contact) (x : Destination)
    {b : Binding}
    → resolve_recipient_binding_for_operation d shipper_contact recipient_contact (some x) ≡ ok b
    → IsBound d shipper_contact recipient_contact x b
unfolding resolve_recipient_binding_for_operation
resolve_recipient_binding_for_operation-IsBound d shipper_contact recipient_contact x {b} h =
    let (o, contact, h1) =
      >>=-eq-ok (or_raise (normalize_party_contact_to_org d recipient_contact) recipient_required) _
        h in
    let (s, accepted, h2) =
      >>=-eq-ok (resolve_shipper_for_operation d shipper_contact (some x)) _ h1 in
    let (r, record_, h3) =
      >>=-eq-ok
        (or_raise (shipment_recipient_organization_record d (some o) x.id)
          recipient_binding_missing)
        _ h2 in
    let (_, reviewed, h4) =
      >>=-eq-ok (raise_if (not (is_validated r.validation_status)) recipient_review_pending) _ h3 in
    let rs = eligible_recipient_organizations_for_shipper d s (some x) in
    let (_, listed, done) =
      >>=-eq-ok (raise_if (not (is_among_recipients r rs)) recipient_binding_missing) _ h4 in
    let (active, valid, (t, here, from, same)) =
      listed-recipients d s x r
        (not_raised (is_among_recipients r rs) recipient_binding_missing listed) in
    let (structure, known_, passes) = recipient_found d (some o) x.id (
      or_raise-eq-ok (shipment_recipient_organization_record d (some o) x.id)
        recipient_binding_missing record_) in
    let (right, mine) =
      valid_recipient d structure.id x.id r t passes
        (not_raised (is_validated r.validation_status) recipient_review_pending reviewed) here in
    let (given, is_given, own) = given_contact d recipient_contact (
      or_raise-eq-ok (normalize_party_contact_to_org d recipient_contact) recipient_required
        contact) in
    record {
      shipper = s;
      structure = structure;
      recipient = r;
      contact = given;
      own = o;
      contact_given = is_given;
      own_structure = own;
      structure_of_own = normalized-IsStructureOf d o known_;
      recipient_of_structure = mine;
      sender = resolve_shipper_for_operation-IsSender d shipper_contact x accepted;
      accepted = accepted;
      destination_active = active;
      shipper_valid = valid;
      recipient_valid = right;
      receives = ap (λ k. s.can_send_to_all || any (links_to s.id k) d.links) (sym same) ∙ from;
      connects = ok_transport (Connects s r) done (first_link d s r);
    }
  where
    not_raised :
        (c : Bool) (e : PartyError) {u : Unit {0}}
        → ◌≡◌ {A = Result PartyError (Unit {0})} (raise_if (not c) e) (ok u)
        → c ≡ true
    not_raised true e h = refl
    not_raised false e h = cc
