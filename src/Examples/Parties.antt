-- ===== src/Examples/Parties.antt =====
-- A directory with one shipper, one recipient at a destination and a person of each
-- (wms/shipment_party_rules.py).
use asf_wms.Prelude.{ℕ, ◌≡◌, refl, true, false, All, none, some, [], ◌∷◌, ok, arith}
use asf_wms.Prelude.OrderBy.{order_by}
use asf_wms.Party.{
  Directory, Contact, Destination, ShipmentShipperRecipientLink, organization, person, validated,
  contact_is_active, destination_is_active,
}
use asf_wms.Party.Eligible.{
  is_valid_shipper, is_valid_recipient, link_reaches, eligible_shippers_for_stopover,
  eligible_recipient_organizations_for_shipper,
}
use asf_wms.Party.Resolve.{
  Binding, by_link, normalize_party_contact_to_org, shipment_shipper_record,
  shipment_recipient_organization_record, resolve_shipper_for_operation,
  resolve_recipient_binding_for_operation,
}
use asf_wms.Party.Offered.{
  active_contacts_for_ids, organization_ids, is_link_of, is_contact_at, authorized_contact,
  authorized_contacts, recipient_contact_ids, eligible_recipient_contacts_for_shipper_destination,
}
use asf_wms.Order.Parties.{OrderContacts, ShipmentParties}
use asf_wms.Party.Clean.{IsClean}
use asf_wms.Party.Laws.{offered_recipients-accepted}
use asf_wms.Party.Sound.{IsBound, resolve_recipient_binding_for_operation-IsBound}

abbrev a_structure : ℕ → Contact
a_structure id = record {
  id = id;
  contact_type = organization;
  organization = none;
  is_active = true;
}

abbrev a_person : ℕ → ℕ → Contact
a_person id structure = record {
  id = id;
  contact_type = person;
  organization = some structure;
  is_active = true;
}

abbrev paris : Destination
paris = record { id = 5; city = b'P' ∷ b'a' ∷ []; country = b'F' ∷ []; is_active = true }

abbrev link : ShipmentShipperRecipientLink
link = record { id = 61; shipper = 41; recipient_organization = 51; is_active = true }

abbrev directory : Directory
directory = record {
  contacts = a_structure 1 ∷ a_person 2 1 ∷ a_structure 3 ∷ a_person 4 3 ∷ [];
  destinations = paris ∷ [];
  shippers =
      record {
        id = 41;
        organization = 1;
        default_contact = some 2;
        validation_status = validated;
        can_send_to_all = false;
        is_active = true;
      }
      ∷ [];
  recipients =
      record {
        id = 51;
        organization = 3;
        destination = 5;
        validation_status = validated;
        is_active = true;
      }
      ∷ [];
  recipient_contacts =
      record { id = 71; recipient_organization = 51; contact = 4; is_active = true } ∷ [];
  links = link ∷ [];
  authorized = record { id = 81; link = 61; recipient_contact = 71; is_active = true } ∷ [];
}

directory-IsClean : IsClean directory
directory-IsClean = record {
  contacts = ground arith;
  shipper_organizations = ((a_structure 1, refl, refl), tt);
  default_contacts = ((a_person 2 1, refl, refl, refl), tt);
  one_shipper = ground arith;
  recipient_organizations = ((a_structure 3, refl, refl), tt);
  recipient_keys = ground arith;
  one_recipient = ground arith;
  recipient_contacts = ((_, refl, (a_person 4 3, refl, refl, refl)), tt);
  authorized = ((_, _, refl, refl, refl), tt);
}

-- The form offers the structure of the recipient and its authorized person.
two_offered :
    eligible_recipient_contacts_for_shipper_destination directory (some (a_person 2 1)) (some paris)
    ≡ a_structure 3 ∷ a_person 4 3 ∷ []
unfolding eligible_recipient_contacts_for_shipper_destination active_contacts_for_ids
    recipient_contact_ids organization_ids authorized_contacts authorized_contact is_link_of
    is_contact_at shipment_shipper_record normalize_party_contact_to_org is_valid_shipper
    is_valid_recipient contact_is_active destination_is_active
    eligible_recipient_organizations_for_shipper
two_offered = refl

accepted :
    resolve_recipient_binding_for_operation directory
      (some (a_person 2 1))
      (some (a_person 4 3))
      (some paris)
    ≡ ok (by_link link)
unfolding resolve_recipient_binding_for_operation resolve_shipper_for_operation
    shipment_recipient_organization_record shipment_shipper_record normalize_party_contact_to_org
    is_valid_shipper is_valid_recipient link_reaches contact_is_active destination_is_active
    eligible_shippers_for_stopover eligible_recipient_organizations_for_shipper order_by
accepted = refl

resolve_recipient_binding_for_operation-IsBound_example :
    IsBound directory (some (a_person 2 1)) (some (a_person 4 3)) paris (by_link link)
resolve_recipient_binding_for_operation-IsBound_example =
    resolve_recipient_binding_for_operation-IsBound directory (some (a_person 2 1))
      (some (a_person 4 3)) paris accepted

shipper_structure :
    normalize_party_contact_to_org directory (some (a_person 2 1)) ≡ some (a_structure 1)
unfolding normalize_party_contact_to_org
shipper_structure = refl

offered_recipients-accepted_example :
    All
      (λ (c : Contact).
        (b : Binding) × (resolve_recipient_binding_for_operation directory
            (some (a_person 2 1))
            (some c)
            (some paris)
          ≡ ok b))
      (eligible_recipient_contacts_for_shipper_destination directory
        (some (a_person 2 1))
        (some paris))
offered_recipients-accepted_example =
    offered_recipients-accepted directory directory-IsClean (some (a_person 2 1)) paris
      shipper_structure refl

-- An order of the association 1 for the person 4, to the one destination.
abbrev order : OrderContacts
order = record {
  association_contact = some 1;
  shipper_contact = none;
  recipient_contact = some 4;
  destination_city = b' ' ∷ b'P' ∷ b'a' ∷ [];
  destination_country = [];
}

abbrev parties : ShipmentParties
parties = record { shipper = a_structure 1; recipient = a_person 4 3; destination = paris }
