-- ===== src/Order/Parties/Laws.antt =====
-- What the parties of an order's shipment are (wms/domain/orders.py).
use asf_wms.Prelude.{Bool, true, false, some, ◌≡◌, ◌⊎◌, ok}
use asf_wms.Text.{Text}
use asf_wms.Text.Words.{strip}
use asf_wms.Party.{Directory, Contact, ShipmentShipper}
use asf_wms.Party.Resolve.{Binding, normalize_party_contact_to_org, resolve_shipper_for_operation}
use asf_wms.Party.Structure.{IsStructureOf}
use asf_wms.Party.Sender.{IsSender}
use asf_wms.Party.Sound.{IsBound}
use asf_wms.Order.Parties.{
  OrderContacts, ShipmentParties, active_contact, resolve_shipper_contact,
  requires_recipient_binding, serves,
}

-- The shipper and the recipient are the contacts of the order, the destination is the one that it names,
-- the shipper is accepted there, and the structure of the recipient is bound to the shipper, unless the
-- recipient is the association itself.
pub record AreParties (iexact : Text → Text → Bool) (d : Directory) (o : OrderContacts)
    (p : ShipmentParties) : Type 0 where
  pub shipper_of_order : resolve_shipper_contact d o ≡ some p.shipper
  pub recipient_of_order : active_contact d o.recipient_contact ≡ some p.recipient
  pub served :
      serves iexact (strip o.destination_city) (strip o.destination_country) p.destination ≡ true
  pub shipper_accepted :
      (s : ShipmentShipper) × (m : Contact) × IsStructureOf d p.shipper m
      × IsSender d (some m) s
      × (resolve_shipper_for_operation d
            (normalize_party_contact_to_org d (some p.shipper))
            (some p.destination)
          ≡ ok s)
  pub recipient_bound :
      (requires_recipient_binding d o p.recipient ≡ false)
      ⊎ ((b : Binding) × (m : Contact) × IsStructureOf d p.recipient m
          × IsBound d (normalize_party_contact_to_org d (some p.shipper)) (some m) p.destination b)
