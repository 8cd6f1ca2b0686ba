-- ===== src/Order/Parties.antt =====
-- The parties that the shipment of an order gets (wms/domain/orders.py,
-- `_build_shipment_defaults_from_order`); the texts of the shipment and the parties that an order names
-- without a contact are left out.
pub mod Laws
use asf_wms.Prelude.{
  ℕ, ◌==◌, Bool, true, false, ◌&&◌, ◌||◌, not, Option, none, some, or_else, List, [], ◌∷◌, filter,
  if◌then◌else◌, Result, ok, err, ◌>>=◌, ◌>>◌, or_raise,
}
use asf_wms.Prelude.Table.{find}
use asf_wms.Prelude.OrderBy.{order_by}
use asf_wms.Text.{Text}
use asf_wms.Text.Words.{strip}
use asf_wms.Party.{Directory, Contact, Destination, contact_pk}
use asf_wms.Party.Resolve.{
  PartyError, first_of, normalize_party_contact_to_org, resolve_shipper_for_operation,
  resolve_recipient_binding_for_operation,
}

-- The columns of an order that name its parties.
pub record OrderContacts : Type 0 where
  pub association_contact : Option ℕ
  pub shipper_contact : Option ℕ
  pub recipient_contact : Option ℕ
  pub destination_city : Text
  pub destination_country : Text

-- The messages of `StockError` here.
pub data OrderPartyError : Type 0 where
  shipper_missing recipient_missing destination_missing : OrderPartyError
  party_refused : PartyError → OrderPartyError

abbrev pub if_active : Option Contact → Option Contact
if_active none = none
if_active (some c) = if c.is_active then some c else none

-- `_active_contact` of a foreign key
abbrev pub active_contact : Directory → Option ℕ → Option Contact
active_contact d none = none
active_contact d (some k) = if_active (find contact_pk k d.contacts)

unfoldable pub resolve_shipper_contact : Directory → OrderContacts → Option Contact
resolve_shipper_contact d o =
    or_else (active_contact d o.shipper_contact) (active_contact d o.association_contact)

abbrev pub differs : Contact → Option Contact → Bool
differs c none = true
differs c (some a) = not (c.id == a.id)

unfoldable pub requires_recipient_binding : Directory → OrderContacts → Contact → Bool
requires_recipient_binding d o recipient =
    differs recipient (active_contact d o.association_contact)

abbrev pub is_empty : Text → Bool
is_empty [] = true
is_empty (_ ∷ _) = false

-- `is_active=True`, `city__iexact` and, with a country, `country__iexact`
abbrev pub serves : (Text → Text → Bool) → Text → Text → Destination → Bool
serves iexact city country x =
    x.is_active && iexact x.city city && (is_empty country || iexact x.country country)

abbrev pub destination_key : Destination → List ℕ
destination_key x = x.id ∷ []

-- The second query of the program is the first one again.
unfoldable pub resolve_destination :
    (Text → Text → Bool) → Directory → OrderContacts → Option Destination
resolve_destination iexact d o =
    let city = strip o.destination_city in
    let country = strip o.destination_country in
    let query =
      first_of (order_by destination_key (filter (serves iexact city country) d.destinations)) in
    if is_empty city then none else or_else query query

-- `except ShipmentPartyResolutionError as exc: raise StockError(str(exc))`
abbrev pub or_refused {ℓ} : {A : Type ℓ} → Result PartyError A → Result OrderPartyError A
or_refused (ok a) = ok a
or_refused (err e) = err (party_refused e)

pub record ShipmentParties : Type 0 where
  pub shipper : Contact
  pub recipient : Contact
  pub destination : Destination

abbrev pub check_recipient :
    Directory → OrderContacts → Contact → Contact → Destination → Result OrderPartyError (Unit {0})
check_recipient d o shipper recipient x =
    let check =
      or_refused (
        resolve_recipient_binding_for_operation d (normalize_party_contact_to_org d (some shipper))
          (normalize_party_contact_to_org d (some recipient)) (some x))
      >>= (λ _. ok tt) in
    if requires_recipient_binding d o recipient then check else ok tt

-- `iexact` is the comparison of the database that ignores case.
unfoldable pub shipment_parties :
    (Text → Text → Bool) → Directory → OrderContacts → Result OrderPartyError ShipmentParties
shipment_parties iexact d o = do
  shipper ← or_raise (resolve_shipper_contact d o) shipper_missing
  recipient ← or_raise (active_contact d o.recipient_contact) recipient_missing
  x ← or_raise (resolve_destination iexact d o) destination_missing
  _ ←
      or_refused
        (resolve_shipper_for_operation d (normalize_party_contact_to_org d (some shipper)) (some x))
  _ ← check_recipient d o shipper recipient x
  ok (record { shipper = shipper; recipient = recipient; destination = x })
