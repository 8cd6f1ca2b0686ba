-- ===== src/Party.antt =====
-- The directory of contacts and the parties of shipments (contacts/models.py,
-- wms/models_domain/shipment_parties.py), as far as their eligibility depends on it.
pub mod Eligible
pub mod Resolve
pub mod Offered
pub mod Clean
pub mod Shippers
pub mod Accepted
pub mod Recipients
pub mod Bound
pub mod Ids
pub mod Laws
pub mod Structure
pub mod Sender
pub mod Listed
pub mod Sound
use asf_wms.Prelude.{ℕ, ◌==◌, Bool, true, false, ◌&&◌, Option, none, some, List}
use asf_wms.Prelude.Table.{find}
use asf_wms.Text.{Text}

pub data ContactType : Type 0 where
  organization person : ContactType

pub record Contact : Type 0 where
  pub id : ℕ
  pub contact_type : ContactType
  pub organization : Option ℕ
  pub is_active : Bool

pub record Destination : Type 0 where
  pub id : ℕ
  pub city : Text
  pub country : Text
  pub is_active : Bool

pub data ShipmentValidationStatus : Type 0 where
  pending validated rejected : ShipmentValidationStatus

pub record ShipmentShipper : Type 0 where
  pub id : ℕ
  pub organization : ℕ
  pub default_contact : Option ℕ
  pub validation_status : ShipmentValidationStatus
  pub can_send_to_all : Bool
  pub is_active : Bool

pub record ShipmentRecipientOrganization : Type 0 where
  pub id : ℕ
  pub organization : ℕ
  pub destination : ℕ
  pub validation_status : ShipmentValidationStatus
  pub is_active : Bool

pub record ShipmentRecipientContact : Type 0 where
  pub id : ℕ
  pub recipient_organization : ℕ
  pub contact : ℕ
  pub is_active : Bool

pub record ShipmentShipperRecipientLink : Type 0 where
  pub id : ℕ
  pub shipper : ℕ
  pub recipient_organization : ℕ
  pub is_active : Bool

pub record ShipmentAuthorizedRecipientContact : Type 0 where
  pub id : ℕ
  pub link : ℕ
  pub recipient_contact : ℕ
  pub is_active : Bool

-- The contacts stand in the order of their names, the shippers in that of their organizations.
pub record Directory : Type 0 where
  pub contacts : List Contact
  pub destinations : List Destination
  pub shippers : List ShipmentShipper
  pub recipients : List ShipmentRecipientOrganization
  pub recipient_contacts : List ShipmentRecipientContact
  pub links : List ShipmentShipperRecipientLink
  pub authorized : List ShipmentAuthorizedRecipientContact

abbrev pub contact_pk : Contact → ℕ
contact_pk c = c.id

abbrev pub destination_pk : Destination → ℕ
destination_pk d = d.id

abbrev pub shipper_pk : ShipmentShipper → ℕ
shipper_pk s = s.id

abbrev pub shipper_organization : ShipmentShipper → ℕ
shipper_organization s = s.organization

abbrev pub recipient_pk : ShipmentRecipientOrganization → ℕ
recipient_pk r = r.id

abbrev pub recipient_organization : ShipmentRecipientOrganization → ℕ
recipient_organization r = r.organization

abbrev pub recipient_contact_pk : ShipmentRecipientContact → ℕ
recipient_contact_pk r = r.id

abbrev pub link_pk : ShipmentShipperRecipientLink → ℕ
link_pk l = l.id

abbrev pub is_validated : ShipmentValidationStatus → Bool
is_validated validated = true
is_validated _ = false

abbrev pub is_person : ContactType → Bool
is_person person = true
is_person organization = false

-- `organization__is_active` and `destination__is_active`
unfoldable pub contact_is_active : Directory → ℕ → Bool
contact_is_active d k = elim (find contact_pk k d.contacts) [ none ↦ false | some c ↦ c.is_active ]

unfoldable pub destination_is_active : Directory → ℕ → Bool
destination_is_active d k = elim (find destination_pk k d.destinations) [
  | none ↦ false
  | some x ↦ x.is_active
]
