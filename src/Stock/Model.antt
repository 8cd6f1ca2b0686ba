-- ===== src/Stock/Model.antt =====
-- The rows of the stock tables (wms/models_domain/inventory.py, wms/models_domain/shipment.py).
pub use asf_wms.Text.{Text}
use asf_wms.Prelude.{
  ℕ, ◌==◌, ℤ, pos, ◌≡◌, is_some, if◌then◌else◌, ◌+ℤ◌, ◌-ℤ◌, Option, List, [], ◌∷◌, Bool,
}

pub data ProductLotStatus : Type 0 where
  quarantined available hold expired : ProductLotStatus

pub data MovementType : Type 0 where
  incoming outgoing transfer adjust precondition unpack : MovementType

pub record ProductLot : Type 0 where
  pub id : ℕ
  pub product : ℕ
  pub lot_code : Text
  pub expires_on : Option ℕ
  pub received_on : Option ℕ
  pub status : ProductLotStatus
  pub quantity_on_hand : ℤ
  pub quantity_reserved : ℤ
  pub location : ℕ
  pub source_receipt : Option ℕ
  pub storage_conditions : Text

pub record StockMovement : Type 0 where
  pub movement_type : MovementType
  pub product : ℕ
  pub product_lot : ℕ
  pub quantity : ℤ
  pub from_location : Option ℕ
  pub to_location : Option ℕ
  pub reason_code : Text
  pub reason_notes : Text
  pub related_carton : Option ℕ
  pub related_shipment : Option ℕ
  pub created_by : Option ℕ

-- The part of the product that stock operations read.
pub record Product : Type 0 where
  pub id : ℕ
  pub quarantine_default : Bool
  pub storage_conditions : Text
  pub default_location : Option ℕ

pub record Stock : Type 0 where
  pub lots : List ProductLot
  pub movements : List StockMovement
  -- the next primary key of the lot table
  pub next_lot : ℕ

abbrev pub lot_pk : ProductLot → ℕ
lot_pk l = l.id

-- `lot.quantity_on_hand - lot.quantity_reserved`
abbrev pub available_quantity : ProductLot → ℤ
available_quantity l = l.quantity_on_hand -ℤ l.quantity_reserved

abbrev pub is_available : ProductLotStatus → Bool
is_available available = Bool.true
is_available _ = Bool.false

-- The physical stock over all lots.
abbrev pub total_on_hand : List ProductLot → ℤ
total_on_hand [] = pos 0
total_on_hand (l ∷ ls) = l.quantity_on_hand +ℤ total_on_hand ls

-- The physical stock of a product.
abbrev pub on_hand_of : ℕ → List ProductLot → ℤ
on_hand_of p [] = pos 0
on_hand_of p (l ∷ ls) = (if l.product == p then l.quantity_on_hand else pos 0) +ℤ on_hand_of p ls

-- The reserved stock of a product.
abbrev pub reserved_of : ℕ → List ProductLot → ℤ
reserved_of p [] = pos 0
reserved_of p (l ∷ ls) = (if l.product == p then l.quantity_reserved else pos 0) +ℤ reserved_of p ls

-- What a movement adds to the physical stock: its quantity where it has a destination, less its
-- quantity where it has a source. A transfer has both.
abbrev pub effect : StockMovement → ℤ
effect m =
    (if is_some m.to_location then m.quantity else pos 0)
    -ℤ (if is_some m.from_location then m.quantity else pos 0)

-- The physical stock that the ledger accounts for.
abbrev pub ledger_total : List StockMovement → ℤ
ledger_total [] = pos 0
ledger_total (m ∷ ms) = effect m +ℤ ledger_total ms

-- An operation that went from one state to another has entered in the ledger all that it did to
-- the quantities on hand.
abbrev pub Accounts : Stock → Stock → Type 0
Accounts s s' =
    total_on_hand s'.lots +ℤ ledger_total s.movements
    ≡ total_on_hand s.lots +ℤ ledger_total s'.movements
