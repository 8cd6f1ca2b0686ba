-- ===== src/Order/Model.antt =====
-- Orders, their lines and the reservations of stock (wms/models_domain/portal.py), with the stock.
-- The operations keep the quantities of lines and reservations at or above 0 (they add what is
-- positive and cut off at 0), so that these are natural numbers.
use asf_wms.Prelude.{ℕ, ◌+◌, ◌==◌, ℤ, pos, ◌+ℤ◌, Option, none, some, List, [], ◌∷◌, filter}
use asf_wms.Prelude.Table.{find}
use asf_wms.Prelude.OrderBy.{null_first, order_by}
use asf_wms.Stock.{ProductLot, Stock, lot_pk}

pub data OrderStatus : Type 0 where
  draft reserved preparing ready cancelled : OrderStatus

pub record OrderLine : Type 0 where
  pub id : ℕ
  pub order : ℕ
  pub product : ℕ
  pub quantity : ℕ
  pub reserved_quantity : ℕ
  pub prepared_quantity : ℕ

pub record OrderReservation : Type 0 where
  pub id : ℕ
  pub order_line : ℕ
  pub product_lot : ℕ
  pub quantity : ℕ

pub record Order : Type 0 where
  pub id : ℕ
  pub status : OrderStatus

pub record Store : Type 0 where
  pub stock : Stock
  pub orders : List Order
  pub lines : List OrderLine
  pub reservations : List OrderReservation
  -- the next primary key of the reservation table
  pub next_reservation : ℕ

abbrev pub order_pk : Order → ℕ
order_pk o = o.id

abbrev pub line_pk : OrderLine → ℕ
line_pk l = l.id

abbrev pub reservation_pk : OrderReservation → ℕ
reservation_pk r = r.id

-- A reservation with its lot as the query read it (`select_related("product_lot")`): each row has
-- a lot object of its own.
pub record Held : Type 0 where
  pub reservation : OrderReservation
  pub lot : ProductLot

abbrev pub hold : OrderReservation → Option ProductLot → List Held → List Held
hold r none hs = hs
hold r (some l) hs = record { reservation = r; lot = l } ∷ hs

-- A lot cannot be deleted while a reservation refers to it, so that each has its lot.
unfoldable pub with_lots : List OrderReservation → List ProductLot → List Held
with_lots [] lots = []
with_lots (r ∷ rs) lots = hold r (find lot_pk r.product_lot lots) (with_lots rs lots)

-- `order_by("product_lot__expires_on", "product_lot__received_on", "product_lot__id")`
abbrev pub held_key : Held → List ℕ
held_key h = null_first h.lot.expires_on ∷ null_first h.lot.received_on ∷ h.lot.id ∷ []

-- The reservations of a line, in the order in which they are used.
unfoldable pub line_reservations : OrderLine → Store → List Held
line_reservations line s = order_by held_key (
    with_lots (filter (λ (r : OrderReservation). r.order_line == line.id) s.reservations)
      s.stock.lots)

-- What the lots say is reserved, and what the reservations say.
abbrev pub lots_reserved : List ProductLot → ℤ
lots_reserved [] = pos 0
lots_reserved (l ∷ ls) = l.quantity_reserved +ℤ lots_reserved ls

abbrev pub reservations_total : List OrderReservation → ℕ
reservations_total [] = 0
reservations_total (r ∷ rs) = r.quantity + reservations_total rs
