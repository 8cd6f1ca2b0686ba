-- ===== src/Carton/Prepare.antt =====
-- The carton that is packed (wms/domain/stock.py, `_prepare_carton`).
pub mod Laws
use asf_wms.Prelude.{
  ℕ, zero, suc, ◌==◌, Bool, true, false, ◌&&◌, ◌||◌, not, Option, none, some, List, [], ◌∷◌, length,
  any, if◌then◌else◌, is_some, or_else, Result, ok, err, ◌>>=◌, ◌>>◌, raise_if, or_raise,
}
use asf_wms.Prelude.Table.{find, update}
use asf_wms.Errors.{
  StockError, carton_shipped, shipment_disputed, shipment_shipped, carton_linked_elsewhere,
  transaction_broken,
}
use asf_wms.Text.{Text, text_eq}
use asf_wms.Rows.{CartonStatus, Shipment, Carton, Db, carton_pk}
use asf_wms.Carton.Code.{CartonSequence, generate_carton_code}
use asf_wms.Carton.Tables.{Tables, Dimensions, with_db, resolve_carton_dimensions}
use asf_wms.Carton.Unpack.{disputed, gone, is_shipped}

-- The keyword arguments of `_prepare_carton`; an empty code is none.
pub record PrepareRequest : Type 0 where
  pub user : Option ℕ
  pub carton : Option Carton
  pub shipment : Option Shipment
  pub preassigned_destination : Option ℕ
  pub current_location : Option ℕ
  pub carton_code : Option Text
  pub carton_size : Option Dimensions

-- `Carton.objects.filter(code=code).first()`
unfoldable pub find_code : Text → List Carton → Option Carton
find_code code [] = none
find_code code (c ∷ cs) =
    let rest = find_code code cs in if text_eq c.code code then some c else rest

abbrev pub look_up : Option Text → List Carton → Option Carton
look_up none cartons = none
look_up (some code) cartons = find_code code cartons

abbrev pub code_in_use : List Carton → Text → Bool
code_in_use cartons code = any (λ (c : Carton). text_eq c.code code) cartons

-- "XX"
abbrev pub unknown_type : Text
unknown_type = b'X' ∷ b'X' ∷ []

-- The loop that generates a code. Where a carton has the code, the insert fails with an
-- `IntegrityError` in the atomic block of the caller, and the query with which the second round starts
-- raises: no second round gets a code.
unfoldable pub new_code :
    List Carton → List CartonSequence → Result StockError (Text × List CartonSequence)
new_code cartons qs =
    let (code, qs') = generate_carton_code unknown_type qs in
    if code_in_use cartons code then err transaction_broken else ok (code, qs')

abbrev pub code_for : Option Text → Tables → Result StockError (Text × List CartonSequence)
code_for (some code) t = ok (code, t.sequences)
code_for none t = new_code t.db.cartons t.sequences

abbrev pub key_of : Option Shipment → Option ℕ
key_of none = none
key_of (some s) = some s.id

abbrev pub unless_shipment : Option Shipment → Option ℕ → Option ℕ
unless_shipment none d = d
unless_shipment (some _) d = none

-- `today` is the local date.
abbrev pub new_carton : Text → PrepareRequest → Text → ℕ → Carton
new_carton today r code id = record {
  id = id;
  code = code;
  status = CartonStatus.draft;
  shipment = key_of r.shipment;
  preassigned_destination = unless_shipment r.shipment r.preassigned_destination;
  current_location = r.current_location;
  length_cm = none;
  width_cm = none;
  height_cm = none;
  prepared_by = r.user;
  created_on = today;
  items = [];
}

unfoldable pub create_carton :
    Text → PrepareRequest → Text → List CartonSequence → Tables → Carton × Tables
create_carton today r code sequences t =
    let c = new_carton today r code t.db.next_carton in
    (
      c,
      record t {
        db = record t.db { cartons = c ∷ t.db.cartons; next_carton = suc t.db.next_carton };
        sequences = sequences;
      },
    )

abbrev pub elsewhere : Option Shipment → Option ℕ → Bool
elsewhere (some s) (some k) = not (s.id == k)
elsewhere _ _ = false

-- The shipment and the destination of an existing carton.
abbrev pub linked : PrepareRequest → Carton → Carton
linked r c = elim r.shipment [
  | some s ↦ elim c.shipment [
    | none ↦ record c { shipment = some s.id; preassigned_destination = none }
    | some _ ↦ c
  ]
  | none ↦ record c {
    preassigned_destination = or_else r.preassigned_destination c.preassigned_destination;
  }
]

-- `carton.save()`
abbrev pub save_carton : Carton → Tables → Carton × Tables
save_carton c t =
    (c, with_db t (record t.db { cartons = update carton_pk c.id (λ _. c) t.db.cartons }))

unfoldable pub reuse_carton : PrepareRequest → Carton → Tables → Result StockError (Carton × Tables)
reuse_carton r c t = do
  raise_if (elsewhere r.shipment c.shipment) carton_linked_elsewhere
  let c1 = linked r c
  ok (
      save_carton (record c1 { current_location = or_else r.current_location c.current_location })
        t)

-- A dimension that the carton lacks is taken over.
unfoldable pub size_carton : Dimensions → Carton × Tables → Carton × Tables
size_carton size (c, t) =
    save_carton
      (record c {
        length_cm = or_else c.length_cm size.length_cm;
        width_cm = or_else c.width_cm size.width_cm;
        height_cm = or_else c.height_cm size.height_cm;
      })
      t

abbrev pub was_shipped : Option Carton → Bool
was_shipped none = false
was_shipped (some c) = is_shipped c.status

unfoldable pub pick_carton :
    Text → PrepareRequest → Option Carton → Tables → Result StockError (Carton × Tables)
pick_carton today r (some c) t = reuse_carton r c t
pick_carton today r none t = do
  (code, sequences) ← code_for r.carton_code t
  ok (create_carton today r code sequences t)

-- The carton and the tables; the carton is marked as manual where a code is given.
unfoldable pub prepare_carton : Text → PrepareRequest → Tables → Result StockError (Carton × Tables)
prepare_carton today r t = do
  let carton = or_else r.carton (look_up r.carton_code t.db.cartons)
  raise_if (was_shipped carton) carton_shipped
  raise_if (disputed r.shipment) shipment_disputed
  raise_if (gone r.shipment) shipment_shipped
  (c, t') ← pick_carton today r carton t
  ok (size_carton (resolve_carton_dimensions r.carton_size t.formats) (c, t'))
