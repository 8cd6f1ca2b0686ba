-- ===== src/Order/Ready/Laws.antt =====
-- What `assign_ready_cartons_to_order` promises (wms/domain/orders.py).
use asf_wms.Prelude.{
  ℕ, ◌+◌, ◌==◌, ◌≡◌, refl, sym, ap, ◌∙◌, Option, none, some, List, [], ◌∷◌, Bool, true, false, pos,
  ◌+ℤ◌, ◌&&◌, filter, not, is_some, filter-test, All, All-filter, All-both, arith, ok, raise_if,
}
use asf_wms.Prelude.Results.{>>=-eq-ok, ok_transport}
use asf_wms.Prelude.Table.{find, Fresh, Distinct, All-found, filter-Distinct}
use asf_wms.Prelude.OrderBy.{All-order_by, order_by-Distinct}
use asf_wms.Errors.{shipment_disputed, shipment_locked}
use asf_wms.Rows.{CartonStatus, Shipment, Carton, Clock, same_carton_status, carton_pk}
use asf_wms.Shipment.Status.{is_locked}
use asf_wms.Order.Model.{OrderLine, line_pk}
use asf_wms.Order.Pack.{World}
use asf_wms.Order.Ready.{
  Assigning, slots, order_lines, is_ready_carton, code_key, ready_cartons, assign_cartons,
  assign_ready_cartons_to_order,
}
use asf_wms.Shipment.Status.Laws.{sync-others}
use asf_wms.Order.Ready.Units.{units_in, cartons_in, prepared_total}
use asf_wms.Order.Ready.Balance.{Waits, HasLine, assign_cartons-Balances}
use asf_wms.Order.Ready.Bounds.{IsBounded, Admits, slot_line, assign_cartons-IsConsistent}

slots-Fresh : (k : ℕ) (ls : List OrderLine) → Fresh line_pk k ls → Fresh slot_line k (slots ls)
unfolding slots
slots-Fresh k [] h = tt
slots-Fresh k (l ∷ ls) h = (h.0, slots-Fresh k ls h.1)

slots-Distinct : (ls : List OrderLine) → Distinct line_pk ls → Distinct slot_line (slots ls)
unfolding slots
slots-Distinct [] d = tt
slots-Distinct (l ∷ ls) d = (slots-Fresh l.id ls d.0, slots-Distinct ls d.1)

-- A line admits the entries of lines that the table finds by their keys.
slots-Admits :
    (table ms : List OrderLine) (l : OrderLine)
    → find line_pk l.id table ≡ some l
    → IsBounded l
    → All (λ m. find line_pk (line_pk m) table ≡ some m) ms
    → Admits (slots ms) l
unfolding slots
slots-Admits table [] l found bounded h = (bounded, tt)
slots-Admits table (m ∷ ms) l found bounded h = (
  bounded,
  (
    (λ e. let same : m ≡ l = cc (h.0, found, e) in rw same (omega (arith, bounded))),
    (slots-Admits table ms l found bounded h.1).1,
  ),
)

packed_of :
    (status : CartonStatus) (b : Bool)
    → (same_carton_status status CartonStatus.packed && b) ≡ true
    → status ≡ CartonStatus.packed
packed_of CartonStatus.packed b h = refl
packed_of CartonStatus.draft b h = absurd (cc)
packed_of CartonStatus.picking b h = absurd (cc)
packed_of CartonStatus.assigned b h = absurd (cc)
packed_of CartonStatus.labeled b h = absurd (cc)
packed_of CartonStatus.shipped b h = absurd (cc)

pub ready_cartons-packed :
    (cs : List Carton) → All (λ (c : Carton). c.status ≡ CartonStatus.packed) (ready_cartons cs)
ready_cartons-packed cs =
    let ready : Carton → Type 0 = λ c. is_ready_carton c ≡ true in
    let packed : Carton → Type 0 = λ c. c.status ≡ CartonStatus.packed in
    All-order_by code_key packed (filter is_ready_carton cs) (
      All-both ready ready packed (filter is_ready_carton cs)
        (λ c h _. packed_of c.status (not (is_some c.shipment)) h) (filter-test is_ready_carton cs)
        (filter-test is_ready_carton cs))

-- Lines that the table finds, and that are not prepared beyond their quantity, admit the entries.
All-Admits :
    (table ms ls : List OrderLine)
    → All (λ m. find line_pk (line_pk m) table ≡ some m) ms
    → All (λ m. find line_pk (line_pk m) table ≡ some m) ls
    → All IsBounded ls
    → All (Admits (slots ms)) ls
All-Admits table ms [] h k b = tt
All-Admits table ms (l ∷ ls) h k b =
    (slots-Admits table ms l k.0 b.0 h, All-Admits table ms ls h k.1 b.1)

-- If no line is prepared beyond its quantity and the lines have distinct keys, then no line is prepared
-- beyond its quantity once the packed cartons are assigned to an order.
pub assign_ready_cartons_to_order-IsBounded :
    (clock : Clock) (user : Option ℕ) (order : ℕ) (shipment : Shipment) (w : World) {n : ℕ}
    {w' : World}
    → Distinct line_pk w.lines
    → All IsBounded w.lines
    → assign_ready_cartons_to_order clock user order shipment w ≡ ok (n, w')
    → All IsBounded w'.lines
unfolding assign_ready_cartons_to_order
assign_ready_cartons_to_order-IsBounded clock user order shipment w distinct bounded h =
    let (_, _, h1) = >>=-eq-ok (raise_if shipment.is_disputed shipment_disputed) _ h in
    let (_, _, h2) = >>=-eq-ok (raise_if (is_locked shipment.status) shipment_locked) _ h1 in
    let ms = order_lines order w.lines in
    let cs = ready_cartons w.tables.db.cartons in
    let start : Assigning = record { world = w; remaining = slots ms; assigned = 0 } in
    let (a, run, done) = >>=-eq-ok (assign_cartons user shipment cs start) _ h2 in
    let stored = All-found line_pk w.lines distinct in
    let p = λ (l : OrderLine). l.order == order in
    let found : OrderLine → Type 0 = λ m. find line_pk (line_pk m) w.lines ≡ some m in
    let (admits, _) =
      assign_cartons-IsConsistent user shipment cs start (ready_cartons-packed w.tables.db.cartons)
        (
          All-Admits w.lines ms w.lines (All-filter found p w.lines stored) stored bounded,
          slots-Distinct ms (filter-Distinct line_pk p w.lines distinct),
        )
        run in
    ok_transport (λ (x : ℕ × World). All IsBounded x.1.lines) done
      (All-both (Admits a.remaining) (Admits a.remaining) IsBounded a.world.lines (λ l x _. x.0)
        admits admits)

ready_free : (o : Option ℕ) (b : Bool) → (b && not (is_some o)) ≡ true → o ≡ none
ready_free none b h = refl
ready_free (some k) true h = absurd (cc)
ready_free (some k) false h = absurd (cc)

-- The cartons of the query wait, where the cartons have distinct keys.
ready_cartons_wait : (cs : List Carton) → Distinct carton_pk cs → All (Waits cs) (ready_cartons cs)
ready_cartons_wait cs distinct =
    let ready : Carton → Type 0 = λ c. is_ready_carton c ≡ true in
    let stored : Carton → Type 0 = λ c. find carton_pk (carton_pk c) cs ≡ some c in
    All-order_by code_key (Waits cs) (filter is_ready_carton cs) (
      All-both ready stored (Waits cs) (filter is_ready_carton cs)
        (λ c h k. (
          k,
          packed_of c.status (not (is_some c.shipment)) h,
          ready_free c.shipment (same_carton_status c.status CartonStatus.packed) h,
        ))
        (filter-test is_ready_carton cs)
        (All-filter stored is_ready_carton cs (All-found carton_pk cs distinct)))

slots-HasLine :
    (table ms : List OrderLine)
    → All (λ m. find line_pk (line_pk m) table ≡ some m) ms
    → All (HasLine table) (slots ms)
unfolding slots
slots-HasLine table [] h = tt
slots-HasLine table (m ∷ ms) h = (rw h.0 refl, slots-HasLine table ms h.1)

plus_zero : (n : ℕ) → n ≡ n + 0
plus_zero n = omega arith

-- If lines and cartons have distinct keys, then what the lines have prepared more once the packed
-- cartons are assigned to an order is what the cartons of the shipment hold more, and the shipment has
-- as many cartons more as the function returns.
pub assign_ready_cartons_to_order-balances :
    (clock : Clock) (user : Option ℕ) (order : ℕ) (shipment : Shipment) (w : World) {n : ℕ}
    {w' : World}
    → Distinct line_pk w.lines
    → Distinct carton_pk w.tables.db.cartons
    → assign_ready_cartons_to_order clock user order shipment w ≡ ok (n, w')
    → (pos (prepared_total w'.lines) +ℤ units_in shipment.id w.tables.db.cartons
        ≡ pos (prepared_total w.lines) +ℤ units_in shipment.id w'.tables.db.cartons)
      × (cartons_in shipment.id w'.tables.db.cartons
          ≡ cartons_in shipment.id w.tables.db.cartons + n)
unfolding assign_ready_cartons_to_order
assign_ready_cartons_to_order-balances clock user order shipment w lines cartons h =
    let (_, _, h1) = >>=-eq-ok (raise_if shipment.is_disputed shipment_disputed) _ h in
    let (_, _, h2) = >>=-eq-ok (raise_if (is_locked shipment.status) shipment_locked) _ h1 in
    let ms = order_lines order w.lines in
    let rows = w.tables.db.cartons in
    let start : Assigning = record { world = w; remaining = slots ms; assigned = 0 } in
    let (a, run, done) = >>=-eq-ok (assign_cartons user shipment (ready_cartons rows) start) _ h2 in
    let p = λ (l : OrderLine). l.order == order in
    let found : OrderLine → Type 0 = λ m. find line_pk (line_pk m) w.lines ≡ some m in
    let balance =
      assign_cartons-Balances user shipment (ready_cartons rows) start
        (ready_cartons_wait rows cartons)
        (order_by-Distinct code_key carton_pk (filter is_ready_carton rows)
          (filter-Distinct carton_pk is_ready_carton rows cartons))
        (slots-HasLine w.lines ms (All-filter found p w.lines (All-found line_pk w.lines lines)))
        run in
    let (_, kept) = sync-others clock shipment.id a.world.tables.db in
    let k = shipment.id in
    ok_transport
      (λ (x : ℕ × World).
        (pos (prepared_total x.1.lines) +ℤ units_in k rows
          ≡ pos (prepared_total w.lines) +ℤ units_in k x.1.tables.db.cartons)
        × (cartons_in k x.1.tables.db.cartons ≡ cartons_in k rows + x.0))
      done
      (
        balance.units ∙ ap (λ cs. pos (prepared_total w.lines) +ℤ units_in k cs) (sym kept),
        ap (cartons_in k) kept ∙ plus_zero (cartons_in k a.world.tables.db.cartons) ∙ balance.count,
      )
