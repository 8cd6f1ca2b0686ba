-- ===== src/Order/Prepare/Laws.antt =====
-- What `prepare_order` promises (wms/domain/orders.py).
use asf_wms.Prelude.{
  ℕ, ◌+◌, ◌-◌, ◌==◌, ◌≡◌, refl, sym, ap, ◌∙◌, inl, inr, Option, none, some, List, [], ◌∷◌, map, All,
  All-map, All-both, All-filter, All-unmap, filter, filter-map, all_of, not, true, false, ltb, all,
  Bool-cases, if◌then◌else◌, arith, ok, or_raise, raise_if,
}
use mathlib.Core.Path.{subst}
use asf_wms.Prelude.Results.{>>=-eq-ok, ok_transport}
use asf_wms.Prelude.Table.{find, update, Distinct, All-found, find-filter, filter-Distinct}
use asf_wms.Errors.{
  PackError, order_not_reserved, shipment_disputed, shipment_locked, format_missing,
}
use asf_wms.Text.{Text}
use asf_wms.Rows.{Shipment, Clock}
use asf_wms.Shipment.Status.{is_locked}
use asf_wms.Carton.Tables.{Dimensions, or_first, first_default, format_dimensions}
use asf_wms.Bins.{Floats, PackWarning}
use asf_wms.Bins.Check.{PackItem, Capacity}
use asf_wms.Bins.Fill.{Bin, build_packing_bins, pack_checked}
use asf_wms.Bins.Sums.{bins_of, lines_of}
use asf_wms.Bins.Laws.{build_packing_bins-counts}
use asf_wms.Order.Model.{Order, OrderLine, OrderStatus, line_pk, order_pk}
use asf_wms.Order.Pack.{World}
use asf_wms.Order.Ready.{remaining_quantity, order_lines, assign_ready_cartons_to_order}
use asf_wms.Order.Ready.Step.{unreserved}
use asf_wms.Order.Prepare.{
  Packer, is_preparable, needs_packing, line_product, pack_line, packing_size, is_prepared,
  bins_or_raise, pack_rest, close_preparation, prepare_order,
}
use asf_wms.Order.Prepare.Gains.{raised, Gains, Gains-none}
use asf_wms.Order.Prepare.Packs.{bins_gain, pack_bins-Gains}
use asf_wms.Order.Prepare.Shares.{bins_gain-of, lines_of-line}
use asf_wms.Order.Prepare.Unique.{AreUnique, assign_ready_cartons_to_order-AreUnique}

-- What the packing of lines is: bins that hold what remains of each product, and what they add.
pub record PacksRest (F : Floats) (lines : List OrderLine) (w w' : World) : Type 0 where
  pub bins : List (Bin F)
  pub gain : Gains (bins_gain F lines bins) w.lines w'.lines
  pub counts : (p : ℕ) → bins_of F p bins ≡ lines_of p (map pack_line lines)

packed_bins :
    (F : Floats) (c : Capacity F) (items : List (PackItem F)) (es : List PackError)
    (ws : List PackWarning) {bs : List (Bin F)}
    → bins_or_raise F (pack_checked F c items es ws).errors (pack_checked F c items es ws).bins
      ≡ ok bs
    → (pack_checked F c items es ws).bins ≡ some bs
packed_bins F c items [] ws {bs} h =
    ok_transport (λ (xs : List (Bin F)). (pack_checked F c items [] ws).bins ≡ some xs) h refl
packed_bins F c items (e ∷ es) ws h = absurd (cc)

pack_rest-PacksRest :
    (F : Floats) (packer : Dimensions → Packer) (lines : List OrderLine) (w : World) {w' : World}
    → Distinct line_pk w.lines
    → pack_rest F packer lines w ≡ ok w'
    → PacksRest F lines w w'
unfolding pack_rest build_packing_bins
pack_rest-PacksRest F packer [] w distinct h =
    ok_transport (PacksRest F [] w) h
      (record { bins = []; gain = Gains-none w.lines; counts = λ _. refl })
pack_rest-PacksRest F packer (l ∷ ls) w {w'} distinct h =
    let (format, _, h1) =
      >>=-eq-ok
        (or_raise (or_first (first_default w.tables.formats) w.tables.formats) format_missing) _
        h in
    let lines = map pack_line (l ∷ ls) in
    let packing = build_packing_bins F w.tables.products none lines (some (packing_size format)) in
    let (bs, given, run) = >>=-eq-ok (bins_or_raise F packing.errors packing.bins) _ h1 in
    record {
      bins = bs;
      gain =
          pack_bins-Gains (packer (format_dimensions (some format))) (l ∷ ls) F bs w distinct run;
      counts =
          build_packing_bins-counts F w.tables.products none lines (some (packing_size format))
            (packed_bins F _ _ _ _ given);
    }

nothing_left : (q p g : ℕ) → g ≡ q - p → (q - (p + g) == 0) ≡ true
nothing_left q p g h = ground (arith, h)

already_done : (q p g : ℕ) → ltb 0 (q - p) ≡ false → (q - (p + g) == 0) ≡ true
already_done q p g h = ground (arith, h)

-- A line of the order after the packing has nothing left.
raised-is_prepared :
    (F : Floats) (table ms : List OrderLine) (bs : List (Bin F)) (l : OrderLine)
    → ((p : ℕ) → bins_of F p bs ≡ lines_of p (map pack_line (filter needs_packing ms)))
    → All (λ m. find line_pk (line_pk m) table ≡ some m) ms
    → Distinct line_product ms
    → find line_product l.product ms ≡ some l
    → is_prepared (raised (bins_gain F (filter needs_packing ms) bs) l) ≡ true
raised-is_prepared F table ms bs l counts stored distinct mine =
    let lines = filter needs_packing ms in
    elim (Bool-cases (needs_packing l)) [
      | inl needs ↦
          let found = find-filter line_product needs_packing l.product ms mine needs in
          let rows : OrderLine → Type 0 = λ m. find line_pk (line_pk m) table ≡ some m in
          let share =
            bins_gain-of F table lines l found (All-filter rows needs_packing ms stored) bs
            ∙ counts l.product
            ∙ lines_of-line lines l.product (filter-Distinct line_product needs_packing ms distinct)
                found in
          nothing_left l.quantity l.prepared_quantity (bins_gain F lines bs l.id) share
      | inr done ↦ already_done l.quantity l.prepared_quantity (bins_gain F lines bs l.id) done
    ]

-- The lines of the order after the packing, up to what they have reserved.
order_lines-Gains :
    (g : ℕ → ℕ) (order : ℕ) (ls ls' : List OrderLine)
    → Gains g ls ls'
    → map unreserved (order_lines order ls') ≡ map (raised g) (order_lines order ls)
order_lines-Gains g order ls ls' e =
    let mine = λ (l : OrderLine). l.order == order in
    sym (filter-map mine unreserved ls' (λ _. refl))
    ∙ ap (order_lines order) e
    ∙ filter-map mine (raised g) ls (λ _. refl)

pack_rest-prepared :
    (F : Floats) (packer : Dimensions → Packer) (order : ℕ) (w : World) {w' : World}
    → AreUnique order w.lines
    → pack_rest F packer (filter needs_packing (order_lines order w.lines)) w ≡ ok w'
    → All (λ l. is_prepared l ≡ true) (order_lines order w'.lines)
pack_rest-prepared F packer order w {w'} unique run =
    let ms = order_lines order w.lines in
    let packs = pack_rest-PacksRest F packer (filter needs_packing ms) w unique.0 run in
    let g = bins_gain F (filter needs_packing ms) packs.bins in
    let rows : OrderLine → Type 0 = λ m. find line_pk (line_pk m) w.lines ≡ some m in
    let stored =
      All-filter rows (λ (l : OrderLine). l.order == order) w.lines
        (All-found line_pk w.lines unique.0) in
    let mine : OrderLine → Type 0 = λ m. find line_product (line_product m) ms ≡ some m in
    let prepared : OrderLine → Type 0 = λ l. is_prepared l ≡ true in
    let each =
      All-both mine mine (λ l. prepared (raised g l)) ms
        (λ l h _. raised-is_prepared F w.lines ms packs.bins l packs.counts stored unique.1 h)
        (All-found line_product ms unique.1) (All-found line_product ms unique.1) in
    All-unmap unreserved prepared (order_lines order w'.lines) (
      subst (All prepared) (sym (order_lines-Gains g order w.lines w'.lines packs.gain))
        (All-map (raised g) prepared ms each))

closed_status :
    (order : ℕ) (status : OrderStatus) (os : List Order) {row : Order}
    → find order_pk order (update order_pk order (λ o. record o { status = status }) os) ≡ some row
    → row.status ≡ status
closed_status order status [] h = absurd (cc)
closed_status order status (o ∷ os) {row} h = elim (Bool-cases (o.id == order)) [
  | inl here ↦
      let same : record o { status = status } ≡ row = ground arith in
      sym (ap (λ (r : Order). r.status) same)
  | inr later ↦ closed_status order status os {row = row} (ground arith)
]

none_left : (n : ℕ) → (n == 0) ≡ true → n ≡ 0
none_left n h = ground (arith, h)

close_preparation-ready :
    (clock : Clock) (order shipment : ℕ) (w : World) {row : Order}
    → All (λ l. is_prepared l ≡ true) (order_lines order w.lines)
    → find order_pk order (close_preparation clock order shipment w).orders ≡ some row
    → (row.status ≡ OrderStatus.ready)
      × All
          (λ l. remaining_quantity l ≡ 0)
          (order_lines order (close_preparation clock order shipment w).lines)
unfolding close_preparation
close_preparation-ready clock order shipment w {row} prepared stored =
    let ms = order_lines order w.lines in
    let status =
      ap (λ b. if b then OrderStatus.ready else OrderStatus.preparing)
        (all_of is_prepared ms prepared) in
    let done : OrderLine → Type 0 = λ l. is_prepared l ≡ true in
    (
      closed_status order (if all is_prepared ms then OrderStatus.ready else OrderStatus.preparing)
            w.orders stored
          ∙ status,
      All-both done done (λ l. remaining_quantity l ≡ 0) ms
          (λ l h _. none_left (remaining_quantity l) h) prepared prepared,
    )

-- If the lines have distinct keys and no product has two lines in the order, then a preparation that
-- succeeds leaves no line of the order with anything to prepare, and the order that is stored is ready.
pub prepare_order-ready :
    (F : Floats) (fold : Text → Text) (clock : Clock) (today : Text) (user author : Option ℕ)
    (order : Order) (shipment : Shipment) (w : World) {n : ℕ} {w' : World} {row : Order}
    → AreUnique order.id w.lines
    → prepare_order F fold clock today user author order shipment w ≡ ok (n, w')
    → find order_pk order.id w'.orders ≡ some row
    → (row.status ≡ OrderStatus.ready)
      × All (λ l. remaining_quantity l ≡ 0) (order_lines order.id w'.lines)
unfolding prepare_order
prepare_order-ready F fold clock today user author order shipment w {n} {w'} {row} unique h stored =
    let (_, _, h1) =
      >>=-eq-ok (raise_if (not (is_preparable order.status)) order_not_reserved) _ h in
    let (_, _, h2) = >>=-eq-ok (raise_if shipment.is_disputed shipment_disputed) _ h1 in
    let (_, _, h3) = >>=-eq-ok (raise_if (is_locked shipment.status) shipment_locked) _ h2 in
    let ((k, w1), assigned, h4) =
      >>=-eq-ok (assign_ready_cartons_to_order clock author order.id shipment w) _ h3 in
    let (w2, packed, done) =
      >>=-eq-ok (pack_rest F _ (filter needs_packing (order_lines order.id w1.lines)) w1) _ h4 in
    let unique1 =
      assign_ready_cartons_to_order-AreUnique clock author order.id shipment w assigned unique in
    let prepared = pack_rest-prepared F _ order.id w1 unique1 packed in
    let closed = close_preparation clock order.id shipment.id w2 in
    let same : closed ≡ w' = ok_transport (λ (x : ℕ × World). closed ≡ x.1) done refl in
    subst
      (λ (v : World).
        (row.status ≡ OrderStatus.ready)
        × All (λ l. remaining_quantity l ≡ 0) (order_lines order.id v.lines))
      same
      (close_preparation-ready clock order.id shipment.id w2 prepared
        (ap (λ (v : World). find order_pk order.id v.orders) same ∙ stored))
