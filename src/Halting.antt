-- ===== src/Halting.antt =====
-- What class Book does while it is halted (validate_new_order, engine/src/book_levels.cpp).
mod Stops
pub mod Sessions
use order_book_engine.Prelude.{
  ℕ, ℤ, ◌<ℤ◌, ltb_ℤ, leb_ℤ, ◌-ℤ◌, pos, eq_option_ℤ, ◌&&◌, Bool, true, false, not, Option, none,
  some, List, [], ◌∷◌, ◌++◌, ◌≡◌, refl, ap, sym, ◌∙◌, inl, inr, arith, All, All-append,
  append_assoc, append-nil, Bool-cases, Option-cases, lookup, contains, erase, lookup-erase,
}
use order_book_engine.Types.{Order, StopOrder, EngineEvent, EventKind, RejectReason, is_ok, Side}
use order_book_engine.Book.State.{
  Book, StopLocation, StopMap, emit, emit_rejected, order_event, stop_event, owned_by,
}
use order_book_engine.Book.Settling.{incoming_event}
use order_book_engine.Book.Resting.{node_at, reduce_resting, remove_resting}
use order_book_engine.Book.Resting.Untouched.{
  off_book, remove_resting-off_book, reduce_resting-off_book, remove_resting-id_index,
  reduce_resting-id_index,
}
use order_book_engine.Book.Filling.{validate_new_order, validate_order_fields}
use order_book_engine.Book.Cascade.{add_order, add_order_core}
use order_book_engine.Book.Adding.{add_order_core_with}
use order_book_engine.Book.Stops.{with_stops, insert_dormant_stop}
use order_book_engine.Book.Commands.{
  cancel_node, cancel_found, cancel_order, modify_in_place, replace_order, modify_node,
  modify_found, modify_order,
}
use order_book_engine.Book.StopCommands.{
  check_stop, accept_stop, place_stop_order, cancel_stop_at, cancel_stop_order, update_stop,
  modify_stop_order,
}
use order_book_engine.Book.Calls.{Call, call, run}

-- The kinds of events that neither trade nor put quantity on the book.
abbrev pub is_quiet : EventKind → Bool
is_quiet EventKind.rejected = true
is_quiet EventKind.cancelled = true
is_quiet EventKind.modified = true
is_quiet EventKind.stop_accepted = true
is_quiet EventKind.stop_cancelled = true
is_quiet EventKind.stop_modified = true
is_quiet _ = false

abbrev pub IsQuiet : EngineEvent → Type 0
IsQuiet e = is_quiet e.kind ≡ true

-- What a halt holds still: all but the orders, the dormant stops and the records of ids.
abbrev still : Book → Book
still b = record (off_book b) {
  finished_orders = [];
  owner_of = [];
  sell_stops = [];
  buy_stops = [];
  stop_index = [];
  stop_ids_seen = [];
  next_back_priority = 0;
  next_seq = 0;
}

abbrev with_events : List EngineEvent → Book → Book
with_events es b = record b { events = es }

-- The orders of `c` were on the book `b`.
abbrev pub Held : Book → Book → Type 0
Held b c = (id : ℕ) → contains id c.id_index ≡ true → contains id b.id_index ≡ true

pub Held-same : (b c : Book) → c.id_index ≡ b.id_index → Held b c
Held-same b c e id h = rw (← e) h

-- Nothing but quiet events has happened between the two books, and no order was put on the book.
abbrev Quiet : Book → Book → Type 0
Quiet b c =
    Held b c
    × ((new : List EngineEvent) × All IsQuiet new
        × (still c ≡ with_events (b.events ++ new) (still b)))

Quiet-trans : (b c d : Book) → Quiet b c → Quiet c d → Quiet b d
Quiet-trans b c d (held, (es, p, h)) (more, (fs, q, k)) = (
  (λ id there. held id (more id there)),
  (
    es ++ fs,
    All-append IsQuiet es fs p q,
    k
        ∙ ap (λ x. with_events (x.events ++ fs) x) h
        ∙ ap (λ xs. with_events xs (still b)) (append_assoc b.events es fs),
  ),
)

Quiet-same : (b c : Book) → Held b c → still c ≡ still b → Quiet b c
Quiet-same b c held e =
    (held, ([], tt, e ∙ ap (λ xs. with_events xs (still b)) (sym (append-nil b.events))))

Quiet-emit : (e : EngineEvent) (b : Book) → IsQuiet e → Quiet b (emit e b)
unfolding emit
Quiet-emit e b q =
    ((λ id there. there), (record e { sequence_number = b.next_seq } ∷ [], (q, tt), refl))

Quiet-refl : (b : Book) → Quiet b b
Quiet-refl b = Quiet-same b b (λ id there. there) refl

-- A change of orders or stops, and the event that tells of it.
Quiet-told :
    (e : EngineEvent) (b c : Book)
    → IsQuiet e
    → c.id_index ≡ b.id_index
    → still c ≡ still b
    → Quiet b (emit e c)
Quiet-told e b c q same h =
    Quiet-trans b c (emit e c) (Quiet-same b c (Held-same b c same) h) (Quiet-emit e c q)

-- The halt is on, and not over.
abbrev pub IsHalted : ℤ → Book → Type 0
IsHalted now b = (b.halted ≡ true) × (now <ℤ b.halt_until)

validate_new_order_halted :
    (o : Order) (now : ℤ) (b : Book)
    → IsHalted now b
    → validate_new_order o now b ≡ (RejectReason.symbol_halted, b)
unfolding validate_new_order
validate_new_order_halted o now b (halted, early) = ground arith

emit_rejected-Quiet :
    (id owner : ℕ) (side : Side) (price : Option ℤ) (quantity : ℤ) (limit_price : Option ℤ)
    (why : RejectReason) (now : ℤ) (b : Book)
    → Quiet b (emit_rejected id owner side price quantity limit_price why now b)
unfolding emit_rejected
emit_rejected-Quiet id owner side price quantity limit_price why now b =
    let event = record (order_event EventKind.rejected now id owner side price quantity) {
      limit_price = limit_price;
      reject_reason = why;
    } in
    Quiet-emit event b refl

add_order-Quiet : (o : Order) (now : ℤ) (b : Book) → IsHalted now b → Quiet b (add_order o now b).0
unfolding add_order add_order_core add_order_core_with
add_order-Quiet o now b h = rw (validate_new_order_halted o now b h) (
    emit_rejected-Quiet o.id o.owner_id o.side o.price o.quantity none RejectReason.symbol_halted
      now b)

remove_resting-Held : (n : ℕ) (b : Book) → Held b (remove_resting n b)
remove_resting-Held n b id there =
    let gone = (node_at b n).order.id in
    let left : contains id (erase gone b.id_index) ≡ true =
      rw (← remove_resting-id_index n b) there in
    ground (arith, lookup-erase gone id b.id_index, left)

cancel_node-Quiet : (n : ℕ) (now : ℤ) (b : Book) → Quiet b (cancel_node n now b)
cancel_node-Quiet n now b =
    let told = emit (incoming_event EventKind.cancelled now (node_at b n).order) b in
    Quiet-trans b told (cancel_node n now b)
      (Quiet-emit (incoming_event EventKind.cancelled now (node_at b n).order) b refl)
      (Quiet-same told (cancel_node n now b) (remove_resting-Held n told)
        (ap still (remove_resting-off_book n told)))

cancel_found-Quiet :
    (found : Option ℕ) (id : ℕ) (now : ℤ) (b : Book) → Quiet b (cancel_found found id now b).0
cancel_found-Quiet none id now b = Quiet-refl b
cancel_found-Quiet (some n) id now b = cancel_node-Quiet n now b

cancel_order-Quiet :
    (id requester : ℕ) (now : ℤ) (b : Book) → Quiet b (cancel_order id requester now b).0
unfolding cancel_order
cancel_order-Quiet id requester now b = elim (Bool-cases (owned_by id requester b)) [
  | inl e ↦ rw e (cancel_found-Quiet (lookup id b.id_index) id now b)
  | inr e ↦ rw e (Quiet-refl b)
]

modify_in_place-Quiet :
    (n : ℕ) (new_remaining now : ℤ) (b : Book) → Quiet b (modify_in_place n new_remaining now b)
unfolding modify_in_place
modify_in_place-Quiet n new_remaining now b =
    let by = (node_at b n).order.quantity -ℤ new_remaining in
    let reduced = reduce_resting n by b in
    Quiet-told (incoming_event EventKind.modified now (node_at reduced n).order) b reduced refl
      (reduce_resting-id_index n by b) (ap still (reduce_resting-off_book n by b))

replace_order-Quiet :
    (n : ℕ) (o : Order) (new_total now : ℤ) (b : Book)
    → IsHalted now b
    → Quiet b (replace_order n o new_total now b).0
unfolding replace_order
replace_order-Quiet n o new_total now b h = rw (validate_new_order_halted o now b h) (Quiet-refl b)

modify_node-Quiet :
    (n : ℕ) (new_price new_total now : ℤ) (b : Book)
    → IsHalted now b
    → Quiet b (modify_node n new_price new_total now b).0
unfolding modify_node
modify_node-Quiet n new_price new_total now b h =
    let order = (node_at b n).order in
    let requested = record order { price = some new_price; quantity = new_total } in
    let new_remaining = new_total -ℤ order.filled in
    let replacement = record order { price = some new_price; quantity = new_remaining } in
    let in_place = eq_option_ℤ (some new_price) order.price && leb_ℤ new_remaining order.quantity in
    elim (Bool-cases (is_ok (validate_order_fields requested))) [
      | inr bad ↦ rw bad (Quiet-refl b)
      | inl ok ↦ elim (Bool-cases (leb_ℤ new_remaining (pos 0))) [
        | inl over ↦ rw (ok, over) (cancel_node-Quiet n now b)
        | inr more ↦ elim (Bool-cases in_place) [
          | inl keeps ↦ rw (ok, more, keeps) (modify_in_place-Quiet n new_remaining now b)
          | inr moves ↦ rw (ok, more, moves) (replace_order-Quiet n replacement new_total now b h)
        ]
      ]
    ]

modify_found-Quiet :
    (found : Option ℕ) (id : ℕ) (new_price new_total now : ℤ) (b : Book)
    → IsHalted now b
    → Quiet b (modify_found found id new_price new_total now b).0
modify_found-Quiet none id new_price new_total now b h = Quiet-refl b
modify_found-Quiet (some n) id new_price new_total now b h =
    modify_node-Quiet n new_price new_total now b h

modify_order-Quiet :
    (id requester : ℕ) (new_price new_total now : ℤ) (b : Book)
    → IsHalted now b
    → Quiet b (modify_order id requester new_price new_total now b).0
unfolding modify_order
modify_order-Quiet id requester new_price new_total now b h =
    elim (Bool-cases (owned_by id requester b)) [
      | inl e ↦ rw e (modify_found-Quiet (lookup id b.id_index) id new_price new_total now b h)
      | inr e ↦ rw e (Quiet-refl b)
    ]
