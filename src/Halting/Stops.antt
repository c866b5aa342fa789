-- ===== src/Halting/Stops.antt =====
-- The stop commands during a halt (engine/src/stops.cpp).
use order_book_engine.Prelude.{
  ℕ, ℤ, Option, none, some, ◌≡◌, ◌∷◌, refl, ◌∙◌, inl, inr, Bool-cases, lookup, erase,
}
use order_book_engine.Types.{StopOrder, EventKind, Side, is_ok}
use order_book_engine.Book.State.{Book, StopKey, StopLocation, StopMap, stop_event, owned_by}
use order_book_engine.Book.Stops.{emplace_stop, with_stops, stops_for, insert_dormant_stop}
use order_book_engine.Book.StopCommands.{
  check_stop, accept_stop, place_stop_order, erase_stop, find_stop, cancel_stop_at,
  cancel_stop_found, cancel_stop_order, keeps_place, update_stop, modify_stop_at, modify_stop_found,
  modify_stop_order, validate_stop_fields, would_trigger_now, next_back,
}
use order_book_engine.Book.Calls.{book_after}
use order_book_engine.Halting.{still, Quiet, Quiet-refl, Quiet-told, emit_rejected-Quiet}

-- Of a call that may have no result.
abbrev pub QuietIf : Book → Option Book → Type 0
QuietIf b none = Unit
QuietIf b (some c) = Quiet b c

with_stops-still : (side : Side) (m : StopMap) (b : Book) → still (with_stops side m b) ≡ still b
with_stops-still Side.buy m b = refl
with_stops-still Side.sell m b = refl

with_stops-id_index :
    (side : Side) (m : StopMap) (b : Book) → (with_stops side m b).id_index ≡ b.id_index
with_stops-id_index Side.buy m b = refl
with_stops-id_index Side.sell m b = refl

insert_dormant_stop-id_index :
    (s : StopOrder) (priority : ℕ) (b : Book)
    → (insert_dormant_stop s priority b).id_index ≡ b.id_index
unfolding insert_dormant_stop
insert_dormant_stop-id_index s priority b =
    let key : StopKey = (s.stop_price, priority) in
    with_stops-id_index s.side (emplace_stop key s (stops_for s.side b)) b

insert_dormant_stop-still :
    (s : StopOrder) (priority : ℕ) (b : Book) → still (insert_dormant_stop s priority b) ≡ still b
unfolding insert_dormant_stop
insert_dormant_stop-still s priority b =
    let key : StopKey = (s.stop_price, priority) in
    with_stops-still s.side (emplace_stop key s (stops_for s.side b)) b

accept_stop-Quiet : (s : StopOrder) (now : ℤ) (b : Book) → Quiet b (accept_stop s now b)
unfolding accept_stop
accept_stop-Quiet s now b =
    let counted = record b { next_back_priority = next_back b.next_back_priority } in
    let placed = insert_dormant_stop s b.next_back_priority counted in
    Quiet-told (stop_event EventKind.stop_accepted now s) b
      (record placed { stop_ids_seen = s.id ∷ b.stop_ids_seen }) refl
      (insert_dormant_stop-id_index s b.next_back_priority counted)
      (insert_dormant_stop-still s b.next_back_priority counted)

pub place_stop_order-Quiet :
    (s : StopOrder) (now : ℤ) (b : Book) → Quiet b (place_stop_order s now b).0
unfolding place_stop_order
place_stop_order-Quiet s now b = elim (Bool-cases (is_ok (check_stop s b))) [
  | inl ok ↦ rw ok (accept_stop-Quiet s now b)
  | inr bad ↦ rw bad (
      emit_rejected-Quiet s.id s.owner_id s.side (some s.stop_price) s.quantity s.limit_price
        (check_stop s b) now b)
]

cancel_stop_at-Quiet :
    (found : Option StopOrder) (id : ℕ) (place : StopLocation) (now : ℤ) (b : Book)
    → QuietIf b (book_after (cancel_stop_at found id place now b))
cancel_stop_at-Quiet none id place now b = tt
cancel_stop_at-Quiet (some s) id place now b =
    let removed = with_stops place.side (erase_stop place.key (stops_for place.side b)) b in
    Quiet-told (stop_event EventKind.stop_cancelled now s) b
      (record removed { stop_index = erase id b.stop_index }) refl
      (with_stops-id_index place.side (erase_stop place.key (stops_for place.side b)) b)
      (with_stops-still place.side (erase_stop place.key (stops_for place.side b)) b)

cancel_stop_found-Quiet :
    (found : Option StopLocation) (id : ℕ) (now : ℤ) (b : Book)
    → QuietIf b (book_after (cancel_stop_found found id now b))
cancel_stop_found-Quiet none id now b = Quiet-refl b
cancel_stop_found-Quiet (some place) id now b =
    cancel_stop_at-Quiet (find_stop place.key (stops_for place.side b)) id place now b

pub cancel_stop_order-Quiet :
    (id requester : ℕ) (now : ℤ) (b : Book)
    → QuietIf b (book_after (cancel_stop_order id requester now b))
unfolding cancel_stop_order
cancel_stop_order-Quiet id requester now b = elim (Bool-cases (owned_by id requester b)) [
  | inl e ↦ rw e (cancel_stop_found-Quiet (lookup id b.stop_index) id now b)
  | inr e ↦ rw e (Quiet-refl b)
]

update_stop-Quiet :
    (updated old : StopOrder) (place : StopLocation) (now : ℤ) (b : Book)
    → Quiet b (update_stop updated old place now b)
unfolding update_stop
update_stop-Quiet updated old place now b =
    let stops = erase_stop place.key (stops_for place.side b) in
    let removed = with_stops place.side stops b in
    let gone = with_stops-still place.side stops b in
    let same = with_stops-id_index place.side stops b in
    let event = stop_event EventKind.stop_modified now updated in
    let counted = record removed { next_back_priority = next_back b.next_back_priority } in
    elim (Bool-cases (keeps_place updated old)) [
      | inl keeps ↦ rw keeps (
          Quiet-told event b (insert_dormant_stop updated (place.key.1) removed) refl
            (insert_dormant_stop-id_index updated (place.key.1) removed ∙ same)
            (insert_dormant_stop-still updated (place.key.1) removed ∙ gone))
      | inr moves ↦ rw moves (
          Quiet-told event b (insert_dormant_stop updated b.next_back_priority counted) refl
            (insert_dormant_stop-id_index updated b.next_back_priority counted ∙ same)
            (insert_dormant_stop-still updated b.next_back_priority counted ∙ gone))
    ]

modify_stop_at-Quiet :
    (found : Option StopOrder) (place : StopLocation) (price : ℤ) (limit_price : Option ℤ)
    (quantity now : ℤ) (b : Book)
    → QuietIf b (book_after (modify_stop_at found place price limit_price quantity now b))
modify_stop_at-Quiet none place price limit_price quantity now b = tt
modify_stop_at-Quiet (some old) place price limit_price quantity now b =
    let updated = record old {
      stop_price = price;
      limit_price = limit_price;
      quantity = quantity;
    } in
    elim (Bool-cases (is_ok (validate_stop_fields updated))) [
      | inr bad ↦ rw bad (Quiet-refl b)
      | inl ok ↦ elim (Bool-cases (would_trigger_now old.side price b)) [
        | inl wakes ↦ rw (ok, wakes) (Quiet-refl b)
        | inr sleeps ↦ rw (ok, sleeps) (update_stop-Quiet updated old place now b)
      ]
    ]

modify_stop_found-Quiet :
    (found : Option StopLocation) (id : ℕ) (price : ℤ) (limit_price : Option ℤ) (quantity now : ℤ)
    (b : Book)
    → QuietIf b (book_after (modify_stop_found found id price limit_price quantity now b))
modify_stop_found-Quiet none id price limit_price quantity now b = Quiet-refl b
modify_stop_found-Quiet (some place) id price limit_price quantity now b =
    modify_stop_at-Quiet (find_stop place.key (stops_for place.side b)) place price limit_price
      quantity now b

pub modify_stop_order-Quiet :
    (id requester : ℕ) (price : ℤ) (limit_price : Option ℤ) (quantity now : ℤ) (b : Book)
    → QuietIf b (book_after (modify_stop_order id requester price limit_price quantity now b))
unfolding modify_stop_order
modify_stop_order-Quiet id requester price limit_price quantity now b =
    elim (Bool-cases (owned_by id requester b)) [
      | inl e ↦
          rw e
            (modify_stop_found-Quiet (lookup id b.stop_index) id price limit_price quantity now b)
      | inr e ↦ rw e (Quiet-refl b)
    ]
