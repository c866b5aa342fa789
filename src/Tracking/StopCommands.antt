-- ===== src/Tracking/StopCommands.antt =====
-- Tracked relations through the stop commands (engine/src/stops.cpp).
use order_book_engine.Prelude.{ℕ, ℤ, Option, none, some, refl, inl, inr, not, Bool-cases, lookup}
use order_book_engine.Types.{Side, StopOrder, EventKind, is_ok}
use order_book_engine.Book.State.{
  Book, StopLocation, StopMap, emit_rejected, stop_event, owned_by, order_event,
}
use order_book_engine.Book.Stops.{with_stops, stops_for, insert_dormant_stop}
use order_book_engine.Book.StopCommands.{
  accept_stop, check_stop, place_stop_order, erase_stop, find_stop, cancel_stop_at,
  cancel_stop_found, cancel_stop_order, keeps_place, update_stop, modify_stop_at, modify_stop_found,
  modify_stop_order, next_back, validate_stop_fields, would_trigger_now,
}
use order_book_engine.Book.Calls.{book_after}
use order_book_engine.Tracking.{CallTracking}

-- What holds of the book that a call returns; a fault claims nothing.
abbrev pub RelatedIf : (Book → Book → Type 0) → Book → Option Book → Type 0
RelatedIf R b none = Unit
RelatedIf R b (some c) = R b c

module _ (R : Book → Book → Type 0) (calls : CallTracking R) where
  pub with_stops_tracked : (side : Side) (m : StopMap) (b : Book) → R b (with_stops side m b)
  with_stops_tracked Side.buy m b = calls.dormant _ _ refl
  with_stops_tracked Side.sell m b = calls.dormant _ _ refl

  insert_dormant_stop_tracked :
      (s : StopOrder) (priority : ℕ) (b : Book) → R b (insert_dormant_stop s priority b)
  unfolding insert_dormant_stop
  insert_dormant_stop_tracked s priority b =
      calls.trans _ _ _ (with_stops_tracked s.side _ b) (calls.dormant _ _ refl)

  accept_stop_tracked : (s : StopOrder) (now : ℤ) (b : Book) → R b (accept_stop s now b)
  unfolding accept_stop
  accept_stop_tracked s now b =
      let counted = record b { next_back_priority = next_back b.next_back_priority } in
      calls.trans _ _ _ (calls.dormant b counted refl) (
        calls.trans _ _ _ (insert_dormant_stop_tracked s b.next_back_priority counted) (
          calls.trans _ _ _ (calls.dormant _ _ refl)
            (calls.emitted (stop_event EventKind.stop_accepted now s) _)))

  pub place_stop_order_tracked :
      (s : StopOrder) (now : ℤ) (b : Book) → R b (place_stop_order s now b).0
  unfolding place_stop_order emit_rejected
  place_stop_order_tracked s now b = elim (Bool-cases (not (is_ok (check_stop s b)))) [
    | inl e ↦ simp e (
        calls.emitted
          (record (order_event EventKind.rejected now s.id s.owner_id s.side (some s.stop_price)
            s.quantity) { limit_price = s.limit_price; reject_reason = check_stop s b })
          b)
    | inr e ↦ simp e (accept_stop_tracked s now b)
  ]

  cancel_stop_at_tracked :
      (found : Option StopOrder) (id : ℕ) (place : StopLocation) (now : ℤ) (b : Book)
      → RelatedIf R b (book_after (cancel_stop_at found id place now b))
  cancel_stop_at_tracked none id place now b = tt
  cancel_stop_at_tracked (some s) id place now b =
      calls.trans _ _ _
        (with_stops_tracked place.side (erase_stop place.key (stops_for place.side b)) b)
        (calls.trans _ _ _ (calls.dormant _ _ refl)
          (calls.emitted (stop_event EventKind.stop_cancelled now s) _))

  cancel_stop_found_tracked :
      (found : Option StopLocation) (id : ℕ) (now : ℤ) (b : Book)
      → RelatedIf R b (book_after (cancel_stop_found found id now b))
  cancel_stop_found_tracked none id now b = calls.same b b refl
  cancel_stop_found_tracked (some place) id now b =
      cancel_stop_at_tracked (find_stop place.key (stops_for place.side b)) id place now b

  pub cancel_stop_order_tracked :
      (id requester : ℕ) (now : ℤ) (b : Book)
      → RelatedIf R b (book_after (cancel_stop_order id requester now b))
  unfolding cancel_stop_order
  cancel_stop_order_tracked id requester now b = elim (Bool-cases (not (owned_by id requester b))) [
    | inl e ↦ simp e (calls.same b b refl)
    | inr e ↦ simp e (cancel_stop_found_tracked (lookup id b.stop_index) id now b)
  ]

  update_stop_tracked :
      (updated old : StopOrder) (place : StopLocation) (now : ℤ) (b : Book)
      → R b (update_stop updated old place now b)
  unfolding update_stop
  update_stop_tracked updated old place now b =
      let removed = with_stops place.side (erase_stop place.key (stops_for place.side b)) b in
      calls.trans _ _ _
        (with_stops_tracked place.side (erase_stop place.key (stops_for place.side b)) b)
        (calls.trans _ _ _
          (elim (Bool-cases (keeps_place updated old)) [
            | inl e ↦ simp e (insert_dormant_stop_tracked updated (place.key.1) removed)
            | inr e ↦ simp e (
                calls.trans _ _ _ (calls.dormant _ _ refl)
                  (insert_dormant_stop_tracked updated b.next_back_priority _))
          ])
          (calls.emitted (stop_event EventKind.stop_modified now updated) _))

  modify_stop_at_tracked :
      (found : Option StopOrder) (place : StopLocation) (stop_price : ℤ) (limit_price : Option ℤ)
      (quantity now : ℤ) (b : Book)
      → RelatedIf R b
          (book_after (modify_stop_at found place stop_price limit_price quantity now b))
  modify_stop_at_tracked none place stop_price limit_price quantity now b = tt
  modify_stop_at_tracked (some old) place stop_price limit_price quantity now b =
      let updated = record old {
        stop_price = stop_price;
        limit_price = limit_price;
        quantity = quantity;
      } in
      elim (Bool-cases (not (is_ok (validate_stop_fields updated)))) [
        | inl e ↦ simp e (calls.same b b refl)
        | inr e ↦ elim (Bool-cases (would_trigger_now updated.side updated.stop_price b)) [
          | inl f ↦ simp (e, f) (calls.same b b refl)
          | inr f ↦ simp (e, f) (update_stop_tracked updated old place now b)
        ]
      ]

  modify_stop_found_tracked :
      (found : Option StopLocation) (id : ℕ) (stop_price : ℤ) (limit_price : Option ℤ)
      (quantity now : ℤ) (b : Book)
      → RelatedIf R b
          (book_after (modify_stop_found found id stop_price limit_price quantity now b))
  modify_stop_found_tracked none id stop_price limit_price quantity now b = calls.same b b refl
  modify_stop_found_tracked (some place) id stop_price limit_price quantity now b =
      modify_stop_at_tracked (find_stop place.key (stops_for place.side b)) place stop_price
        limit_price quantity now b

  pub modify_stop_order_tracked :
      (id requester : ℕ) (stop_price : ℤ) (limit_price : Option ℤ) (quantity now : ℤ) (b : Book)
      → RelatedIf R b
          (book_after (modify_stop_order id requester stop_price limit_price quantity now b))
  unfolding modify_stop_order
  modify_stop_order_tracked id requester stop_price limit_price quantity now b =
      elim (Bool-cases (not (owned_by id requester b))) [
        | inl e ↦ simp e (calls.same b b refl)
        | inr e ↦ simp e (
            modify_stop_found_tracked (lookup id b.stop_index) id stop_price limit_price quantity
              now b)
      ]
