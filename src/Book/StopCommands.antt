-- ===== src/Book/StopCommands.antt =====
-- The stop commands of class Book: place_stop_order, cancel_stop_order and modify_stop_order
-- (engine/src/stops.cpp).
use order_book_engine.Prelude.{
  ℕ, ◌+◌, ◌%◌, ℤ, pos, ◌==ℤ◌, leb_ℤ, eq_option_ℤ, Bool, false, ◌&&◌, ◌||◌, not, Option, none, some,
  List, [], ◌∷◌, if◌then◌else◌, ◌==◌, lookup, erase,
}
use order_book_engine.Types.{Side, StopOrder, EventKind, RejectReason, is_ok}
use order_book_engine.Book.State.{
  Book, StopKey, StopMap, StopLocation, word, emit, emit_rejected, stop_event, owned_by, id_in_use,
}
use order_book_engine.Book.Stops.{same_key, stops_for, with_stops, insert_dormant_stop}

abbrev pub is_non_positive : Option ℤ → Bool
is_non_positive none = false
is_non_positive (some price) = leb_ℤ price (pos 0)

unfoldable pub validate_stop_fields : StopOrder → RejectReason
validate_stop_fields s =
    if leb_ℤ s.quantity (pos 0)
    then RejectReason.invalid_quantity
    else if leb_ℤ s.stop_price (pos 0)
    then RejectReason.invalid_price
    else if is_non_positive s.limit_price
    then RejectReason.invalid_price
    else RejectReason.none

abbrev pub at_or_through : Side → ℤ → ℤ → Bool
at_or_through Side.sell last stop_price = leb_ℤ last stop_price
at_or_through Side.buy last stop_price = leb_ℤ stop_price last

abbrev pub last_triggers : Option ℤ → Side → ℤ → Bool
last_triggers none side stop_price = false
last_triggers (some last) side stop_price = at_or_through side last stop_price

unfoldable pub would_trigger_now : Side → ℤ → Book → Bool
would_trigger_now side stop_price b = last_triggers b.last_trade_price side stop_price

abbrev pub contains_id : ℕ → List ℕ → Bool
contains_id id [] = false
contains_id id (x ∷ xs) = id == x || contains_id id xs

unfoldable pub stop_gone_reason : ℕ → Book → RejectReason
stop_gone_reason id b =
    if contains_id id b.stop_ids_seen then RejectReason.too_late else RejectReason.unknown_order

abbrev pub next_back : ℕ → ℕ
next_back priority = (priority + 1) % word

-- The three tests of place_stop_order.
unfoldable pub check_stop : StopOrder → Book → RejectReason
unfolding validate_stop_fields would_trigger_now
check_stop s b =
    let bad = validate_stop_fields s in
    if not (is_ok bad)
    then bad
    else if id_in_use s.id b
    then RejectReason.duplicate_order_id
    else if would_trigger_now s.side s.stop_price b
    then RejectReason.stop_would_trigger
    else RejectReason.none

unfoldable pub accept_stop : StopOrder → ℤ → Book → Book
accept_stop s now b =
    let counted = record b { next_back_priority = next_back b.next_back_priority } in
    let placed = insert_dormant_stop s b.next_back_priority counted in
    emit (stop_event EventKind.stop_accepted now s)
      (record placed { stop_ids_seen = s.id ∷ b.stop_ids_seen })

unfoldable pub place_stop_order : StopOrder → ℤ → Book → Book × RejectReason
unfolding check_stop accept_stop
place_stop_order s now b =
    let bad = check_stop s b in
    if not (is_ok bad)
    then (
      emit_rejected s.id s.owner_id s.side (some s.stop_price) s.quantity s.limit_price bad now b,
      bad,
    )
    else (accept_stop s now b, RejectReason.none)

-- The stop stored under a key, and the map without it.
unfoldable pub find_stop : StopKey → StopMap → Option StopOrder
find_stop key [] = none
find_stop key ((k, s) ∷ m) = if same_key key k then some s else find_stop key m

unfoldable pub erase_stop : StopKey → StopMap → StopMap
erase_stop key [] = []
erase_stop key ((k, s) ∷ m) = if same_key key k then m else (k, s) ∷ erase_stop key m

-- `none` for the stop stands for an index entry without its stop, where the source reads an
-- empty node handle (cancel) or throws (modify). `check_invariants` rules it out.
abbrev pub cancel_stop_at :
    Option StopOrder → ℕ → StopLocation → ℤ → Book → Option (Book × RejectReason)
cancel_stop_at none id place now b = none
cancel_stop_at (some s) id place now b =
    let removed = with_stops place.side (erase_stop place.key (stops_for place.side b)) b in
    let unindexed = record removed { stop_index = erase id b.stop_index } in
    some (emit (stop_event EventKind.stop_cancelled now s) unindexed, RejectReason.none)

abbrev pub cancel_stop_found : Option StopLocation → ℕ → ℤ → Book → Option (Book × RejectReason)
cancel_stop_found none id now b = some (b, stop_gone_reason id b)
cancel_stop_found (some place) id now b =
    cancel_stop_at (find_stop place.key (stops_for place.side b)) id place now b

unfoldable pub cancel_stop_order : ℕ → ℕ → ℤ → Book → Option (Book × RejectReason)
unfolding stop_gone_reason
cancel_stop_order id requester now b =
    if not (owned_by id requester b)
    then some (b, RejectReason.unknown_order)
    else cancel_stop_found (lookup id b.stop_index) id now b

abbrev pub keeps_place : StopOrder → StopOrder → Bool
keeps_place updated old =
    updated.stop_price ==ℤ old.stop_price
    && eq_option_ℤ updated.limit_price old.limit_price
    && leb_ℤ updated.quantity old.quantity

-- The erased stop comes back under its old priority, or under a new one at the back.
unfoldable pub update_stop : StopOrder → StopOrder → StopLocation → ℤ → Book → Book
update_stop updated old place now b =
    let removed = with_stops place.side (erase_stop place.key (stops_for place.side b)) b in
    let placed =
      if keeps_place updated old
      then insert_dormant_stop updated (place.key.1) removed
      else insert_dormant_stop updated b.next_back_priority
          (record removed { next_back_priority = next_back b.next_back_priority }) in
    emit (stop_event EventKind.stop_modified now updated) placed

abbrev pub modify_stop_at :
    Option StopOrder → StopLocation → ℤ → Option ℤ → ℤ → ℤ → Book → Option (Book × RejectReason)
modify_stop_at none place new_stop_price new_limit_price new_qty now b = none
modify_stop_at (some old) place new_stop_price new_limit_price new_qty now b =
    let updated = record old {
      stop_price = new_stop_price;
      limit_price = new_limit_price;
      quantity = new_qty;
    } in
    let bad = validate_stop_fields updated in
    if not (is_ok bad)
    then some (b, bad)
    else if would_trigger_now updated.side updated.stop_price b
    then some (b, RejectReason.stop_would_trigger)
    else some (update_stop updated old place now b, RejectReason.none)

abbrev pub modify_stop_found :
    Option StopLocation → ℕ → ℤ → Option ℤ → ℤ → ℤ → Book → Option (Book × RejectReason)
modify_stop_found none id new_stop_price new_limit_price new_qty now b =
    some (b, stop_gone_reason id b)
modify_stop_found (some place) id new_stop_price new_limit_price new_qty now b =
    modify_stop_at (find_stop place.key (stops_for place.side b)) place new_stop_price
      new_limit_price new_qty now b

unfoldable pub modify_stop_order :
    ℕ → ℕ → ℤ → Option ℤ → ℤ → ℤ → Book → Option (Book × RejectReason)
unfolding stop_gone_reason validate_stop_fields would_trigger_now update_stop
modify_stop_order id requester new_stop_price new_limit_price new_qty now b =
    if not (owned_by id requester b)
    then some (b, RejectReason.unknown_order)
    else modify_stop_found (lookup id b.stop_index) id new_stop_price new_limit_price new_qty now b
