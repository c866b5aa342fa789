-- ===== src/Tracking/Commands.antt =====
-- Tracked relations through add_order, cancel_order and modify_order (engine/src/book.cpp).
use order_book_engine.Prelude.{
  ℕ, ℤ, pos, Option, none, some, refl, inl, inr, Bool, not, Bool-cases, lookup, eq_option_ℤ, leb_ℤ,
  ◌&&◌, ◌-ℤ◌,
}
use order_book_engine.Types.{Order, EventKind, is_ok}
use order_book_engine.Book.State.{Book, owned_by}
use order_book_engine.Book.Resting.{node_at, reduce_resting}
use order_book_engine.Book.Filling.{validate_order_fields, validate_new_order}
use order_book_engine.Book.Settling.{incoming_event}
use order_book_engine.Book.Cascade.{add_order}
use order_book_engine.Book.Commands.{
  cancel_node, cancel_found, cancel_order, modify_in_place, replace_order, modify_node,
  modify_found, modify_order,
}
use order_book_engine.Tracking.{CallTracking}
use order_book_engine.Tracking.Filling.{
  remove_resting_tracked, reduce_resting_tracked, validate_new_order_tracked,
}
use order_book_engine.Book.Cascade.{check_and_trigger_stops, add_order_core}
use order_book_engine.Book.Adding.{record_prices}
use order_book_engine.Tracking.Adding.{add_order_core_with_tracked}

module _ (R : Book → Book → Type 0) (calls : CallTracking R) where
  pub add_order_core_tracked :
      (o : Order) (now : ℤ) (report : Bool) (b : Book) → R b (add_order_core o now report b).0
  unfolding add_order_core
  add_order_core_tracked =
      add_order_core_with_tracked R calls.tracking check_and_trigger_stops λ low high price now b.
        calls.trans _ _ _ (calls.dormant b (record_prices price b) refl)
          (calls.checked low high now (record_prices price b))

  pub add_order_tracked : (o : Order) (now : ℤ) (b : Book) → R b (add_order o now b).0
  unfolding add_order
  add_order_tracked o now b = add_order_core_tracked o now Bool.true b

  cancel_node_tracked : (n : ℕ) (now : ℤ) (b : Book) → R b (cancel_node n now b)
  cancel_node_tracked n now b =
      calls.trans _ _ _
        (calls.emitted (incoming_event EventKind.cancelled now (node_at b n).order) b)
        (remove_resting_tracked R calls.tracking n _)

  cancel_found_tracked :
      (found : Option ℕ) (id : ℕ) (now : ℤ) (b : Book) → R b (cancel_found found id now b).0
  cancel_found_tracked none id now b = calls.same b b refl
  cancel_found_tracked (some n) id now b = cancel_node_tracked n now b

  pub cancel_order_tracked :
      (id requester : ℕ) (now : ℤ) (b : Book) → R b (cancel_order id requester now b).0
  unfolding cancel_order
  cancel_order_tracked id requester now b = elim (Bool-cases (not (owned_by id requester b))) [
    | inl e ↦ simp e (calls.same b b refl)
    | inr e ↦ simp e (cancel_found_tracked (lookup id b.id_index) id now b)
  ]

  modify_in_place_tracked :
      (n : ℕ) (remaining now : ℤ) (b : Book) → R b (modify_in_place n remaining now b)
  unfolding modify_in_place
  modify_in_place_tracked n remaining now b =
      let reduced = reduce_resting n ((node_at b n).order.quantity -ℤ remaining) b in
      calls.trans _ _ _
        (reduce_resting_tracked R calls.tracking n ((node_at b n).order.quantity -ℤ remaining) b)
        (calls.emitted (incoming_event EventKind.modified now (node_at reduced n).order) reduced)

  replace_order_tracked :
      (n : ℕ) (o : Order) (total now : ℤ) (b : Book) → R b (replace_order n o total now b).0
  unfolding replace_order
  replace_order_tracked n o total now b =
      let (invalid, checked) = validate_new_order o now b in
      calls.trans _ _ _ (validate_new_order_tracked R calls.tracking o now b)
        (elim (Bool-cases (not (is_ok invalid))) [
          | inl e ↦ simp e (calls.same checked checked refl)
          | inr e ↦ simp e (
              calls.trans _ _ _
                (calls.emitted (incoming_event EventKind.replaced now (node_at checked n).order)
                  checked)
                (calls.trans _ _ _ (remove_resting_tracked R calls.tracking n _)
                  (add_order_core_tracked o now Bool.false _)))
        ])

  modify_node_tracked :
      (n : ℕ) (price total now : ℤ) (b : Book) → R b (modify_node n price total now b).0
  unfolding modify_node
  modify_node_tracked n price total now b =
      let order = (node_at b n).order in
      let requested = record order { price = some price; quantity = total } in
      let remaining = total -ℤ order.filled in
      elim (Bool-cases (not (is_ok (validate_order_fields requested)))) [
        | inl e ↦ simp e (calls.same b b refl)
        | inr e ↦ elim (Bool-cases (leb_ℤ remaining (pos 0))) [
          | inl gone ↦ simp (e, gone) (cancel_node_tracked n now b)
          | inr some_left ↦
              elim (Bool-cases
                (eq_option_ℤ (some price) order.price && leb_ℤ remaining order.quantity)) [
                  | inl smaller ↦
                      simp (e, some_left, smaller) (modify_in_place_tracked n remaining now b)
                  | inr other ↦
                      simp (e, some_left, other)
                        (replace_order_tracked n
                          (record order { price = some price; quantity = remaining }) total now b)
                ]
        ]
      ]

  modify_found_tracked :
      (found : Option ℕ) (id : ℕ) (price total now : ℤ) (b : Book)
      → R b (modify_found found id price total now b).0
  modify_found_tracked none id price total now b = calls.same b b refl
  modify_found_tracked (some n) id price total now b = modify_node_tracked n price total now b

  pub modify_order_tracked :
      (id requester : ℕ) (price total now : ℤ) (b : Book)
      → R b (modify_order id requester price total now b).0
  unfolding modify_order
  modify_order_tracked id requester price total now b =
      elim (Bool-cases (not (owned_by id requester b))) [
        | inl e ↦ simp e (calls.same b b refl)
        | inr e ↦ simp e (modify_found_tracked (lookup id b.id_index) id price total now b)
      ]
