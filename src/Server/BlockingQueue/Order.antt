-- ===== src/Server/BlockingQueue/Order.antt =====
-- The order in which items leave a queue (server/include/server/blocking_queue.hpp).
use order_book_engine.Prelude.{
  ℕ, zero, suc, List, [], ◌∷◌, ◌++◌, ◌≡◌, refl, sym, ap, ◌∙◌, append_assoc, append-nil,
}
use order_book_engine.Server.BlockingQueue.{
  Queue, wake_one, take_or_sleep, take_front, taken_item, Step, Steps,
}

module _ {ℓ} {A : Type ℓ} where
  deque-wake_one : (n : ℕ) (q : Queue A) → (wake_one n q).deque ≡ q.deque
  deque-wake_one zero q = refl
  deque-wake_one (suc n) q = refl

  take_or_sleep-deque :
      (items : List A) (q : Queue A)
      → q.deque ≡ items
      → let (o, r) = take_or_sleep items q in taken_item o ++ r.deque ≡ items
  take_or_sleep-deque [] q e = e
  take_or_sleep-deque (x ∷ xs) q e = refl

  take_front-deque :
      (items : List A) (q : Queue A)
      → q.deque ≡ items
      → let (o, r) = take_front items q in taken_item o ++ r.deque ≡ items
  take_front-deque [] q e = e
  take_front-deque (x ∷ xs) q e = refl

  Step-fifo :
      {p q : Queue A} {pushed taken : List A}
      → Step p pushed taken q
      → taken ++ q.deque ≡ p.deque ++ pushed
  Step-fifo (Step.pushes item) = refl
  Step-fifo {p} (Step.notifies h) = deque-wake_one _ _ ∙ sym (append-nil p.deque)
  Step-fifo {p} Step.pops = take_or_sleep-deque p.deque p refl ∙ sym (append-nil p.deque)
  Step-fifo {p} (Step.resumes h) = take_or_sleep-deque p.deque _ refl ∙ sym (append-nil p.deque)
  Step-fifo {p} Step.tries = take_front-deque p.deque p refl ∙ sym (append-nil p.deque)
  Step-fifo {p} (Step.wakes h) = deque-wake_one _ _ ∙ sym (append-nil p.deque)

  -- Whatever the threads do, in whatever order: the items taken so far, followed by those that wait,
  -- are those that waited at first, followed by those pushed since, in the order of the pushes. So each
  -- item is taken at most once, none is lost, and none overtakes another.
  pub Steps-fifo :
      {p q : Queue A} {pushed taken : List A}
      → Steps p pushed taken q
      → taken ++ q.deque ≡ p.deque ++ pushed
  Steps-fifo {p} Steps.start = sym (append-nil p.deque)
  Steps-fifo {p} {q} (Steps.next {q = m} {pushed} {taken} {more} {gone} s h) =
      append_assoc taken gone q.deque
      ∙ ap (λ xs. taken ++ xs) (Steps-fifo h)
      ∙ sym (append_assoc taken m.deque more)
      ∙ ap (λ xs. xs ++ more) (Step-fifo s)
      ∙ append_assoc p.deque pushed more
