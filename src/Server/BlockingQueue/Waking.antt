-- ===== src/Server/BlockingQueue/Waking.antt =====
-- No wake-up is lost (server/include/server/blocking_queue.hpp).
use order_book_engine.Prelude.{
  ℕ, zero, suc, ◌+◌, ◌<◌, ◌≤◌, List, [], ◌∷◌, ◌++◌, ◌≡◌, refl, arith, length, ◌⊎◌, inl, inr,
}
use order_book_engine.Server.BlockingQueue.{
  Queue, new_queue, wake_one, take_or_sleep, take_front, Step, Steps,
}

module _ {ℓ} {A : Type ℓ} where
  -- No thread sleeps, or every item that waits has a notification to come or a woken thread.
  abbrev pub IsAwaited : Queue A → Type 0
  IsAwaited q = (q.asleep ≡ 0) ⊎ (length q.deque ≤ q.unsent + q.woken)

  length-push : (xs : List A) (x : A) → length (xs ++ x ∷ []) ≡ length xs + 1
  length-push [] x = refl
  length-push (y ∷ xs) x = ground (arith, length-push xs x)

  wake_one-IsAwaited :
      (n : ℕ) (q : Queue A)
      → (n ≡ 0) ⊎ (length q.deque ≤ q.unsent + q.woken + 1)
      → q.asleep ≡ n
      → IsAwaited (wake_one n q)
  wake_one-IsAwaited zero q h e = inl e
  wake_one-IsAwaited (suc n) q h e = ground arith

  take_or_sleep-IsAwaited :
      (items : List A) (q : Queue A)
      → q.deque ≡ items
      → (q.asleep ≡ 0) ⊎ (length items ≤ q.unsent + q.woken + 1)
      → IsAwaited (take_or_sleep items q).1
  take_or_sleep-IsAwaited [] q e h = inr (rw e (omega arith))
  take_or_sleep-IsAwaited (x ∷ xs) q e h = ground arith

  take_front-IsAwaited :
      (items : List A) (q : Queue A)
      → q.deque ≡ items
      → IsAwaited q
      → IsAwaited (take_front items q).1
  take_front-IsAwaited [] q e h = h
  take_front-IsAwaited (x ∷ xs) q e (inl h) = inl h
  take_front-IsAwaited (x ∷ xs) q e (inr h) =
      let l : length q.deque ≡ suc (length xs) = rw e refl in inr (omega (arith, l, h))

  Step-IsAwaited :
      {p q : Queue A} {pushed taken : List A} → Step p pushed taken q → IsAwaited p → IsAwaited q
  Step-IsAwaited {p} (Step.pushes item) h = ground (arith, length-push p.deque item)
  Step-IsAwaited {p} (Step.notifies owed) h = wake_one-IsAwaited p.asleep _ (ground arith) refl
  Step-IsAwaited {p} Step.pops h = take_or_sleep-IsAwaited p.deque p refl (ground arith)
  Step-IsAwaited {p} (Step.resumes awake) h = take_or_sleep-IsAwaited p.deque _ refl (ground arith)
  Step-IsAwaited {p} Step.tries h = take_front-IsAwaited p.deque p refl h
  Step-IsAwaited {p} (Step.wakes sleeping) h = wake_one-IsAwaited p.asleep p (ground arith) refl

  Steps-IsAwaited :
      {p q : Queue A} {pushed taken : List A} → Steps p pushed taken q → IsAwaited p → IsAwaited q
  Steps-IsAwaited Steps.start h = h
  Steps-IsAwaited (Steps.next s more) h = Steps-IsAwaited more (Step-IsAwaited s h)

  -- No wake-up is lost: in a queue that the threads have used from the start, while a thread sleeps,
  -- each item that waits has a notification that is still to come, or a woken thread that has yet to
  -- look at the queue.
  pub Steps-awaited :
      {q : Queue A} {pushed taken : List A}
      → Steps new_queue pushed taken q
      → 0 < q.asleep
      → length q.deque ≤ q.unsent + q.woken
  Steps-awaited h sleeping = ground (arith, Steps-IsAwaited h (inl refl))
