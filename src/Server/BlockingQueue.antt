-- ===== src/Server/BlockingQueue.antt =====
-- class BlockingQueue (server/include/server/blocking_queue.hpp), used by several threads. What a
-- thread does while it holds the mutex is one step; `notify_one` comes after the mutex is released, and
-- is a step of its own. Threads in `pop` are counted: those asleep in `wait`, and those that were
-- woken and have not looked at the queue again. The condition variable is the standard library's: a
-- notification wakes one sleeping thread, if there is one, and a thread may wake without one.
pub mod Order
pub mod Waking
use order_book_engine.Prelude.{
  ℕ, zero, suc, ◌+◌, ◌-◌, ◌<◌, Bool, Option, none, some, List, [], ◌∷◌, ◌++◌, ◌≡◌, length,
}

pub record Queue {ℓ} (A : Type ℓ) : Type ℓ where
  pub deque : List A
  pub asleep : ℕ
  pub woken : ℕ
  pub unsent : ℕ

module _ {ℓ} {A : Type ℓ} where
  abbrev pub new_queue : Queue A
  new_queue = record { deque = []; asleep = 0; woken = 0; unsent = 0 }

  -- `push`, up to the end of its block.
  abbrev pub push : A → Queue A → Queue A
  push item q = record q { deque = q.deque ++ item ∷ []; unsent = q.unsent + 1 }

  -- `notify_one()` of a thread that has pushed.
  abbrev pub wake_one : ℕ → Queue A → Queue A
  wake_one zero q = q
  wake_one (suc n) q = record q { asleep = n; woken = q.woken + 1 }

  abbrev pub notify : Queue A → Queue A
  notify q = wake_one q.asleep (record q { unsent = q.unsent - 1 })

  -- A thread in `wait` that holds the mutex: it takes an item, or sleeps.
  abbrev pub take_or_sleep : List A → Queue A → Option A × Queue A
  take_or_sleep [] q = (none, record q { asleep = q.asleep + 1 })
  take_or_sleep (item ∷ items) q = (some item, record q { deque = items })

  abbrev pub pop : Queue A → Option A × Queue A
  pop q = take_or_sleep q.deque q

  abbrev pub resume_pop : Queue A → Option A × Queue A
  resume_pop q = take_or_sleep q.deque (record q { woken = q.woken - 1 })

  abbrev pub take_front : List A → Queue A → Option A × Queue A
  take_front [] q = (none, q)
  take_front (item ∷ items) q = (some item, record q { deque = items })

  abbrev pub try_pop : Queue A → Option A × Queue A
  try_pop q = take_front q.deque q

  abbrev pub size : Queue A → ℕ
  size q = length q.deque

  abbrev pub taken_item : Option A → List A
  taken_item none = []
  taken_item (some item) = item ∷ []

  -- The steps of the threads: what is pushed, what is taken, and the queue before and after.
  pub data Step : Queue A → List A → List A → Queue A → Type ℓ where
    pushes : {q : Queue A} (item : A) → Step q (item ∷ []) [] (push item q)
    notifies : {q : Queue A} → 0 < q.unsent → Step q [] [] (notify q)
    pops : {q : Queue A} → Step q [] (taken_item (pop q).0) (pop q).1
    resumes : {q : Queue A} → 0 < q.woken → Step q [] (taken_item (resume_pop q).0) (resume_pop q).1
    tries : {q : Queue A} → Step q [] (taken_item (try_pop q).0) (try_pop q).1
    wakes : {q : Queue A} → 0 < q.asleep → Step q [] [] (wake_one q.asleep q)

  -- Any number of steps.
  pub data Steps : Queue A → List A → List A → Queue A → Type ℓ where
    start : {q : Queue A} → Steps q [] [] q
    next :
        {p q r : Queue A} {pushed taken more gone : List A}
        → Step p pushed taken q
        → Steps q more gone r
        → Steps p (pushed ++ more) (taken ++ gone) r
