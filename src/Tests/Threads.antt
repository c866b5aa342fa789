-- ===== src/Tests/Threads.antt =====
-- The theorems on the blocking queue at a concrete run of two threads.
use order_book_engine.Prelude.{ℕ, ◌+◌, ◌≤◌, [], ◌∷◌, ◌++◌, ◌≡◌, arith, length}
use order_book_engine.Server.BlockingQueue.{Queue, new_queue, push, pop, notify, Step, Steps}
use order_book_engine.Server.BlockingQueue.Order.{Steps-fifo}
use order_book_engine.Server.BlockingQueue.Waking.{Steps-awaited}

-- A thread sleeps in `pop`; another pushes 7 and then 8 and sends one of its two notifications.
abbrev queue_after : Queue ℕ
queue_after = notify (push 8 (push 7 (pop new_queue).1))

threads : Steps new_queue (7 ∷ 8 ∷ []) [] queue_after
threads = Steps.next Step.pops (
    Steps.next (Step.pushes 7)
      (Steps.next (Step.pushes 8) (Steps.next (Step.notifies (omega arith)) Steps.start)))

Steps-fifo_example : [] ++ queue_after.deque ≡ [] ++ 7 ∷ 8 ∷ []
Steps-fifo_example = Steps-fifo threads

abbrev sleeping : Queue ℕ
sleeping = push 7 (pop new_queue).1

put_to_sleep : Steps new_queue (7 ∷ []) [] sleeping
put_to_sleep = Steps.next Step.pops (Steps.next (Step.pushes 7) Steps.start)

Steps-awaited_example : length sleeping.deque ≤ sleeping.unsent + sleeping.woken
Steps-awaited_example = Steps-awaited put_to_sleep (omega arith)
