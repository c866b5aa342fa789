-- ===== src/Server/Router.antt =====
-- class Router (server/include/server/router.hpp, server/src/router.cpp): the workers, which worker
-- serves which symbol, and the numbering of submissions. `none` stands for an exception. The clock is
-- a parameter: each call of `clock_()` is given as the time that it returns. A submission is one step:
-- callers on several threads, which may push in another order than they take their numbers, are not
-- modelled.
pub mod Delivery
use Prim.Native.String.{String}
use order_book_engine.Prelude.{
  ℕ, zero, suc, ◌+◌, ◌%◌, ℤ, leb, Bool, true, false, ◌&&◌, not, Option, none, some, List, [], ◌∷◌,
  if◌then◌else◌, Assoc, lookup, insert, contains, length, get_or, set, replicate, map,
}
use order_book_engine.Book.State.{Book, word}
use order_book_engine.Server.Commands.{Command, Stamped}
use order_book_engine.Server.Worker.{Worker, new_worker, add_book, start, stop, submit}

pub data SubmitResult : Type 0 where
  queued : SubmitResult
  unknown_symbol : SubmitResult
  not_running : SubmitResult

-- A `Worker *` is the worker's index.
pub record Router : Type 0 where
  pub workers : List Worker
  pub routes : Assoc ℕ
  pub next_seq : ℕ
  pub started : Bool
  pub running : Bool

-- `has_clock`: the given std::function is not empty.
unfoldable pub make_router : ℕ → Bool → Option Router
make_router zero has_clock = none
make_router (suc n) has_clock =
    if not has_clock
    then none
    else some (record {
      workers = replicate (suc n) new_worker;
      routes = [];
      next_seq = 1;
      started = false;
      running = false;
    })

-- `for (auto &worker : workers_) worker->start()`
abbrev pub cons_started : Option Worker → Option (List Worker) → Option (List Worker)
cons_started none ws = none
cons_started (some w) none = none
cons_started (some w) (some ws) = some (w ∷ ws)

unfoldable pub start_workers : List Worker → Option (List Worker)
start_workers [] = some []
start_workers (w ∷ ws) = cons_started (start w) (start_workers ws)

abbrev pub with_started : Option (List Worker) → Router → Option Router
with_started none r = none
with_started (some ws) r = some (record r { workers = ws; started = true; running = true })

unfoldable pub start_router : Router → Option Router
unfolding start_workers
start_router r = if r.started then none else with_started (start_workers r.workers) r

unfoldable pub shutdown_router : Router → Router
shutdown_router r =
    if not r.started then r else record r { running = false; workers = map stop r.workers }

abbrev pub worker_at : Router → ℕ → Worker
worker_at r i = get_or r.workers i new_worker

abbrev pub with_route : ℕ → ℕ → Option Worker → Router → Option Router
with_route symbol i none r = none
with_route symbol i (some w) r =
    some (record r { workers = set r.workers i w; routes = insert symbol i r.routes })

unfoldable pub add_symbol : ℕ → ℕ → Book → Router → Option Router
add_symbol symbol i b r =
    if r.started
    then none
    else if leb (length r.workers) i
    then none
    else if contains symbol r.routes
    then none
    else with_route symbol i (add_book symbol b (worker_at r i)) r

-- `arg.symbol` of a command that is submitted from outside; the other two throw.
abbrev pub symbol_of : Command → Option ℕ
symbol_of (Command.new_order arg) = some arg.symbol
symbol_of (Command.cancel_order arg) = some arg.symbol
symbol_of (Command.modify_order arg) = some arg.symbol
symbol_of (Command.place_stop arg) = some arg.symbol
symbol_of (Command.cancel_stop arg) = some arg.symbol
symbol_of (Command.modify_stop arg) = some arg.symbol
symbol_of Command.shutdown = none
symbol_of (Command.take_snapshot arg) = none

abbrev pub stamp : ℕ → ℤ → Command → Stamped
stamp seq ts command = record {
  seq = seq;
  ts = ts;
  command = command;
  gateway_id = String.[];
  account_id = 0;
}

abbrev pub submit_to : Option ℕ → Command → ℤ → Router → Router × SubmitResult
submit_to none command ts r = (r, SubmitResult.unknown_symbol)
submit_to (some i) command ts r = (
  record r {
    workers = set r.workers i (submit (stamp r.next_seq ts command) (worker_at r i));
    next_seq = (r.next_seq + 1) % word;
  },
  SubmitResult.queued,
)

abbrev pub submit_symbol : Option ℕ → Command → ℤ → Router → Option (Router × SubmitResult)
submit_symbol none command ts r = none
submit_symbol (some symbol) command ts r = some (submit_to (lookup symbol r.routes) command ts r)

unfoldable pub submit_command : Command → ℤ → Router → Option (Router × SubmitResult)
submit_command command ts r =
    if not r.running
    then some (r, SubmitResult.not_running)
    else submit_symbol (symbol_of command) command ts r

abbrev pub and_submit : Option (Router × SubmitResult) → (Router → Option Router) → Option Router
and_submit none f = none
and_submit (some (r, result)) f = f r

-- Submissions with the times of the clock, in the order in which they take their numbers.
unfoldable pub submit_all : List (ℤ × Command) → Router → Option Router
submit_all [] r = some r
submit_all ((ts, command) ∷ cs) r = and_submit (submit_command command ts r) (submit_all cs)
