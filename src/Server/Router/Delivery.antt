-- ===== src/Server/Router/Delivery.antt =====
-- What of the submitted commands reaches which worker (server/src/router.cpp).
use order_book_engine.Prelude.{
  ℕ, ◌+◌, ◌%◌, ◌<◌, ℤ, true, Option, none, some, List, [], ◌∷◌, ◌++◌, ◌≡◌, ◌≢◌, refl, sym, ap, ◌∙◌,
  subst, inl, inr, if◌then◌else◌, Assoc, lookup, length, get_or, set, length-set, get_or-set_self,
  get_or-set_ne, append_assoc, append-nil, ◌==◌, arith, Bool-cases, Option-cases,
}
use order_book_engine.Book.State.{word}
use order_book_engine.Server.Commands.{Command, Stamped}
use order_book_engine.Server.Worker.{Worker, new_worker, submit}
use order_book_engine.Server.Router.{
  Router, worker_at, symbol_of, stamp, submit_to, submit_command, submit_all,
}

-- The worker of a command, if it has one.
abbrev pub route_of : Assoc ℕ → Option ℕ → Option ℕ
route_of routes none = none
route_of routes (some symbol) = lookup symbol routes

abbrev pub stamp_if : Option ℕ → ℕ → ℤ → Command → List (ℕ × Stamped)
stamp_if none seq ts command = []
stamp_if (some i) seq ts command = (i, stamp seq ts command) ∷ []

abbrev pub seq_after : Option ℕ → ℕ → ℕ
seq_after none seq = seq
seq_after (some i) seq = (seq + 1) % word

-- The commands that have a worker, numbered one after the other, each with that worker.
abbrev pub delivered : Assoc ℕ → ℕ → List (ℤ × Command) → List (ℕ × Stamped)
delivered routes seq [] = []
delivered routes seq ((ts, command) ∷ cs) =
    let i = route_of routes (symbol_of command) in
    stamp_if i seq ts command ++ delivered routes (seq_after i seq) cs

-- Those of one worker.
abbrev pub items_for : ℕ → List (ℕ × Stamped) → List Stamped
items_for i [] = []
items_for i ((j, item) ∷ items) = if i == j then item ∷ items_for i items else items_for i items

items_for-append :
    (i : ℕ) (xs ys : List (ℕ × Stamped)) → items_for i (xs ++ ys) ≡ items_for i xs ++ items_for i ys
items_for-append i [] ys = refl
items_for-append i ((j, item) ∷ xs) ys = ground (arith, items_for-append i xs ys)

-- What one submission does to the worker `i`.
record Delivers (i : ℕ) (route : Option ℕ) (ts : ℤ) (command : Command) (r s : Router)
    : Type 0 where
  pub inbox :
      (worker_at s i).inbox
      ≡ (worker_at r i).inbox ++ items_for i (stamp_if route r.next_seq ts command)
  pub seq : s.next_seq ≡ seq_after route r.next_seq
  pub routes : s.routes ≡ r.routes
  pub running : s.running ≡ r.running
  pub count : length s.workers ≡ length r.workers

set_inbox :
    (ws : List Worker) (i j : ℕ) (v : Worker) (item : Stamped)
    → i < length ws
    → v.inbox ≡ (get_or ws j new_worker).inbox ++ item ∷ []
    → (get_or (set ws j v) i new_worker).inbox
      ≡ (get_or ws i new_worker).inbox ++ (if i == j then item ∷ [] else [])
set_inbox ws i j v item h e = elim (Bool-cases (i == j)) [
  | inl same ↦
      let eq : i ≡ j = ground arith in
      rw same (
        subst
          (λ k.
            (get_or (set ws k v) i new_worker).inbox ≡ (get_or ws i new_worker).inbox ++ item ∷ [])
          eq
          (ap (λ w. w.inbox) (get_or-set_self ws i v new_worker h)
            ∙ e
            ∙ ap (λ k. (get_or ws k new_worker).inbox ++ item ∷ []) (sym eq)))
  | inr other ↦
      let ne : i ≢ j = ground arith in
      rw other (
        ap (λ w. w.inbox) (get_or-set_ne ws j i v new_worker ne)
        ∙ sym (append-nil (get_or ws i new_worker).inbox))
]

submit_to-Delivers :
    (i : ℕ) (route : Option ℕ) (ts : ℤ) (command : Command) (r : Router)
    → i < length r.workers
    → Delivers i route ts command r (submit_to route command ts r).0
unfolding submit
submit_to-Delivers i none ts command r h = record {
  inbox = sym (append-nil (worker_at r i).inbox);
  seq = refl;
  routes = refl;
  running = refl;
  count = refl;
}
submit_to-Delivers i (some j) ts command r h = record {
  inbox = set_inbox r.workers i j _ (stamp r.next_seq ts command) h refl;
  seq = refl;
  routes = refl;
  running = refl;
  count = length-set r.workers j _;
}

-- The item of each worker is put behind those it has, by a session of submissions.
Delivery : ℕ → List (ℤ × Command) → Router → Option Router → Type 0
Delivery i cs r none = Unit
Delivery i cs r (some s) =
    (worker_at s i).inbox ≡ (worker_at r i).inbox ++ items_for i (delivered r.routes r.next_seq cs)

first-Delivery :
    (i : ℕ) (route : Option ℕ) (ts : ℤ) (command : Command) (cs : List (ℤ × Command)) (r s : Router)
    (rest : Option Router)
    → route_of r.routes (symbol_of command) ≡ route
    → Delivers i route ts command r s
    → Delivery i cs s rest
    → Delivery i ((ts, command) ∷ cs) r rest
unfolding Delivery
first-Delivery i route ts command cs r s none e d h = tt
first-Delivery i route ts command cs r s (some t) e d h =
    let first = stamp_if route r.next_seq ts command in
    let more = delivered r.routes (seq_after route r.next_seq) cs in
    h
    ∙ ap (λ xs. xs ++ items_for i (delivered s.routes s.next_seq cs)) d.inbox
    ∙ append_assoc (worker_at r i).inbox (items_for i first) _
    ∙ ap (λ xs. (worker_at r i).inbox ++ xs)
        (rw (e, d.routes, d.seq) (sym (items_for-append i first more)))

submit_all-Delivery :
    (i : ℕ) (cs : List (ℤ × Command)) (r : Router)
    → r.running ≡ true
    → i < length r.workers
    → Delivery i cs r (submit_all cs r)
unfolding submit_all Delivery submit_command
submit_all-Delivery i [] r on h = sym (append-nil (worker_at r i).inbox)
submit_all-Delivery i ((ts, command) ∷ cs) r on h = elim (Option-cases (symbol_of command)) [
  | inl no_symbol ↦ simp (on, no_symbol) tt
  | inr (symbol, e) ↦
      let route = lookup symbol r.routes in
      let s = (submit_to route command ts r).0 in
      let d = submit_to-Delivers i route ts command r h in
      let later : Delivery i cs s (submit_all cs s) =
        submit_all-Delivery i cs s (d.running ∙ on) (subst (λ n. i < n) (sym d.count) h) in
      simp (on, e)
        (first-Delivery i route ts command cs r s (submit_all cs s) (ap (route_of r.routes) e) d
          later)
]

-- While the router runs, submissions that are made one after the other leave in each worker's inbox
-- what was there and then, in the order of their numbers, the stamped commands of the symbols that are routed to that
-- worker; only commands with a route take a number, one after the other, modulo 2 ^ 64.
pub submit_all-delivered :
    (i : ℕ) (cs : List (ℤ × Command)) (r s : Router)
    → submit_all cs r ≡ some s
    → r.running ≡ true
    → i < length r.workers
    → (worker_at s i).inbox
      ≡ (worker_at r i).inbox ++ items_for i (delivered r.routes r.next_seq cs)
unfolding Delivery
submit_all-delivered i cs r s e on h = subst (Delivery i cs r) e (submit_all-Delivery i cs r on h)
