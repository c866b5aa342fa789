-- ===== src/Server/Worker/Replies.antt =====
-- The replies of a worker against the commands it was given (server/src/worker.cpp).
use Prim.Native.String.{String}
use order_book_engine.Prelude.{
  ℕ, ℤ, Option, none, some, List, [], ◌∷◌, ◌++◌, ◌≡◌, refl, ap, ◌∙◌, subst, inl, inr, Bool-cases,
  if◌then◌else◌, lookup, pos, max_ℤ,
}
use order_book_engine.Types.{EngineEvent, RejectReason}
use order_book_engine.Book.State.{Book, drain_events}
use order_book_engine.Book.Cascade.{add_order}
use order_book_engine.Book.Commands
use order_book_engine.Book.StopCommands.{place_stop_order}
use order_book_engine.Server.Commands.{
  NewOrder, ModifyOrder, CancelOrder, PlaceStop, Command, Stamped, Output,
}
use order_book_engine.Server.Worker.{
  Worker, publish, answer, make_reply, answer_stop, with_book, visit_command, serve_command, serve,
  is_shutdown, after_outputs, then_serve, serve_all, serve_new, serve_modify, serve_cancel,
  serve_place_stop,
}

-- Who is answered: the client's id of the command, its symbol, the gateway and the account; or who
-- asked for a snapshot of which symbol.
pub data Ticket : Type 0 where
  answered : String → ℕ → String → ℕ → Ticket
  shown : ℕ → ℕ → Ticket

-- The replies and snapshots among the outputs, in order.
abbrev pub tickets : List Output → List Ticket
tickets [] = []
tickets (Output.market_event e ∷ outs) = tickets outs
tickets (Output.reply r ∷ outs) =
    Ticket.answered r.client_order_id r.symbol r.gateway_id r.account_id ∷ tickets outs
tickets (Output.snapshot_ready s ∷ outs) = Ticket.shown s.symbol s.subscriber ∷ tickets outs
tickets (Output.outbox_closed ∷ outs) = tickets outs

-- What a command asks for.
abbrev pub asks_for : Command → String → ℕ → List Ticket
asks_for (Command.new_order arg) gateway account =
    Ticket.answered arg.client_order_id arg.symbol gateway account ∷ []
asks_for (Command.cancel_order arg) gateway account =
    Ticket.answered arg.client_order_id arg.symbol gateway account ∷ []
asks_for (Command.modify_order arg) gateway account =
    Ticket.answered arg.client_order_id arg.symbol gateway account ∷ []
asks_for (Command.place_stop arg) gateway account =
    Ticket.answered arg.client_order_id arg.symbol gateway account ∷ []
asks_for (Command.cancel_stop arg) gateway account =
    Ticket.answered arg.client_order_id arg.symbol gateway account ∷ []
asks_for (Command.modify_stop arg) gateway account =
    Ticket.answered arg.client_order_id arg.symbol gateway account ∷ []
asks_for Command.shutdown gateway account = []
asks_for (Command.take_snapshot arg) gateway account = Ticket.shown arg.symbol arg.subscriber ∷ []

-- What the items before the first shutdown ask for, in order.
abbrev pub owed : List Stamped → List Ticket
owed [] = []
owed (item ∷ items) =
    if is_shutdown item.command
    then []
    else asks_for item.command item.gateway_id item.account_id ++ owed items

tickets-append : (os ps : List Output) → tickets (os ++ ps) ≡ tickets os ++ tickets ps
tickets-append [] ps = refl
tickets-append (Output.market_event e ∷ os) ps = tickets-append os ps
tickets-append (Output.reply r ∷ os) ps =
    ap (λ ts. Ticket.answered r.client_order_id r.symbol r.gateway_id r.account_id ∷ ts)
      (tickets-append os ps)
tickets-append (Output.snapshot_ready s ∷ os) ps =
    ap (λ ts. Ticket.shown s.symbol s.subscriber ∷ ts) (tickets-append os ps)
tickets-append (Output.outbox_closed ∷ os) ps = tickets-append os ps

tickets-publish :
    (symbol own_id : ℕ) (client_order_id : String) (events : List EngineEvent)
    → tickets (publish symbol own_id client_order_id events) ≡ []
unfolding publish
tickets-publish symbol own_id client_order_id [] = refl
tickets-publish symbol own_id client_order_id (e ∷ es) =
    tickets-publish symbol own_id client_order_id es

tickets-answer :
    (symbol own_id : ℕ) (own_client_id : String) (b : Book) (replied : Output) (w : Worker)
    → tickets (answer symbol own_id own_client_id b replied w).1 ≡ tickets (replied ∷ [])
unfolding answer drain_events
tickets-answer symbol own_id own_client_id b replied w =
    tickets-append (publish symbol own_id own_client_id b.events) (replied ∷ [])
    ∙ ap (λ ts. ts ++ tickets (replied ∷ [])) (tickets-publish symbol own_id own_client_id b.events)

-- Of a step that may throw.
abbrev Answers : List Ticket → Option (Worker × List Output) → Type 0
Answers ts none = Unit
Answers ts (some (w, outs)) = tickets outs ≡ ts

with_book-Answers :
    (ts : List Ticket) (found : Option Book) (f : Book → Option (Worker × List Output))
    → ((b : Book) → Answers ts (f b))
    → Answers ts (with_book found f)
with_book-Answers ts none f h = tt
with_book-Answers ts (some b) f h = h b

-- A published call and its reply.
answer-replies :
    (symbol own_id : ℕ) (own_client_id : String) (item : Stamped) (client_order_id : String)
    (order_id : ℕ) (why : RejectReason) (unaccepted : ℤ) (rested : Option ℤ) (w : Worker) (c : Book)
    → tickets
        (answer symbol own_id own_client_id c
          (make_reply item client_order_id symbol order_id why unaccepted rested)
          w).1
      ≡ Ticket.answered client_order_id symbol item.gateway_id item.account_id ∷ []
answer-replies symbol own_id own_client_id item client_order_id order_id why unaccepted rested w c =
    tickets-answer symbol own_id own_client_id c
      (make_reply item client_order_id symbol order_id why unaccepted rested) w

answer_stop-Answers :
    (symbol : ℕ) (client_order_id : String) (order_id : ℕ) (item : Stamped) (w : Worker)
    (r : Option (Book × RejectReason))
    → Answers
        (Ticket.answered client_order_id symbol item.gateway_id item.account_id ∷ [])
        (answer_stop symbol client_order_id order_id item w r)
answer_stop-Answers symbol client_order_id order_id item w none = tt
answer_stop-Answers symbol client_order_id order_id item w (some (c, why)) =
    answer-replies symbol 0 String.[] item client_order_id order_id why (pos 0) none w c

serve_new-Answers :
    (arg : NewOrder) (item : Stamped) (now : ℤ) (w : Worker) (b : Book)
    → tickets (serve_new arg item now w b).1
      ≡ Ticket.answered arg.client_order_id arg.symbol item.gateway_id item.account_id ∷ []
serve_new-Answers arg item now w b =
    let (c, r) = add_order (record (arg.order) { id = item.seq }) now b in
    answer-replies arg.symbol item.seq arg.client_order_id item arg.client_order_id item.seq
      r.reject_reason r.unaccepted_quantity r.rested_price w c

serve_modify-Answers :
    (arg : ModifyOrder) (item : Stamped) (now : ℤ) (w : Worker) (b : Book)
    → tickets (serve_modify arg item now w b).1
      ≡ Ticket.answered arg.client_order_id arg.symbol item.gateway_id item.account_id ∷ []
serve_modify-Answers arg item now w b =
    let (c, r) =
      Commands.modify_order arg.order_id arg.requester arg.new_price arg.new_quantity now b in
    answer-replies arg.symbol 0 String.[] item arg.client_order_id arg.order_id r.reject_reason
      r.unaccepted_quantity r.rested_price w c

serve_cancel-Answers :
    (arg : CancelOrder) (item : Stamped) (now : ℤ) (w : Worker) (b : Book)
    → tickets (serve_cancel arg item now w b).1
      ≡ Ticket.answered arg.client_order_id arg.symbol item.gateway_id item.account_id ∷ []
serve_cancel-Answers arg item now w b =
    let (c, why) = Commands.cancel_order arg.order_id arg.requester now b in
    answer-replies arg.symbol 0 String.[] item arg.client_order_id arg.order_id why (pos 0) none w c

serve_place_stop-Answers :
    (arg : PlaceStop) (item : Stamped) (now : ℤ) (w : Worker) (b : Book)
    → tickets (serve_place_stop arg item now w b).1
      ≡ Ticket.answered arg.client_order_id arg.symbol item.gateway_id item.account_id ∷ []
serve_place_stop-Answers arg item now w b =
    let (c, why) = place_stop_order (record (arg.stop) { id = item.seq }) now b in
    answer-replies arg.symbol item.seq arg.client_order_id item arg.client_order_id item.seq why
      (pos 0) none w c

-- The worker once `last_ts_` has been set.
abbrev at_time : Stamped → Worker → Worker
at_time item w = record w { last_ts = max_ℤ item.ts w.last_ts }

serve_command-Answers :
    (command : Command) (item : Stamped) (w : Worker)
    → Answers (asks_for command item.gateway_id item.account_id) (serve_command command item w)
unfolding visit_command
serve_command-Answers (Command.new_order arg) item w =
    with_book-Answers _ (lookup arg.symbol w.books) _
      (serve_new-Answers arg item _ (at_time item w))
serve_command-Answers (Command.cancel_order arg) item w =
    with_book-Answers _ (lookup arg.symbol w.books) _
      (serve_cancel-Answers arg item _ (at_time item w))
serve_command-Answers (Command.modify_order arg) item w =
    with_book-Answers _ (lookup arg.symbol w.books) _
      (serve_modify-Answers arg item _ (at_time item w))
serve_command-Answers (Command.place_stop arg) item w =
    with_book-Answers _ (lookup arg.symbol w.books) _
      (serve_place_stop-Answers arg item _ (at_time item w))
serve_command-Answers (Command.cancel_stop arg) item w =
    with_book-Answers _ (lookup arg.symbol w.books) _
      (λ b. answer_stop-Answers arg.symbol arg.client_order_id arg.order_id item _ _)
serve_command-Answers (Command.modify_stop arg) item w =
    with_book-Answers _ (lookup arg.symbol w.books) _
      (λ b. answer_stop-Answers arg.symbol arg.client_order_id arg.order_id item _ _)
serve_command-Answers Command.shutdown item w = refl
serve_command-Answers (Command.take_snapshot arg) item w =
    with_book-Answers _ (lookup arg.symbol w.books) _ (λ b. refl)

then_serve-Answers :
    (ts us : List Ticket) (first : Option (Worker × List Output))
    (f : Worker → Option (Worker × List Output))
    → Answers ts first
    → ((w : Worker) → Answers us (f w))
    → Answers (ts ++ us) (then_serve first f)
then_serve-Answers ts us none f h k = tt
then_serve-Answers ts us (some (w, outs)) f h k = both (f w) (k w)
  where
    both :
        (rest : Option (Worker × List Output))
        → Answers us rest
        → Answers (ts ++ us) (after_outputs outs rest)
    both none q = tt
    both (some (v, more)) q = tickets-append outs more ∙ cc (h, q)

serve_all-Answers : (items : List Stamped) (w : Worker) → Answers (owed items) (serve_all items w)
unfolding serve_all serve
serve_all-Answers [] w = refl
serve_all-Answers (item ∷ items) w = elim (Bool-cases (is_shutdown item.command)) [
  | inl over ↦ rw over refl
  | inr more ↦ rw more (
      then_serve-Answers (asks_for item.command item.gateway_id item.account_id) (owed items)
        (serve item w) (serve_all items) (serve_command-Answers item.command item w)
        (serve_all-Answers items))
]

-- A worker that serves its items without an exception answers each command before the first shutdown
-- exactly once and in order: with one reply that carries the command's client id, symbol, gateway and
-- account, or, for a snapshot, with the snapshot for its subscriber.
pub serve_all-tickets :
    (items : List Stamped) (w v : Worker) (outs : List Output)
    → serve_all items w ≡ some (v, outs)
    → tickets outs ≡ owed items
serve_all-tickets items w v outs e = subst (Answers (owed items)) e (serve_all-Answers items w)
