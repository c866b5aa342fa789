-- ===== src/Server/EngineFeedServer/Leaving.antt =====
-- However a handler ends, its subscriber is gone (server/src/engine_feed_server.cpp, `pump`).
use Prim.Native.String.{String}
use order_book_engine.Prelude.{
  ℕ, ◌+◌, ◌<◌, true, Option, none, some, List, [], ◌∷◌, ◌≡◌, ◌≢◌, refl, inl, inr, ◌⊎◌, arith,
  Option-cases, if_both, Assoc, lookup, find_name, is_some,
}
use order_book_engine.Book.State.{word}
use order_book_engine.Server.Subscription.{FeedItem, EndReason, is_ended}
use order_book_engine.Server.Publisher.{SubscriberKind, Publisher, by_gateway, read, unsubscribe}
use order_book_engine.Server.Publisher.Subscribing.{SubscribeError, replay_count}
use order_book_engine.Server.Publisher.Consistent.{IsConsistent}
use order_book_engine.Server.Publisher.Consistent.Dropping.{drop-IsConsistent}
use order_book_engine.Server.Publisher.Opening.{subscribe-Answers}
use order_book_engine.Server.Publisher.Views.Keeping.{drop_none, drop_self}
use order_book_engine.Prelude.{All}
use order_book_engine.Server.Publisher.Views.Absent.{IsAbsent}
use order_book_engine.Server.Publisher.Views.Sessions.{opens_in, Action, act_all}
use order_book_engine.Server.Publisher.{PublisherOptions}
use order_book_engine.Server.Publisher.Joining.Others.{subscribe-Joins, subscribe-Notes}
use order_book_engine.Server.EngineFeedServer.Room.{
  Able, less-Able, read-Able, RoomFor, IsBounded, SameHistory-IsBounded, act_all-Acts,
}
use order_book_engine.Server.EngineFeedServer.{
  StatusCode, Turn, Pumped, leave_with, then_go_on, unless_ended, send, after_read, pump,
  pump_opened, serve_subscribe, and_send, end_status, reason_of, fills, refuse,
}

-- The subscriber is not registered, and no gateway names it.
abbrev pub IsGone : ℕ → Publisher → Type 0
IsGone id p =
    IsAbsent id p
    × ((kind : SubscriberKind) (g : String) → find_name g (by_gateway kind p) ≢ some id)

-- The handler still runs, or has ended and its subscriber is gone.
abbrev pub Leaves : ℕ → Option Pumped → Type 0
Leaves id o =
    (r : Pumped) × (o ≡ some r)
    × IsConsistent r.publisher
    × ((r.status ≡ none) ⊎ IsGone id r.publisher)

absent-IsGone : (id : ℕ) (p : Publisher) → IsConsistent p → IsAbsent id p → IsGone id p
absent-IsGone id p c absent = (
  absent,
  λ kind g named.
      let (entry, there, same, s, found, name) = c.named kind g id named in
      absurd (ground (arith, absent, there)),
)

unsubscribe-IsAbsent : (id : ℕ) (p : Publisher) → IsConsistent p → IsAbsent id (unsubscribe id p)
unsubscribe-IsAbsent id p c = elim (Option-cases (lookup id p.subscribers)) [
  | inl gone ↦ drop_none id id EndReason.unsubscribed p gone
  | inr (entry, there) ↦
      let (s, found, running, small, name) = c.registered id entry there in
      drop_self id EndReason.unsubscribed p s found
]

leave_with-Leaves :
    (code : StatusCode) (id : ℕ) (p : Publisher) → IsConsistent p → Leaves id (leave_with code id p)
leave_with-Leaves code id p c =
    let d = drop-IsConsistent id EndReason.unsubscribed p c in
    (_, refl, d, inr (absent-IsGone id (unsubscribe id p) d (unsubscribe-IsAbsent id p c)))

-- What the rest of a handler does after the steps of the others.
then_go_on-Leaves :
    (o : PublisherOptions) (n id : ℕ) (acts : List Action) (p : Publisher)
    (next : Publisher → Option Pumped)
    → Able o (opens_in acts + n) p
    → All (RoomFor o) acts
    → ((q : Publisher) → Able o n q → Leaves id (next q))
    → Leaves id (then_go_on (act_all id acts p) next)
then_go_on-Leaves o n id acts p next h room rest =
    let (q, taken, done, k) = act_all-Acts o n id acts p h room in rw done (rest q k)

and_send-Leaves :
    (id : ℕ) (item : FeedItem) (o : Option Pumped) → Leaves id o → Leaves id (and_send item o)
and_send-Leaves id item o (r, e, c, how) = rw e (record r { sent = item ∷ r.sent }, refl, c, how)

send-Leaves :
    (kind : SubscriberKind) (id : ℕ) (t : Turn) (next : Publisher → Option Pumped) (item : FeedItem)
    (p : Publisher)
    → IsConsistent p
    → Leaves id (next p)
    → Leaves id (send kind id t next item p)
send-Leaves kind id t next item p c rest =
    if_both (Leaves id) (fills kind item) _ _
      (λ filled.
        if_both (Leaves id) t.writes _ _ (λ sent. and_send-Leaves id item (next p) rest)
          (λ broken. leave_with-Leaves StatusCode.cancelled id p c))
      (λ skipped. rest)

after_read-Leaves :
    (o : PublisherOptions) (n : ℕ) (kind : SubscriberKind) (id : ℕ) (t : Turn)
    (next : Publisher → Option Pumped) (item : Option FeedItem) (p : Publisher)
    → Able o (opens_in t.between + n) p
    → All (RoomFor o) t.between
    → ((q : Publisher) → Able o n q → Leaves id (next q))
    → Leaves id (after_read kind id t next (item, p))
after_read-Leaves o n kind id t next none p h room rest =
    then_go_on-Leaves o n id t.between p (unless_ended id next) h room (λ q k.
      let reason = reason_of (lookup id q.subscriptions) in
      if_both (Leaves id) (is_ended reason) _ _
        (λ over. leave_with-Leaves (end_status reason) id q k.consistent) (λ running. rest q k))
after_read-Leaves o n kind id t next (some item) p h room rest =
    send-Leaves kind id t next item p h.consistent
      (rest p (less-Able o (opens_in t.between + n) n p (omega arith) h))

-- The ids that the other handlers take during the turns, and the room that they need.
abbrev pub opens_during : List Turn → ℕ
opens_during [] = 0
opens_during (t ∷ ts) = opens_in t.before + (opens_in t.between + opens_during ts)

abbrev pub Rooms : PublisherOptions → Turn → Type 0
Rooms o t = All (RoomFor o) t.before × All (RoomFor o) t.between

pub pump-Leaves :
    (o : PublisherOptions) (kind : SubscriberKind) (id : ℕ) (turns : List Turn) (p : Publisher)
    → Able o (opens_during turns) p
    → All (Rooms o) turns
    → Leaves id (pump kind id turns p)
unfolding pump
pump-Leaves o kind id [] p h room = (_, refl, h.consistent, inl refl)
pump-Leaves o kind id (t ∷ ts) p h room =
    let later = opens_in t.between + opens_during ts in
    if_both (Leaves id) t.cancelled _ _
      (λ away. leave_with-Leaves StatusCode.cancelled id p h.consistent)
      (λ here. then_go_on-Leaves o later id t.before p _ h room.0.0 (λ q k.
        after_read-Leaves o (opens_during ts) kind id t (pump kind id ts) (read id q).0
          (read id q).1 (read-Able o later id q k) room.0.1
          (λ v e. pump-Leaves o kind id ts v e room.1)))

-- A refused call.
refused-Leaves :
    (kind : SubscriberKind) (turns : List Turn) (p : Publisher) (why : SubscribeError)
    (sub : Option ℕ)
    → why ≢ SubscribeError.none
    → pump_opened kind turns p why sub ≡ refuse why p
refused-Leaves kind turns p SubscribeError.none sub ne = absurd (ne refl)
refused-Leaves kind turns p SubscribeError.empty_gateway_id sub ne = refl
refused-Leaves kind turns p SubscribeError.gateway_already_subscribed sub ne = refl
refused-Leaves kind turns p SubscribeError.unknown_symbol sub ne = refl
refused-Leaves kind turns p SubscribeError.closed sub ne = refl
refused-Leaves kind turns p SubscribeError.bad_from_seq sub ne = refl
refused-Leaves kind turns p SubscribeError.too_old sub ne = refl

-- A status and no message, and the subscribers that were there.
abbrev pub IsTurnedAway : Publisher → Pumped → Type 0
IsTurnedAway p r =
    (is_some r.status ≡ true) × (r.sent ≡ []) × r.publisher.subscribers ≡ p.subscribers

-- On a publisher whose maps agree and whose histories are no longer than its replay window, while ids
-- and queue capacities do not overflow, no call that the handler of `Subscribe` makes to the publisher
-- throws, whatever outputs the publisher handles, whichever streams the other handlers read, leave or
-- open, and whatever the client does, and the maps agree after it. The handler answers with a status,
-- sends nothing and changes no subscriber; or it opens a stream under the next id, and still runs; or
-- it has ended, and then the subscriber is gone and no gateway names it.
pub serve_subscribe-Leaves :
    (g : String) (asked : List ℕ) (from : Assoc ℕ) (turns : List Turn) (p : Publisher)
    → IsConsistent p
    → IsBounded p
    → p.next_id + 1 + opens_during turns < word
    → p.options.queue_capacity + replay_count from p < word
    → All (Rooms p.options) turns
    → (r : Pumped) × (serve_subscribe g asked from turns p ≡ some r)
      × IsConsistent r.publisher
      × (IsTurnedAway p r ⊎ ((r.status ≡ none) ⊎ IsGone p.next_id r.publisher))
unfolding serve_subscribe
serve_subscribe-Leaves g asked from turns p c bounded left room rooms =
    let ids_left : p.next_id + 1 < word = omega (arith, left) in
    let (x, done, d, how) = subscribe-Answers g asked from p c ids_left room in
    elim how [
      | inl (wrong, nothing, no_requests, subs, store) ↦
          rw
            (
              done,
              refused-Leaves SubscriberKind.market turns x.publisher x.result.error
                  x.result.subscription wrong,
            )
            (_, refl, d, inl (refl, refl, subs))
      | inr (good, recent, result, requests, entry, s, found, name, items) ↦
          let (joins, few) = subscribe-Joins g asked from p x c ids_left done in
          let same = subscribe-Notes g asked from p x done in
          let able : Able p.options (opens_during turns) x.publisher = record {
            consistent = d;
            bounded = SameHistory-IsBounded p x.publisher same bounded;
            options = same.2;
            ids_left = omega (arith, left, few);
          } in
          let (r, e, f, ends) =
            pump-Leaves p.options SubscriberKind.market p.next_id turns x.publisher able rooms in
          rw (done, result, e) (r, refl, f, inr ends)
    ]
