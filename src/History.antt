-- ===== src/History.antt =====
-- What operations of class Book add to its events, owners and finished orders (engine/src).
pub mod Cascade
pub mod Sessions
use order_book_engine.Prelude.{
  ℕ, ◌+◌, ◌%◌, Bool, true, false, Option, none, some, List, [], ◌∷◌, ◌++◌, ◌≡◌, refl, sym, ap, ◌∙◌,
  ◌⊎◌, inl, inr, if◌then◌else◌, ◌==◌, arith, append_assoc, append-nil, lookup, contains, insert,
  emplace, lookup-insert, lookup-emplace, Bool-cases,
}
use order_book_engine.Types.{EngineEvent, FinalState}
use order_book_engine.Book.State.{Book, word, emit, ends_order, accepts_order}
use order_book_engine.Tracking.{Tracking, Records}

-- The events are numbered from `first` on, modulo 2 ^ 64, and `next` is the number after them.
abbrev pub Consecutive : ℕ → List EngineEvent → ℕ → Type 0
Consecutive first [] next = next ≡ first
Consecutive first (e ∷ es) next =
    (e.sequence_number ≡ first) × Consecutive ((first + 1) % word) es next

pub Consecutive-append :
    (es fs : List EngineEvent) (a b c : ℕ)
    → Consecutive a es b
    → Consecutive b fs c
    → Consecutive a (es ++ fs) c
Consecutive-append [] fs a b c h k = ground arith
Consecutive-append (e ∷ es) fs a b c h k =
    (h.0, Consecutive-append es fs ((a + 1) % word) b c h.1 k)

-- `c` is a later state of `b`: its events are those of `b` and new ones, numbered on without a gap;
-- an owner that is recorded stays; an order that is finished stays finished.
pub record Extends (b c : Book) : Type 0 where
  pub config : c.config ≡ b.config
  pub draining : c.draining_stops ≡ b.draining_stops
  pub events :
      (new : List EngineEvent) × (c.events ≡ b.events ++ new)
      × Consecutive b.next_seq new c.next_seq
  pub owners : (k v : ℕ) → lookup k b.owner_of ≡ some v → lookup k c.owner_of ≡ some v
  pub finished : (k : ℕ) → contains k b.finished_orders ≡ true → contains k c.finished_orders ≡ true

pub Extends-trans : {b c d : Book} → Extends b c → Extends c d → Extends b d
Extends-trans {b} {c} {d} h k = record {
  config = k.config ∙ h.config;
  draining = k.draining ∙ h.draining;
  events =
      let (es, p, n) = h.events in
      let (fs, q, m) = k.events in
      (
        es ++ fs,
        q ∙ ap (λ xs. xs ++ fs) p ∙ append_assoc b.events es fs,
        Consecutive-append es fs b.next_seq c.next_seq d.next_seq n m,
      );
  owners = λ i v e. k.owners i v (h.owners i v e);
  finished = λ i e. k.finished i (h.finished i e);
}

-- A step that records nothing but, possibly, the end of an order.
pub Extends-insert :
    (b c : Book) (i : ℕ) (state : FinalState)
    → c.config ≡ b.config
    → c.draining_stops ≡ b.draining_stops
    → c.events ≡ b.events
    → c.next_seq ≡ b.next_seq
    → c.owner_of ≡ b.owner_of
    → (c.finished_orders ≡ b.finished_orders)
      ⊎ (c.finished_orders ≡ insert i state b.finished_orders)
    → Extends b c
Extends-insert b c i state p q r s t u = record {
  config = p;
  draining = q;
  events = ([], r ∙ sym (append-nil b.events), s);
  owners = λ k v e. ground arith;
  finished = λ k e. ground (arith, lookup-insert i k state b.finished_orders);
}

pub Extends-same :
    (b c : Book)
    → c.config ≡ b.config
    → c.draining_stops ≡ b.draining_stops
    → c.events ≡ b.events
    → c.next_seq ≡ b.next_seq
    → c.owner_of ≡ b.owner_of
    → c.finished_orders ≡ b.finished_orders
    → Extends b c
Extends-same b c p q r s t u = Extends-insert b c 0 FinalState.filled p q r s t (inl u)

pub Extends-refl : (b : Book) → Extends b b
Extends-refl b = Extends-same b b refl refl refl refl refl refl

pub Extends-emit : (e : EngineEvent) (b : Book) → Extends b (emit e b)
unfolding emit
Extends-emit e b = record {
  config = refl;
  draining = refl;
  events = (record e { sequence_number = b.next_seq } ∷ [], refl, (refl, refl));
  owners = λ k v h. ground (arith, lookup-emplace e.order_id k e.owner_id b.owner_of);
  finished =
      λ k h. ground (arith, lookup-insert e.order_id k FinalState.cancelled b.finished_orders);
}

pub Extends-tracking : Tracking Extends
Extends-tracking = record {
  trans = λ b c d h k. Extends-trans h k;
  same = λ b c e.
      Extends-same b c (ap (λ r. r.config) e) (ap (λ r. r.draining_stops) e) (ap (λ r. r.events) e)
        (ap (λ r. r.next_seq) e) (ap (λ r. r.owner_of) e) (ap (λ r. r.finished_orders) e);
  finished = λ b c id state e.
      Extends-insert b c id state (ap (λ r. r.config) e) (ap (λ r. r.draining_stops) e)
        (ap (λ r. r.events) e) (ap (λ r. r.next_seq) e) (ap (λ r. r.owner_of) e)
        (inr (ap (λ r. r.finished_orders) e));
  emitted = Extends-emit;
}
