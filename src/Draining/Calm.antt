-- ===== src/Draining/Calm.antt =====
-- What stays behind of the drain between calls (engine/src/stops.cpp, and the last test of
-- check_invariants in engine/src/book_levels.cpp).
use order_book_engine.Prelude.{
  suc, ℤ, some, List, [], ◌≡◌, refl, ap, ◌∙◌, inl, inr, true, false, Bool-cases, arith,
}
use order_book_engine.Book.State.{Book, emit}
use order_book_engine.Book.Stops.{wake_stops}
use order_book_engine.Book.Cascade.{drain, stop_count, check_and_trigger_stops}
use order_book_engine.Book.Calls.{Call, run}
use order_book_engine.Tracking.{Tracking, CallTracking}
use order_book_engine.Tracking.Calls.{run_tracked}
use order_book_engine.Draining.Count.{drain_stops_ends}

pub record IsCalm (b : Book) : Type 0 where
  pub triggered : b.triggered_stops ≡ []
  pub draining : b.draining_stops ≡ false

-- What keeps a calm book calm.
abbrev pub KeepsCalm : Book → Book → Type 0
KeepsCalm b c = IsCalm b → IsCalm c

pub KeepsCalm-tracking : Tracking KeepsCalm
unfolding emit
KeepsCalm-tracking = record {
  trans = λ b c d h k calm. k (h calm);
  same = λ b c e calm. record {
    triggered = ap (λ r. r.triggered_stops) e ∙ calm.triggered;
    draining = ap (λ r. r.draining_stops) e ∙ calm.draining;
  };
  finished = λ b c id state e calm. record {
    triggered = ap (λ r. r.triggered_stops) e ∙ calm.triggered;
    draining = ap (λ r. r.draining_stops) e ∙ calm.draining;
  };
  emitted = λ e b calm. record { triggered = calm.triggered; draining = calm.draining };
}

drain-IsCalm : (now : ℤ) (b : Book) → IsCalm (drain now b)
drain-IsCalm now b = record {
  triggered =
      drain_stops_ends (suc (stop_count b)) now (record b { draining_stops = true }) (omega arith);
  draining = refl;
}

pub wake_stops_flag :
    (low high : ℤ) (b : Book) → (wake_stops low high b).draining_stops ≡ b.draining_stops
unfolding wake_stops
wake_stops_flag low high b = refl

check_and_trigger_stops-IsCalm :
    (low high now : ℤ) (b : Book) → KeepsCalm b (check_and_trigger_stops low high now b)
unfolding check_and_trigger_stops
check_and_trigger_stops-IsCalm low high now b calm = elim (Bool-cases b.halted) [
  | inl h ↦ simp h calm
  | inr h ↦
      simp (h, wake_stops_flag low high b, calm.draining) (drain-IsCalm now (wake_stops low high b))
]

KeepsCalm-calls : CallTracking KeepsCalm
KeepsCalm-calls = record {
  tracking = KeepsCalm-tracking;
  dormant = λ b c e calm. record {
    triggered = ap (λ r. r.triggered_stops) e ∙ calm.triggered;
    draining = ap (λ r. r.draining_stops) e ∙ calm.draining;
  };
  checked = check_and_trigger_stops-IsCalm;
}

-- A session of calls leaves a calm book calm: every stop that trades wake, or that the orders fired
-- by stops wake in turn, has been fired or sent back by a halt before its call returns, and the drain
-- flag is off again.
pub run-IsCalm : (cs : List (ℤ × Call)) (b c : Book) → run cs b ≡ some c → IsCalm b → IsCalm c
run-IsCalm = run_tracked KeepsCalm KeepsCalm-calls
