-- ===== src/Tracking/Calls.antt =====
-- Tracked relations through any sequence of calls of class Book (engine/include/engine/book.hpp).
use order_book_engine.Prelude.{ℤ, Option, none, some, List, [], ◌∷◌, ◌≡◌, refl, subst}
use order_book_engine.Book.State.{Book}
use order_book_engine.Book.Calls.{
  Call, add, cancel, modify, place_stop, cancel_stop, modify_stop, call, and_then, run,
}
use order_book_engine.Tracking.{CallTracking}
use order_book_engine.Tracking.Commands.{
  add_order_tracked, cancel_order_tracked, modify_order_tracked,
}
use order_book_engine.Tracking.StopCommands.{
  RelatedIf, place_stop_order_tracked, cancel_stop_order_tracked, modify_stop_order_tracked,
}

module _ (R : Book → Book → Type 0) (calls : CallTracking R) where
  call_tracked : (c : Call) (now : ℤ) (b : Book) → RelatedIf R b (call c now b)
  unfolding call
  call_tracked (add o) now b = add_order_tracked R calls o now b
  call_tracked (cancel id requester) now b = cancel_order_tracked R calls id requester now b
  call_tracked (modify id requester price quantity) now b =
      modify_order_tracked R calls id requester price quantity now b
  call_tracked (place_stop s) now b = place_stop_order_tracked R calls s now b
  call_tracked (cancel_stop id requester) now b =
      cancel_stop_order_tracked R calls id requester now b
  call_tracked (modify_stop id requester stop_price limit_price quantity) now b =
      modify_stop_order_tracked R calls id requester stop_price limit_price quantity now b

  RelatedIf-trans : (b c : Book) (d : Option Book) → R b c → RelatedIf R c d → RelatedIf R b d
  RelatedIf-trans b c none h k = tt
  RelatedIf-trans b c (some d) h k = calls.trans _ _ _ h k

  and_then_tracked :
      (b : Book) (m : Option Book) (f : Book → Option Book)
      → RelatedIf R b m
      → ((c : Book) → RelatedIf R c (f c))
      → RelatedIf R b (and_then m f)
  and_then_tracked b none f h k = tt
  and_then_tracked b (some c) f h k = RelatedIf-trans b c (f c) h (k c)

  run_related : (cs : List (ℤ × Call)) (b : Book) → RelatedIf R b (run cs b)
  unfolding run
  run_related [] b = calls.same b b refl
  run_related ((now, c) ∷ cs) b =
      and_then_tracked b (call c now b) (run cs) (call_tracked c now b) (run_related cs)

  -- Whatever every call keeps to, a session keeps to.
  pub run_tracked : (cs : List (ℤ × Call)) (b c : Book) → run cs b ≡ some c → R b c
  run_tracked cs b c e = subst (RelatedIf R b) e (run_related cs b)
