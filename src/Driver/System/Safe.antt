-- ===== src/Driver/System/Safe.antt =====
-- Each thread of a connection runs a program that is safe whatever the others do, and is left with the
-- facts that its end stands for.
use fogws.Prelude.{ℕ, zero, suc, ◌≡◌, refl, subst, arith}
use fogws.Error.{DriverError}
use fogws.Driver.Wire.{Tungstenite}
use fogws.Driver.State.{closed, close_result}
use fogws.Driver.Task.{drop_guard}
use fogws.Driver.Close.{close, abort, watchdog as watchdog_program}
use fogws.Driver.Reader.{reader_task}
use fogws.Driver.Writer.{writer_task}
use fogws.Driver.View.{View, after}
use fogws.Driver.Order.{IsClosed, IsClosed-Later}
use fogws.Driver.Logic.{
  Role, reader, writer, watchdog, caller, HoldsGuard, Env, Runs, Runs-done, Runs-bind, Runs-later,
  Runs-weaken,
}
use fogws.Driver.Logic.Rules.{guard-call}
use fogws.Driver.Logic.Ends.{NoPeer, abort-Runs, watchdog-Runs}
use fogws.Driver.Logic.Reading.{reader_task-Runs}
use fogws.Driver.Logic.Writing.{writer_task-Runs}
use fogws.Driver.Logic.Closing.{close-Runs}
use fogws.Driver.System.{
  Outcome, finished, writer_ended, close_returned, dropped, Thread, watchdog_thread, close_thread,
  abort_thread, reader_thread, writer_thread, drop_guards,
}

-- What the end of a program says of the connection.
abbrev pub Ended : Role → Outcome → View → Type 0
Ended reader _ v = IsClosed v.state
Ended writer _ v = IsClosed v.state
Ended watchdog _ v = IsClosed v.state
Ended caller (close_returned result) v =
    (e : DriverError) × (v.state ≡ closed e) × (result ≡ close_result e)
Ended _ _ v = Unit

abbrev pub ThreadPost : Role → Outcome → ℕ → View → Type 0
ThreadPost r x g v = (g ≡ 0) × Ended r x v

abbrev pub Safe : Thread → View → Type 0
Safe th v = Runs th.role th.prog (ThreadPost th.role) th.guards v

Ended-later : (r : Role) (x : Outcome) (v w : View) → Env r v w → Ended r x v → Ended r x w
Ended-later reader x v w env h = IsClosed-Later v w env.later h
Ended-later writer x v w env h = IsClosed-Later v w env.later h
Ended-later watchdog x v w env h = IsClosed-Later v w env.later h
Ended-later caller finished v w env h = tt
Ended-later caller (writer_ended _) v w env h = tt
Ended-later caller (close_returned _) v w env h = (h.0, ground (arith, env.later.keeps_closed), h.2)
Ended-later caller dropped v w env h = tt

-- The others' moves leave a thread safe.
pub Safe-later : (th : Thread) (v w : View) → Env th.role v w → Safe th v → Safe th w
Safe-later th v w env p =
    Runs-later th.role th.prog _ th.guards v w (λ x h q. (q.0, Ended-later th.role x v w env q.1))
      env p

holds_suc : (r : Role) (n : ℕ) → HoldsGuard r (suc n)
holds_suc reader n = omega arith
holds_suc writer n = omega arith
holds_suc watchdog n = omega arith
holds_suc caller n = tt

pub drop_guards-Runs :
    (r : Role) (n : ℕ) (v : View) → Ended r dropped v → Runs r (drop_guards n) (ThreadPost r) n v
unfolding drop_guards
drop_guards-Runs r zero v h = Runs-done r dropped (ThreadPost r) 0 v (refl, h)
drop_guards-Runs r (suc n) v h =
    guard-call r (suc n) (holds_suc r n) (ThreadPost r) drop_guard _ (Ended r dropped) v refl
      (omega arith) (Ended-later r dropped) h
      λ _ u q _.
        subst (λ m. Runs r (drop_guards n) (ThreadPost r) m (after drop_guard u)) (omega arith)
          (drop_guards-Runs r n _ (Ended-same r u q))
  where
    Ended-same : (r : Role) (u : View) → Ended r dropped u → Ended r dropped (after drop_guard u)
    Ended-same reader u q = unfold after in q
    Ended-same writer u q = unfold after in q
    Ended-same watchdog u q = unfold after in q
    Ended-same caller u q = tt

pub reader_thread-Safe :
    (w : Tungstenite) (fuel : ℕ) (v : View) → NoPeer v → Safe (reader_thread w fuel) v
reader_thread-Safe w fuel v p = Runs-bind reader (reader_task w fuel) _ _ 1 v (
    Runs-weaken reader (reader_task w fuel) _ _ 1 v (λ _ h u q. Runs-done reader _ _ h u q)
      (reader_task-Runs w fuel v p))

pub writer_thread-Safe : (w : Tungstenite) (fuel : ℕ) (v : View) → Safe (writer_thread w fuel) v
writer_thread-Safe w fuel v = Runs-bind writer (writer_task w fuel) _ _ 1 v (
    Runs-weaken writer (writer_task w fuel) _ _ 1 v (λ _ h u q. Runs-done writer _ _ h u q)
      (writer_task-Runs w fuel v))

pub watchdog_thread-Safe : (fuel : ℕ) (v : View) → Safe (watchdog_thread fuel) v
watchdog_thread-Safe fuel v = Runs-bind watchdog (watchdog_program fuel) _ _ 1 v (
    Runs-weaken watchdog (watchdog_program fuel) _ _ 1 v (λ _ h u q. Runs-done watchdog _ _ h u q)
      (watchdog-Runs fuel v))

pub close_thread-Safe : (fuel : ℕ) (v : View) → Safe (close_thread fuel) v
close_thread-Safe fuel v = Runs-bind caller (close fuel) _ _ 0 v (
    Runs-weaken caller (close fuel) _ _ 0 v (λ _ h u q. Runs-done caller _ _ h u q)
      (close-Runs fuel v))

pub abort_thread-Safe : (v : View) → Safe abort_thread v
abort_thread-Safe v =
    Runs-bind caller abort _ _ 0 v
      (abort-Runs caller 0 tt _ (λ w _. Runs-done caller _ _ 0 w (refl, tt)) v)
