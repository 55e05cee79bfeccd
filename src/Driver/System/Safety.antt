-- ===== src/Driver/System/Safety.antt =====
-- The invariant of src/driver.rs in every reachable state, and the facts that an ended thread leaves.
use fogws.Prelude.{ℕ, ◌≡◌, refl, ◌⊎◌, inl, inr, ◌≢◌, arith}
use fogws.Tokio.{Watch}
use fogws.Driver.Task.{Op, Answer, Task, done, call}
use fogws.Driver.View.{View}
use fogws.Driver.Order.{Later, Later-refl, Later-trans, Inv}
use fogws.Driver.Logic.{Role, reader, writer, watchdog, caller, HoldsGuard, Runs}
use fogws.Driver.Store.{view}
use fogws.Driver.System.{
  Outcome, Thread, System, Step, Reach, reader_moves, other_moves, closes, aborts, here, next,
}
use fogws.Driver.System.Safe.{Safe}
use fogws.Driver.System.Moved.{Runs-next, Move-Moved}
use fogws.Driver.System.Invariant.{Good, Step-Good, mover-Moved}

pub Runs-ended :
    {R : Type 0} (r : Role) (m : Task R) (x : R) (Q : R → ℕ → View → Type 0) (g : ℕ) (v : View)
    → m ≡ done x
    → Runs r m Q g v
    → Q x g v
unfolding Runs
Runs-ended r m x Q g v e p = rw e at p

abbrev pub HasEnded : Thread → Type 0
HasEnded th = (x : Outcome) × (th.prog ≡ done x)

Task-cases :
    {R : Type 0} (m : Task R)
    → ((x : R) × (m ≡ done x)) ⊎ ((o : Op) × (k : Answer o → Task R) × (m ≡ call o k))
Task-cases (done x) = inl (x, refl)
Task-cases (call o k) = inr (o, k, refl)

-- A task that holds no guard has ended.
pub unguarded-HasEnded :
    (th : Thread) (v : View) → Inv v → th.role ≢ caller → Safe th v → th.guards ≡ 0 → HasEnded th
unguarded-HasEnded th v inv task safe none_held = elim (Task-cases th.prog) [
  | inl ended ↦ ended
  | inr (o, k, e) ↦ absurd (
      holding th.role th.guards task none_held
        (Runs-next th.role th.prog o k _ th.guards v e inv safe).0.holds)
]
  where
    holding : (r : Role) (g : ℕ) → r ≢ caller → g ≡ 0 → HoldsGuard r g → ⊥
    holding reader g task z h = omega arith
    holding writer g task z h = omega arith
    holding watchdog g task z h = omega arith
    holding caller g task z h = task refl

module _ (t : Watch) where
  Step-Later : {s u : System t} → Step t s u → Good t s → Later (view t s.store) (view t u.store)
  Step-Later {s} (reader_moves m) good =
      (Move-Moved t s.store s.reader good.inv good.reader_safe (omega (arith, good.counted))
        m).moves.later
  Step-Later {s} (other_moves before mover behind e m) good =
      (mover-Moved t good before mover behind e m).moves.later
  Step-Later {s} (closes fuel) good = Later-refl (view t s.store)
  Step-Later {s} aborts good = Later-refl (view t s.store)

  pub Reach-Good : {s u : System t} → Reach t s u → Good t s → Good t u
  Reach-Good here good = good
  Reach-Good (next r st) good = Step-Good t st (Reach-Good r good)

  pub Reach-Later :
      {s u : System t} → Reach t s u → Good t s → Later (view t s.store) (view t u.store)
  Reach-Later {s} here good = Later-refl (view t s.store)
  Reach-Later (next r st) good =
      Later-trans _ _ _ (Reach-Later r good) (Step-Later st (Reach-Good r good))
