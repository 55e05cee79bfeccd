-- ===== src/Driver/System/Tasks.antt =====
-- The count of tasks of src/driver.rs, which `close` waits for, in every reachable state.
use fogws.Prelude.{ℕ, ◌+◌, ◌≡◌, arith, List, [], ◌∷◌, ◌≢◌, All}
use fogws.Tokio.{Watch}
use fogws.Driver.Wire.{Tungstenite}
use fogws.Driver.View.{View}
use fogws.Driver.Order.{Inv}
use fogws.Driver.Logic.{caller}
use fogws.Driver.Store.{view}
use fogws.Driver.System.{Thread, System, Reach, start}
use fogws.Driver.System.Moved.{guards_of, OtherSafe}
use fogws.Driver.System.Invariant.{start-Good}
use fogws.Driver.System.Safety.{HasEnded, unguarded-HasEnded, Reach-Good}

unguarded_others :
    (v : View) (ths : List Thread)
    → Inv v
    → All (OtherSafe v) ths
    → guards_of ths ≡ 0
    → All (λ th. th.role ≢ caller → HasEnded th) ths
unguarded_others v [] inv safe none_held = tt
unguarded_others v (th ∷ ths) inv safe none_held = (
  λ task. unguarded-HasEnded th v inv task safe.0.safe (omega arith),
  unguarded_others v ths inv safe.1 (omega arith),
)

module _ (t : Watch) (w : Tungstenite) (fuel : ℕ) where
  -- The count of tasks is the number of guards that the reader and the other threads hold: every
  -- guard is counted, and no drop of a guard is lost to the saturating subtraction.
  pub tasks_counted :
      {s : System t}
      → Reach t (start t w fuel) s
      → (view t s.store).tasks_remaining ≡ s.reader.guards + guards_of s.others
  tasks_counted r = (Reach-Good t r (start-Good t w fuel)).counted

  -- When the count of tasks is zero, for which `close` waits, the reader has ended, and so have the
  -- writer and every watchdog.
  pub no_tasks_left :
      {s : System t}
      → Reach t (start t w fuel) s
      → (view t s.store).tasks_remaining ≡ 0
      → HasEnded s.reader × All (λ th. th.role ≢ caller → HasEnded th) s.others
  no_tasks_left {s} r zero_left =
      let good = Reach-Good t r (start-Good t w fuel) in
      (
        unguarded-HasEnded s.reader _ good.inv (λ c. ground (arith, good.reader_role))
            good.reader_safe (omega (arith, good.counted)),
        unguarded_others _ s.others good.inv good.others_safe (omega (arith, good.counted)),
      )
