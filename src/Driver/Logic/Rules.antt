-- ===== src/Driver/Logic/Rules.antt =====
-- Proof rules for the calls of src/driver.rs, in the order in which a program makes them.
use fogws.Prelude.{ℕ, zero, suc, Bool, true, false, ◌≡◌, refl, arith}
use fogws.Error.{DriverError}
use fogws.Driver.State.{closed, terminal_update, writer_failure_update, abort_update, is_terminal}
use fogws.Driver.Task.{
  Op, Answer, Task, halt, out_of_fuel, call, borrow_state, modify_state, modify_state_with,
  modify_shutdown, new_guard, drop_guard, spawn_watchdog, abort_reader, abort_writer,
  state_changed_or_timeout, changed, elapsed,
}
use fogws.Driver.Publish.{terminal_or_timeout}
use fogws.Driver.View.{View, after, Allowed}
use fogws.Driver.Order.{Inv, IsClosed, IsClosed-Later}
use fogws.Driver.Logic.{Role, HoldsGuard, held, Owns, Runs, Runs-done, Runs-if, Stable}
use fogws.Driver.Logic.Access.{
  Fits, Kept, is_plain, plain_access, publish_terminal_access, writer_failure_access,
  signal_abort_access, abort_reader_access, abort_writer_access,
}

-- The calls that change nothing, for the shared state or for the guards.
abbrev pub is_quiet : Op → Bool
is_quiet new_guard = false
is_quiet drop_guard = false
is_quiet (spawn_watchdog _) = false
is_quiet o = is_plain o

quiet_lem :
    (o : Op) (g : ℕ) (w : View)
    → is_quiet o ≡ true
    → (is_plain o ≡ true) × (after o w ≡ w) × (held o g ≡ g) × Owns o g
unfolding after
quiet_lem new_guard g w h = absurd (ground arith)
quiet_lem o g w h = ground arith

abbrev pub IsClosedNow : View → Type 0
IsClosedNow v = IsClosed v.state

pub IsClosedNow-Stable : (r : Role) → Stable r IsClosedNow
IsClosedNow-Stable r v w env h = IsClosed-Later v w env.later h

-- A change of the outcome to `e` is allowed now, and stays so.
pub record CanPublish (r : Role) (e : DriverError) (P : View → Type 0) : Type 0 where
  pub stable : Stable r P
  pub fits : (w : View) → P w → Fits e w.state

module _ {R : Type 0} (r : Role) (g : ℕ) (holds : HoldsGuard r g) (Q : R → ℕ → View → Type 0) where
  -- One call that is no move of the guards, from a stable precondition.
  pub access-call :
      (o : Op) (k : Answer o → Task R) (P : View → Type 0) (v : View)
      → held o g ≡ g
      → Owns o g
      → Stable r P
      → P v
      → ((w : View) → P w → Inv w → Kept r o w)
      → ((a : Answer o) (w : View)
          → P w
          → Inv (after o w)
          → Allowed o w a
          → Runs r (k a) Q g (after o w))
      → Runs r (call o k) Q g v
  unfolding Runs
  access-call o k P v same owns stable p kept rest = λ w env inv.
      let now = stable v w env p in
      let step = kept w now inv in
      (
        record { holds = holds; owns = owns; moves = step.moves; inv = step.inv },
        λ a al. rw same (rest a w now step.inv al),
      )

  pub quiet-call :
      (o : Op) (k : Answer o → Task R) (P : View → Type 0) (v : View)
      → is_quiet o ≡ true
      → Stable r P
      → P v
      → ((a : Answer o) (w : View) → P w → Inv w → Allowed o w a → Runs r (k a) Q g w)
      → Runs r (call o k) Q g v
  unfolding Runs
  quiet-call o k P v quiet stable p rest = λ w env inv.
      let (plain, same, kept_guards, owns) = quiet_lem o g w quiet in
      let step = plain_access r o w plain inv in
      (
        record { holds = holds; owns = owns; moves = step.moves; inv = step.inv },
        λ a al. rw (kept_guards, same) (rest a w (stable v w env p) inv al),
      )

  -- A program out of fuel never gets an answer.
  pub out_of_fuel-Runs : (v : View) → Runs r out_of_fuel Q g v
  out_of_fuel-Runs v = quiet-call halt _ (λ _. Unit) v refl (λ _ _ _ _. tt) tt λ a _ _ _ _. absurd a

  -- A call that makes, drops or hands over a guard.
  pub guard-call :
      (o : Op) (k : Answer o → Task R) (P : View → Type 0) (v : View)
      → is_plain o ≡ true
      → Owns o g
      → Stable r P
      → P v
      → ((a : Answer o) (w : View) → P w → Inv (after o w) → Runs r (k a) Q (held o g) (after o w))
      → Runs r (call o k) Q g v
  unfolding Runs
  guard-call o k P v plain owns stable p rest = λ w env inv.
      let step = plain_access r o w plain inv in
      (
        record { holds = holds; owns = owns; moves = step.moves; inv = step.inv },
        λ a al. rest a w (stable v w env p) step.inv,
      )

  pub publish_terminal-call :
      (e : DriverError) (k : Bool → Task R) (P : View → Type 0) (v : View)
      → CanPublish r e P
      → P v
      → ((a : Bool) (w : View) → IsClosed w.state → Inv w → Runs r (k a) Q g w)
      → Runs r (call (modify_state (terminal_update e)) k) Q g v
  publish_terminal-call e k P v can p rest =
      access-call (modify_state (terminal_update e)) k P v refl tt can.stable p
        (λ w q inv. publish_terminal_access r e w (can.fits w q) inv)
        (λ a w q inv al.
          rest a (after (modify_state (terminal_update e)) w)
            (unfold after terminal_update in ground arith) inv)

  pub publish_writer_failure-call :
      (e : DriverError) (k : DriverError → Task R) (v : View)
      → ((a : DriverError) (w : View) → w.state ≡ closed a → Inv w → Runs r (k a) Q g w)
      → Runs r (call (modify_state_with (writer_failure_update e)) k) Q g v
  publish_writer_failure-call e k v rest =
      access-call (modify_state_with (writer_failure_update e)) k (λ _. Unit) v refl tt
        (λ _ _ _ _. tt) tt (λ w q inv. writer_failure_access r e w inv)
        (λ a w q inv al.
          rest a (after (modify_state_with (writer_failure_update e)) w)
            (unfold after writer_failure_update in ground arith) inv)

  pub signal_abort-call :
      (k : Bool → Task R) (v : View)
      → IsClosed v.state
      → ((a : Bool) (w : View) → IsClosed w.state → Inv w → Runs r (k a) Q g w)
      → Runs r (call (modify_shutdown abort_update) k) Q g v
  signal_abort-call k v h rest =
      access-call (modify_shutdown abort_update) k IsClosedNow v refl tt (IsClosedNow-Stable r) h
        (λ w q inv. signal_abort_access r w q inv)
        (λ a w q inv al. rest a (after (modify_shutdown abort_update) w) (unfold after in q) inv)

  pub abort_reader-call :
      (k : Unit → Task R) (v : View)
      → IsClosed v.state
      → ((w : View) → IsClosed w.state → Inv w → Runs r (k tt) Q g w)
      → Runs r (call abort_reader k) Q g v
  abort_reader-call k v h rest =
      access-call abort_reader k IsClosedNow v refl tt (IsClosedNow-Stable r) h
        (λ w q inv. abort_reader_access r w q inv)
        (λ a w q inv al. rest (after abort_reader w) (unfold after in q) inv)

  pub abort_writer-call :
      (k : Unit → Task R) (v : View)
      → IsClosed v.state
      → ((w : View) → IsClosed w.state → Inv w → Runs r (k tt) Q g w)
      → Runs r (call abort_writer k) Q g v
  abort_writer-call k v h rest =
      access-call abort_writer k IsClosedNow v refl tt (IsClosedNow-Stable r) h
        (λ w q inv. abort_writer_access r w q inv)
        (λ a w q inv al. rest (after abort_writer w) (unfold after in q) inv)

-- A wait for the end of the connection keeps any stable fact; without a timeout, it ends when the
-- connection is closed.
pub terminal_or_timeout-Runs :
    (r : Role) (g : ℕ)
    → HoldsGuard r g
    → (Q : Bool → ℕ → View → Type 0) (P : View → Type 0) → Stable r P
    → ((w : View) → P w → IsClosed w.state → Q false g w)
    → ((w : View) → P w → Q true g w)
    → (fuel : ℕ) (v : View) → P v
    → Runs r (terminal_or_timeout fuel) Q g v
unfolding terminal_or_timeout
terminal_or_timeout-Runs r g holds Q P stable ended late zero v p = out_of_fuel-Runs r g holds Q v
terminal_or_timeout-Runs r g holds Q P stable ended late (suc fuel) v p =
    quiet-call r g holds Q borrow_state _ P v refl stable p λ a w q inv al.
      Runs-if r (is_terminal a) _ _ Q g w
        (λ e. Runs-done r _ Q g w (ended w q (unfold is_terminal in ground arith)))
        (λ e. quiet-call r g holds Q state_changed_or_timeout _ P w refl stable q (elim [
          | changed true ↦
              λ u s _ _. terminal_or_timeout-Runs r g holds Q P stable ended late fuel u s
          | changed false ↦ λ u s _ no. absurd (ground arith)
          | elapsed ↦ λ u s _ _. Runs-done r _ Q g u (late u s)
        ]))
