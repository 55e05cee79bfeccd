-- ===== src/Driver/Logic/Closing.antt =====
-- `close` of src/driver.rs, whatever the other tasks do: it keeps what they rely on, gives back every
-- guard that it makes, and returns the result that the final outcome stands for.
use fogws.Prelude.{
  ℕ, zero, suc, ◌≤◌, true, false, ◌≡◌, refl, sym, arith, Option, none, some, Result, ok, ◌==◌,
  if◌then◌else◌,
}
use fogws.Error.{DriverError}
use fogws.Driver.State.{DriverState, closed, start_closing_update, local_close_update, close_result}
use fogws.Driver.Task.{
  op, ◌>>=◌, borrow_state, modify_state, modify_shutdown, borrow_tasks, state_changed,
  tasks_changed, swap_closing, swap_timeout_started, new_guard, drop_guard, spawn_watchdog,
}
use fogws.Driver.Publish.{
  wait_for_outcome, outcome_round, wait_for_driver_tasks, signal_local_close,
}
use fogws.Driver.Close.{begin_close, close_outcome, close_finish, close}
use fogws.Driver.View.{View, after}
use fogws.Driver.Order.{rank}
use fogws.Driver.Logic.{caller, Runs, Runs-done, Runs-bind, Runs-if, Stable}
use fogws.Driver.Logic.Access.{
  swap_closing_access, start_closing_access, signal_local_close_access, swap_timeout_started_access,
}
use fogws.Driver.Logic.Rules.{out_of_fuel-Runs, quiet-call, guard-call, access-call}

abbrev Anything : View → Type 0
Anything _ = Unit

Anything-Stable : Stable caller Anything
Anything-Stable _ _ _ _ = tt

abbrev Marked : View → Type 0
Marked v = v.closing ≡ true

Marked-Stable : Stable caller Marked
Marked-Stable v w env h = env.later.closing_up h

abbrev PastOpen : View → Type 0
PastOpen v = 1 ≤ rank v.state

PastOpen-Stable : Stable caller PastOpen
PastOpen-Stable v w env h = omega (arith, env.later.state_up)

abbrev EndedWith : DriverError → View → Type 0
EndedWith e v = v.state ≡ closed e

EndedWith-Stable : (e : DriverError) → Stable caller (EndedWith e)
EndedWith-Stable e v w env h = ground (arith, env.later.keeps_closed)

module _ (Q : Unit {0} → ℕ → View → Type 0) (rest : (v : View) → Q tt 0 v) where
  -- A way out that drops the guard of the watchdog, or hands it over.
  dropped-Runs : (v : View) → Runs caller (op drop_guard) Q 1 v
  dropped-Runs v =
      guard-call caller 1 tt Q drop_guard _ Anything v refl (omega arith) Anything-Stable tt
        λ _ u _ _. Runs-done caller _ Q 0 _ (rest _)

  spawned-Runs : (fuel : ℕ) (v : View) → Runs caller (op (spawn_watchdog fuel)) Q 1 v
  spawned-Runs fuel v =
      guard-call caller 1 tt Q (spawn_watchdog fuel) _ Anything v refl (omega arith) Anything-Stable
        tt λ _ u _ _. Runs-done caller _ Q 0 _ (rest _)

  signalled-Runs :
      (fuel : ℕ) (v : View)
      → PastOpen v
      → Runs caller
          (signal_local_close >>= λ _. op (swap_timeout_started true) >>= λ timeout_started.
            if timeout_started then op drop_guard else op (spawn_watchdog fuel))
          Q
          1
          v
  signalled-Runs fuel v p =
      unfold signal_local_close in
      access-call caller 1 tt Q (modify_shutdown local_close_update) _ PastOpen v refl tt
        PastOpen-Stable p (λ u q inv. signal_local_close_access caller u (ground arith) inv)
        λ _ u _ _ _.
          access-call caller 1 tt Q (swap_timeout_started true) _ Anything _ refl tt Anything-Stable
            tt (λ x _ inv. swap_timeout_started_access x inv)
            λ a x _ _ _. Runs-if caller a _ _ Q 1 _ (λ _. dropped-Runs _) (λ _. spawned-Runs fuel _)

  begin_close-Runs : (fuel : ℕ) (v : View) → Runs caller (begin_close fuel) Q 0 v
  unfolding begin_close
  begin_close-Runs fuel v =
      guard-call caller 0 tt Q new_guard _ Anything v refl tt Anything-Stable tt λ _ u _ _.
        access-call caller 1 tt Q (swap_closing true) _ Anything _ refl tt Anything-Stable tt
          (λ x _ inv. swap_closing_access caller x inv)
          λ a x _ _ _.
            Runs-if caller a _ _ Q 1 _ (λ _. dropped-Runs _)
              λ _.
                access-call caller 1 tt Q (modify_state start_closing_update) _ Marked
                  (after (swap_closing true) x) refl tt Marked-Stable (unfold after in refl)
                  (λ y m inv. start_closing_access y m inv)
                  λ b y _ _ _.
                    Runs-if caller b _ _ Q 1 (after (modify_state start_closing_update) y)
                      (λ _.
                        signalled-Runs fuel (after (modify_state start_closing_update) y)
                          (unfold after start_closing_update in ground arith))
                      (λ _. dropped-Runs _)

outcome_round-Runs :
    (Q : Option DriverError → ℕ → View → Type 0)
    → ((e : DriverError) (v : View) → EndedWith e v → Q (some e) 0 v)
    → ((v : View) → Q none 0 v)
    → (s : DriverState) (v : View) → s ≡ v.state
    → Runs caller (outcome_round s) Q 0 v
unfolding outcome_round
outcome_round-Runs Q rest more (closed e) v same = Runs-done caller _ Q 0 v (rest e v (sym same))
outcome_round-Runs Q rest more s v same =
    quiet-call caller 0 tt Q state_changed _ Anything v refl Anything-Stable tt (elim [
      | true ↦ λ u _ _ _. Runs-done caller _ Q 0 u (more u)
      | false ↦ λ u _ _ no. absurd (ground arith)
    ])

wait_for_outcome-Runs :
    (Q : DriverError → ℕ → View → Type 0)
    → ((e : DriverError) (v : View) → EndedWith e v → Q e 0 v)
    → (fuel : ℕ) (v : View) → Runs caller (wait_for_outcome fuel) Q 0 v
unfolding wait_for_outcome
wait_for_outcome-Runs Q rest zero v = out_of_fuel-Runs caller 0 tt Q v
wait_for_outcome-Runs Q rest (suc fuel) v =
    quiet-call caller 0 tt Q borrow_state _ Anything v refl Anything-Stable tt λ s u _ _ al.
      Runs-bind caller (outcome_round s) _ Q 0 u (
        outcome_round-Runs _ (λ e x c. Runs-done caller _ Q 0 x (rest e x c))
          (λ x. wait_for_outcome-Runs Q rest fuel x) s u al)

-- The wait for the tasks does not fail, and keeps the outcome.
wait_for_driver_tasks-Runs :
    (Q : Result (Unit {0}) DriverError → ℕ → View → Type 0) (e : DriverError)
    → ((v : View) → EndedWith e v → Q (ok tt) 0 v)
    → (fuel : ℕ) (v : View) → EndedWith e v
    → Runs caller (wait_for_driver_tasks fuel) Q 0 v
unfolding wait_for_driver_tasks
wait_for_driver_tasks-Runs Q e rest zero v p = out_of_fuel-Runs caller 0 tt Q v
wait_for_driver_tasks-Runs Q e rest (suc fuel) v p =
    quiet-call caller 0 tt Q borrow_tasks _ (EndedWith e) v refl (EndedWith-Stable e) p λ n u q _ _.
      Runs-if caller (n == 0) _ _ Q 0 u (λ _. Runs-done caller _ Q 0 u (rest u q))
        λ _.
          quiet-call caller 0 tt Q tasks_changed _ (EndedWith e) u refl (EndedWith-Stable e) q
            (elim [
              | true ↦ λ x s _ _. wait_for_driver_tasks-Runs Q e rest fuel x s
              | false ↦ λ x s _ no. absurd (ground arith)
            ])

close_outcome-Runs :
    (Q : DriverError → ℕ → View → Type 0)
    → ((e : DriverError) (v : View) → EndedWith e v → Q e 0 v)
    → (fuel : ℕ) (s : DriverState) (v : View) → s ≡ v.state
    → Runs caller (close_outcome fuel s) Q 0 v
unfolding close_outcome
close_outcome-Runs Q rest fuel (closed e) v same = Runs-done caller _ Q 0 v (rest e v (sym same))
close_outcome-Runs Q rest fuel s v same =
    Runs-bind caller (begin_close fuel) _ Q 0 v
      (begin_close-Runs _ (λ u. wait_for_outcome-Runs Q rest fuel u) fuel v)

-- The final outcome, and what `close` makes of it.
abbrev pub ClosePost : Result (Unit {0}) DriverError → ℕ → View → Type 0
ClosePost result g v =
    (g ≡ 0) × ((e : DriverError) × (v.state ≡ closed e) × (result ≡ close_result e))

pub close-Runs : (fuel : ℕ) (v : View) → Runs caller (close fuel) ClosePost 0 v
unfolding close
close-Runs fuel v =
    quiet-call caller 0 tt _ borrow_state _ Anything v refl Anything-Stable tt λ s u _ _ al.
      Runs-bind caller (close_outcome fuel s) _ _ 0 u (
        close_outcome-Runs _
          (λ e x p. Runs-bind caller (wait_for_driver_tasks fuel) _ _ 0 x (
            wait_for_driver_tasks-Runs _ e
              (λ y q. Runs-done caller _ _ 0 y (refl, (e, q, unfold close_finish in refl))) fuel x
              p))
          fuel s u al)
