-- ===== src/Driver/System/Claims.antt =====
-- How a call of src/driver.rs begins a local close: it wins the mark of closing, moves the state, and
-- spawns the watchdog, with no await between. An abort only sets the mark.
use fogws.Prelude.{
  ℕ, zero, suc, Bool, true, false, ◌≡◌, refl, none, some, arith, ◌==◌, if◌then◌else◌,
}
use fogws.Error.{DriverError}
use fogws.Driver.State.{
  DriverState, closed, closing, start_closing_update, terminal_update, abort_update,
}
use fogws.Driver.Task.{
  Op, Answer, Task, done, call, op, ◌>>=◌, modify_state, modify_state_with, modify_shutdown,
  swap_closing, swap_timeout_started, spawn_watchdog, is_await, state_changed, borrow_state,
  borrow_tasks, tasks_changed, drop_guard, store_closing, abort_reader, abort_writer,
}
use fogws.Driver.Publish.{
  signal_local_close, signal_abort, publish_terminal, wait_for_outcome, outcome_round,
  wait_for_driver_tasks,
}
use fogws.Driver.Close.{begin_close, close_outcome, close, abort, abandoned}
use fogws.Driver.System.{close_thread, abort_thread, drop_guards}

-- How far a call is with the beginning of a close: it has won the mark of closing, it has moved the
-- state, and it has marked the watchdog as started.
pub data Stage : Type 0 where
  idle claimed owing spawning : Stage

-- The calls that a program may make at a stage, and the stage after an answer.
abbrev pub At : Stage → Op → Type 0
At idle (swap_timeout_started _) = ⊥
At idle _ = Unit
At claimed (modify_state _) = Unit
At owing (modify_shutdown _) = Unit
At owing (swap_timeout_started _) = Unit
At spawning (spawn_watchdog _) = Unit
At _ _ = ⊥

abbrev pub Turn : Stage → (o : Op) → Answer o → Stage → Type 0
Turn idle (swap_closing b) a g = (b ≡ true) × (g ≡ (if a then idle else claimed))
Turn idle (modify_state f) a g = ((s : DriverState) → (f s).0 ≡ closing → s ≡ closing) × (g ≡ idle)
Turn idle (modify_state_with f) a g =
    ((s : DriverState) → (f s).0 ≡ closing → s ≡ closing) × (g ≡ idle)
Turn claimed (modify_state f) a g = (f ≡ start_closing_update) × (g ≡ (if a then owing else idle))
Turn owing (modify_shutdown f) a g = g ≡ owing
Turn owing (swap_timeout_started b) a g = (b ≡ true) × (g ≡ (if a then idle else spawning))
Turn _ _ _ g = g ≡ idle

unfoldable pub Claims : {R : Type 0} → Stage → Task R → Type 0
Claims g (done x) = g ≡ idle
Claims g (call o k) = At g o × ((a : Answer o) → (h : Stage) × Turn g o a h × Claims h (k a))

Claims-bind :
    {A B : Type 0} (g : Stage) (m : Task A) (f : A → Task B)
    → Claims g m
    → ((x : A) → Claims idle (f x))
    → Claims g (m >>= f)
unfolding Claims
Claims-bind g (done x) f p rest = rw p (rest x)
Claims-bind g (call o k) f p rest =
    (p.0, λ a. let (h, turn, q) = p.1 a in (h, turn, Claims-bind h (k a) f q rest))

done-Claims : {R : Type 0} (x : R) → Claims idle (done x)
unfolding Claims
done-Claims x = refl

-- A call that leaves the program at its stage.
Claims-call :
    {R : Type 0} (g : Stage) (o : Op) (k : Answer o → Task R)
    → At g o
    → ((a : Answer o) → Turn g o a g)
    → ((a : Answer o) → Claims g (k a))
    → Claims g (call o k)
unfolding Claims
Claims-call g o k p turn rest = (p, λ a. (g, turn a, rest a))

Claims-if :
    {R : Type 0} (g : Stage) (b : Bool) (m n : Task R)
    → Claims g m
    → Claims g n
    → Claims g (if b then m else n)
Claims-if g true m n p q = p
Claims-if g false m n p q = q

outcome_round-Claims : (s : DriverState) → Claims idle (outcome_round s)
unfolding Claims outcome_round
outcome_round-Claims (closed e) = refl
outcome_round-Claims s =
    Claims-call idle state_changed _ tt (λ _. refl) (elim [ true ↦ refl | false ↦ refl ])

wait_for_outcome-Claims : (fuel : ℕ) → Claims idle (wait_for_outcome fuel)
unfolding Claims wait_for_outcome
wait_for_outcome-Claims zero = (tt, λ a. absurd a)
wait_for_outcome-Claims (suc fuel) =
    Claims-call idle borrow_state _ tt (λ _. refl)
      λ s.
        Claims-bind idle (outcome_round s) _ (outcome_round-Claims s)
          (elim [ some e ↦ refl | none ↦ wait_for_outcome-Claims fuel ])

wait_for_driver_tasks-Claims : (fuel : ℕ) → Claims idle (wait_for_driver_tasks fuel)
unfolding Claims wait_for_driver_tasks
wait_for_driver_tasks-Claims zero = (tt, λ a. absurd a)
wait_for_driver_tasks-Claims (suc fuel) =
    Claims-call idle borrow_tasks _ tt (λ _. refl)
      λ n. Claims-if idle (n == 0) _ _ refl (
        Claims-call idle tasks_changed _ tt (λ _. refl)
          (elim [
            | true ↦ wait_for_driver_tasks-Claims fuel
            | false ↦
                Claims-call idle borrow_tasks _ tt (λ _. refl)
                  λ left. Claims-if idle (left == 0) _ _ refl refl
          ]))

drop_guard-Claims : Claims idle (op drop_guard)
unfolding Claims
drop_guard-Claims = (tt, λ _. (idle, refl, refl))

-- From the mark of the watchdog on.
mark_started-Claims :
    (fuel : ℕ)
    → Claims owing (
        op (swap_timeout_started true) >>= λ timeout_started.
        if timeout_started then op drop_guard else op (spawn_watchdog fuel))
unfolding Claims
mark_started-Claims fuel = (
  tt,
  elim [
    | true ↦ (idle, (refl, refl), drop_guard-Claims)
    | false ↦ (spawning, (refl, refl), (tt, λ _. (idle, refl, refl)))
  ],
)

-- From the move of the state on.
moved_state-Claims :
    (fuel : ℕ)
    → Claims claimed (
        op (modify_state start_closing_update) >>= λ close_started.
        if close_started
        then (signal_local_close >>= λ _. op (swap_timeout_started true) >>= λ timeout_started.
            if timeout_started then op drop_guard else op (spawn_watchdog fuel))
        else op drop_guard)
unfolding Claims signal_local_close
moved_state-Claims fuel = (
  tt,
  elim [
    | true ↦ (owing, (refl, refl), (tt, λ _. (owing, refl, mark_started-Claims fuel)))
    | false ↦ (idle, (refl, refl), drop_guard-Claims)
  ],
)

begin_close-Claims : (fuel : ℕ) → Claims idle (begin_close fuel)
unfolding Claims begin_close signal_local_close
begin_close-Claims fuel = (
  tt,
  λ _. (
    idle,
    refl,
    (
      tt,
      elim [
        | true ↦ (idle, (refl, refl), drop_guard-Claims)
        | false ↦ (claimed, (refl, refl), moved_state-Claims fuel)
      ],
    ),
  ),
)

close_outcome-Claims : (fuel : ℕ) (s : DriverState) → Claims idle (close_outcome fuel s)
unfolding Claims close_outcome
close_outcome-Claims fuel (closed e) = refl
close_outcome-Claims fuel s =
    Claims-bind idle (begin_close fuel) _ (begin_close-Claims fuel)
      (λ _. wait_for_outcome-Claims fuel)

close-Claims : (fuel : ℕ) → Claims idle (close fuel)
unfolding close
close-Claims fuel =
    Claims-call idle borrow_state _ tt (λ _. refl)
      λ s. Claims-bind idle (close_outcome fuel s) _ (close_outcome-Claims fuel s) λ e.
        Claims-bind idle (wait_for_driver_tasks fuel) _ (wait_for_driver_tasks-Claims fuel)
          (λ _. done-Claims _)

pub close_thread-Claims : (fuel : ℕ) → Claims idle (close_thread fuel).prog
close_thread-Claims fuel = Claims-bind idle (close fuel) _ (close-Claims fuel) (λ _. done-Claims _)

terminal_lem : (e : DriverError) (s : DriverState) → (terminal_update e s).0 ≡ closing → s ≡ closing
unfolding terminal_update
terminal_lem e s h = ground arith

pub abort_thread-Claims : Claims idle abort_thread.prog
unfolding abort publish_terminal signal_abort
abort_thread-Claims =
    Claims-call idle (store_closing true) _ tt (λ _. refl)
      λ _.
        Claims-call idle (modify_state (terminal_update abandoned)) _ tt
          (λ _. (terminal_lem abandoned, refl))
          λ _.
            Claims-call idle (modify_shutdown abort_update) _ tt (λ _. refl)
              λ _.
                Claims-call idle abort_reader _ tt (λ _. refl)
                  λ _. Claims-call idle abort_writer _ tt (λ _. refl) (λ _. done-Claims _)

pub drop_guards-Claims : (n : ℕ) → Claims idle (drop_guards n)
unfolding Claims drop_guards
drop_guards-Claims zero = refl
drop_guards-Claims (suc n) = (tt, λ _. (idle, refl, drop_guards-Claims n))

-- A call is dropped at an await, where it has begun nothing that it has not ended.
pub At-await : (g : Stage) (o : Op) → is_await o ≡ true → At g o → g ≡ idle
At-await g o h p = ground (arith)
