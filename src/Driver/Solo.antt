-- ===== src/Driver/Solo.antt =====
-- Runs of one program of src/driver.rs to its end, with the other tasks still: the calls that end a
-- connection, and the tasks' ways out, end.
use fogws.Prelude.{ℕ, suc, ◌-◌, true, false, ◌≡◌, refl, sym, ap, subst, arith, ok}
use fogws.Error.{DriverError}
use fogws.Driver.Wire.{Tungstenite}
use fogws.Driver.State.{
  DriverState, closed, peer_closed, abort, peer_close, is_terminal, terminal_update,
  close_timeout_update, abort_update, peer_outcome,
}
use fogws.Driver.Task.{
  Op, Answer, Task, done, call, op, ◌>>=◌, elapsed, modify_state, drop_guard, signal_changed,
}
use fogws.Driver.Publish.{
  terminal_or_timeout, publish_terminal, publish_close_timeout, signal_abort, peer_close_outcome,
}
use fogws.Driver.Close.{abort as abort_program, watchdog}
use fogws.Driver.Writer.{
  finished, writer_task, run_writer, writer_round, writer_signal, close_writer, flush_close,
  after_close_writer, publish_outcome,
}
use fogws.Driver.View.{View, after, Allowed}
use fogws.Driver.Order.{IsClosed}

-- The program runs from `v` to its result, and leaves `u`.
pub data Ends {R : Type 0} : Task R → View → R → View → Type 0 where
  ended : {x : R} {v : View} → Ends (done x) v x v
  steps :
      {o : Op} {k : Answer o → Task R} {v : View} {x : R} {u : View}
      → (a : Answer o) → Allowed o v a
      → Ends (k a) (after o v) x u
      → Ends (call o k) v x u

-- `abort` ends, and leaves the connection closed and marked as closing, with the abort signalled and
-- both abort handles used; it keeps an outcome that is already final.
pub abort_completes :
    (v : View)
    → (u : View) × Ends abort_program v tt u
      × IsClosed u.state
      × ((e : DriverError) → v.state ≡ closed e → u.state ≡ closed e)
      × (u.shutdown ≡ abort)
      × (u.closing ≡ true)
      × (u.reader_aborted ≡ true)
      × (u.writer_aborted ≡ true)
      × (u.tasks_remaining ≡ v.tasks_remaining)
unfolding abort_program publish_terminal signal_abort after terminal_update abort_update
abort_completes v = (
  _,
  steps tt tt (steps _ refl (steps _ refl (steps tt tt (steps tt tt ended)))),
  ground arith,
  λ e h. ground arith,
  ground arith,
  refl,
  refl,
  refl,
  refl,
)

-- What the close timeout makes of a state.
abbrev pub TimedOut : DriverState → DriverState → Type 0
TimedOut (peer_closed e) s = s ≡ closed e
TimedOut _ s = IsClosed s

-- When the time limit of a close passes on a connection that is not closed, the watchdog ends, and
-- leaves it closed, with the peer's outcome if there was one, both abort handles used and its guard
-- dropped.
pub watchdog_expires :
    (fuel : ℕ) (v : View)
    → is_terminal v.state ≡ false
    → (u : View) × Ends (watchdog (suc fuel)) v tt u
      × TimedOut v.state u.state
      × (u.reader_aborted ≡ true)
      × (u.writer_aborted ≡ true)
      × (u.tasks_remaining ≡ v.tasks_remaining - 1)
unfolding watchdog publish_close_timeout terminal_or_timeout after close_timeout_update
watchdog_expires fuel v open_still = (
  record v {
    state = (close_timeout_update v.state).0;
    reader_aborted = true;
    writer_aborted = true;
    tasks_remaining = v.tasks_remaining - 1;
  },
  steps v.state refl (
      rw open_still
        (steps elapsed tt (steps _ refl (steps tt tt (steps tt tt (steps tt tt ended)))))),
  ground arith,
  refl,
  refl,
  refl,
)

-- When the peer's close is signalled and its outcome is recorded, the writer ends with one flush,
-- publishes that outcome as the final one, and drops its guard.
pub writer_completes_peer_close :
    (w : Tungstenite) (fuel : ℕ) (v : View) (e : DriverError)
    → v.shutdown ≡ peer_close
    → v.state ≡ peer_closed e
    → Ends
        (writer_task w (suc fuel))
        v
        finished
        (record v { state = closed e; tasks_remaining = v.tasks_remaining - 1 })
unfolding writer_task run_writer writer_round writer_signal close_writer flush_close
    after_close_writer publish_outcome peer_close_outcome peer_outcome after terminal_update
    is_terminal
writer_completes_peer_close w fuel v e h p = steps (signal_changed true) refl (
    steps peer_close (sym h) (
      steps (ok tt) tt (
        steps (peer_closed e) (sym p) (
          subst
            (λ u.
              Ends
                (op (modify_state (terminal_update e)) >>= λ _.
                  op drop_guard >>= λ _. done finished)
                v finished u)
            (ap
              (λ (s : DriverState). record v {
                state = (terminal_update e s).0;
                tasks_remaining = v.tasks_remaining - 1;
              })
              p)
            (steps _ refl (steps tt tt ended))))))
