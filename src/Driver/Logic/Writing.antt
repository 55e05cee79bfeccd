-- ===== src/Driver/Logic/Writing.antt =====
-- The writer task of src/driver.rs, whatever the network and the other tasks do: it keeps what the
-- others rely on, and when it ends the connection is closed.
use fogws.Prelude.{
  ℕ, zero, suc, ◌<◌, true, false, not, ◌||◌, ◌≡◌, refl, arith, none, some, Result, ok, err,
}
use fogws.Error.{DriverError}
use fogws.Driver.Wire.{Tungstenite}
use fogws.Driver.State.{
  DriverState, closed, closing, open_, peer_closed, is_abort, is_running, flush, peer_outcome,
}
use fogws.Driver.Task.{
  done, ◌>>=◌, borrow_state, borrow_shutdown, drop_guard, writer_select, signal_changed, event,
  WriterEvent, control, outbound, sink_send, sink_flush, respond,
}
use fogws.Driver.Publish.{peer_close_outcome}
use fogws.Driver.Writer.{
  WriterEnd, finished, WriterRound, close_writer, writer_failure, publish_outcome,
  after_close_writer, writer_event, writer_signal, writer_round, run_writer, writer_task,
}
use fogws.Driver.View.{View, after, WriterAllowed}
use fogws.Driver.Order.{IsClosed, IsEnded, Inv}
use fogws.Driver.Logic.{writer, Runs, Runs-done, Runs-bind, Runs-if, Stable}
use fogws.Driver.Logic.Rules.{
  out_of_fuel-Runs, quiet-call, guard-call, publish_terminal-call, publish_writer_failure-call,
  signal_abort-call, IsClosedNow, IsClosedNow-Stable,
}
use fogws.Driver.Logic.Ends.{Reported, Reported-Stable}
use fogws.Driver.Logic.Handshake.{Ended, Ended-Stable, ClosePost, close_writer-Runs}

abbrev Anything : View → Type 0
Anything _ = Unit

Anything-Stable : Stable writer Anything
Anything-Stable _ _ _ _ = tt

abbrev RoundEnd : WriterRound → View → Type 0
RoundEnd (some _) v = IsClosed v.state
RoundEnd _ v = Unit

module _ (g : ℕ) (holds : 0 < g) where
  writer_failure-Runs :
      (Q : DriverError → ℕ → View → Type 0)
      → ((x : DriverError) (v : View) → IsClosed v.state → Q x g v)
      → (e : DriverError) (v : View) → Runs writer (writer_failure e) Q g v
  unfolding writer_failure
  writer_failure-Runs Q rest e v = publish_writer_failure-call writer g holds Q e _ v λ a u c _.
      signal_abort-call writer g holds Q _ u (ground arith)
        λ _ x d _. Runs-done writer _ Q g x (rest a x d)

module _ (g : ℕ) (holds : 0 < g) (w : Tungstenite) (Q : WriterRound → ℕ → View → Type 0)
    (rest : (x : WriterRound) (v : View) → RoundEnd x v → Q x g v) where
  publish_outcome-Runs :
      (o : DriverState) (v : View)
      → IsEnded o
      → o ≡ v.state
      → Runs writer (publish_outcome (peer_outcome o)) Q g v
  unfolding publish_outcome peer_outcome
  publish_outcome-Runs closing v p same = elim p [ ]
  publish_outcome-Runs open_ v p same = elim p [ ]
  publish_outcome-Runs (closed e) v p same = Runs-done writer _ Q g v (rest _ v (ground arith))
  publish_outcome-Runs (peer_closed e) v p same =
      publish_terminal-call writer g holds Q e _ (Reported e) v
        (record { stable = Reported-Stable writer e; fits = λ u s. ground arith }) (ground arith)
        λ _ u c _. Runs-done writer _ Q g u (rest _ u c)

  -- A failure ends the writer.
  failed-Runs :
      (e : DriverError) (v : View)
      → Runs writer (writer_failure e >>= λ _. done (some finished)) Q g v
  failed-Runs e v =
      Runs-bind writer (writer_failure e) _ Q g v
        (writer_failure-Runs g holds _ (λ _ u c. Runs-done writer _ Q g u (rest _ u c)) e v)

  after_close_writer-Runs :
      (x : Result (Unit {0}) DriverError) (v : View)
      → ClosePost x v
      → Runs writer (after_close_writer w x) Q g v
  unfolding after_close_writer
  after_close_writer-Runs (err error) v p = failed-Runs error v
  after_close_writer-Runs (ok _) v p =
      unfold peer_close_outcome in
      quiet-call writer g holds Q borrow_state _ Ended v refl Ended-Stable p
        λ a u q _ al. publish_outcome-Runs a u (ground arith) al

  -- The end of the commands comes after an abort.
  abbrev EventStart : WriterEvent → View → Type 0
  EventStart (outbound none) v = IsClosed v.state
  EventStart _ v = Unit

  event_start : (e : WriterEvent) (v : View) → Inv v → WriterAllowed v (event e) → EventStart e v
  event_start (outbound none) v inv h = inv.abort_closed h
  event_start (outbound (some m)) v inv h = tt
  event_start (control c) v inv h = tt

  writer_event-Runs :
      (e : WriterEvent) (v : View) → EventStart e v → Runs writer (writer_event w e) Q g v
  unfolding writer_event
  writer_event-Runs (control (some flush)) v p =
      quiet-call writer g holds Q sink_flush _ Anything v refl Anything-Stable tt (elim [
        | ok _ ↦ λ u _ _ _. Runs-done writer _ Q g u (rest none u tt)
        | err _ ↦ λ u _ _ _. failed-Runs _ u
      ])
  writer_event-Runs (control none) v p = failed-Runs _ v
  writer_event-Runs (outbound none) v p = Runs-done writer _ Q g v (rest _ v p)
  writer_event-Runs (outbound (some message)) v p =
      quiet-call writer g holds Q (sink_send message) _ Anything v refl Anything-Stable tt (elim [
        | ok _ ↦ λ u _ _ _.
            quiet-call writer g holds Q (respond (ok tt)) _ Anything u refl Anything-Stable tt
              λ _ x _ _ _. Runs-done writer _ Q g x (rest none x tt)
        | err error ↦ λ u _ _ _. Runs-bind writer (writer_failure _) _ Q g u (
            writer_failure-Runs g holds _
              (λ t x c.
                quiet-call writer g holds Q (respond (err t)) _ IsClosedNow x refl
                  (IsClosedNow-Stable writer) c λ _ y d _ _. Runs-done writer _ Q g y (rest _ y d))
              _ u)
      ])

  -- The branch of the signal. Out of `Running` there is either an abort, of a closed connection, or
  -- a close to finish.
  writer_signal-Runs : (fuel : ℕ) (v : View) → Runs writer (writer_signal w fuel true) Q g v
  unfolding writer_signal
  writer_signal-Runs fuel v =
      quiet-call writer g holds Q borrow_shutdown _ Anything v refl Anything-Stable tt
        λ a u _ inv al.
          Runs-if writer (not true || not (is_running a)) _ _ Q g u
            (λ e.
              Runs-if writer (is_abort a) _ _ Q g u
                (λ c. Runs-done writer _ Q g u (rest _ u (ground arith)))
                (λ c. Runs-bind writer (close_writer w fuel a) _ Q g u (
                  close_writer-Runs g holds w _ (λ x y q. after_close_writer-Runs x y q) fuel a u
                    (ground arith) (λ d. ground arith))))
            (λ _. Runs-done writer _ Q g u (rest none u tt))

  writer_round-Runs : (fuel : ℕ) (v : View) → Runs writer (writer_round w fuel) Q g v
  unfolding writer_round
  writer_round-Runs fuel v =
      quiet-call writer g holds Q writer_select _ Anything v refl Anything-Stable tt (elim [
        | signal_changed true ↦ λ u _ _ _. writer_signal-Runs fuel u
        | signal_changed false ↦ λ u _ _ no. absurd (ground arith)
        | event e ↦ λ u _ inv al. writer_event-Runs e u (event_start e u inv al)
      ])

-- When the writer's loop ends, the connection is closed.
run_writer-Runs :
    (g : ℕ)
    → 0 < g
    → (w : Tungstenite) (Q : WriterEnd → ℕ → View → Type 0)
    → ((x : WriterEnd) (v : View) → RoundEnd (some x) v → Q x g v)
    → (fuel : ℕ) (v : View) → Runs writer (run_writer w fuel) Q g v
unfolding run_writer
run_writer-Runs g holds w Q rest zero v = out_of_fuel-Runs writer g holds Q v
run_writer-Runs g holds w Q rest (suc fuel) v = Runs-bind writer (writer_round w fuel) _ Q g v (
    writer_round-Runs g holds w _
      (elim [
        | none ↦ λ u _. run_writer-Runs g holds w Q rest fuel u
        | some end ↦ λ u c. Runs-done writer _ Q g u (rest end u c)
      ])
      fuel v)

-- What holds when the writer task has ended.
abbrev pub WriterPost : WriterEnd → View → Type 0
WriterPost end v = IsClosed v.state

WriterPost-Stable : (end : WriterEnd) → Stable writer (WriterPost end)
WriterPost-Stable end v w env h = IsClosedNow-Stable writer v w env h

pub writer_task-Runs :
    (w : Tungstenite) (fuel : ℕ) (v : View)
    → Runs writer (writer_task w fuel) (λ end h u. (h ≡ 0) × WriterPost end u) 1 v
unfolding writer_task
writer_task-Runs w fuel v = Runs-bind writer (run_writer w fuel) _ _ 1 v (
    run_writer-Runs 1 (omega arith) w _
      (λ end u c.
        guard-call writer 1 (omega arith) _ drop_guard _ (WriterPost end) u refl (omega arith)
          (WriterPost-Stable end) c λ _ x d _. Runs-done writer _ _ 0 _ (refl, dropped end x d))
      fuel v)
  where
    dropped : (end : WriterEnd) (x : View) → WriterPost end x → WriterPost end (after drop_guard x)
    dropped end x d = unfold after in d
