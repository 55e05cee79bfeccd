-- ===== src/Tests/Connection.antt =====
-- Connections in reachable states, driven by the samples of Drive.
use fogws.Prelude.{All, ◌+◌, ◌≤◌, ◌≡◌, refl, ◌⊎◌, List, [], ◌∷◌, true, false, Result, ok, ◌≢◌, some}
use fogws.Error.{DriverError, closed_ok, local_normal}
use fogws.Driver.State.{closed, peer_closed, open_, running, peer_close, close_result}
use fogws.Driver.Task.{done, outbound}
use fogws.Driver.Close.{abandoned}
use fogws.Driver.Writer.{finished, writer_event}
use fogws.Driver.View.{View, started}
use fogws.Driver.Order.{Inv, IsClosed, rank, signal_rank}
use fogws.Driver.Logic.{Role, caller, writer, watchdog as watchdog_role}
use fogws.Driver.System.Answering.{Responds, Answered, Unanswered, command-Answered}
use fogws.Driver.Wire.{text}
use fogws.Driver.Store.{view}
use fogws.Driver.System.{Outcome, writer_ended, close_returned, Thread, here, next, aborts, closes}
use fogws.Driver.System.Moved.{guards_of}
use fogws.Driver.System.Safety.{HasEnded}
use fogws.Driver.System.Outcomes.{
  Holds, reachable-Inv, final_outcome, peer_outcome_kept, only_advances, reader_end-IsClosed,
  writer_end-IsClosed, close_returns_outcome, close_results_agree,
}
use fogws.Driver.System.Watchdog.{Spawns, closing_watched}
use fogws.Driver.System.Tasks.{tasks_counted, no_tasks_left}
use fogws.Tests.Samples.{cell, wire}
use fogws.Tests.Drive.{Driven, Turn, reader_turn, other_turn, call_close, run, times}

-- `close` is called and runs until it waits; the reader finds the end of the socket.
abbrev pub closing_turns : List Turn → List Turn
closing_turns rest = call_close ∷ times 7 (other_turn 0) (times 6 reader_turn rest)

abbrev half_closed : Driven
half_closed = run (closing_turns [])

abbrev still_closing : Driven
still_closing = run (call_close ∷ times 7 (other_turn 0) [])

-- The reader, the writer and the watchdog end, and then two calls of `close`.
abbrev pub fully_closed : Driven
fully_closed = run (
    closing_turns (
      times 8 reader_turn (
        times 8 (other_turn 2) (
          times 6 (other_turn 0)
            (times 8 (other_turn 1) (call_close ∷ times 8 (other_turn 0) []))))))

abbrev pub outcome : DriverError
outcome = closed_ok local_normal

fully_closed_view : view cell fully_closed.last.store ≡ record {
  state = closed outcome;
  shutdown = peer_close;
  closing = true;
  close_timeout_started = true;
  tasks_remaining = 0;
  reader_aborted = false;
  writer_aborted = true;
}
unfolding run
fully_closed_view = refl

abbrev pub ended_thread : Role → Outcome → Thread
ended_thread role outcome = record { role = role; guards = 0; prog = done outcome }

abbrev pub closer : Thread
closer = ended_thread caller (close_returned (ok tt))

abbrev written : Thread
written = ended_thread writer (writer_ended finished)

abbrev watched : Thread
watched = ended_thread watchdog_role Outcome.finished

fully_closed_threads : fully_closed.last.others ≡ closer ∷ watched ∷ closer ∷ written ∷ []
unfolding run
fully_closed_threads = refl

pub first_closer : Holds fully_closed.last.others closer
unfolding run
first_closer = record { before = closer ∷ watched ∷ []; behind = written ∷ []; split = refl }

second_closer : Holds fully_closed.last.others closer
unfolding run
second_closer = record { before = []; behind = watched ∷ closer ∷ written ∷ []; split = refl }

the_writer : Holds fully_closed.last.others written
unfolding run
the_writer = record { before = closer ∷ watched ∷ closer ∷ []; behind = []; split = refl }

reachable-Inv_example : Inv (view cell half_closed.last.store)
reachable-Inv_example = reachable-Inv cell wire 8 half_closed.reach

final_outcome_example : (view cell fully_closed.last.store).state ≡ closed outcome
unfolding run
final_outcome_example =
    final_outcome cell wire 8 fully_closed.reach (next (next here aborts) (closes 3)) outcome refl

peer_outcome_kept_example :
    ((view cell half_closed.last.store).state ≡ peer_closed outcome)
    ⊎ ((view cell half_closed.last.store).state ≡ closed outcome)
    ⊎ ((view cell half_closed.last.store).state ≡ closed abandoned)
unfolding run
peer_outcome_kept_example =
    peer_outcome_kept cell wire 8 half_closed.reach (next here aborts) outcome refl

only_advances_example :
    (rank open_ ≤ rank (view cell half_closed.last.store).state)
    × (signal_rank running ≤ signal_rank (view cell half_closed.last.store).shutdown)
    × (false ≡ true → (view cell half_closed.last.store).closing ≡ true)
unfolding run
only_advances_example = only_advances cell wire 8 here half_closed.reach

reader_end-IsClosed_example : IsClosed (view cell fully_closed.last.store).state
unfolding run
reader_end-IsClosed_example =
    reader_end-IsClosed cell wire 8 fully_closed.reach Outcome.finished refl

writer_end-IsClosed_example : IsClosed (view cell fully_closed.last.store).state
writer_end-IsClosed_example =
    writer_end-IsClosed cell wire 8 fully_closed.reach written the_writer refl _ refl

close_returns_outcome_example :
    (e : DriverError) × ((view cell fully_closed.last.store).state ≡ closed e)
    × (ok tt ≡ close_result e)
close_returns_outcome_example =
    close_returns_outcome cell wire 8 fully_closed.reach closer first_closer refl (ok tt) refl

close_results_agree_example : ◌≡◌ {A = Result (Unit {0}) DriverError} (ok tt) (ok tt)
close_results_agree_example =
    close_results_agree cell wire 8 fully_closed.reach closer closer first_closer second_closer refl
      refl (ok tt) (ok tt) refl refl

closing_watched_example :
    ((th : Thread) × Holds still_closing.last.others th × (th.role ≡ watchdog_role) × ¬ HasEnded th)
    ⊎ ((th : Thread) × Holds still_closing.last.others th
        × (th.role ≡ caller)
        × Spawns (view cell still_closing.last.store).close_timeout_started th.prog)
unfolding run
closing_watched_example = closing_watched cell wire 8 still_closing.reach refl

tasks_counted_example :
    (view cell half_closed.last.store).tasks_remaining
    ≡ half_closed.last.reader.guards + guards_of half_closed.last.others
tasks_counted_example = tasks_counted cell wire 8 half_closed.reach

no_tasks_left_example :
    HasEnded fully_closed.last.reader
    × All (λ th. th.role ≢ caller → HasEnded th) fully_closed.last.others
unfolding run
no_tasks_left_example = no_tasks_left cell wire 8 fully_closed.reach refl

command-Answered_example :
    Responds (writer_event wire (outbound (some (text "hello")))) Answered Unanswered [] started
command-Answered_example = command-Answered wire (text "hello") started

abbrev peer_ended : View
peer_ended = record started {
  state = peer_closed outcome;
  shutdown = peer_close;
  closing = true;
  tasks_remaining = 3;
}
