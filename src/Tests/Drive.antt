-- ===== src/Tests/Drive.antt =====
-- Reachable states by evaluation: a connection is driven by a list of turns, and each call gets one
-- fixed answer; the socket is at its end, and time limits pass.
use fogws.Prelude.{ℕ, zero, suc, true, ◌≡◌, refl, ap, Option, none, some, List, [], ◌∷◌, ◌++◌, ok}
use fogws.Driver.Task.{
  Op, Answer, Task, done, call, borrow_state, modify_state, modify_state_with, borrow_shutdown,
  modify_shutdown, load_closing, store_closing, swap_closing, swap_timeout_started, borrow_tasks,
  new_guard, drop_guard, abort_reader, abort_writer, spawn_watchdog, reader_select, writer_select,
  acquire_budget, send_inbound, state_changed, state_changed_or_timeout, shutdown_signal_changed,
  tasks_changed, sink_send, sink_flush, respond, try_flush, halt, message, signal_changed,
  completed, elapsed,
}
use fogws.Driver.State.{
  is_terminal, terminal_update, peer_closed_update, writer_failure_update, close_timeout_update,
  start_closing_update, abort_update, local_close_update, peer_close_update, peer_outcome,
  close_result,
}
use fogws.Driver.Close.{close, abort, watchdog}
use fogws.Driver.Reader.{reader_task}
use fogws.Driver.Writer.{writer_task}
use fogws.Driver.Store.{Store, Answers, exec}
use fogws.Driver.System.{
  Thread, Outcome, System, Move, Reach, start, here, next, runs, reader_moves, other_moves, closes,
  aborts,
}
use fogws.Tests.Samples.{cell, wire}

abbrev Reply : Op → Store cell → Type 0
Reply o s = (a : Answer o) × Answers cell o s a

reply : (o : Op) (s : Store cell) → Option (Reply o s)
reply borrow_state s = some (s.state, refl)
reply (modify_state f) s = some ((f s.state).1, refl)
reply (modify_state_with f) s = some ((f s.state).2, refl)
reply borrow_shutdown s = some (s.shutdown, refl)
reply (modify_shutdown f) s = some ((f s.shutdown).1, refl)
reply load_closing s = some (s.closing, refl)
reply (store_closing _) s = some (tt, tt)
reply (swap_closing _) s = some (s.closing, refl)
reply (swap_timeout_started _) s = some (s.close_timeout_started, refl)
reply borrow_tasks s = some (s.tasks_remaining, refl)
reply new_guard s = some (tt, tt)
reply drop_guard s = some (tt, tt)
reply abort_reader s = some (tt, tt)
reply abort_writer s = some (tt, tt)
reply (spawn_watchdog _) s = some (tt, tt)
reply reader_select s = some (message none, tt)
reply writer_select s = some (signal_changed true, refl)
reply (acquire_budget _) s = some (completed true, tt)
reply (send_inbound _) s = some (completed true, tt)
reply state_changed s = some (true, refl)
reply state_changed_or_timeout s = some (elapsed, tt)
reply shutdown_signal_changed s = some (true, refl)
reply tasks_changed s = some (true, refl)
reply (sink_send _) s = some (ok tt, tt)
reply sink_flush s = some (ok tt, tt)
reply (respond _) s = some (tt, tt)
reply try_flush s = some (tt, tt)
reply halt s = none

abbrev Moving : Store cell → Thread → Type 0
Moving s th = (st : Store cell) × (th' : Thread) × (new : List Thread) × Move cell s th st th' new

replied :
    (s : Store cell) (th : Thread) (o : Op) (k : Answer o → Task Outcome)
    → th.prog ≡ call o k
    → Option (Reply o s)
    → Option (Moving s th)
replied s th o k e none = none
replied s th o k e (some (a, al)) = some (_, _, _, runs e a al)

moving : (s : Store cell) (th : Thread) (m : Task Outcome) → th.prog ≡ m → Option (Moving s th)
unfolding replied reply
moving s th (done x) e = none
moving s th (call o k) e = replied s th o k e (reply o s)

pub data Turn : Type 0 where
  reader_turn : Turn
  other_turn : ℕ → Turn
  call_close : Turn
  call_abort : Turn

pub record Driven : Type 0 where
  pub last : System cell
  pub reach : Reach cell (start cell wire 8) last

abbrev Split : List Thread → Type 0
Split ths =
    (before : List Thread) × (mover : Thread) × (behind : List Thread) × (ths
      ≡ before ++ (mover ∷ behind))

behind_one : (th : Thread) (ths : List Thread) → Option (Split ths) → Option (Split (th ∷ ths))
behind_one th ths none = none
behind_one th ths (some (before, mover, behind, e)) =
    some (th ∷ before, mover, behind, ap (◌∷◌ th) e)

split_at : ℕ → (ths : List Thread) → Option (Split ths)
unfolding behind_one
split_at n [] = none
split_at zero (th ∷ ths) = some ([], th, ths, refl)
split_at (suc n) (th ∷ ths) = behind_one th ths (split_at n ths)

moved_reader : (d : Driven) → Option (Moving d.last.store d.last.reader) → Driven
moved_reader d none = d
moved_reader d (some (st, th, new, m)) = record { last = _; reach = next d.reach (reader_moves m) }

moved_other : (d : Driven) (s : Split d.last.others) → Option (Moving d.last.store s.1) → Driven
moved_other d s none = d
moved_other d s (some (st, th, new, m)) = record {
  last = _;
  reach = next d.reach (other_moves s.0 s.1 s.2 s.3 m);
}

chosen : (d : Driven) → Option (Split d.last.others) → Driven
unfolding moved_other moving
chosen d none = d
chosen d (some s) = moved_other d s (moving d.last.store s.1 s.1.prog refl)

turn : Driven → Turn → Driven
unfolding moved_reader moving chosen split_at
turn d reader_turn = moved_reader d (moving d.last.store d.last.reader d.last.reader.prog refl)
turn d (other_turn n) = chosen d (split_at n d.last.others)
turn d call_close = record { last = _; reach = next d.reach (closes 8) }
turn d call_abort = record { last = _; reach = next d.reach aborts }

pub run_from : Driven → List Turn → Driven
unfolding turn
run_from d [] = d
run_from d (x ∷ xs) = run_from (turn d x) xs

unfoldable pub run : List Turn → Driven
unfolding run_from exec close abort watchdog reader_task writer_task is_terminal terminal_update
    peer_closed_update writer_failure_update close_timeout_update start_closing_update abort_update
    local_close_update peer_close_update peer_outcome close_result
run turns = run_from (record { last = _; reach = here }) turns

abbrev pub times : ℕ → Turn → List Turn → List Turn
times zero x rest = rest
times (suc n) x rest = x ∷ times n x rest
