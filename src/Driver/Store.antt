-- ===== src/Driver/Store.antt =====
-- The shared state of src/driver.rs: the watch channels and the atomic flags of `ConnectionDriver`,
-- the calls of the programs on them, and their view by value.
use fogws.Prelude.{ℕ, ◌+◌, ◌-◌, Bool, true, false, ◌≡◌, refl, ◌∙◌, arith}
use fogws.Tokio.{Watch}
use fogws.Driver.State.{DriverState, open_, ShutdownSignal, running}
use fogws.Driver.Task.{
  Op, Answer, modify_state, modify_state_with, modify_shutdown, store_closing, swap_closing,
  swap_timeout_started, new_guard, drop_guard, abort_reader, abort_writer,
}
use fogws.Driver.View.{View, started, after, Allowed}

pub record Store (t : Watch) : Type 0 where
  pub state : t.Channel DriverState
  pub shutdown : t.Channel ShutdownSignal
  pub closing : Bool
  pub close_timeout_started : Bool
  pub tasks_remaining : t.Channel ℕ
  pub reader_aborted : Bool
  pub writer_aborted : Bool

module _ (t : Watch) where
  open t use {channel, borrow, send_if_modified, send_modify}

  abbrev pub view : Store t → View
  view s = record {
    state = borrow s.state;
    shutdown = borrow s.shutdown;
    closing = s.closing;
    close_timeout_started = s.close_timeout_started;
    tasks_remaining = borrow s.tasks_remaining;
    reader_aborted = s.reader_aborted;
    writer_aborted = s.writer_aborted;
  }

  -- The channels as `start` makes them, with the guards of the two tasks.
  abbrev pub start_store : Store t
  start_store = record {
    state = channel open_;
    shutdown = channel running;
    closing = false;
    close_timeout_started = false;
    tasks_remaining =
        send_modify (λ count. count + 1) (send_modify (λ count. count + 1) (channel 0));
    reader_aborted = false;
    writer_aborted = false;
  }

  -- A call on the store. Where a closure also sets a captured variable, the channel runs its part.
  unfoldable pub exec : Op → Store t → Store t
  exec (modify_state f) s = record s { state = (send_if_modified f s.state).0 }
  exec (modify_state_with f) s = record s {
    state = (send_if_modified (λ a. ((f a).0, (f a).1)) s.state).0;
  }
  exec (modify_shutdown f) s = record s { shutdown = (send_if_modified f s.shutdown).0 }
  exec (store_closing b) s = record s { closing = b }
  exec (swap_closing b) s = record s { closing = b }
  exec (swap_timeout_started b) s = record s { close_timeout_started = b }
  exec new_guard s = record s {
    tasks_remaining = send_modify (λ count. count + 1) s.tasks_remaining;
  }
  exec drop_guard s = record s {
    tasks_remaining = send_modify (λ remaining. remaining - 1) s.tasks_remaining;
  }
  exec abort_reader s = record s { reader_aborted = true }
  exec abort_writer s = record s { writer_aborted = true }
  exec _ s = s

  -- The answers of a call: a channel's report is its own, the rest is read off the values.
  abbrev pub Answers : (o : Op) → Store t → Answer o → Type 0
  Answers (modify_state f) s a = a ≡ (send_if_modified f s.state).1
  Answers (modify_shutdown f) s a = a ≡ (send_if_modified f s.shutdown).1
  Answers o s a = Allowed o (view s) a

  pub start-view : view start_store ≡ started
  start-view = ground (
    arith,
    t.borrow-channel open_,
    t.borrow-channel running,
    t.borrow-channel {A = ℕ} 0,
    t.borrow-send_modify (λ (count : ℕ). count + 1) (channel 0),
    t.borrow-send_modify (λ (count : ℕ). count + 1)
        (send_modify (λ (count : ℕ). count + 1) (channel 0)),
  )

  -- Calls on the store and on the view agree.
  pub view-exec : (o : Op) (s : Store t) → view (exec o s) ≡ after o (view s)
  unfolding exec after
  view-exec (modify_state f) s = rw (t.borrow-send_if_modified f s.state) refl
  view-exec (modify_state_with f) s =
      rw (t.borrow-send_if_modified (λ a. ((f a).0, (f a).1)) s.state) refl
  view-exec (modify_shutdown f) s = rw (t.borrow-send_if_modified f s.shutdown) refl
  view-exec new_guard s = rw (t.borrow-send_modify (λ (n : ℕ). n + 1) s.tasks_remaining) refl
  view-exec drop_guard s = rw (t.borrow-send_modify (λ (n : ℕ). n - 1) s.tasks_remaining) refl
  view-exec o s = refl

  pub Answers-Allowed : (o : Op) (s : Store t) (a : Answer o) → Answers o s a → Allowed o (view s) a
  Answers-Allowed (modify_state f) s a h = h ∙ t.result-send_if_modified f s.state
  Answers-Allowed (modify_shutdown f) s a h = h ∙ t.result-send_if_modified f s.shutdown
  Answers-Allowed o s a h = h
