-- ===== src/Driver/System.antt =====
-- A connection of src/driver.rs at run time: the reader, the other tasks and the calls in progress
-- over one store, interleaved call by call in any order.
pub mod Safe
pub mod Moved
pub mod Invariant
pub mod Safety
pub mod Outcomes
pub mod Tasks
pub mod Claims
pub mod Watching
pub mod Staged
pub mod Onward
pub mod Watched
pub mod Watchdog
pub mod Answering
use fogws.Prelude.{ℕ, zero, suc, Bool, true, false, ◌≡◌, List, [], ◌∷◌, ◌++◌, Result}
use fogws.Error.{DriverError}
use fogws.Tokio.{Watch}
use fogws.Driver.Wire.{Tungstenite}
use fogws.Driver.Task.{
  Op, Answer, Task, done, call, ◌>>=◌, ◌>>◌, op, is_await, drop_guard, spawn_watchdog,
}
use fogws.Driver.Close.{close, abort, watchdog as watchdog_program}
use fogws.Driver.Reader.{reader_task}
use fogws.Driver.Writer.{WriterEnd, writer_task}
use fogws.Driver.View.{View}
use fogws.Driver.Logic.{Role, reader, writer, watchdog, caller, held}
use fogws.Driver.Store.{Store, view, start_store, exec, Answers}

-- How a program has ended: to its end, or dropped at an await.
pub data Outcome : Type 0 where
  finished : Outcome
  writer_ended : WriterEnd → Outcome
  close_returned : Result (Unit {0}) DriverError → Outcome
  dropped : Outcome

pub record Thread : Type 0 where
  pub role : Role
  pub guards : ℕ
  pub prog : Task Outcome

abbrev pub watchdog_thread : ℕ → Thread
watchdog_thread fuel = record {
  role = watchdog;
  guards = 1;
  prog = watchdog_program fuel >> done finished;
}

abbrev pub close_thread : ℕ → Thread
close_thread fuel = record {
  role = caller;
  guards = 0;
  prog = close fuel >>= λ result. done (close_returned result);
}

abbrev pub abort_thread : Thread
abort_thread = record { role = caller; guards = 0; prog = abort >> done finished }

module _ (w : Tungstenite) (fuel : ℕ) where
  abbrev pub reader_thread : Thread
  reader_thread = record { role = reader; guards = 1; prog = reader_task w fuel >> done finished }

  abbrev pub writer_thread : Thread
  writer_thread = record {
    role = writer;
    guards = 1;
    prog = writer_task w fuel >>= λ end. done (writer_ended end);
  }

-- The thread that a call starts.
abbrev pub spawned : Op → List Thread
spawned (spawn_watchdog fuel) = watchdog_thread fuel ∷ []
spawned _ = []

-- A dropped program gives back its guards.
unfoldable pub drop_guards : ℕ → Task Outcome
drop_guards zero = done dropped
drop_guards (suc n) = do op drop_guard; drop_guards n

-- The driver's tasks are dropped through their abort handles only, and the watchdog has none; a
-- caller may be dropped at any await.
abbrev pub MayDrop : Role → View → Type 0
MayDrop reader v = v.reader_aborted ≡ true
MayDrop writer v = v.writer_aborted ≡ true
MayDrop watchdog v = ⊥
MayDrop caller v = Unit

module _ (t : Watch) where
  pub data Move (s : Store t) (th : Thread) : Store t → Thread → List Thread → Type 0 where
    runs :
        {o : Op} {k : Answer o → Task Outcome}
        → th.prog ≡ call o k
        → (a : Answer o) → Answers t o s a
        → Move s th (exec t o s) (record th { guards = held o th.guards; prog = k a }) (spawned o)
    drops :
        {o : Op} {k : Answer o → Task Outcome}
        → th.prog ≡ call o k
        → is_await o ≡ true
        → MayDrop th.role (view t s)
        → Move s th s (record th { prog = drop_guards th.guards }) []

  pub record System : Type 0 where
    pub store : Store t
    pub reader : Thread
    pub others : List Thread

  pub data Step (s : System) : System → Type 0 where
    reader_moves :
        {st : Store t} {th : Thread} {new : List Thread}
        → Move s.store s.reader st th new
        → Step s (record { store = st; reader = th; others = new ++ s.others })
    other_moves :
        {st : Store t} {th : Thread} {new : List Thread}
        → (before : List Thread) (mover : Thread) (behind : List Thread)
        → s.others ≡ before ++ (mover ∷ behind)
        → Move s.store mover st th new
        → Step s (record s { store = st; others = new ++ (before ++ (th ∷ behind)) })
    closes : (fuel : ℕ) → Step s (record s { others = close_thread fuel ∷ s.others })
    aborts : Step s (record s { others = abort_thread ∷ s.others })

  pub data Reach (s : System) : System → Type 0 where
    here : Reach s s
    next : {u v : System} → Reach s u → Step u v → Reach s v

  -- After `start`.
  abbrev pub start : Tungstenite → ℕ → System
  start w fuel = record {
    store = start_store t;
    reader = reader_thread w fuel;
    others = writer_thread w fuel ∷ [];
  }
