-- ===== src/Driver/System/Onward.antt =====
-- What a move of one thread of src/driver.rs leaves of the beginning of a close.
use fogws.Prelude.{ℕ, ◌+◌, ◌≤◌, true, ◌≡◌, refl, sym, subst, arith, List, [], ◌∷◌, sum_of}
use fogws.Tokio.{Watch}
use fogws.Driver.Task.{Op, Answer, Task, call, is_await, spawn_watchdog}
use fogws.Driver.View.{View, after, Allowed}
use fogws.Driver.Logic.{Role, reader, writer, watchdog, caller, IsTask, Moves}
use fogws.Driver.Store.{Store, view, view-exec, Answers-Allowed}
use fogws.Driver.System.{Outcome, Thread, spawned, drop_guards, Move, runs, drops}
use fogws.Driver.System.Claims.{Stage, idle, At, Turn, Claims, drop_guards-Claims, At-await}
use fogws.Driver.System.Watching.{
  busy, early, late, Sound, Sound-Quiet, Sound-counts, watchers, busy-Sound,
}
use fogws.Driver.System.Staged.{Staging, Staged, watchdogs_of}

-- What a move leaves of a thread.
pub record Onward (r : Role) (m : Task Outcome) (w : View) (b e l n : ℕ) : Type 0 where
  pub stage : Stage
  pub staging : Staging r stage m
  pub sound : Sound w (busy stage + b) (early stage + e) (late stage + l) n

Claims-next :
    {R : Type 0} (g : Stage) (m : Task R) (o : Op) (k : Answer o → Task R)
    → m ≡ call o k
    → Claims g m
    → At g o × ((a : Answer o) → (h : Stage) × Turn g o a h × Claims h (k a))
unfolding Claims
Claims-next g m o k e p = rw e at p

watchers_lem : (o : Op) → watchdogs_of (spawned o) ≡ watchers o
watchers_lem (spawn_watchdog fuel) = refl
watchers_lem o = refl

drops-Staging :
    (r : Role) (g : Stage) (m : Task Outcome) (o : Op) (k : Answer o → Task Outcome) (held : ℕ)
    → m ≡ call o k
    → is_await o ≡ true
    → Staging r g m
    → Staging r g (drop_guards held)
drops-Staging caller g m o k held same aw staging =
    rw (At-await g o aw (Claims-next g m o k same staging).0) (drop_guards-Claims held)
drops-Staging reader g m o k held same aw staging = staging
drops-Staging writer g m o k held same aw staging = staging
drops-Staging watchdog g m o k held same aw staging = staging

module _ {b e l n : ℕ} (e_busy : e ≤ b) (l_busy : l ≤ b) where
  task-Sound :
      (r : Role) (g : Stage) (v w : View) (more : ℕ)
      → IsTask r
      → Moves r v w
      → g ≡ idle
      → Sound v (busy g + b) (early g + e) (late g + l) n
      → Sound w (busy idle + b) (early idle + e) (late idle + l) (more + n)
  task-Sound r g v w more task moves same p =
      Sound-Quiet v w
        (record {
          no_new_closing = (moves.begins_no_close task).no_new_closing;
          same_timeout = (moves.begins_no_close task).same_timeout;
          closing_up = moves.later.closing_up;
        })
        (rw same at p) (omega arith) (omega arith) (omega arith) (omega arith)

  runs-Onward :
      (r : Role) (g : Stage) (m : Task Outcome) (o : Op) (k : Answer o → Task Outcome)
      (a : Answer o) (v : View)
      → m ≡ call o k
      → Allowed o v a
      → Moves r v (after o v)
      → Staging r g m
      → Sound v (busy g + b) (early g + e) (late g + l) n
      → Onward r (k a) (after o v) b e l (watchers o + n)
  runs-Onward caller g m o k a v same al moves staging p =
      let (at, rest) = Claims-next g m o k same staging in
      let (h, turn, staging_after) = rest a in
      record {
        stage = h;
        staging = staging_after;
        sound = busy-Sound v b e l n e_busy l_busy g o a h at turn al moves.later p;
      }
  runs-Onward reader g m o k a v same al moves staging p = record {
    stage = idle;
    staging = refl;
    sound = task-Sound reader g v (after o v) (watchers o) tt moves staging p;
  }
  runs-Onward writer g m o k a v same al moves staging p = record {
    stage = idle;
    staging = refl;
    sound = task-Sound writer g v (after o v) (watchers o) tt moves staging p;
  }
  runs-Onward watchdog g m o k a v same al moves staging p = record {
    stage = idle;
    staging = refl;
    sound = task-Sound watchdog g v (after o v) (watchers o) tt moves staging p;
  }

  pub Move-Onward :
      (t : Watch) (s : Store t) (th : Thread) (g : Stage) {st : Store t} {th' : Thread}
      {new : List Thread}
      → Moves th.role (view t s) (view t st)
      → Staging th.role g th.prog
      → Sound (view t s) (busy g + b) (early g + e) (late g + l) n
      → Move t s th st th' new
      → Onward th'.role th'.prog (view t st) b e l (watchdogs_of new + n)
  Move-Onward t s th g moves staging p (runs {o} {k} same a al) =
      let same_view = view-exec t o s in
      rw (watchers_lem o) (
        subst (λ w. Onward th.role (k a) w b e l (watchers o + n)) (sym same_view)
          (runs-Onward th.role g th.prog o k a (view t s) same (Answers-Allowed t o s a al)
            (subst (Moves th.role (view t s)) same_view moves) staging p))
  Move-Onward t s th g moves staging p (drops {o} {k} same aw may) = record {
    stage = g;
    staging = drops-Staging th.role g th.prog o k th.guards same aw staging;
    sound = Sound-counts _ p (omega arith) (omega arith) (omega arith) (omega arith);
  }

-- The threads that a move starts.
pub record Born (new : List Thread) : Type 0 where
  pub stages : List Stage
  pub staged : Staged new stages
  pub none_busy : sum_of busy stages ≡ 0

pub Move-Born :
    {t : Watch} {s : Store t} {th : Thread} {st : Store t} {th' : Thread} {new : List Thread}
    → Move t s th st th' new
    → Born new
Move-Born (runs {o} same a al) = spawned_Born o
  where
    spawned_Born : (o : Op) → Born (spawned o)
    spawned_Born (spawn_watchdog fuel) = record {
      stages = idle ∷ [];
      staged = (refl, tt);
      none_busy = refl;
    }
    spawned_Born o = record { stages = []; staged = tt; none_busy = refl }
Move-Born (drops same aw may) = record { stages = []; staged = tt; none_busy = refl }
