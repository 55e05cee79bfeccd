-- ===== src/Driver/System/Watched.antt =====
-- The watchdog of a local close in every reachable state of a connection of src/driver.rs.
use fogws.Prelude.{
  ℕ, ◌+◌, ◌≤◌, ◌≡◌, refl, ap, subst, arith, List, [], ◌∷◌, ◌++◌, sum_of, sum_of-append,
}
use fogws.Tokio.{Watch}
use fogws.Driver.Wire.{Tungstenite}
use fogws.Driver.View.{View}
use fogws.Driver.Logic.{Moves}
use fogws.Driver.Store.{view, start-view, start_store}
use fogws.Driver.System.{
  Thread, System, Step, Reach, start, reader_moves, other_moves, closes, aborts, here, next,
  close_thread, abort_thread, writer_thread,
}
use fogws.Driver.System.Moved.{Move-Moved}
use fogws.Driver.System.Invariant.{Good, start-Good, mover-Moved}
use fogws.Driver.System.Safety.{Reach-Good}
use fogws.Driver.System.Claims.{Stage, idle, close_thread-Claims, abort_thread-Claims}
use fogws.Driver.System.Watching.{busy, early, late, Sound, Sound-Quiet, Sound-counts}
use fogws.Driver.System.Staged.{
  Staging, Staged, Staged-append, Staged-split, Around, watching, watchdogs_of, sum_of-busy,
}
use fogws.Driver.System.Onward.{Onward, Move-Onward, Born, Move-Born}

-- Threads that begin at most one close, and that watch it.
pub record Attended (v : View) (ths : List Thread) : Type 0 where
  pub stages : List Stage
  pub staged : Staged ths stages
  pub sound :
      Sound v (sum_of busy stages) (sum_of early stages) (sum_of late stages) (watchdogs_of ths)

attend_new :
    (v : View) (new ths : List Thread) (gs : List Stage)
    → Born new
    → Staged ths gs
    → Sound v
        (sum_of busy gs)
        (sum_of early gs)
        (sum_of late gs)
        (watchdogs_of new + watchdogs_of ths)
    → Attended v (new ++ ths)
attend_new v new ths gs born staged p = record {
  stages = born.stages ++ gs;
  staged = Staged-append new ths born.stages gs born.staged staged;
  sound =
      let few = sum_of-busy born.stages in
      let none = born.none_busy in
      Sound-counts v p (omega (arith, sum_of-append busy born.stages gs))
        (omega (arith, sum_of-append early born.stages gs))
        (omega (arith, sum_of-append late born.stages gs))
        (omega (arith, sum_of-append (λ (th : Thread). watching th.role) new ths));
}

attend_idle :
    (v : View) (th : Thread) (ths : List Thread)
    → Staging th.role idle th.prog
    → Attended v ths
    → Attended v (th ∷ ths)
attend_idle v th ths staging p = record {
  stages = idle ∷ p.stages;
  staged = (staging, p.staged);
  sound = Sound-counts v p.sound (omega arith) (omega arith) (omega arith) (omega arith);
}

sum_around :
    {A : Type 0} (f : A → ℕ) (front : List A) (x : A) (rest xs : List A)
    → xs ≡ front ++ (x ∷ rest)
    → sum_of f xs ≡ f x + (sum_of f front + sum_of f rest)
sum_around f front x rest xs e = rw e (omega (arith, sum_of-append f front (x ∷ rest)))

same_watchdogs :
    (before : List Thread) (mover th : Thread) (behind new : List Thread)
    → th.role ≡ mover.role
    → watchdogs_of new + watchdogs_of (before ++ (mover ∷ behind))
      ≤ watchdogs_of new + watchdogs_of (before ++ (th ∷ behind))
same_watchdogs before mover th behind new same =
    let role = λ (x : Thread). watching x.role in
    let same_role = ap watching same in
    omega
      (arith, sum_of-append role before (mover ∷ behind), sum_of-append role before (th ∷ behind))

-- The thread at one place has moved.
attend_moved :
    (v w : View) (before : List Thread) (mover th : Thread) (behind new : List Thread)
    → th.role ≡ mover.role
    → Born new
    → (gs : List Stage) (around : Around before mover behind gs)
    → ((b e l n : ℕ)
        → e ≤ b
        → l ≤ b
        → Sound v (busy around.stage + b) (early around.stage + e) (late around.stage + l) n
        → Onward th.role th.prog w b e l (watchdogs_of new + n))
    → Sound v
        (sum_of busy gs)
        (sum_of early gs)
        (sum_of late gs)
        (watchdogs_of (before ++ (mover ∷ behind)))
    → Attended w (new ++ (before ++ (th ∷ behind)))
attend_moved v w before mover th behind new same born gs around move p =
    let (few_front, few_front_late) = sum_of-busy around.front in
    let (few_rest, few_rest_late) = sum_of-busy around.rest in
    let total : (f : Stage → ℕ)
        → sum_of f gs ≡ f around.stage + (sum_of f around.front + sum_of f around.rest) =
      λ f. sum_around f around.front around.stage around.rest gs around.split in
    let onward =
      move (sum_of busy around.front + sum_of busy around.rest)
        (sum_of early around.front + sum_of early around.rest)
        (sum_of late around.front + sum_of late around.rest)
        (watchdogs_of (before ++ (mover ∷ behind))) (omega arith) (omega arith)
        (Sound-counts v p (omega (arith, total busy)) (omega (arith, total early))
          (omega (arith, total late)) (omega arith)) in
    attend_new w new (before ++ (th ∷ behind)) (around.front ++ (onward.stage ∷ around.rest)) born
      (Staged-append before (th ∷ behind) around.front (onward.stage ∷ around.rest)
        around.front_Staged (onward.staging, around.behind_Staged))
      (Sound-counts w onward.sound
        (omega (arith, sum_of-append busy around.front (onward.stage ∷ around.rest)))
        (omega (arith, sum_of-append early around.front (onward.stage ∷ around.rest)))
        (omega (arith, sum_of-append late around.front (onward.stage ∷ around.rest)))
        (same_watchdogs before mover th behind new same))

module _ (t : Watch) where
  Step-Attended :
      {s u : System t}
      → Step t s u
      → Good t s
      → Attended (view t s.store) s.others
      → Attended (view t u.store) u.others
  Step-Attended {s} (reader_moves {st} {th} {new} m) good p =
      let after_move =
        Move-Moved t s.store s.reader good.inv good.reader_safe (omega (arith, good.counted)) m in
      let moves =
        subst (λ r. Moves r (view t s.store) (view t st)) good.reader_role after_move.moves in
      let begins = moves.begins_no_close tt in
      attend_new (view t st) new s.others p.stages (Move-Born m) p.staged (
        Sound-Quiet (view t s.store) (view t st)
          (record {
            no_new_closing = begins.no_new_closing;
            same_timeout = begins.same_timeout;
            closing_up = moves.later.closing_up;
          })
          p.sound (omega arith) (omega arith) (omega arith) (omega arith))
  Step-Attended {s} (other_moves {st} {th} {new} before mover behind e m) good p =
      let after_move = mover-Moved t good before mover behind e m in
      let around =
        Staged-split before mover behind p.stages (subst (λ ths. Staged ths p.stages) e p.staged) in
      attend_moved (view t s.store) (view t st) before mover th behind new after_move.same_role
        (Move-Born m) p.stages around
        (λ b e l n few_early few_late sound.
          Move-Onward few_early few_late t s.store mover around.stage after_move.moves
            around.mover_Staging sound m)
        (subst
          (λ ths.
            Sound (view t s.store) (sum_of busy p.stages) (sum_of early p.stages)
              (sum_of late p.stages) (watchdogs_of ths))
          e p.sound)
  Step-Attended {s} (closes fuel) good p =
      attend_idle _ (close_thread fuel) s.others (close_thread-Claims fuel) p
  Step-Attended {s} aborts good p = attend_idle _ abort_thread s.others abort_thread-Claims p

  start-Attended :
      (w : Tungstenite) (fuel : ℕ) → Attended (view t (start_store t)) (writer_thread w fuel ∷ [])
  start-Attended w fuel =
      rw (start-view t) (record { stages = idle ∷ []; staged = (refl, tt); sound = ground arith })

  pub Reach-Attended :
      (w : Tungstenite) (fuel : ℕ) {s : System t}
      → Reach t (start t w fuel) s
      → Attended (view t s.store) s.others
  Reach-Attended w fuel here = start-Attended w fuel
  Reach-Attended w fuel (next r st) =
      Step-Attended st (Reach-Good t r (start-Good t w fuel)) (Reach-Attended w fuel r)
