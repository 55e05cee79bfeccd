-- ===== src/Driver/System/Staged.antt =====
-- How far each thread of a connection of src/driver.rs is with the beginning of a close, and what a
-- move of one thread leaves of it.
use fogws.Prelude.{ℕ, ◌≤◌, ◌≡◌, refl, ap, arith, List, [], ◌∷◌, ◌++◌, sum_of}
use fogws.Driver.Task.{Task}
use fogws.Driver.Logic.{Role, watchdog, caller}
use fogws.Driver.System.{Outcome, Thread}
use fogws.Driver.System.Claims.{Stage, idle, Claims}
use fogws.Driver.System.Watching.{busy, early, late}

-- Only a caller begins a close.
abbrev pub Staging : Role → Stage → Task Outcome → Type 0
Staging caller g m = Claims g m
Staging _ g m = g ≡ idle

abbrev pub Staged : List Thread → List Stage → Type 0
Staged [] [] = Unit
Staged (th ∷ ths) (g ∷ gs) = Staging th.role g th.prog × Staged ths gs
Staged _ _ = ⊥

abbrev pub watching : Role → ℕ
watching watchdog = 1
watching _ = 0

abbrev pub watchdogs_of : List Thread → ℕ
watchdogs_of = sum_of (λ th. watching th.role)

pub Staged-append :
    (ths us : List Thread) (gs hs : List Stage)
    → Staged ths gs
    → Staged us hs
    → Staged (ths ++ us) (gs ++ hs)
Staged-append [] us [] hs p q = q
Staged-append [] us (g ∷ gs) hs p q = absurd p
Staged-append (th ∷ ths) us [] hs p q = absurd p
Staged-append (th ∷ ths) us (g ∷ gs) hs p q = (p.0, Staged-append ths us gs hs p.1 q)

-- The stages around the place of one thread.
pub record Around (before : List Thread) (mover : Thread) (behind : List Thread) (gs : List Stage)
    : Type 0 where
  pub front : List Stage
  pub stage : Stage
  pub rest : List Stage
  pub split : gs ≡ front ++ (stage ∷ rest)
  pub front_Staged : Staged before front
  pub mover_Staging : Staging mover.role stage mover.prog
  pub behind_Staged : Staged behind rest

pub Staged-split :
    (before : List Thread) (mover : Thread) (behind : List Thread) (gs : List Stage)
    → Staged (before ++ (mover ∷ behind)) gs
    → Around before mover behind gs
Staged-split [] mover behind [] p = absurd p
Staged-split (th ∷ before) mover behind [] p = absurd p
Staged-split [] mover behind (g ∷ gs) p = record {
  front = [];
  stage = g;
  rest = gs;
  split = refl;
  front_Staged = tt;
  mover_Staging = p.0;
  behind_Staged = p.1;
}
Staged-split (th ∷ before) mover behind (g ∷ gs) p =
    let around = Staged-split before mover behind gs p.1 in
    record {
      front = g ∷ around.front;
      stage = around.stage;
      rest = around.rest;
      split = ap (λ hs. g ∷ hs) around.split;
      front_Staged = (p.0, around.front_Staged);
      mover_Staging = around.mover_Staging;
      behind_Staged = around.behind_Staged;
    }

busy_lem : (g : Stage) → (early g ≤ busy g) × (late g ≤ busy g)
busy_lem g = ground arith

pub sum_of-busy :
    (gs : List Stage) → (sum_of early gs ≤ sum_of busy gs) × (sum_of late gs ≤ sum_of busy gs)
sum_of-busy [] = (omega arith, omega arith)
sum_of-busy (g ∷ gs) =
    omega (arith, (busy_lem g).0, (busy_lem g).1, (sum_of-busy gs).0, (sum_of-busy gs).1)
