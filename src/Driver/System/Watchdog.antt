-- ===== src/Driver/System/Watchdog.antt =====
-- A connection of src/driver.rs that is closing by itself has a watchdog.
use fogws.Prelude.{
  ℕ, zero, suc, ◌+◌, ◌<◌, ◌≡◌, refl, ap, subst, arith, Bool, false, List, [], ◌∷◌, sum_of, ◌⊎◌, inl,
  inr,
}
use fogws.Tokio.{Watch}
use fogws.Driver.Wire.{Tungstenite}
use fogws.Driver.State.{closing}
use fogws.Driver.Task.{Task, done, call, modify_shutdown, swap_timeout_started, spawn_watchdog}
use fogws.Driver.Order.{IsClosed}
use fogws.Driver.Logic.{Role, reader, writer, watchdog, caller}
use fogws.Driver.Store.{view}
use fogws.Driver.System.{Outcome, Thread, System, Reach, start}
use fogws.Driver.System.Safety.{HasEnded}
use fogws.Driver.System.Outcomes.{Holds, other-Ended}
use fogws.Driver.System.Safe.{Ended}
use fogws.Driver.System.Claims.{Stage, idle, claimed, owing, spawning, Claims}
use fogws.Driver.System.Watching.{early, late}
use fogws.Driver.System.Staged.{Staging, Staged, watching, watchdogs_of}
use fogws.Driver.System.Watched.{Reach-Attended}

-- A program that spawns the watchdog before its next await, if the mark of the started watchdog is as
-- given.
unfoldable pub Spawns : {R : Type 0} → Bool → Task R → Type 0
Spawns started (done x) = ⊥
Spawns started (call (modify_shutdown f) k) = (a : Bool) → Spawns started (k a)
Spawns started (call (swap_timeout_started b) k) = Spawns b (k started)
Spawns started (call (spawn_watchdog fuel) k) = Unit
Spawns started (call _ k) = ⊥

late-Spawns :
    {R : Type 0} (g : Stage) (started : Bool) (m : Task R)
    → 0 < late g
    → (0 < early g → started ≡ false)
    → Claims g m
    → Spawns started m
unfolding Claims Spawns
late-Spawns idle started m is_late fresh p = absurd (omega (arith, is_late))
late-Spawns claimed started m is_late fresh p = absurd (omega (arith, is_late))
late-Spawns spawning started (done x) is_late fresh p = ground (arith, p)
late-Spawns spawning started (call (spawn_watchdog fuel) k) is_late fresh p = tt
late-Spawns spawning started (call o k) is_late fresh p = absurd p.0
late-Spawns owing started (done x) is_late fresh p = ground (arith, p)
late-Spawns owing started (call (modify_shutdown f) k) is_late fresh p =
    λ a. let (h, turn, q) = p.1 a in late-Spawns owing started (k a) is_late fresh (rw turn at q)
late-Spawns owing started (call (swap_timeout_started b) k) is_late fresh p =
    let (h, turn, q) = p.1 false in
    rw (fresh (omega arith)) (
      late-Spawns spawning b (k false) (omega arith) (λ c. absurd (omega (arith, c)))
        (rw turn.1 at q))
late-Spawns owing started (call o k) is_late fresh p = absurd p.0

-- A thread of a list with a property.
record Some (P : Thread → Type 0) (ths : List Thread) : Type 0 where
  thread : Thread
  place : Holds ths thread
  holds : P thread

Some-behind :
    (P : Thread → Type 0) (th : Thread) (ths : List Thread) → Some P ths → Some P (th ∷ ths)
Some-behind P th ths s = record {
  thread = s.thread;
  place = record {
    before = th ∷ s.place.before;
    behind = s.place.behind;
    split = ap (λ us. th ∷ us) s.place.split;
  };
  holds = s.holds;
}

Some-first : (P : Thread → Type 0) (th : Thread) (ths : List Thread) → P th → Some P (th ∷ ths)
Some-first P th ths p = record {
  thread = th;
  place = record { before = []; behind = ths; split = refl };
  holds = p;
}

watchdog-cases : (r : Role) → (r ≡ watchdog) ⊎ (watching r ≡ 0)
watchdog-cases r = ground arith

Some-watchdog : (ths : List Thread) → 0 < watchdogs_of ths → Some (λ th. th.role ≡ watchdog) ths
Some-watchdog [] h = absurd (omega (arith, h))
Some-watchdog (th ∷ ths) h = elim (watchdog-cases th.role) [
  | inl same ↦ Some-first _ th ths same
  | inr other ↦ Some-behind _ th ths (Some-watchdog ths (omega arith))
]

late-cases :
    (r : Role) (g : Stage) (m : Task Outcome)
    → Staging r g m
    → (late g ≡ 0) ⊎ ((0 < late g) × (r ≡ caller) × Claims g m)
late-cases caller idle m p = inl refl
late-cases caller claimed m p = inl refl
late-cases caller owing m p = inr (omega arith, refl, p)
late-cases caller spawning m p = inr (omega arith, refl, p)
late-cases reader g m p = inl (ap late p)
late-cases writer g m p = inl (ap late p)
late-cases watchdog g m p = inl (ap late p)

Some-late :
    (started : Bool) (ths : List Thread) (gs : List Stage)
    → Staged ths gs
    → (0 < sum_of early gs → started ≡ false)
    → 0 < sum_of late gs
    → Some (λ th. (th.role ≡ caller) × Spawns started th.prog) ths
Some-late started [] [] p fresh h = absurd (omega (arith, h))
Some-late started [] (g ∷ gs) p fresh h = absurd p
Some-late started (th ∷ ths) [] p fresh h = absurd p
Some-late started (th ∷ ths) (g ∷ gs) p fresh h = elim (late-cases th.role g th.prog p.0) [
  | inl not_late ↦
      Some-behind _ th ths (Some-late started ths gs p.1 (λ c. fresh (omega arith)) (omega arith))
  | inr (is_late, role, claims) ↦
      Some-first _ th ths
        (role, late-Spawns g started th.prog is_late (λ c. fresh (omega arith)) claims)
]

positive-cases : (m n : ℕ) → 0 < m + n → (0 < m) ⊎ (0 < n)
positive-cases zero n h = inr (omega arith)
positive-cases (suc m) n h = inl (omega arith)

module _ (t : Watch) (w : Tungstenite) (fuel : ℕ) where
  -- While a connection is closing and the peer has not closed it, there is a watchdog that has not
  -- ended, or a call of a user whose program spawns the watchdog before its next await.
  pub closing_watched :
      {s : System t}
      → Reach t (start t w fuel) s
      → (view t s.store).state ≡ closing
      → ((th : Thread) × Holds s.others th × (th.role ≡ watchdog) × ¬ HasEnded th)
        ⊎ ((th : Thread) × Holds s.others th
            × (th.role ≡ caller)
            × Spawns (view t s.store).close_timeout_started th.prog)
  closing_watched {s} r h =
      let attended = Reach-Attended t w fuel r in
      elim (positive-cases _ _ (attended.sound.watched h)) [
        | inl is_late ↦
            let found =
              Some-late _ s.others attended.stages attended.staged attended.sound.fresh is_late in
            inr (found.thread, found.place, found.holds.0, found.holds.1)
        | inr is_watched ↦
            let found = Some-watchdog s.others is_watched in
            inl (
              found.thread,
              found.place,
              found.holds,
              not_over r h found.thread found.place found.holds,
            )
      ]
    where
      not_over :
          {s : System t}
          → Reach t (start t w fuel) s
          → (view t s.store).state ≡ closing
          → (th : Thread) → Holds s.others th
          → th.role ≡ watchdog
          → HasEnded th
          → ⊥
      not_over {s} r h th place role ended =
          let over =
            subst (λ k. Ended k ended.0 (view t s.store)) role
              (other-Ended t w fuel r th place ended.0 ended.1) in
          subst IsClosed h over
