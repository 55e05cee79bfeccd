-- ===== src/Driver/System/Moved.antt =====
-- A move of one safe thread: what it leaves to the others, and what it does to the count of tasks.
use fogws.Prelude.{ℕ, ◌+◌, ◌≤◌, ◌≡◌, refl, sym, subst, arith, List, sum_of, All}
use fogws.Tokio.{Watch}
use fogws.Driver.Task.{Op, Answer, Task, call, new_guard, drop_guard, spawn_watchdog}
use fogws.Driver.View.{View, after, Allowed}
use fogws.Driver.Order.{Later-refl, Inv}
use fogws.Driver.Logic.{
  Role, reader, writer, watchdog, caller, IsOther, Moves, Env, Lawful, held, Owns, Runs,
}
use fogws.Driver.Store.{Store, view, exec, view-exec, Answers-Allowed}
use fogws.Driver.System.{Thread, dropped, spawned, MayDrop, Move, runs, drops}
use fogws.Driver.System.Safe.{Safe, Ended, ThreadPost, drop_guards-Runs, watchdog_thread-Safe}

abbrev pub guards_of : List Thread → ℕ
guards_of = sum_of (λ th. th.guards)

-- A thread other than the reader's.
pub record OtherSafe (v : View) (th : Thread) : Type 0 where
  pub other : IsOther th.role
  pub safe : Safe th v

pub Env-refl : (r : Role) (v : View) → Env r v v
Env-refl r v = record { later = Later-refl v; no_new_peer = λ _. ground arith }

Moves-refl : (r : Role) (v : View) → Moves r v v
Moves-refl r v = record {
  later = Later-refl v;
  no_new_peer = λ _. ground arith;
  begins_no_close = λ _. record { no_new_closing = λ h. h; same_timeout = refl };
}

-- The count of tasks follows the guards.
count_op :
    (o : Op) (g : ℕ) (v : View)
    → Owns o g
    → g ≤ v.tasks_remaining
    → (after o v).tasks_remaining + g ≡ v.tasks_remaining + (held o g + guards_of (spawned o))
unfolding after
count_op new_guard g v owns h = omega arith
count_op drop_guard g v owns h = omega arith
count_op (spawn_watchdog fuel) g v owns h = omega arith
count_op o g v owns h = ground arith

born : (o : Op) (v : View) → All (OtherSafe v) (spawned o)
born (spawn_watchdog fuel) v = (record { other = tt; safe = watchdog_thread-Safe fuel v }, tt)
born o v = tt

-- The next call of a safe program.
pub Runs-next :
    {R : Type 0} (r : Role) (m : Task R) (o : Op) (k : Answer o → Task R)
    (Q : R → ℕ → View → Type 0) (g : ℕ) (v : View)
    → m ≡ call o k
    → Inv v
    → Runs r m Q g v
    → Lawful r o g v × ((a : Answer o) → Allowed o v a → Runs r (k a) Q (held o g) (after o v))
unfolding Runs
Runs-next r m o k Q g v e inv p =
    let q : Runs r (call o k) Q g v = rw e at p in q v (Env-refl r v) inv

module _ (t : Watch) where
  -- What a move of a thread leaves.
  pub record Moved (s : Store t) (th : Thread) (st : Store t) (th' : Thread) (new : List Thread)
      : Type 0 where
    pub moves : Moves th.role (view t s) (view t st)
    pub inv : Inv (view t st)
    pub same_role : th'.role ≡ th.role
    pub safe : Safe th' (view t st)
    pub new_safe : All (OtherSafe (view t st)) new
    pub counted :
        (view t st).tasks_remaining + th.guards
        ≡ (view t s).tasks_remaining + (th'.guards + guards_of new)

  dropped_end : (r : Role) (v : View) → Inv v → MayDrop r v → Ended r dropped v
  dropped_end reader v inv h = inv.reader_aborted_closed h
  dropped_end writer v inv h = inv.writer_aborted_closed h
  dropped_end watchdog v inv h = absurd h
  dropped_end caller v inv h = tt

  pub Move-Moved :
      (s : Store t) (th : Thread) {st : Store t} {th' : Thread} {new : List Thread}
      → Inv (view t s)
      → Safe th (view t s)
      → th.guards ≤ (view t s).tasks_remaining
      → Move t s th st th' new
      → Moved s th st th' new
  Move-Moved s th inv safe few (runs {o} {k} e a al) =
      let (lawful, rest) = Runs-next th.role th.prog o k _ th.guards (view t s) e inv safe in
      let same = sym (view-exec t o s) in
      record {
        moves = subst (Moves th.role (view t s)) same lawful.moves;
        inv = subst Inv same lawful.inv;
        same_role = refl;
        safe =
            subst (Runs th.role (k a) (ThreadPost th.role) (held o th.guards)) same
              (rest a (Answers-Allowed t o s a al));
        new_safe = born o (view t (exec t o s));
        counted =
            subst
              (λ v.
                v.tasks_remaining + th.guards
                ≡ (view t s).tasks_remaining + (held o th.guards + guards_of (spawned o)))
              same (count_op o th.guards (view t s) lawful.owns few);
      }
  Move-Moved s th inv safe few (drops e aw may) = record {
    moves = Moves-refl th.role (view t s);
    inv = inv;
    same_role = refl;
    safe = drop_guards-Runs th.role th.guards (view t s) (dropped_end th.role _ inv may);
    new_safe = tt;
    counted = omega arith;
  }
