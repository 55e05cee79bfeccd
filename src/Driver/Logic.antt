-- ===== src/Driver/Logic.antt =====
-- A rely-guarantee logic for the programs of src/driver.rs. Between two calls of a program the other
-- tasks may move the shared state; `Runs` says that a program, whatever they do within what it relies
-- on, keeps what they rely on, and ends in its postcondition.
pub mod Access
pub mod Rules
pub mod Ends
pub mod Reading
pub mod Handshake
pub mod Writing
pub mod Closing
use fogws.Prelude.{ℕ, ◌+◌, ◌-◌, ◌<◌, Bool, true, false, ◌≡◌, refl, if◌then◌else◌}
use fogws.Driver.State.{closing}
use fogws.Driver.Task.{
  Op, Answer, Task, done, call, op, ◌>>=◌, new_guard, drop_guard, spawn_watchdog,
}
use fogws.Driver.View.{View, after, Allowed}
use fogws.Driver.Order.{Later, Later-trans, NoNewPeer, NoNewPeer-trans, Inv}

-- Who runs a program. A caller is a task of the library's user.
pub data Role : Type 0 where
  reader writer watchdog caller : Role

-- The reader alone reports the peer's close.
abbrev pub IsOther : Role → Type 0
IsOther reader = ⊥
IsOther _ = Unit

abbrev pub IsReader : Role → Type 0
IsReader reader = Unit
IsReader _ = ⊥

-- The tasks that the driver spawns, which hold a guard while they run.
abbrev pub HoldsGuard : Role → ℕ → Type 0
HoldsGuard caller g = Unit
HoldsGuard _ g = 0 < g

-- The tasks that the driver spawns do not begin a local close, and start no watchdog.
abbrev pub IsTask : Role → Type 0
IsTask caller = ⊥
IsTask _ = Unit

pub record BeginsNoClose (v w : View) : Type 0 where
  pub no_new_closing : w.state ≡ closing → v.state ≡ closing
  pub same_timeout : w.close_timeout_started ≡ v.close_timeout_started

-- What the program of a role does to the shared state, and what it relies on from the others.
pub record Moves (r : Role) (v w : View) : Type 0 where
  pub later : Later v w
  pub no_new_peer : IsOther r → NoNewPeer v.state w.state
  pub begins_no_close : IsTask r → BeginsNoClose v w

pub record Env (r : Role) (v w : View) : Type 0 where
  pub later : Later v w
  pub no_new_peer : IsReader r → NoNewPeer v.state w.state

pub Env-trans : (r : Role) (u v w : View) → Env r u v → Env r v w → Env r u w
Env-trans r u v w p q = record {
  later = Later-trans u v w p.later q.later;
  no_new_peer = λ h. NoNewPeer-trans u.state v.state w.state (p.no_new_peer h) (q.no_new_peer h);
}

-- The guards that a task holds after a call. A guard goes to the watchdog with its spawn.
abbrev pub held : Op → ℕ → ℕ
held new_guard g = g + 1
held drop_guard g = g - 1
held (spawn_watchdog _) g = g - 1
held _ g = g

abbrev pub Owns : Op → ℕ → Type 0
Owns drop_guard g = 0 < g
Owns (spawn_watchdog _) g = 0 < g
Owns _ g = Unit

-- What one call of a program owes the others.
pub record Lawful (r : Role) (o : Op) (g : ℕ) (w : View) : Type 0 where
  pub holds : HoldsGuard r g
  pub owns : Owns o g
  pub moves : Moves r w (after o w)
  pub inv : Inv (after o w)

unfoldable pub Runs : {R : Type 0} → Role → Task R → (R → ℕ → View → Type 0) → ℕ → View → Type 0
Runs r (done x) Q g v = Q x g v
Runs r (call o k) Q g v =
    (w : View)
    → Env r v w
    → Inv w
    → Lawful r o g w × ((a : Answer o) → Allowed o w a → Runs r (k a) Q (held o g) (after o w))

pub Runs-done :
    {R : Type 0} (r : Role) (x : R) (Q : R → ℕ → View → Type 0) (g : ℕ) (v : View)
    → Q x g v
    → Runs r (done x) Q g v
unfolding Runs
Runs-done r x Q g v q = q

pub Runs-bind :
    {A B : Type 0} (r : Role) (m : Task A) (f : A → Task B) (Q : B → ℕ → View → Type 0) (g : ℕ)
    (v : View)
    → Runs r m (λ x h w. Runs r (f x) Q h w) g v
    → Runs r (m >>= f) Q g v
unfolding Runs
Runs-bind r (done x) f Q g v p = p
Runs-bind r (call o k) f Q g v p = λ w env inv.
    let (lawful, rest) = p w env inv in
    (lawful, λ a al. Runs-bind r (k a) f Q (held o g) (after o w) (rest a al))

-- The rule of consequence.
pub Runs-weaken :
    {R : Type 0} (r : Role) (m : Task R) (P Q : R → ℕ → View → Type 0) (g : ℕ) (v : View)
    → ((x : R) (h : ℕ) (w : View) → P x h w → Q x h w)
    → Runs r m P g v
    → Runs r m Q g v
unfolding Runs
Runs-weaken r (done x) P Q g v weaken p = weaken x g v p
Runs-weaken r (call o k) P Q g v weaken p = λ w env inv.
    let (lawful, rest) = p w env inv in
    (lawful, λ a al. Runs-weaken r (k a) P Q (held o g) (after o w) weaken (rest a al))

-- A program runs the same from a state that the others have moved, if its first step is a call.
pub Runs-later :
    {R : Type 0} (r : Role) (m : Task R) (Q : R → ℕ → View → Type 0) (g : ℕ) (v w : View)
    → ((x : R) (h : ℕ) → Q x h v → Q x h w)
    → Env r v w
    → Runs r m Q g v
    → Runs r m Q g w
unfolding Runs
Runs-later r (done x) Q g v w keep env p = keep x g p
Runs-later r (call o k) Q g v w keep env p = λ u step inv. p u (Env-trans r v w u env step) inv

-- A fact that the others cannot take away.
abbrev pub Stable : Role → (View → Type 0) → Type 0
Stable r P = (v w : View) → Env r v w → P v → P w

pub Runs-if :
    {R : Type 0} (r : Role) (b : Bool) (m n : Task R) (Q : R → ℕ → View → Type 0) (g : ℕ) (v : View)
    → (b ≡ true → Runs r m Q g v)
    → (b ≡ false → Runs r n Q g v)
    → Runs r (if b then m else n) Q g v
Runs-if r true m n Q g v p q = p refl
Runs-if r false m n Q g v p q = q refl
