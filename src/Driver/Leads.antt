-- ===== src/Driver/Leads.antt =====
-- A program of src/driver.rs at work on a state that it shares with others, which move between its
-- calls: what each call needs, what it does, and what the program ends in.
use fogws.Prelude.{◌≡◌, refl, sym, subst, Bool, true, false, if◌then◌else◌}
use fogws.Driver.Task.{Op, Answer, Task, done, call, ◌>>=◌}

-- The moves of the others, what a call needs, what it does by its answer, and the calls that need
-- nothing and do nothing.
pub record World : Type 1 where
  pub State : Type 0
  pub Aside : State → State → Type 0
  pub Owed : Op → State → Type 0
  pub Effect : (o : Op) → Answer o → State → State → Type 0
  pub Neutral : Op → Type 0
  pub neutral_owed : (o : Op) (x : State) → Neutral o → Owed o x
  pub neutral_effect : (o : Op) (a : Answer o) (x y : State) → Neutral o → Effect o a x y → y ≡ x

-- Programs of calls of one kind.
module _ (Neutral : Op → Type 0) where
  unfoldable pub Quiet : {R : Type 0} → Task R → Type 0
  Quiet (done x) = Unit
  Quiet (call o k) = Neutral o × ((a : Answer o) → Quiet (k a))

  pub Quiet-bind :
      {A B : Type 0} (m : Task A) (f : A → Task B)
      → Quiet m
      → ((x : A) → Quiet (f x))
      → Quiet (m >>= f)
  unfolding Quiet
  Quiet-bind (done x) f p rest = rest x
  Quiet-bind (call o k) f p rest = (p.0, λ a. Quiet-bind (k a) f (p.1 a) rest)

  pub Quiet-if :
      {R : Type 0} (b : Bool) (m n : Task R) → Quiet m → Quiet n → Quiet (if b then m else n)
  Quiet-if true m n p q = p
  Quiet-if false m n p q = q

module _ (world : World) where
  open world use {State, Aside, Owed, Effect, Neutral, neutral_owed, neutral_effect}

  -- Whatever the others do before each call and whatever its answer, each call has what it needs, and the
  -- program ends in `Q`.
  unfoldable pub Leads : {R : Type 0} → Task R → (R → State → Type 0) → State → Type 0
  Leads (done r) Q x = Q r x
  Leads (call o k) Q x =
      (y : State)
      → Aside x y
      → Owed o y × ((a : Answer o) (z : State) → Effect o a y z → Leads (k a) Q z)

  pub Leads-done :
      {R : Type 0} (r : R) (Q : R → State → Type 0) (x : State) → Q r x → Leads (done r) Q x
  unfolding Leads
  Leads-done r Q x q = q

  pub Leads-bind :
      {A B : Type 0} (m : Task A) (f : A → Task B) (Q : B → State → Type 0) (x : State)
      → Leads m (λ r y. Leads (f r) Q y) x
      → Leads (m >>= f) Q x
  unfolding Leads
  Leads-bind (done r) f Q x p = p
  Leads-bind (call o k) f Q x p = λ y aside.
      let (owed, rest) = p y aside in (owed, λ a z effect. Leads-bind (k a) f Q z (rest a z effect))

  pub Leads-weaken :
      {R : Type 0} (m : Task R) (P Q : R → State → Type 0) (x : State)
      → ((r : R) (y : State) → P r y → Q r y)
      → Leads m P x
      → Leads m Q x
  unfolding Leads
  Leads-weaken (done r) P Q x weaken p = weaken r x p
  Leads-weaken (call o k) P Q x weaken p = λ y aside.
      let (owed, rest) = p y aside in
      (owed, λ a z effect. Leads-weaken (k a) P Q z weaken (rest a z effect))

  pub Leads-if :
      {R : Type 0} (b : Bool) (m n : Task R) (Q : R → State → Type 0) (x : State)
      → Leads m Q x
      → Leads n Q x
      → Leads (if b then m else n) Q x
  Leads-if true m n Q x p q = p
  Leads-if false m n Q x p q = q

  pub Leads-split :
      {R : Type 0} (b : Bool) (m n : Task R) (Q : R → State → Type 0) (x : State)
      → (b ≡ true → Leads m Q x)
      → (b ≡ false → Leads n Q x)
      → Leads (if b then m else n) Q x
  Leads-split true m n Q x p q = p refl
  Leads-split false m n Q x p q = q refl

  -- A fact that the others cannot take away.
  abbrev pub Stable : (State → Type 0) → Type 0
  Stable P = (x y : State) → Aside x y → P x → P y

  pub Leads-Quiet :
      {R : Type 0} (m : Task R) (P : State → Type 0) (Q : R → State → Type 0) (x : State)
      → Quiet Neutral m
      → Stable P
      → P x
      → ((r : R) (y : State) → P y → Q r y)
      → Leads m Q x
  unfolding Leads Quiet
  Leads-Quiet (done r) P Q x quiet stable p ends = ends r x p
  Leads-Quiet (call o k) P Q x quiet stable p ends = λ y aside. (
    neutral_owed o y quiet.0,
    λ a z effect.
        Leads-Quiet (k a) P Q z (quiet.1 a) stable
          (subst P (sym (neutral_effect o a y z quiet.0 effect)) (stable x y aside p)) ends,
  )
