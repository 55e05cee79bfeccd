-- ===== src/Tokio/Semaphore.antt =====
-- What the driver relies on of tokio's `Semaphore`: an owned permit stands for a number of permits,
-- which its drop gives back.
use fogws.Prelude.{ℕ, ◌+◌, ◌<◌, ◌≡◌, ◌↔◌, Option, none, some}

pub record Semaphore : Type 1 where
  pub State : Type 0
  pub Permit : Type 0
  pub new : ℕ → State
  pub available_permits : State → ℕ
  pub num_permits : Permit → ℕ
  pub try_acquire_many_owned : ℕ → State → Option (Permit × State)
  pub drop_permit : Permit → State → State
  pub available_permits-new : (n : ℕ) → available_permits (new n) ≡ n
  pub acquired :
      (n : ℕ) (s : State) (p : Permit) (u : State)
      → try_acquire_many_owned n s ≡ some (p, u)
      → (num_permits p ≡ n) × (available_permits u + n ≡ available_permits s)
  pub refused_iff :
      (n : ℕ) (s : State) → (try_acquire_many_owned n s ≡ none) ↔ (available_permits s < n)
  pub available_permits-drop_permit :
      (p : Permit) (s : State)
      → available_permits (drop_permit p s) ≡ available_permits s + num_permits p
