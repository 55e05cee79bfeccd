-- ===== src/Tokio.antt =====
-- What the driver relies on of tokio's `watch` channels: a channel holds a value, an update is made on
-- the current value at once, and `borrow` reads the value last written.
pub mod Semaphore
pub mod Mpsc
use fogws.Prelude.{Bool, ◌≡◌}

pub record Watch : Type 1 where
  pub Channel : Type 0 → Type 0
  pub channel : {A : Type 0} → A → Channel A
  pub borrow : {A : Type 0} → Channel A → A
  -- With the closure's report of a change.
  pub send_if_modified : {A : Type 0} → (A → A × Bool) → Channel A → Channel A × Bool
  pub send_modify : {A : Type 0} → (A → A) → Channel A → Channel A
  pub borrow-channel : {A : Type 0} (a : A) → borrow (channel a) ≡ a
  pub borrow-send_if_modified :
      {A : Type 0} (f : A → A × Bool) (c : Channel A)
      → borrow (send_if_modified f c).0 ≡ (f (borrow c)).0
  pub result-send_if_modified :
      {A : Type 0} (f : A → A × Bool) (c : Channel A) → (send_if_modified f c).1 ≡ (f (borrow c)).1
  pub borrow-send_modify :
      {A : Type 0} (f : A → A) (c : Channel A) → borrow (send_modify f c) ≡ f (borrow c)
