-- ===== src/Tokio/Mpsc.antt =====
-- What the driver relies on of tokio's bounded `mpsc` channels: a send needs a slot, which is reserved
-- first, and a slot is free again when its value has been received or its permit is dropped.
use fogws.Prelude.{
  ℕ, suc, ◌+◌, ◌≤◌, ◌≡◌, ◌↔◌, Bool, true, false, Option, none, some, List, [], ◌∷◌, ◌++◌, length,
}

-- The outcome of `try_reserve_owned`, with the errors of `TrySendError`.
pub data Reserve (Q : Type 0) : Type 0 where
  reserved : Q → Reserve Q
  full : Reserve Q
  closed : Reserve Q

pub record Mpsc : Type 1 where
  pub Channel : Type 0 → Type 0
  pub channel : {A : Type 0} → ℕ → Channel A
  pub contents : {A : Type 0} → Channel A → List A
  pub capacity : {A : Type 0} → Channel A → ℕ
  pub is_closed : {A : Type 0} → Channel A → Bool
  pub try_reserve_owned : {A : Type 0} → Channel A → Reserve (Channel A)
  -- The two ends of an owned permit.
  pub send : {A : Type 0} → A → Channel A → Channel A
  pub drop_permit : {A : Type 0} → Channel A → Channel A
  pub recv : {A : Type 0} → Channel A → Option (A × Channel A)
  pub drop_receiver : {A : Type 0} → Channel A → Channel A
  pub channel_lem :
      {A : Type 0} (n : ℕ)
      → (contents (channel {A = A} n) ≡ [])
        × (capacity (channel {A = A} n) ≡ n)
        × (is_closed (channel {A = A} n) ≡ false)
  pub reserved_lem :
      {A : Type 0} (q u : Channel A)
      → try_reserve_owned q ≡ reserved u
      → (capacity q ≡ suc (capacity u)) × (contents u ≡ contents q) × (is_closed u ≡ is_closed q)
  pub full_iff :
      {A : Type 0} (q : Channel A)
      → (try_reserve_owned q ≡ full) ↔ ((is_closed q ≡ false) × (capacity q ≡ 0))
  pub closed_iff :
      {A : Type 0} (q : Channel A) → (try_reserve_owned q ≡ closed) ↔ (is_closed q ≡ true)
  pub send_lem :
      {A : Type 0} (a : A) (q : Channel A)
      → (contents (send a q) ≡ contents q ++ (a ∷ []))
        × (capacity (send a q) ≡ capacity q)
        × (is_closed (send a q) ≡ is_closed q)
  pub drop_permit_lem :
      {A : Type 0} (q : Channel A)
      → (contents (drop_permit q) ≡ contents q)
        × (capacity (drop_permit q) ≡ suc (capacity q))
        × (is_closed (drop_permit q) ≡ is_closed q)
  pub recv_lem :
      {A : Type 0} (q : Channel A) (a : A) (u : Channel A)
      → recv q ≡ some (a, u)
      → (contents q ≡ a ∷ contents u)
        × (capacity u ≡ suc (capacity q))
        × (is_closed u ≡ is_closed q)
  -- No value, whether the channel is at its end or one may still come.
  pub recv_none : {A : Type 0} (q : Channel A) → recv q ≡ none → contents q ≡ []
  -- The values in the channel are dropped with the receiver.
  pub drop_receiver_lem :
      {A : Type 0} (q : Channel A)
      → (contents (drop_receiver q) ≡ [])
        × (capacity (drop_receiver q) ≤ capacity q + length (contents q))
        × (is_closed (drop_receiver q) ≡ true)
