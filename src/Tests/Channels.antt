-- ===== src/Tests/Channels.antt =====
-- Concrete versions of tokio's semaphore and bounded channel.
use fogws.Prelude.{
  ℕ, zero, suc, ◌+◌, ◌-◌, ◌<◌, ◌≡◌, ◌↔◌, refl, arith, Bool, true, false, Option, none, some, List,
  [], ◌∷◌, ◌++◌, length, leb, if◌then◌else◌,
}
use fogws.Tokio.Semaphore.{Semaphore}
use fogws.Tokio.Mpsc.{Mpsc, Reserve, reserved, full, closed}

-- A semaphore that is its number of permits.
abbrev acquire : ℕ → ℕ → Option (ℕ × ℕ)
acquire n s = if leb n s then some (n, s - n) else none

pub acquire-some : (n s p u : ℕ) → acquire n s ≡ some (p, u) → (p ≡ n) × (u + n ≡ s)
acquire-some n s p u h = ground arith

pub acquire-none : (n s : ℕ) → (acquire n s ≡ none) ↔ (s < n)
acquire-none n s = (λ h. ground arith, λ h. ground arith)

abbrev pub counting : Semaphore
counting = record {
  State = ℕ;
  Permit = ℕ;
  new = λ n. n;
  available_permits = λ s. s;
  num_permits = λ p. p;
  try_acquire_many_owned = acquire;
  drop_permit = λ p s. s + p;
  available_permits-new = λ n. refl;
  acquired = acquire-some;
  refused_iff = acquire-none;
  available_permits-drop_permit = λ p s. refl;
}

-- A channel that is its contents, its free slots and whether it is closed.
pub record Slots (A : Type 0) : Type 0 where
  pub items : List A
  pub free : ℕ
  pub shut : Bool

module _ {A : Type 0} where
  abbrev reserve : Slots A → Reserve (Slots A)
  reserve q =
      if q.shut
      then closed
      else elim q.free [ zero ↦ full | suc n ↦ reserved (record q { free = n }) ]

  abbrev pop_item : Slots A → List A → Option (A × Slots A)
  pop_item q [] = none
  pop_item q (a ∷ rest) = some (a, record q { items = rest; free = suc q.free })

  pub reserve-reserved :
      (q u : Slots A)
      → reserve q ≡ reserved u
      → (q.free ≡ suc u.free) × (u.items ≡ q.items) × (u.shut ≡ q.shut)
  reserve-reserved q u h = ground arith

  pub reserve-full : (q : Slots A) → (reserve q ≡ full) ↔ ((q.shut ≡ false) × (q.free ≡ 0))
  reserve-full q = (λ h. ground arith, λ h. ground arith)

  pub reserve-closed : (q : Slots A) → (reserve q ≡ closed) ↔ (q.shut ≡ true)
  reserve-closed q = (λ h. ground arith, λ h. ground arith)

  pub pop_item-some :
      (q : Slots A) (l : List A) (a : A) (u : Slots A)
      → pop_item q l ≡ some (a, u)
      → (l ≡ a ∷ u.items) × (u.free ≡ suc q.free) × (u.shut ≡ q.shut)
  pop_item-some q [] a u h = cc
  pop_item-some q (b ∷ l) a u h = ground arith

  pub pop_item-none : (q : Slots A) (l : List A) → pop_item q l ≡ none → l ≡ []
  pop_item-none q [] h = refl
  pop_item-none q (a ∷ l) h = cc

abbrev pub slots : Mpsc
slots = record {
  Channel = Slots;
  channel = λ n. record { items = []; free = n; shut = false };
  contents = λ q. q.items;
  capacity = λ q. q.free;
  is_closed = λ q. q.shut;
  try_reserve_owned = reserve;
  send = λ a q. record q { items = q.items ++ (a ∷ []) };
  drop_permit = λ q. record q { free = suc q.free };
  recv = λ q. pop_item q q.items;
  drop_receiver = λ q. record { items = []; free = q.free + length q.items; shut = true };
  channel_lem = λ n. (refl, refl, refl);
  reserved_lem = reserve-reserved;
  full_iff = reserve-full;
  closed_iff = reserve-closed;
  send_lem = λ a q. (refl, refl, refl);
  drop_permit_lem = λ q. (refl, refl, refl);
  recv_lem = λ q a u h. pop_item-some q q.items a u h;
  recv_none = λ q h. pop_item-none q q.items h;
  drop_receiver_lem = λ q. (refl, omega arith, refl);
}
