-- ===== src/Driver/Receive/Results.antt =====
-- What the inbound path of src/driver.rs promises, in every order of its accesses.
use fogws.Prelude.{
  ◌+◌, ◌≤◌, ◌≡◌, refl, ◌⊎◌, String, Bool, true, Bool-cases, inl, inr, false, ok, err, arith, List,
  [], ◌∷◌, ◌++◌, map, length, sum_of, All,
}
use fogws.Error.{concurrency}
use fogws.Config.{ConnectionConfig}
use fogws.Tokio.Semaphore.{Semaphore}
use fogws.Tokio.Mpsc.{Mpsc}
use fogws.Driver.Wire.{Tungstenite}
use fogws.Driver.Receive.{InboundEnvelope, claim}
use fogws.Driver.Receive.Receivers.{Receivers, Reach, start}
use fogws.Driver.Receive.Account.{
  envelope_bytes, inbound_len, holding_bytes, waiting, envelope_message, Kept, start-Kept, IsPaid,
}
use fogws.Driver.Receive.Kept.{Reach-Kept}

-- A receive that claims the guard, or the error that it is refused with.
abbrev pub IsRefused : Bool → Type 0
IsRefused active = (message : String) × (claim active ≡ (active, err (concurrency message)))

busy-IsRefused : (active : Bool) → active ≡ true → IsRefused active
unfolding claim
busy-IsRefused true h = ("only one receive operation may be active per connection", refl)
busy-IsRefused false h = cc

module _ (sem : Semaphore) (chan : Mpsc) (w : Tungstenite) (config : ConnectionConfig) where
  open sem use {available_permits}
  open chan use {contents, capacity}

  kept :
      {s : Receivers sem chan}
      → Reach sem chan w config (start sem chan w config) s
      → Kept sem chan w config s
  kept r = Reach-Kept sem chan w config r (start-Kept sem chan w config)

  -- At most one receive is in progress: when there is none, the next one claims the guard, and when
  -- there is one, every other is refused with a concurrency error, and the flag stays.
  pub one_receive :
      {s : Receivers sem chan}
      → Reach sem chan w config (start sem chan w config) s
      → ((s.receiving ≡ 0) × (claim s.shared.receive_active ≡ (true, ok tt)))
        ⊎ ((s.receiving ≡ 1) × IsRefused s.shared.receive_active)
  unfolding claim
  one_receive {s} r = elim (Bool-cases s.shared.receive_active) [
    | inl busy ↦
        inr (ground (arith, (kept r).one_guard), busy-IsRefused s.shared.receive_active busy)
    | inr free ↦ inl (ground (arith, (kept r).one_guard), rw free refl)
  ]

  -- The inbound queue never holds more messages than configured, and the messages in it and the one
  -- that the reader waits to queue never more bytes than the budget, whose other permits are available.
  pub inbound_bounded :
      {s : Receivers sem chan}
      → Reach sem chan w config (start sem chan w config) s
      → (length (waiting sem chan w config s) ≤ config.max_queue)
        × (available_permits s.shared.inbound_budget
              + holding_bytes sem chan w config s.holding
              + sum_of (λ e. inbound_len sem chan w config e.message) (waiting sem chan w config s)
            ≡ config.max_buffered_bytes)
  inbound_bounded {s} r =
      let k = kept r in
      (
        omega (arith, k.slots),
        omega (arith, k.bytes, paid_sum (waiting sem chan w config s) k.paid),
      )
    where
      paid_sum :
          (es : List (InboundEnvelope sem))
          → All (IsPaid sem chan w config) es
          → sum_of (envelope_bytes sem chan w config) es
            ≡ sum_of (λ e. inbound_len sem chan w config e.message) es
      paid_sum [] h = refl
      paid_sum (e ∷ es) h = omega (arith, h.0, paid_sum es h.1)

  -- What receives have returned, followed by what is queued, is what the reader has queued, in order:
  -- receives that are refused or dropped lose no message.
  pub received_in_order :
      {s : Receivers sem chan}
      → Reach sem chan w config (start sem chan w config) s
      → s.delivered
        ≡ s.received ++ map (envelope_message sem chan w config) (waiting sem chan w config s)
  received_in_order r = (kept r).in_order
