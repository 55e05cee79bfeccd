-- ===== src/Driver/Receive/Emptied.antt =====
-- The inbound queue of src/driver.rs can always be emptied: no order of accesses blocks `receive`.
use fogws.Prelude.{
  ◌+◌, ◌≡◌, refl, sym, ap, ◌∙◌, true, false, Bool-cases, Option-cases, inl, inr, some, ok, arith,
  List, [], ◌∷◌, ◌++◌, map, sum_of,
}
use mathlib.Core.List.{append-nil}
use fogws.Config.{ConnectionConfig}
use fogws.Tokio.Semaphore.{Semaphore}
use fogws.Tokio.Mpsc.{Mpsc}
use fogws.Driver.Wire.{Tungstenite}
use fogws.Driver.State.{DriverState}
use fogws.Driver.Receive.{InboundEnvelope, Inbound, claim, receive, release}
use fogws.Driver.Receive.Receivers.{Receivers, Reach, start, claims, cancels, receives, here, next}
use fogws.Driver.Receive.Account.{
  envelope_bytes, holding_bytes, waiting, envelope_message, Kept, start-Kept,
}
use fogws.Driver.Receive.Kept.{Reach-Kept}

module _ (sem : Semaphore) (chan : Mpsc) (w : Tungstenite) (config : ConnectionConfig) where
  open sem use {available_permits}
  open chan use {contents}

  pub receive-some :
      (state : DriverState) (i : Inbound sem chan) {e : InboundEnvelope sem}
      {rest : chan.Channel (InboundEnvelope sem)}
      → chan.recv i.inbound ≡ some (e, rest)
      → receive sem chan state i
        ≡ some (
          record {
            inbound = rest;
            inbound_budget = sem.drop_permit e.permit i.inbound_budget;
            receive_active = false;
            sender_dropped = i.sender_dropped;
          },
          ok e.message,
        )
  unfolding receive release
  receive-some state i h = rw (h, receive) refl

  -- A run from `s` to `u` that queues nothing, after which all that was queued has been received.
  pub record Emptied (s u : Receivers sem chan) : Type 0 where
    pub run : Reach sem chan w config s u
    pub nothing_new : u.delivered ≡ s.delivered
    pub all_received : u.received ≡ s.delivered
    pub empty : waiting sem chan w config u ≡ []
    pub idle : u.receiving ≡ 0
    pub budget :
        available_permits u.shared.inbound_budget + holding_bytes sem chan w config s.holding
        ≡ config.max_buffered_bytes

  -- With no receive in progress, one receive after the other.
  receive_rest :
      (state : DriverState) {s : Receivers sem chan}
      → Kept sem chan w config s
      → (l : List (InboundEnvelope sem)) (u : Receivers sem chan) → Reach sem chan w config s u
      → u.delivered ≡ s.delivered
      → u.holding ≡ s.holding
      → u.receiving ≡ 0
      → contents u.shared.inbound ≡ l
      → (v : Receivers sem chan) × Emptied s v
  unfolding claim
  receive_rest state {s} k [] u r same held idle empty =
      let k' = Reach-Kept sem chan w config r k in
      (
        u,
        record {
          run = r;
          nothing_new = same;
          all_received = sym (
              sym same
              ∙ k'.in_order
              ∙ ap (λ l. u.received ++ map (envelope_message sem chan w config) l) empty
              ∙ append-nil u.received);
          empty = empty;
          idle = idle;
          budget = omega (
            arith,
            k'.bytes,
            ap (sum_of (envelope_bytes sem chan w config)) empty,
            ap (holding_bytes sem chan w config) held,
          );
        },
      )
  receive_rest state {s} k (e ∷ l) u r same held idle full =
      let k' = Reach-Kept sem chan w config r k in
      let free : u.shared.receive_active ≡ false = ground (arith, k'.one_guard) in
      let claimed = next r (claims {active = true} (rw free refl)) in
      elim (Option-cases (chan.recv u.shared.inbound)) [
        | inl nothing ↦ absurd (cc (chan.recv_none u.shared.inbound nothing))
        | inr ((first, rest), h) ↦
            receive_rest state k l _
              (next claimed (
                receives state refl
                  (receive-some state (record u.shared { receive_active = true }) h)))
              same held idle (cc (chan.recv_lem u.shared.inbound first rest h).0)
      ]

  -- From every reachable state there is a run that queues nothing, drops a receive that is in progress
  -- and receives all that is queued: then every message that the reader queued has been received, and
  -- the whole budget is available but for the message that the reader waits to queue.
  pub queue-Emptied :
      {s : Receivers sem chan}
      → Reach sem chan w config (start sem chan w config) s
      → (state : DriverState) → (u : Receivers sem chan) × Emptied s u
  queue-Emptied {s} r state =
      let k = Reach-Kept sem chan w config r (start-Kept sem chan w config) in
      elim (Bool-cases s.shared.receive_active) [
        | inl busy ↦
            receive_rest state k _ _ (next here (cancels {n = 0} (ground (arith, k.one_guard))))
              refl refl refl refl
        | inr free ↦ receive_rest state k _ s here refl refl (ground (arith, k.one_guard)) refl
      ]
