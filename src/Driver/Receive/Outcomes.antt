-- ===== src/Driver/Receive/Outcomes.antt =====
-- What a receive of src/driver.rs finds in the inbound queue, before and after the end of the reader.
use fogws.Prelude.{
  ◌≡◌, refl, sym, ap, ◌∙◌, ◌⊎◌, Option-cases, Bool-cases, true, inl, inr, false, Option, none, some,
  Result, ok, err, arith, List, ◌∷◌, ◌++◌, map,
}
use mathlib.Core.List.{append-nil}
use fogws.Error.{DriverError}
use fogws.Config.{ConnectionConfig}
use fogws.Tokio.Semaphore.{Semaphore}
use fogws.Tokio.Mpsc.{Mpsc}
use fogws.Driver.Wire.{Tungstenite}
use fogws.Driver.State.{DriverState, InboundMessage, terminal_error}
use fogws.Driver.Receive.{release, receive}
use fogws.Driver.Receive.Receivers.{Receivers, Reach, start}
use fogws.Driver.Receive.Account.{envelope_message, Kept, start-Kept}
use fogws.Driver.Receive.Kept.{Reach-Kept}
use fogws.Driver.Receive.Emptied.{receive-some}
use fogws.Driver.Receive.Ended.{Queue, Reach-Emptyhanded, Reach-Over}

module _ (sem : Semaphore) (chan : Mpsc) (w : Tungstenite) (config : ConnectionConfig) where
  -- It waits: all that was queued has been received, and the reader runs.
  pub record Waits (result : Option (Queue sem chan × Result InboundMessage DriverError))
      (s : Receivers sem chan) : Type 0 where
    pub no_result : result ≡ none
    pub all_received : s.received ≡ s.delivered
    pub running : s.shared.sender_dropped ≡ false

  -- It returns the first message that was queued and not received.
  pub record Returns (result : Option (Queue sem chan × Result InboundMessage DriverError))
      (s : Receivers sem chan) : Type 0 where
    pub message : InboundMessage
    pub behind : List InboundMessage
    pub rest : Queue sem chan
    pub returned : result ≡ some (rest, ok message)
    pub freed : rest.receive_active ≡ false
    pub in_order : s.delivered ≡ s.received ++ (message ∷ behind)

  -- It fails: the reader has ended, and what was received is all that is queued up to `u`.
  pub record Fails (result : Option (Queue sem chan × Result InboundMessage DriverError))
      (error : DriverError) (s u : Receivers sem chan) : Type 0 where
    pub rest : Queue sem chan
    pub failed : result ≡ some (rest, err error)
    pub freed : rest.receive_active ≡ false
    pub ended : s.shared.sender_dropped ≡ true
    pub all_received : u.delivered ≡ s.received

  drained :
      {s : Receivers sem chan}
      → Kept sem chan w config s
      → chan.recv s.shared.inbound ≡ none
      → s.received ≡ s.delivered
  drained {s} k nothing = sym (
      k.in_order
      ∙ ap (λ l. s.received ++ map (envelope_message sem chan w config) l)
          (chan.recv_none s.shared.inbound nothing)
      ∙ append-nil s.received)

  receive-ended :
      (state : DriverState) (i : Queue sem chan)
      → chan.recv i.inbound ≡ none
      → i.sender_dropped ≡ true
      → receive sem chan state i ≡ some (release sem chan i, err (terminal_error state))
  unfolding receive
  receive-ended state i nothing gone = ground arith

  released : (i : Queue sem chan) → (release sem chan i).receive_active ≡ false
  unfolding release
  released i = refl

  receive-waits :
      (state : DriverState) (i : Queue sem chan)
      → chan.recv i.inbound ≡ none
      → i.sender_dropped ≡ false
      → receive sem chan state i ≡ none
  unfolding receive
  receive-waits state i nothing there = ground arith

  -- In every reachable state, and whatever happens after it, a receive that holds the guard either
  -- waits, with all that was queued received and the reader running; or returns the first message
  -- that was queued and not received; or fails with the terminal error of the state, and then the
  -- reader has ended, and all that it ever queues has been received. It frees the guard unless it waits.
  pub receive_outcomes :
      {s u : Receivers sem chan}
      → Reach sem chan w config (start sem chan w config) s
      → Reach sem chan w config s u
      → (state : DriverState)
      → Waits (receive sem chan state s.shared) s
        ⊎ Returns (receive sem chan state s.shared) s
        ⊎ Fails (receive sem chan state s.shared) (terminal_error state) s u
  receive_outcomes {s} {u} r q state =
      let k = Reach-Kept sem chan w config r (start-Kept sem chan w config) in
      elim (Option-cases (chan.recv s.shared.inbound)) [
        | inl nothing ↦ elim (Bool-cases s.shared.sender_dropped) [
          | inl gone ↦
              let over = Reach-Over sem chan w config q (record {
                ended = gone;
                nothing_held = Reach-Emptyhanded sem chan w config r (λ e. refl) gone;
                same = refl;
              }) in
              inr (
                inr (record {
                  rest = release sem chan s.shared;
                  failed = receive-ended state s.shared nothing gone;
                  freed = released s.shared;
                  ended = gone;
                  all_received = over.same ∙ sym (drained k nothing);
                }))
          | inr there ↦ inl (record {
            no_result = receive-waits state s.shared nothing there;
            all_received = drained k nothing;
            running = there;
          })
        ]
        | inr ((e, rest), h) ↦ inr (
            inl (record {
              message = e.message;
              behind = map (envelope_message sem chan w config) (chan.contents rest);
              rest = record {
                inbound = rest;
                inbound_budget = sem.drop_permit e.permit s.shared.inbound_budget;
                receive_active = false;
                sender_dropped = s.shared.sender_dropped;
              };
              returned = receive-some sem chan w config state s.shared h;
              freed = refl;
              in_order =
                  k.in_order
                  ∙ ap (λ l. s.received ++ map (envelope_message sem chan w config) l)
                      (chan.recv_lem s.shared.inbound e rest h).0;
            }))
      ]
