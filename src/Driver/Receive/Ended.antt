-- ===== src/Driver/Receive/Ended.antt =====
-- The inbound path of src/driver.rs after the end of the reader: nothing more is queued.
use fogws.Prelude.{◌≡◌, refl, sym, ◌∙◌, Option-cases, true, inl, inr, none, some, Result, arith}
use fogws.Error.{DriverError}
use fogws.Config.{ConnectionConfig}
use fogws.Tokio.Semaphore.{Semaphore}
use fogws.Tokio.Mpsc.{Mpsc}
use fogws.Driver.Wire.{Tungstenite}
use fogws.Driver.State.{DriverState, InboundMessage}
use fogws.Driver.Receive.{Inbound, release, receive, acquire_budget, drop_envelope, drop_sender}
use fogws.Driver.Receive.Receivers.{
  Receivers, Step, Reach, claims, refuses, cancels, receives, finds_end, acquires, queues, gives_up,
  reader_ends, here, next,
}

module _ (sem : Semaphore) (chan : Mpsc) where
  abbrev pub Queue : Type 0
  Queue = Inbound sem chan

  receive-sender :
      (state : DriverState) (i : Queue) {u : Queue} {r : Result InboundMessage DriverError}
      → receive sem chan state i ≡ some (u, r)
      → u.sender_dropped ≡ i.sender_dropped
  unfolding receive release
  receive-sender state i h = elim (Option-cases (chan.recv i.inbound)) [
    | inl e ↦ ground arith
    | inr ((e, rest), f) ↦ ground arith
  ]

  -- An ended reader has nothing in hand.
  abbrev pub Emptyhanded : Receivers sem chan → Type 0
  Emptyhanded s = s.shared.sender_dropped ≡ true → s.holding ≡ none

  module _ (w : Tungstenite) (config : ConnectionConfig) where
    Step-Emptyhanded :
        {s u : Receivers sem chan} → Step sem chan w config s u → Emptyhanded s → Emptyhanded u
    unfolding release drop_envelope drop_sender acquire_budget
    Step-Emptyhanded (claims e) p = p
    Step-Emptyhanded (refuses e) p = p
    Step-Emptyhanded (cancels e) p = p
    Step-Emptyhanded {s} (receives state e h) p = λ q. p (sym (receive-sender state s.shared h) ∙ q)
    Step-Emptyhanded {s} (finds_end state e h) p =
        λ q. p (sym (receive-sender state s.shared h) ∙ q)
    Step-Emptyhanded {s} (acquires payload runs idle converts word h) p = λ q. ground arith
    Step-Emptyhanded (queues e h) p = λ q. refl
    Step-Emptyhanded (gives_up e) p = λ q. refl
    Step-Emptyhanded (reader_ends e) p = λ q. e

    pub Reach-Emptyhanded :
        {s u : Receivers sem chan} → Reach sem chan w config s u → Emptyhanded s → Emptyhanded u
    Reach-Emptyhanded here p = p
    Reach-Emptyhanded (next r st) p = Step-Emptyhanded st (Reach-Emptyhanded r p)

    -- Once the reader has ended nothing more is queued.
    pub record Over (s u : Receivers sem chan) : Type 0 where
      pub ended : u.shared.sender_dropped ≡ true
      pub nothing_held : u.holding ≡ none
      pub same : u.delivered ≡ s.delivered

    Step-Over : {s u v : Receivers sem chan} → Step sem chan w config u v → Over s u → Over s v
    unfolding release drop_sender
    Step-Over (claims e) p = record {
      ended = p.ended;
      nothing_held = p.nothing_held;
      same = p.same;
    }
    Step-Over (refuses e) p = record {
      ended = p.ended;
      nothing_held = p.nothing_held;
      same = p.same;
    }
    Step-Over (cancels e) p = record {
      ended = p.ended;
      nothing_held = p.nothing_held;
      same = p.same;
    }
    Step-Over {s} {u} (receives state e h) p = record {
      ended = receive-sender state u.shared h ∙ p.ended;
      nothing_held = p.nothing_held;
      same = p.same;
    }
    Step-Over {s} {u} (finds_end state e h) p = record {
      ended = receive-sender state u.shared h ∙ p.ended;
      nothing_held = p.nothing_held;
      same = p.same;
    }
    Step-Over (acquires payload runs idle converts word h) p =
        let alive = runs in let gone = p.ended in absurd (cc (sym alive ∙ gone))
    Step-Over (queues e h) p = absurd (cc (sym e ∙ p.nothing_held))
    Step-Over (gives_up e) p = absurd (cc (sym e ∙ p.nothing_held))
    Step-Over (reader_ends e) p = record {
      ended = refl;
      nothing_held = p.nothing_held;
      same = p.same;
    }

    pub Reach-Over : {s u : Receivers sem chan} → Reach sem chan w config s u → Over s s → Over s u
    Reach-Over here p = p
    Reach-Over (next r st) p = Step-Over st (Reach-Over r p)
