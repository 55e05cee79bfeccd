-- ===== src/Driver/Receive/Delivering.antt =====
-- Where the reader of src/driver.rs stands with the data that it has read, between its calls.
use mathlib.Core.List.{append-nil}
use fogws.Prelude.{◌≡◌, sym, ap, ◌∙◌, ◌⊎◌, inl, inr, none, List, [], ◌∷◌, ◌++◌}
use fogws.Config.{ConnectionConfig}
use fogws.Tokio.Semaphore.{Semaphore}
use fogws.Tokio.Mpsc.{Mpsc}
use fogws.Driver.Wire.{Tungstenite}
use fogws.Driver.State.{InboundMessage}
use fogws.Driver.Leads.{Stable}
use fogws.Driver.Receive.Receivers.{Receivers, Reach}
use fogws.Driver.Receive.Program.{Reach-trans}
use fogws.Driver.Receive.Input.{
  Input, Aside, Unqueued, InOrder, Holding, IsSignalled, IsSignalled-later, reading,
}

module _ (sem : Semaphore) (chan : Mpsc) (w : Tungstenite) (config : ConnectionConfig)
    (s : Receivers sem chan) where
  -- Between two rounds of a reader that was started in the state `s`, and at its end.
  pub record Idle (x : Input sem chan w config) : Type 0 where
    pub run : Reach sem chan w config s x.path
    pub none_held : x.path.holding ≡ none
    pub in_order : InOrder sem chan w config x

  pub record Over (x : Input sem chan w config) : Type 0 where
    pub run : Reach sem chan w config s x.path
    pub none_held : x.path.holding ≡ none
    pub unqueued : Unqueued sem chan w config x

  -- With a message that has just been read; with the last one that is not queued; and with permits for
  -- it.
  pub record Reading (m : InboundMessage) (x : Input sem chan w config) : Type 0 where
    pub run : Reach sem chan w config s x.path
    pub none_held : x.path.holding ≡ none
    pub last :
        (x.read ≡ x.path.delivered ++ (m ∷ []))
        ⊎ (IsSignalled x.signal × Unqueued sem chan w config x)

  pub record Ready (m : InboundMessage) (x : Input sem chan w config) : Type 0 where
    pub run : Reach sem chan w config s x.path
    pub none_held : x.path.holding ≡ none
    pub last : x.read ≡ x.path.delivered ++ (m ∷ [])

  pub record Pending (m : InboundMessage) (x : Input sem chan w config) : Type 0 where
    pub run : Reach sem chan w config s x.path
    pub hand : Holding sem chan w config m x
    pub last : x.read ≡ x.path.delivered ++ (m ∷ [])

  module _ (x y : Input sem chan w config) (aside : Aside sem chan w config x y) where
    aside_read :
        (l : List InboundMessage) → x.read ≡ x.path.delivered ++ l → y.read ≡ y.path.delivered ++ l
    aside_read l e = aside.read ∙ e ∙ ap (λ d. d ++ l) (sym aside.delivered)

    aside_Unqueued : Unqueued sem chan w config x → Unqueued sem chan w config y
    aside_Unqueued u = record { dropped = u.dropped; all = aside_read u.dropped u.all }

    aside_IsSignalled : IsSignalled x.signal → IsSignalled y.signal
    aside_IsSignalled h = IsSignalled-later x.signal y.signal aside.signal_up h

  pub Idle-Stable : Stable (reading sem chan w config) Idle
  Idle-Stable x y aside p = record {
    run = Reach-trans sem chan w config p.run aside.run;
    none_held = aside.holding ∙ p.none_held;
    in_order = elim p.in_order [
      | inl e ↦ inl (aside.read ∙ e ∙ sym aside.delivered)
      | inr (sig, u) ↦ inr (aside_IsSignalled x y aside sig, aside_Unqueued x y aside u)
    ];
  }

  pub Over-Stable : Stable (reading sem chan w config) Over
  Over-Stable x y aside p = record {
    run = Reach-trans sem chan w config p.run aside.run;
    none_held = aside.holding ∙ p.none_held;
    unqueued = aside_Unqueued x y aside p.unqueued;
  }

  pub Reading-Stable : (m : InboundMessage) → Stable (reading sem chan w config) (Reading m)
  Reading-Stable m x y aside p = record {
    run = Reach-trans sem chan w config p.run aside.run;
    none_held = aside.holding ∙ p.none_held;
    last = elim p.last [
      | inl e ↦ inl (aside_read x y aside (m ∷ []) e)
      | inr (sig, u) ↦ inr (aside_IsSignalled x y aside sig, aside_Unqueued x y aside u)
    ];
  }

  pub Ready-Stable : (m : InboundMessage) → Stable (reading sem chan w config) (Ready m)
  Ready-Stable m x y aside p = record {
    run = Reach-trans sem chan w config p.run aside.run;
    none_held = aside.holding ∙ p.none_held;
    last = aside_read x y aside (m ∷ []) p.last;
  }

  pub Pending-Stable : (m : InboundMessage) → Stable (reading sem chan w config) (Pending m)
  Pending-Stable m x y aside p = record {
    run = Reach-trans sem chan w config p.run aside.run;
    hand = record { permit = p.hand.permit; held = aside.holding ∙ p.hand.held };
    last = aside_read x y aside (m ∷ []) p.last;
  }

  pub Idle-Over : (x : Input sem chan w config) → Idle x → Over x
  Idle-Over x p = record {
    run = p.run;
    none_held = p.none_held;
    unqueued = elim p.in_order [
      | inl e ↦ record { dropped = []; all = e ∙ sym (append-nil x.path.delivered) }
      | inr (sig, u) ↦ u
    ];
  }
