-- ===== src/Driver/Receive/Handling.antt =====
-- The steps of `queue_inbound` of src/driver.rs: a message that was read is queued, or there has been a
-- signal, or the reader stops.
use mathlib.Core.List.{append_assoc}
use fogws.Prelude.{
  ◌≤◌, ◌≡◌, refl, sym, subst, ap, ◌∙◌, inl, inr, arith, true, Option, none, some, Result, ok, err,
  List, [], ◌∷◌, ◌++◌,
}
use fogws.Config.{ConnectionConfig, u32_max}
use fogws.Tokio.Semaphore.{Semaphore}
use fogws.Tokio.Mpsc.{Mpsc}
use fogws.Driver.Wire.{Message, Tungstenite}
use fogws.Driver.State.{InboundMessage, is_running}
use fogws.Driver.Reader.{inbound_message}
use fogws.Driver.Receive.Receivers.{Receivers, Step, acquires, queues, gives_up, next}
use fogws.Driver.Receive.Program.{Queued, GivenUp}
use fogws.Driver.Receive.Input.{Input, Unqueued, IsSignalled, Permitted, Moved}
use fogws.Driver.Receive.Delivering.{Idle, Over, Reading, Ready, Pending}

last_from : {A : Type 0} → Option A → List A → Option A
last_from found [] = found
last_from found (x ∷ xs) = last_from (some x) xs

last_from-append :
    {A : Type 0} (found : Option A) (xs : List A) (x : A)
    → last_from found (xs ++ (x ∷ [])) ≡ some x
unfolding last_from
last_from-append found [] x = refl
last_from-append found (y ∷ ys) x = last_from-append (some y) ys x

same_last : {A : Type 0} (xs ys : List A) (x y : A) → xs ++ (x ∷ []) ≡ ys ++ (y ∷ []) → x ≡ y
same_last xs ys x y h =
    let both =
      sym (last_from-append none xs x) ∙ ap (last_from none) h ∙ last_from-append none ys y in
    cc both

module _ (sem : Semaphore) (chan : Mpsc) (w : Tungstenite) (config : ConnectionConfig)
    (s : Receivers sem chan) where
  -- What a round's queueing leaves, by its result.
  abbrev pub Queueing : Result (Unit {0}) (Unit {0}) → Input sem chan w config → Type 0
  Queueing (ok _) x = (Idle sem chan w config s) x
  Queueing (err _) x = (Over sem chan w config s) x

  pub read_Reading :
      (m : InboundMessage) (x : Input sem chan w config)
      → Idle sem chan w config s x
      → Reading sem chan w config s m (record x { read = x.read ++ (m ∷ []) })
  read_Reading m x p = record {
    run = p.run;
    none_held = p.none_held;
    last = elim p.in_order [
      | inl e ↦ inl (ap (λ l. l ++ (m ∷ [])) e)
      | inr (sig, u) ↦ inr (
        sig,
        record {
          dropped = u.dropped ++ (m ∷ []);
          all = ap (λ l. l ++ (m ∷ [])) u.all ∙ append_assoc x.path.delivered u.dropped (m ∷ []);
        },
      )
    ];
  }

  pub Reading-Unqueued :
      (m : InboundMessage) (x : Input sem chan w config)
      → Reading sem chan w config s m x
      → Unqueued sem chan w config x
  Reading-Unqueued m x p = elim p.last [
    | inl e ↦ record { dropped = m ∷ []; all = e }
    | inr (sig, u) ↦ u
  ]

  pub Ready-Reading :
      (m : InboundMessage) (x : Input sem chan w config)
      → Ready sem chan w config s m x
      → Reading sem chan w config s m x
  Ready-Reading m x p = record { run = p.run; none_held = p.none_held; last = inl p.last }

  pub Reading-Over :
      (m : InboundMessage) (x : Input sem chan w config)
      → Reading sem chan w config s m x
      → Over sem chan w config s x
  Reading-Over m x p = record {
    run = p.run;
    none_held = p.none_held;
    unqueued = Reading-Unqueued m x p;
  }

  pub Reading-Idle :
      (m : InboundMessage) (x : Input sem chan w config)
      → IsSignalled x.signal
      → Reading sem chan w config s m x
      → Idle sem chan w config s x
  Reading-Idle m x sig p = record {
    run = p.run;
    none_held = p.none_held;
    in_order = inr (sig, Reading-Unqueued m x p);
  }

  pub Reading-Ready :
      (m : InboundMessage) (x : Input sem chan w config)
      → is_running x.signal ≡ true
      → Reading sem chan w config s m x
      → Ready sem chan w config s m x
  Reading-Ready m x running p = record {
    run = p.run;
    none_held = p.none_held;
    last = elim p.last [ inl e ↦ e | inr (sig, u) ↦ ground (arith, running, sig) ];
  }

  pub Permitted-Pending :
      (payload : Message) (m : InboundMessage) (x y : Input sem chan w config)
      → inbound_message payload ≡ some m
      → w.message_len payload ≤ u32_max
      → Ready sem chan w config s m x
      → Permitted sem chan w config (w.message_len payload) x y
      → Pending sem chan w config s m y
  Permitted-Pending payload m x y converts word p t =
      let same = same_last t.before x.path.delivered t.last m (sym t.is_last ∙ p.last) in
      let q = t.acquired in
      subst ((Pending sem chan w config s) m) (sym t.now) (record {
        run = next p.run (
            subst (Step sem chan w config x.path) (sym q.now)
              (acquires payload q.running p.none_held (rw same converts) word q.took));
        hand = record {
          permit = q.permit;
          held = ap (λ (z : Receivers sem chan). z.holding) q.now ∙ rw same refl;
        };
        last = rw q.now p.last;
      })

  pub Queued-Idle :
      (m : InboundMessage) (x y : Input sem chan w config)
      → Pending sem chan w config s m x
      → Moved sem chan w config (Queued sem chan w config m) x y
      → Idle sem chan w config s y
  Queued-Idle m x y p t =
      let q = t.moved in
      subst (Idle sem chan w config s) (sym t.now) (record {
        run = next p.run (subst (Step sem chan w config x.path) (sym q.now) (queues q.held q.sent));
        none_held = ap (λ (z : Receivers sem chan). z.holding) q.now;
        in_order = inl (p.last ∙ sym (ap (λ (z : Receivers sem chan). z.delivered) q.now));
      })

  pub GivenUp-Reading :
      (m : InboundMessage) (x y : Input sem chan w config)
      → Pending sem chan w config s m x
      → Moved sem chan w config (GivenUp sem chan w config m) x y
      → Reading sem chan w config s m y × (y.signal ≡ x.signal)
  GivenUp-Reading m x y p t =
      let q = t.moved in
      (
        subst ((Reading sem chan w config s) m) (sym t.now) (record {
          run = next p.run (subst (Step sem chan w config x.path) (sym q.now) (gives_up q.held));
          none_held = ap (λ (z : Receivers sem chan). z.holding) q.now;
          last = inl (
              p.last
              ∙ ap (λ l. l ++ (m ∷ [])) (sym (ap (λ (z : Receivers sem chan). z.delivered) q.now)));
        }),
        ap (λ (z : Input sem chan w config). z.signal) t.now,
      )
