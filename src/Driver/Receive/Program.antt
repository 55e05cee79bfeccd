-- ===== src/Driver/Receive/Program.antt =====
-- The program `queue_inbound` of src/driver.rs at work on the inbound queue and budget: its calls take
-- the steps of the reader, and leave nothing behind.
use fogws.Prelude.{
  ℕ, ◌≤◌, ◌≡◌, refl, sym, ap, subst, ◌∙◌, ◌⊎◌, inl, inr, Bool, true, false, none, some, Result,
  arith, [], ◌∷◌, ◌++◌, ltb, not, if◌then◌else◌,
}
use fogws.Config.{ConnectionConfig, u32_max}
use fogws.Tokio.Semaphore.{Semaphore}
use fogws.Tokio.Mpsc.{Mpsc}
use fogws.Driver.Wire.{Message, Tungstenite}
use fogws.Driver.State.{InboundMessage, is_running}
use fogws.Driver.Task.{
  Op, Answer, Task, done, call, completed, signalled, acquire_budget as acquire_op,
  send_inbound as send_op,
}
use fogws.Driver.Reader.{inbound_message, queue_inbound, accepted}
use fogws.Driver.Receive.{Inbound, acquire_budget, send_inbound, drop_envelope}
use fogws.Driver.Receive.Receivers.{Receivers, Step, Reach, acquires, queues, gives_up, here, next}

module _ (sem : Semaphore) (chan : Mpsc) (w : Tungstenite) (config : ConnectionConfig) where
  pub Reach-trans :
      {s t u : Receivers sem chan}
      → Reach sem chan w config s t
      → Reach sem chan w config t u
      → Reach sem chan w config s u
  Reach-trans r here = r
  Reach-trans r (next q st) = next (Reach-trans r q) st

  -- The receives move, and leave what the reader holds and has queued.
  pub record Still (s u : Receivers sem chan) : Type 0 where
    pub run : Reach sem chan w config s u
    pub holding : u.holding ≡ s.holding
    pub delivered : u.delivered ≡ s.delivered

  -- The two awaits of the running reader when they complete, and the second one when it does not: its envelope is dropped.
  pub record Acquired (n : ℕ) (m : InboundMessage) (t u : Receivers sem chan) : Type 0 where
    pub permit : sem.Permit
    pub shared : Inbound sem chan
    pub running : t.shared.sender_dropped ≡ false
    pub took : acquire_budget sem chan n t.shared ≡ some (permit, shared)
    pub now :
        u ≡ record t { shared = shared; holding = some (record { message = m; permit = permit }) }

  pub record Queued (m : InboundMessage) (t u : Receivers sem chan) : Type 0 where
    pub permit : sem.Permit
    pub shared : Inbound sem chan
    pub held : t.holding ≡ some (record { message = m; permit = permit })
    pub sent :
        send_inbound sem chan (record { message = m; permit = permit }) t.shared ≡ some shared
    pub now : u ≡ record t { shared = shared; holding = none; delivered = t.delivered ++ (m ∷ []) }

  pub record GivenUp (m : InboundMessage) (t u : Receivers sem chan) : Type 0 where
    pub permit : sem.Permit
    pub held : t.holding ≡ some (record { message = m; permit = permit })
    pub now : u ≡ record t {
      shared = drop_envelope sem chan (record { message = m; permit = permit }) t.shared;
      holding = none;
    }

  -- What a call of the reader does to the inbound path, for a payload that holds `m`.
  abbrev pub Effect :
      InboundMessage → (o : Op) → Answer o → Receivers sem chan → Receivers sem chan → Type 0
  Effect m (acquire_op n) (completed true) t u = Acquired n m t u
  Effect _ (send_op m) (completed true) t u = Queued m t u
  Effect _ (send_op m) _ t u = GivenUp m t u
  Effect m _ _ t u = u ≡ t

  -- Whatever the receives do before each call and whatever its answer, the program ends in `Q`.
  unfoldable pub Leads :
      {R : Type 0}
      → InboundMessage
      → Task R
      → (R → Receivers sem chan → Type 0)
      → Receivers sem chan
      → Type 0
  Leads m (done x) Q s = Q x s
  Leads m (call o k) Q s =
      (t : Receivers sem chan)
      → Still s t
      → (a : Answer o) (u : Receivers sem chan) → Effect m o a t u
      → Leads m (k a) Q u

  Leads-if :
      {R : Type 0} (m : InboundMessage) (b : Bool) (p q : Task R)
      (Q : R → Receivers sem chan → Type 0) (s : Receivers sem chan)
      → (b ≡ true → Leads m p Q s)
      → (b ≡ false → Leads m q Q s)
      → Leads m (if b then p else q) Q s
  Leads-if m true p q Q s holds fails = holds refl
  Leads-if m false p q Q s holds fails = fails refl

  -- What `queue_inbound` leaves: steps of the inbound path, no permit, and the message queued at most
  -- once, and not when the result is an error.
  pub record Left (m : InboundMessage) (s : Receivers sem chan)
      (result : Result (Unit {0}) (Unit {0})) (u : Receivers sem chan) : Type 0 where
    pub run : Reach sem chan w config s u
    pub nothing_held : u.holding ≡ none
    pub delivered :
        ((result ≡ accepted) × (u.delivered ≡ s.delivered ++ (m ∷ [])))
        ⊎ (u.delivered ≡ s.delivered)

  Still-Left :
      (m : InboundMessage) {s u : Receivers sem chan} (result : Result (Unit {0}) (Unit {0}))
      → s.holding ≡ none
      → Still s u
      → Left m s result u
  Still-Left m result idle same = record {
    run = same.run;
    nothing_held = same.holding ∙ idle;
    delivered = inr same.delivered;
  }

  Still-step : (m : InboundMessage) {s t u : Receivers sem chan} → Still s t → u ≡ t → Still s u
  Still-step m {s} same now = subst (Still s) (sym now) same

  Still-trans : {s t u : Receivers sem chan} → Still s t → Still t u → Still s u
  Still-trans p q = record {
    run = Reach-trans p.run q.run;
    holding = q.holding ∙ p.holding;
    delivered = q.delivered ∙ p.delivered;
  }

  Queued-Left :
      (m : InboundMessage) {s t u : Receivers sem chan}
      → Reach sem chan w config s t
      → t.delivered ≡ s.delivered
      → Queued m t u
      → Left m s accepted u
  Queued-Left m {s} {t} r same q = record {
    run = next r (subst (Step sem chan w config t) (sym q.now) (queues q.held q.sent));
    nothing_held = ap (λ (x : Receivers sem chan). x.holding) q.now;
    delivered =
        inl
          (refl, ap (λ (x : Receivers sem chan). x.delivered) q.now ∙ ap (λ l. l ++ (m ∷ [])) same);
  }

  GivenUp-Left :
      (m : InboundMessage) {s t u : Receivers sem chan} (result : Result (Unit {0}) (Unit {0}))
      → Reach sem chan w config s t
      → t.delivered ≡ s.delivered
      → GivenUp m t u
      → Left m s result u
  GivenUp-Left m {s} {t} result r same g = record {
    run = next r (subst (Step sem chan w config t) (sym g.now) (gives_up g.held));
    nothing_held = ap (λ (x : Receivers sem chan). x.holding) g.now;
    delivered = inr (ap (λ (x : Receivers sem chan). x.delivered) g.now ∙ same);
  }

  -- Acquiring the permits of the payload.
  Acquired-run :
      (payload : Message) {m : InboundMessage} {s t u : Receivers sem chan}
      → inbound_message payload ≡ some m
      → w.message_len payload ≤ u32_max
      → s.holding ≡ none
      → Still s t
      → Acquired (w.message_len payload) m t u
      → Reach sem chan w config s u × (u.delivered ≡ s.delivered)
  Acquired-run payload {m} {s} {t} converts word idle same q = (
    next same.run (
        subst (Step sem chan w config t) (sym q.now)
          (acquires payload q.running (same.holding ∙ idle) converts word q.took)),
    ap (λ (x : Receivers sem chan). x.delivered) q.now ∙ same.delivered,
  )

  -- Whatever the receives do meanwhile and however its two awaits end, `queue_inbound` of a text or of
  -- bytes takes steps of the inbound path and ends without a permit in hand. It queues the message once
  -- and is accepted, or it queues nothing.
  pub queue_inbound-Left :
      (payload : Message) (m : InboundMessage)
      → inbound_message payload ≡ some m
      → (s : Receivers sem chan) → s.holding ≡ none
      → Leads m (queue_inbound w payload) (Left m s) s
  unfolding Leads queue_inbound
  queue_inbound-Left payload m converts s idle t same signal u now =
      let same_u = Still-step m same now in
      Leads-if m (not (is_running signal)) _ _ (Left m s) u (λ _. Still-Left m accepted idle same_u)
        λ _.
          Leads-if m (ltb u32_max (w.message_len payload)) _ _ (Left m s) u
            (λ _. Still-Left m _ idle same_u)
            λ word x same_x.
              let same' = Still-trans same_u same_x in
              elim [
                | completed true ↦ λ y took.
                    let (r, d) = Acquired-run payload converts (ground arith) idle same' took in
                    rw converts λ z same_z. elim [
                      | completed true ↦
                          λ v q. Queued-Left m (Reach-trans r same_z.run) (same_z.delivered ∙ d) q
                      | completed false ↦ λ v g.
                          GivenUp-Left m _ (Reach-trans r same_z.run) (same_z.delivered ∙ d) g
                      | signalled true ↦ λ v g.
                          GivenUp-Left m _ (Reach-trans r same_z.run) (same_z.delivered ∙ d) g
                      | signalled false ↦ λ v g.
                          GivenUp-Left m _ (Reach-trans r same_z.run) (same_z.delivered ∙ d) g
                    ]
                | completed false ↦ λ y now_y. Still-Left m _ idle (Still-step m same' now_y)
                | signalled true ↦ λ y now_y. Still-Left m _ idle (Still-step m same' now_y)
                | signalled false ↦ λ y now_y. Still-Left m _ idle (Still-step m same' now_y)
              ]
