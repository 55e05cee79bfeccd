-- ===== src/Driver/Admission/Results.antt =====
-- What the outbound path of src/driver.rs promises, in every order of its accesses and any number of
-- sends in progress.
use fogws.Prelude.{
  ℕ, ◌+◌, ◌≤◌, ◌<◌, ◌≡◌, refl, sym, ap, ◌∙◌, ◌↔◌, false, ok, arith, List, [], ◌∷◌, ◌++◌, map,
  length, sum_of, All, All-map,
}
use fogws.Config.{ConnectionConfig}
use fogws.Config.Limits.{IsValid}
use fogws.Tokio.Semaphore.{Semaphore}
use fogws.Tokio.Mpsc.{Mpsc}
use fogws.Driver.Wire.{Tungstenite}
use fogws.Driver.State.{DriverState, open_}
use fogws.Driver.Admission.{
  OutboundCommand, OutboundAdmission, Outbound, admit_bytes, try_admit_outbound,
}
use fogws.Driver.Admission.Senders.{Senders, Reach, start}
use fogws.Driver.Admission.Calls.{command_bytes, admission_bytes, admit_bytes-ok, admit_item-ok}
use fogws.Driver.Admission.Ledger.{
  Paid, writing_bytes, queued, message_of, Conserved, start-Conserved,
}
use fogws.Driver.Admission.Conserved.{Reach-Conserved}
use fogws.Driver.Admission.Whole.{
  admit_bytes-open, admit_item-open, admit_item-running, try_admit_outbound-ok,
  try_admit_outbound_complete,
}

sum_of-Paid :
    (sem : Semaphore) (chan : Mpsc) (w : Tungstenite) (config : ConnectionConfig)
    (cs : List (OutboundCommand sem))
    → All (Paid sem chan w config) cs
    → sum_of (command_bytes sem chan) cs ≡ sum_of (λ c. w.message_len c.message) cs
sum_of-Paid sem chan w config [] h = refl
sum_of-Paid sem chan w config (c ∷ cs) h =
    omega (arith, h.0.permit, sum_of-Paid sem chan w config cs h.1)

module _ (sem : Semaphore) (chan : Mpsc) (w : Tungstenite) (config : ConnectionConfig) where
  open sem use {available_permits, num_permits}
  open chan use {contents, capacity, is_closed}

  conserved :
      {s : Senders sem chan}
      → Reach sem chan w config (start sem chan w config) s
      → Conserved sem chan w config s
  conserved r = Reach-Conserved sem chan w config r (start-Conserved sem chan w config)

  -- The bytes of the budget that admissions, commands in the queue and the writer's command hold.
  abbrev pub held : Senders sem chan → ℕ
  held s =
      sum_of (admission_bytes sem chan) s.entering
      + sum_of (admission_bytes sem chan) s.admitted
      + sum_of (command_bytes sem chan) (queued sem chan w config s)
      + writing_bytes sem chan w config s.writing

  -- No permit of the byte budget is lost or made: what is available and what is held by sends in
  -- progress, queued commands and the writer make up the configured budget.
  pub bytes_conserved :
      {s : Senders sem chan}
      → Reach sem chan w config (start sem chan w config) s
      → available_permits s.out.outbound_budget + held s ≡ config.max_buffered_bytes
  bytes_conserved r = omega (arith, (conserved r).bytes)

  -- The queue never holds more commands than configured, nor more bytes of messages than the budget,
  -- and every queued message is within the size limit.
  pub queue_bounded :
      {s : Senders sem chan}
      → Reach sem chan w config (start sem chan w config) s
      → (length (queued sem chan w config s) ≤ config.max_queue)
        × (sum_of (λ c. w.message_len c.message) (queued sem chan w config s)
            ≤ config.max_buffered_bytes)
        × All (λ c. w.message_len c.message ≤ config.max_message_size) (queued sem chan w config s)
  queue_bounded {s} r =
      let c = conserved r in
      (
        omega (arith, c.slots),
        omega (arith, c.bytes, sum_of-Paid sem chan w config _ c.queued_paid),
        All-map (Paid sem chan w config) _ (λ x p. p.small) _ c.queued_paid,
      )

  -- While the writer runs, what it has taken out of the queue, followed by what is queued, is what was
  -- sent, in the order of the sends: no message is lost, repeated or overtaken.
  pub sent_in_order :
      {s : Senders sem chan}
      → Reach sem chan w config (start sem chan w config) s
      → is_closed s.out.outbound ≡ false
      → s.sent ≡ s.taken ++ map (message_of sem chan w config) (queued sem chan w config s)
  sent_in_order r running = (conserved r).in_order running

  -- Conditions for an admission: the connection is open, the message within the limits, and there are
  -- bytes and a slot for it.
  pub record Admissible (state : DriverState) (size : ℕ) (s : Senders sem chan) : Type 0 where
    pub open_still : state ≡ open_
    pub small : size ≤ config.max_message_size
    pub bytes : held s + size ≤ config.max_buffered_bytes
    pub running : is_closed s.out.outbound ≡ false
    pub slot : length s.admitted + length (queued sem chan w config s) < config.max_queue

  admitted_sound :
      {s : Senders sem chan}
      → Reach sem chan w config (start sem chan w config) s
      → (before after : DriverState) (size : ℕ) {u : Outbound sem chan} {a : OutboundAdmission sem}
      → try_admit_outbound sem chan config before after size s.out ≡ (u, ok a)
      → Admissible before size s
  admitted_sound {s} r before after size h =
      let c = conserved r in
      let (v, p, e, f) = try_admit_outbound-ok sem chan config before after size s.out h in
      let (permits, budget, outbound, open_still, small) =
        admit_bytes-ok sem chan config before size s.out e in
      let (_, _, room, _, _) = admit_item-ok sem chan config after size p v f in
      let running = admit_item-running sem chan config after size p v f in
      let running_before = ap is_closed (sym outbound) ∙ running in
      record {
        open_still = open_still;
        small = small;
        bytes = omega (arith, c.bytes, budget);
        running = running_before;
        slot = omega (arith, c.slots_open running_before, room, ap capacity outbound);
      }

  admitted_complete :
      {s : Senders sem chan}
      → Reach sem chan w config (start sem chan w config) s
      → (max_permits : ℕ) → IsValid max_permits config
      → (before after : DriverState) (size : ℕ) → Admissible before size s
      → (u : Outbound sem chan) × (a : OutboundAdmission sem) × (try_admit_outbound sem chan config
            before after size s.out
          ≡ (u, ok a))
  admitted_complete {s} r max_permits valid before after size h =
      let c = conserved r in
      let (v, p, e) =
        admit_bytes-open sem chan config size s.out h.small
          (omega (arith, h.small, valid.budget_covers, valid.budget_capped))
          (omega (arith, c.bytes, h.bytes)) in
      let e' : admit_bytes sem chan config before size s.out ≡ (v, ok p) =
        ap (λ st. admit_bytes sem chan config st size s.out) h.open_still ∙ e in
      let outbound = (admit_bytes-ok sem chan config before size s.out e').2 in
      let (u, a, f) =
        admit_item-open sem chan config after size p v (ap is_closed outbound ∙ h.running)
          (omega (arith, c.slots_open h.running, h.slot, ap capacity outbound)) in
      (u, a, try_admit_outbound_complete sem chan config before after size s.out e' f)

  -- In every reachable state of a valid configuration a message is admitted exactly when it is
  -- admissible, whatever the state is when it is read again.
  pub try_admit_outbound-ok_iff :
      {s : Senders sem chan}
      → Reach sem chan w config (start sem chan w config) s
      → (max_permits : ℕ) → IsValid max_permits config
      → (before after : DriverState) (size : ℕ)
      → ((u : Outbound sem chan) × (a : OutboundAdmission sem) × (try_admit_outbound sem chan config
              before after size s.out
            ≡ (u, ok a)))
        ↔ Admissible before size s
  try_admit_outbound-ok_iff r max_permits valid before after size = (
    λ h. admitted_sound r before after size h.2,
    admitted_complete r max_permits valid before after size,
  )
