-- ===== src/Driver/Admission/Ledger.antt =====
-- The account of the outbound path of src/driver.rs: who holds the permits of the byte budget and the
-- slots of the queue, and what they stand for.
use fogws.Prelude.{
  ℕ, ◌+◌, ◌≤◌, ◌≡◌, refl, sym, ap, ◌∙◌, false, Option, none, some, arith, List, ◌∷◌, ◌++◌, map,
  length, sum_of, All, length-split, sum_of-split, All-split,
}
use fogws.Config.{ConnectionConfig}
use fogws.Tokio.Semaphore.{Semaphore}
use fogws.Tokio.Mpsc.{Mpsc}
use fogws.Driver.Wire.{Message, Tungstenite}
use fogws.Driver.Admission.{OutboundCommand, OutboundAdmission, drop_admission}
use fogws.Driver.Admission.Senders.{Senders, start}
use fogws.Driver.Admission.Calls.{command_bytes, admission_bytes, drop_admission_lem}

module _ (sem : Semaphore) (chan : Mpsc) (w : Tungstenite) (config : ConnectionConfig) where
  open sem use {available_permits, num_permits}
  open chan use {contents, capacity, is_closed}

  -- An admission holds the bytes of a message that is within the limit.
  pub record Fits (a : OutboundAdmission sem) : Type 0 where
    pub permit : num_permits a.byte_permit ≡ a.message_size
    pub small : a.message_size ≤ config.max_message_size

  -- So does a command, for its message.
  pub record Paid (c : OutboundCommand sem) : Type 0 where
    pub permit : num_permits c.permit ≡ w.message_len c.message
    pub small : w.message_len c.message ≤ config.max_message_size

  abbrev pub writing_bytes : Option (OutboundCommand sem) → ℕ
  writing_bytes none = 0
  writing_bytes (some c) = command_bytes sem chan c

  abbrev pub WritingPaid : Option (OutboundCommand sem) → Type 0
  WritingPaid none = Unit
  WritingPaid (some c) = Paid c

  abbrev pub queued : Senders sem chan → List (OutboundCommand sem)
  queued s = contents s.out.outbound

  abbrev pub message_of : OutboundCommand sem → Message
  message_of c = c.message

  pub record Conserved (s : Senders sem chan) : Type 0 where
    pub bytes :
        available_permits s.out.outbound_budget
          + sum_of (admission_bytes sem chan) s.entering
          + sum_of (admission_bytes sem chan) s.admitted
          + sum_of (command_bytes sem chan) (queued s)
          + writing_bytes s.writing
        ≡ config.max_buffered_bytes
    pub slots : capacity s.out.outbound + length s.admitted + length (queued s) ≤ config.max_queue
    pub slots_open :
        is_closed s.out.outbound ≡ false
        → capacity s.out.outbound + length s.admitted + length (queued s) ≡ config.max_queue
    pub entering_fit : All Fits s.entering
    pub admitted_fit : All Fits s.admitted
    pub queued_paid : All Paid (queued s)
    pub writing_paid : WritingPaid s.writing
    pub in_order : is_closed s.out.outbound ≡ false → s.sent ≡ s.taken ++ map message_of (queued s)

  pub start-Conserved : Conserved (start sem chan w config)
  start-Conserved =
      let (empty, room, _) = chan.channel_lem {A = OutboundCommand sem} config.max_queue in
      record {
        bytes = omega (
          arith,
          sem.available_permits-new config.max_buffered_bytes,
          ap (sum_of (command_bytes sem chan)) empty,
        );
        slots = omega (arith, room, ap length empty);
        slots_open = λ _. omega (arith, room, ap length empty);
        entering_fit = tt;
        admitted_fit = tt;
        queued_paid = rw empty tt;
        writing_paid = tt;
        in_order = λ _. rw empty refl;
      }

  -- An admission that is given up gives back its bytes and its slot.
  pub given_up :
      {s : Senders sem chan}
      → Conserved s
      → (before : List (OutboundAdmission sem)) (one : OutboundAdmission sem)
        (behind : List (OutboundAdmission sem))
      → s.admitted ≡ before ++ (one ∷ behind)
      → Conserved
          (record s { out = drop_admission sem chan one s.out; admitted = before ++ behind })
  given_up {s} c before one behind e =
      let (budget, same, room, still) = drop_admission_lem sem chan one s.out in
      let held = sum_of-split (admission_bytes sem chan) before one behind e in
      let fewer = length-split before one behind e in
      record {
        bytes = omega (arith, c.bytes, budget, held, ap (sum_of (command_bytes sem chan)) same);
        slots = omega (arith, c.slots, room, fewer, ap length same);
        slots_open = λ o. omega (arith, c.slots_open (sym still ∙ o), room, fewer, ap length same);
        entering_fit = c.entering_fit;
        admitted_fit = (All-split Fits before one behind e c.admitted_fit).1;
        queued_paid = rw same c.queued_paid;
        writing_paid = c.writing_paid;
        in_order = λ o. rw same (c.in_order (sym still ∙ o));
      }
