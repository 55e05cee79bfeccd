-- ===== src/Driver/Admission/Admitting.antt =====
-- The admission of a message to the outbound queue of src/driver.rs keeps the account.
use fogws.Prelude.{
  ℕ, ok, err, ◌≡◌, sym, ap, subst, ◌∙◌, arith, List, ◌∷◌, ◌++◌, length, sum_of, sum_of-split,
  All-split,
}
use fogws.Config.{ConnectionConfig}
use fogws.Tokio.Semaphore.{Semaphore}
use fogws.Tokio.Mpsc.{Mpsc}
use fogws.Driver.Wire.{Tungstenite}
use fogws.Error.{DriverError}
use fogws.Driver.State.{DriverState}
use fogws.Driver.Admission.{OutboundAdmission, Outbound, admit_bytes, admit_item}
use fogws.Driver.Admission.Senders.{Senders}
use fogws.Driver.Admission.Calls.{
  command_bytes, admission_bytes, admit_bytes-ok, admit_item-ok, admit_item-err,
}
use fogws.Driver.Admission.Ledger.{Fits, Conserved}

module _ (sem : Semaphore) (chan : Mpsc) (w : Tungstenite) (config : ConnectionConfig) where
  open sem use {available_permits, num_permits}
  open chan use {contents, capacity, is_closed}

  pub entered :
      {s : Senders sem chan}
      → Conserved sem chan w config s
      → (state : DriverState) (size : ℕ) {out : Outbound sem chan} {permit : sem.Permit}
      → admit_bytes sem chan config state size s.out ≡ (out, ok permit)
      → Conserved sem chan w config (record s {
        out = out;
        entering = record { byte_permit = permit; message_size = size } ∷ s.entering;
      })
  entered {s} c state size e =
      let (permits, budget, outbound, _, small) =
        admit_bytes-ok sem chan config state size s.out e in
      record {
        bytes = omega (
          arith,
          c.bytes,
          budget,
          permits,
          ap (λ q. sum_of (command_bytes sem chan) (contents q)) outbound,
        );
        slots = rw outbound c.slots;
        slots_open = rw outbound c.slots_open;
        entering_fit = (record { permit = permits; small = small }, c.entering_fit);
        admitted_fit = c.admitted_fit;
        queued_paid = rw outbound c.queued_paid;
        writing_paid = c.writing_paid;
        in_order = rw outbound c.in_order;
      }

  pub refused_slot :
      {s : Senders sem chan}
      → Conserved sem chan w config s
      → (state : DriverState) (before : List (OutboundAdmission sem)) (one : OutboundAdmission sem)
        (behind : List (OutboundAdmission sem)) {out : Outbound sem chan} {error : DriverError}
      → s.entering ≡ before ++ (one ∷ behind)
      → admit_item sem chan config state one.message_size one.byte_permit s.out ≡ (out, err error)
      → Conserved sem chan w config (record s { out = out; entering = before ++ behind })
  refused_slot {s} c state before one behind e h =
      let (outbound, budget) =
        admit_item-err sem chan config state one.message_size one.byte_permit s.out h in
      record {
        bytes = omega (
          arith,
          c.bytes,
          budget,
          sum_of-split (admission_bytes sem chan) before one behind e,
          ap (λ q. sum_of (command_bytes sem chan) (contents q)) outbound,
        );
        slots = rw outbound c.slots;
        slots_open = rw outbound c.slots_open;
        entering_fit = (All-split (Fits sem chan w config) before one behind e c.entering_fit).1;
        admitted_fit = c.admitted_fit;
        queued_paid = rw outbound c.queued_paid;
        writing_paid = c.writing_paid;
        in_order = rw outbound c.in_order;
      }

  pub given_slot :
      {s : Senders sem chan}
      → Conserved sem chan w config s
      → (state : DriverState) (before : List (OutboundAdmission sem)) (one : OutboundAdmission sem)
        (behind : List (OutboundAdmission sem)) {out : Outbound sem chan}
        {admission : OutboundAdmission sem}
      → s.entering ≡ before ++ (one ∷ behind)
      → admit_item sem chan config state one.message_size one.byte_permit s.out
        ≡ (out, ok admission)
      → Conserved sem chan w config
          (record s { out = out; entering = before ++ behind; admitted = admission ∷ s.admitted })
  given_slot {s} c state before one behind {admission} e h =
      let (same_one, budget, room, same, still) =
        admit_item-ok sem chan config state one.message_size one.byte_permit s.out h in
      let (fits, rest_fit) =
        All-split (Fits sem chan w config) before one behind e c.entering_fit in
      record {
        bytes = omega (
          arith,
          c.bytes,
          ap available_permits budget,
          ap (admission_bytes sem chan) same_one,
          sum_of-split (admission_bytes sem chan) before one behind e,
          ap (sum_of (command_bytes sem chan)) same,
        );
        slots = omega (arith, c.slots, room, ap length same);
        slots_open = λ o. omega (arith, c.slots_open (sym still ∙ o), room, ap length same);
        entering_fit = rest_fit;
        admitted_fit = (subst (Fits sem chan w config) (sym same_one) fits, c.admitted_fit);
        queued_paid = rw same c.queued_paid;
        writing_paid = c.writing_paid;
        in_order = λ o. rw same (c.in_order (sym still ∙ o));
      }
