-- ===== src/Driver/Admission/Draining.antt =====
-- The sends of admitted messages and the writer of src/driver.rs keep the account.
use fogws.Prelude.{
  ok, ◌≡◌, sym, ap, subst, ◌∙◌, false, none, some, arith, List, [], ◌∷◌, ◌++◌, map, length, sum_of,
  All, All-append, length-append, sum_of-append, length-split, sum_of-split, All-split,
}
use mathlib.Core.List.{append_assoc, map-append}
use fogws.Config.{ConnectionConfig}
use fogws.Tokio.Semaphore.{Semaphore}
use fogws.Tokio.Mpsc.{Mpsc}
use fogws.Driver.Wire.{Message, Tungstenite}
use fogws.Driver.Admission.{
  OutboundCommand, OutboundAdmission, Outbound, send_admitted, drop_command, drop_receiver,
}
use fogws.Driver.Admission.Senders.{Senders}
use fogws.Driver.Admission.Calls.{
  command_bytes, admission_bytes, send_admitted-ok, drop_command_lem, drop_receiver_lem,
}
use fogws.Driver.Admission.Ledger.{Fits, Paid, writing_bytes, queued, message_of, Conserved}

module _ (sem : Semaphore) (chan : Mpsc) (w : Tungstenite) (config : ConnectionConfig) where
  open sem use {available_permits, num_permits}
  open chan use {contents, capacity, is_closed}

  pub sent_one :
      {s : Senders sem chan}
      → Conserved sem chan w config s
      → (before : List (OutboundAdmission sem)) (one : OutboundAdmission sem)
        (behind : List (OutboundAdmission sem)) (message : Message) {out : Outbound sem chan}
      → s.admitted ≡ before ++ (one ∷ behind)
      → send_admitted sem chan w one message s.out ≡ (out, ok tt)
      → Conserved sem chan w config
          (record s { out = out; admitted = before ++ behind; sent = s.sent ++ (message ∷ []) })
  sent_one {s} c before one behind message e h =
      let (size, budget, grown, room, still) = send_admitted-ok sem chan w one message s.out h in
      let (fits, rest_fit) =
        All-split (Fits sem chan w config) before one behind e c.admitted_fit in
      let command : OutboundCommand sem = record { message = message; permit = one.byte_permit } in
      let longer = ap length grown ∙ length-append (queued sem chan w config s) (command ∷ []) in
      let fewer = length-split before one behind e in
      record {
        bytes = omega (
          arith,
          c.bytes,
          ap available_permits budget,
          sum_of-split (admission_bytes sem chan) before one behind e,
          ap (sum_of (command_bytes sem chan)) grown,
          sum_of-append (command_bytes sem chan) (queued sem chan w config s) (command ∷ []),
        );
        slots = omega (arith, c.slots, room, fewer, longer);
        slots_open = λ o. omega (arith, c.slots_open (sym still ∙ o), room, fewer, longer);
        entering_fit = c.entering_fit;
        admitted_fit = rest_fit;
        queued_paid = rw grown (
            All-append (Paid sem chan w config) (queued sem chan w config s) (command ∷ [])
              c.queued_paid
              (
                record {
                  permit = omega (arith, fits.permit, size);
                  small = omega (arith, fits.small, size);
                },
                tt,
              ));
        writing_paid = c.writing_paid;
        in_order = λ o.
            rw (grown, map-append)
              (ap (λ l. l ++ (message ∷ [])) (c.in_order (sym still ∙ o))
                ∙ append_assoc s.taken
                    (map (message_of sem chan w config) (queued sem chan w config s))
                    (message ∷ []));
      }

  pub taken_one :
      {s : Senders sem chan}
      → Conserved sem chan w config s
      → {command : OutboundCommand sem} {rest : chan.Channel (OutboundCommand sem)}
      → is_closed s.out.outbound ≡ false
      → s.writing ≡ none
      → chan.recv s.out.outbound ≡ some (command, rest)
      → Conserved sem chan w config (record s {
        out = record s.out { outbound = rest };
        writing = some command;
        taken = s.taken ++ (command.message ∷ []);
      })
  taken_one {s} c {command} {rest} open_still idle h =
      let (first, room, still) = chan.recv_lem s.out.outbound command rest h in
      let paid = subst (All (Paid sem chan w config)) first c.queued_paid in
      record {
        bytes = omega (
          arith,
          c.bytes,
          ap (writing_bytes sem chan w config) idle,
          ap (sum_of (command_bytes sem chan)) first,
        );
        slots = omega (arith, c.slots, room, ap length first);
        slots_open = λ o. omega (arith, c.slots_open open_still, room, ap length first);
        entering_fit = c.entering_fit;
        admitted_fit = c.admitted_fit;
        queued_paid = paid.1;
        writing_paid = paid.0;
        in_order = λ o.
            c.in_order open_still
            ∙ ap (λ l. s.taken ++ map (message_of sem chan w config) l) first
            ∙ sym (
                append_assoc s.taken (command.message ∷ [])
                  (map (message_of sem chan w config) (contents rest)));
      }

  pub wrote_one :
      {s : Senders sem chan}
      → Conserved sem chan w config s
      → {command : OutboundCommand sem} → s.writing ≡ some command
      → Conserved sem chan w config
          (record s { out = drop_command sem chan command s.out; writing = none })
  wrote_one {s} c {command} e =
      let (budget, outbound) = drop_command_lem sem chan command s.out in
      record {
        bytes = omega (
          arith,
          c.bytes,
          budget,
          ap (writing_bytes sem chan w config) e,
          ap (λ q. sum_of (command_bytes sem chan) (contents q)) outbound,
        );
        slots = rw outbound c.slots;
        slots_open = rw outbound c.slots_open;
        entering_fit = c.entering_fit;
        admitted_fit = c.admitted_fit;
        queued_paid = rw outbound c.queued_paid;
        writing_paid = tt;
        in_order = rw outbound c.in_order;
      }

  pub ended :
      {s : Senders sem chan}
      → Conserved sem chan w config s
      → Conserved sem chan w config (record s { out = drop_receiver sem chan s.out })
  ended {s} c =
      let (budget, empty, room, shut) = drop_receiver_lem sem chan s.out in
      record {
        bytes = omega (arith, c.bytes, budget, ap (sum_of (command_bytes sem chan)) empty);
        slots = omega (arith, c.slots, room, ap length empty);
        slots_open = λ o. cc (sym shut ∙ o);
        entering_fit = c.entering_fit;
        admitted_fit = c.admitted_fit;
        queued_paid = rw empty tt;
        writing_paid = c.writing_paid;
        in_order = λ o. cc (sym shut ∙ o);
      }
