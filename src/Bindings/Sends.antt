-- ===== src/Bindings/Sends.antt =====
-- The sends of src/py.rs that pass the guards: the first check of a text by its characters, and the
-- length that is admitted.
use Prim.Native.String.{String, len}
use fogws.Prelude.{
  ℕ, ◌≤◌, ◌≡◌, arith, ap, ◌↔◌, Option, Result, ok, err, List, length, Result-cases, inl, inr, ◌⊎◌,
}
use fogws.Error.{DriverError}
use fogws.Config.{ConnectionConfig}
use fogws.Tokio.Semaphore.{Semaphore}
use fogws.Tokio.Mpsc.{Mpsc}
use fogws.Python.{PyErr, Attribute}
use fogws.Driver.Wire.{Message, text, binary, Tungstenite}
use fogws.Driver.State.{DriverState, ensure_open}
use fogws.Driver.Admission.{
  OutboundAdmission, Outbound, validate_outbound_message, try_admit_outbound, send_admitted,
}
use fogws.Driver.Admission.Calls.{admit_bytes-ok, admit_item-ok}
use fogws.Driver.Admission.Whole.{try_admit_outbound-ok}
use fogws.Bindings.Connection.{
  Reads, PyText, Future, admitted_future, sending, start_text, start_bytes,
}

-- How tungstenite measures data: in bytes.
pub record MeasuresBytes (w : Tungstenite) : Type 0 where
  pub text_bytes : (s : String) → w.message_len (text s) ≡ len s
  pub binary_bytes : (bytes : List ℕ) → w.message_len (binary bytes) ≡ length bytes

module _ (setattr : Attribute → PyErr → Option PyErr) (sem : Semaphore) (chan : Mpsc)
    (config : ConnectionConfig) where
  admitted_size :
      (before after : DriverState) (size : ℕ) (out : Outbound sem chan) {u : Outbound sem chan}
      {a : OutboundAdmission sem}
      → try_admit_outbound sem chan config before after size out ≡ (u, ok a)
      → a.message_size ≡ size
  admitted_size before after size out h =
      let (v, p, e, f) = try_admit_outbound-ok sem chan config before after size out h in
      ap (λ a. a.message_size) (admit_item-ok sem chan config after size p v f).0

  precheck_passes :
      (before after : DriverState) (n size : ℕ) (out : Outbound sem chan) {u : Outbound sem chan}
      {a : OutboundAdmission sem}
      → n ≤ size
      → try_admit_outbound sem chan config before after size out ≡ (u, ok a)
      → validate_outbound_message sem chan config before n ≡ ok tt
  unfolding validate_outbound_message ensure_open
  precheck_passes before after n size out fewer h =
      let (v, p, e, f) = try_admit_outbound-ok sem chan config before after size out h in
      let (_, _, _, open_still, small) = admit_bytes-ok sem chan config before size out e in
      ground arith

  admitted_future-ok :
      (message : Message) (r : Outbound sem chan × Result (OutboundAdmission sem) DriverError)
      {u : Outbound sem chan} {f : Future sem}
      → admitted_future setattr sem chan config message r ≡ (u, ok f)
      → (a : OutboundAdmission sem) × (r ≡ (u, ok a)) × (f ≡ sending a message)
  admitted_future-ok message (out, ok a) h = (a, ground arith, ground arith)
  admitted_future-ok message (out, err e) h = ground arith

  start_text-admitted :
      (reads : Reads) (payload : PyText) (out : Outbound sem chan) {u : Outbound sem chan}
      {f : Future sem}
      → start_text setattr sem chan config reads payload out ≡ (u, ok f)
      → (s : String) × (payload.to_str ≡ ok s)
        × (admitted_future setattr sem chan config
              (text s)
              (try_admit_outbound sem chan config reads.before reads.after (len s) out)
            ≡ (u, ok f))
  unfolding start_text
  start_text-admitted reads payload out h = elim (Result-cases payload.to_str) [
    | inl (s, e) ↦ (s, e, ground arith)
    | inr (error, e) ↦ ground arith
  ]

  -- For a text with no more characters than bytes the check by characters refuses nothing that the
  -- admission would accept: while the state stays, a send of the text starts exactly when its bytes
  -- are admitted, and with that admission.
  pub start_text-ok_iff :
      (state after : DriverState) (payload : PyText) (n : ℕ) (s : String)
      (out u : Outbound sem chan) (f : Future sem)
      → payload.chars ≡ ok n
      → payload.to_str ≡ ok s
      → n ≤ len s
      → (start_text setattr sem chan config
            (record { checked = state; before = state; after = after })
            payload
            out
          ≡ (u, ok f))
        ↔ ((a : OutboundAdmission sem) × (try_admit_outbound sem chan config state after (len s) out
              ≡ (u, ok a))
            × (f ≡ sending a (text s)))
  unfolding start_text
  start_text-ok_iff state after payload n s out u f chars str fewer = (
    λ h.
        let (r, e, g) = start_text-admitted _ payload out h in
        let (a, admitted, future) = admitted_future-ok (text r) _ g in
        (a, ground arith, ground arith),
    λ h. let passes = precheck_passes state after n (len s) out fewer h.1 in ground arith,
  )

  -- Where the length of a message is the number of its payload bytes, the driver accepts the message of
  -- every send that was started, whatever has happened meanwhile: the admission that the send holds is
  -- of that length.
  pub started_send_accepted :
      (w : Tungstenite)
      → MeasuresBytes w
      → (reads : Reads) (payload : PyText) (bytes : List ℕ) (out u later : Outbound sem chan)
        (a : OutboundAdmission sem) (message : Message)
      → (start_text setattr sem chan config reads payload out ≡ (u, ok (sending a message)))
        ⊎ (start_bytes setattr sem chan config reads bytes out ≡ (u, ok (sending a message)))
      → (send_admitted sem chan w a message later).1 ≡ ok tt
  unfolding start_bytes send_admitted
  started_send_accepted w measures reads payload bytes out u later a message (inl h) =
      let (s, _, g) = start_text-admitted reads payload out h in
      let (b, admitted, future) = admitted_future-ok (text s) _ g in
      let size = admitted_size reads.before reads.after (len s) out admitted in
      ground (arith, measures.text_bytes s)
  started_send_accepted w measures reads payload bytes out u later a message (inr h) =
      let (b, admitted, future) = admitted_future-ok (binary bytes) _ h in
      let size = admitted_size reads.before reads.after (length bytes) out admitted in
      ground (arith, measures.binary_bytes bytes)
