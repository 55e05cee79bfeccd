-- ===== src/Driver/Admission/Senders.antt =====
-- The outbound path of src/driver.rs at run time: any number of sends in progress, the writer's
-- receiver, and the budget and queue that they share, one access at a time in any order.
use fogws.Prelude.{ℕ, ◌≡◌, false, Option, none, some, ok, err, List, [], ◌∷◌, ◌++◌}
use fogws.Error.{DriverError}
use fogws.Config.{ConnectionConfig}
use fogws.Tokio.Semaphore.{Semaphore}
use fogws.Tokio.Mpsc.{Mpsc}
use fogws.Driver.Wire.{Message, Tungstenite}
use fogws.Driver.State.{DriverState}
use fogws.Driver.Admission.{
  OutboundCommand, OutboundAdmission, Outbound, start_outbound, admit_bytes, admit_item,
  send_admitted, drop_admission, drop_command, drop_receiver,
}

module _ (sem : Semaphore) (chan : Mpsc) where
  -- A call of `try_admit_outbound` between its two parts has taken the bytes of its message only.
  pub record Senders : Type 0 where
    pub out : Outbound sem chan
    pub entering : List (OutboundAdmission sem)
    pub admitted : List (OutboundAdmission sem)
    pub writing : Option (OutboundCommand sem)
    -- What has gone into the queue and what the writer has taken out, in order.
    pub sent : List Message
    pub taken : List Message

  module _ (w : Tungstenite) (config : ConnectionConfig) where
    pub data Step (s : Senders) : Senders → Type 0 where
      refuses :
          (state : DriverState) (size : ℕ) {out : Outbound sem chan} {error : DriverError}
          → admit_bytes sem chan config state size s.out ≡ (out, err error)
          → Step s (record s { out = out })
      enters :
          (state : DriverState) (size : ℕ) {out : Outbound sem chan} {permit : sem.Permit}
          → admit_bytes sem chan config state size s.out ≡ (out, ok permit)
          → Step s (record s {
            out = out;
            entering = record { byte_permit = permit; message_size = size } ∷ s.entering;
          })
      turned_away :
          (state : DriverState) (before : List (OutboundAdmission sem))
          (one : OutboundAdmission sem) (behind : List (OutboundAdmission sem))
          {out : Outbound sem chan} {error : DriverError}
          → s.entering ≡ before ++ (one ∷ behind)
          → admit_item sem chan config state one.message_size one.byte_permit s.out
            ≡ (out, err error)
          → Step s (record s { out = out; entering = before ++ behind })
      admits :
          (state : DriverState) (before : List (OutboundAdmission sem))
          (one : OutboundAdmission sem) (behind : List (OutboundAdmission sem))
          {out : Outbound sem chan} {admission : OutboundAdmission sem}
          → s.entering ≡ before ++ (one ∷ behind)
          → admit_item sem chan config state one.message_size one.byte_permit s.out
            ≡ (out, ok admission)
          → Step s (record s {
            out = out;
            entering = before ++ behind;
            admitted = admission ∷ s.admitted;
          })
      sends :
          (before : List (OutboundAdmission sem)) (one : OutboundAdmission sem)
          (behind : List (OutboundAdmission sem)) (message : Message) {out : Outbound sem chan}
          → s.admitted ≡ before ++ (one ∷ behind)
          → send_admitted sem chan w one message s.out ≡ (out, ok tt)
          → Step s
              (record s { out = out; admitted = before ++ behind; sent = s.sent ++ (message ∷ []) })
      rejects :
          (before : List (OutboundAdmission sem)) (one : OutboundAdmission sem)
          (behind : List (OutboundAdmission sem)) (message : Message) {out : Outbound sem chan}
          {error : DriverError}
          → s.admitted ≡ before ++ (one ∷ behind)
          → send_admitted sem chan w one message s.out ≡ (out, err error)
          → Step s (record s { out = out; admitted = before ++ behind })
      -- The future that holds the admission is dropped before it sends.
      cancels :
          (before : List (OutboundAdmission sem)) (one : OutboundAdmission sem)
          (behind : List (OutboundAdmission sem))
          → s.admitted ≡ before ++ (one ∷ behind)
          → Step s
              (record s { out = drop_admission sem chan one s.out; admitted = before ++ behind })
      -- The writer, as long as it runs.
      takes :
          {command : OutboundCommand sem} {rest : chan.Channel (OutboundCommand sem)}
          → chan.is_closed s.out.outbound ≡ false
          → s.writing ≡ none
          → chan.recv s.out.outbound ≡ some (command, rest)
          → Step s (record s {
            out = record s.out { outbound = rest };
            writing = some command;
            taken = s.taken ++ (command.message ∷ []);
          })
      writes :
          {command : OutboundCommand sem}
          → s.writing ≡ some command
          → Step s (record s { out = drop_command sem chan command s.out; writing = none })
      -- The writer ends, and has dropped the command that it was writing.
      ends :
          chan.is_closed s.out.outbound ≡ false
          → s.writing ≡ none
          → Step s (record s { out = drop_receiver sem chan s.out })

    pub data Reach (s : Senders) : Senders → Type 0 where
      here : Reach s s
      next : {u v : Senders} → Reach s u → Step u v → Reach s v

    -- After `start`.
    abbrev pub start : Senders
    start = record {
      out = start_outbound sem chan config;
      entering = [];
      admitted = [];
      writing = none;
      sent = [];
      taken = [];
    }
