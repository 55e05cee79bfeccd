-- ===== src/Driver/Admission/Conserved.antt =====
-- The account of the outbound path of src/driver.rs is kept in every order of its accesses.
use fogws.Prelude.{sym, subst, ◌++◌}
use fogws.Config.{ConnectionConfig}
use fogws.Tokio.Semaphore.{Semaphore}
use fogws.Tokio.Mpsc.{Mpsc}
use fogws.Driver.Wire.{Tungstenite}
use fogws.Driver.Admission.Senders.{
  Senders, Step, Reach, refuses, enters, turned_away, admits, sends, rejects, cancels, takes,
  writes, ends, here, next,
}
use fogws.Driver.Admission.Calls.{admit_bytes-err, send_admitted-err}
use fogws.Driver.Admission.Ledger.{Conserved, given_up}
use fogws.Driver.Admission.Admitting.{entered, refused_slot, given_slot}
use fogws.Driver.Admission.Draining.{sent_one, taken_one, wrote_one, ended}

module _ (sem : Semaphore) (chan : Mpsc) (w : Tungstenite) (config : ConnectionConfig) where
  pub Step-Conserved :
      {s u : Senders sem chan}
      → Step sem chan w config s u
      → Conserved sem chan w config s
      → Conserved sem chan w config u
  Step-Conserved {s} (refuses state size e) c =
      subst (λ o. Conserved sem chan w config (record s { out = o }))
        (sym (admit_bytes-err sem chan config state size s.out e)) c
  Step-Conserved (enters state size e) c = entered sem chan w config c state size e
  Step-Conserved (turned_away state before one behind e h) c =
      refused_slot sem chan w config c state before one behind e h
  Step-Conserved (admits state before one behind e h) c =
      given_slot sem chan w config c state before one behind e h
  Step-Conserved (sends before one behind message e h) c =
      sent_one sem chan w config c before one behind message e h
  Step-Conserved {s} (rejects before one behind message e h) c =
      subst (λ o. Conserved sem chan w config (record s { out = o; admitted = before ++ behind }))
        (sym (send_admitted-err sem chan w one message s.out h).1)
        (given_up sem chan w config c before one behind e)
  Step-Conserved (cancels before one behind e) c = given_up sem chan w config c before one behind e
  Step-Conserved (takes open_still idle h) c = taken_one sem chan w config c open_still idle h
  Step-Conserved (writes e) c = wrote_one sem chan w config c e
  Step-Conserved (ends open_still idle) c = ended sem chan w config c

  pub Reach-Conserved :
      {s u : Senders sem chan}
      → Reach sem chan w config s u
      → Conserved sem chan w config s
      → Conserved sem chan w config u
  Reach-Conserved here c = c
  Reach-Conserved (next r st) c = Step-Conserved st (Reach-Conserved r c)
