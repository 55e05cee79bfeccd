-- ===== src/Driver/Admission/Calls.antt =====
-- What each call of the outbound path of src/driver.rs does to the budget and the queue, on success
-- and on refusal.
use fogws.Prelude.{
  ℕ, suc, ◌+◌, ◌≤◌, ◌≡◌, ◌≢◌, refl, ap, ◌∙◌, true, ok, err, arith, List, [], ◌∷◌, ◌++◌, length,
  sum_of, Option-cases, inl, inr,
}
use fogws.Error.{DriverError}
use fogws.Config.{ConnectionConfig}
use fogws.Tokio.Semaphore.{Semaphore}
use fogws.Tokio.Mpsc.{Mpsc}
use fogws.Driver.Wire.{Message, Tungstenite}
use fogws.Driver.State.{DriverState, open_, ensure_open}
use fogws.Driver.Admission.{
  OutboundCommand, OutboundAdmission, Outbound, validate_outbound_message, admit_bytes, admit_item,
  send_admitted, drop_admission, drop_command, drop_commands, drop_receiver,
}

module _ (sem : Semaphore) (chan : Mpsc) where
  open sem use {available_permits, num_permits}
  open chan use {contents, capacity, is_closed}

  abbrev pub command_bytes : OutboundCommand sem → ℕ
  command_bytes c = num_permits c.permit

  abbrev pub admission_bytes : OutboundAdmission sem → ℕ
  admission_bytes a = num_permits a.byte_permit

  module _ (config : ConnectionConfig) where
    pub validate-ok :
        (state : DriverState) (size : ℕ)
        → validate_outbound_message sem chan config state size ≡ ok tt
        → (state ≡ open_) × (size ≤ config.max_message_size)
    unfolding validate_outbound_message ensure_open
    validate-ok state size h = ground arith

    pub admit_bytes-ok :
        (state : DriverState) (size : ℕ) (out : Outbound sem chan) {u : Outbound sem chan}
        {p : sem.Permit}
        → admit_bytes sem chan config state size out ≡ (u, ok p)
        → (num_permits p ≡ size)
          × (available_permits u.outbound_budget + size ≡ available_permits out.outbound_budget)
          × (u.outbound ≡ out.outbound)
          × (state ≡ open_)
          × (size ≤ config.max_message_size)
    unfolding admit_bytes
    admit_bytes-ok state size out h =
        elim (Option-cases (sem.try_acquire_many_owned size out.outbound_budget)) [
          | inl e ↦ ground arith
          | inr ((p, u), e) ↦
              ground (arith, sem.acquired size out.outbound_budget p u, validate-ok state size)
        ]

    -- A refusal changes nothing.
    pub admit_bytes-err :
        (state : DriverState) (size : ℕ) (out : Outbound sem chan) {u : Outbound sem chan}
        {e : DriverError}
        → admit_bytes sem chan config state size out ≡ (u, err e)
        → u ≡ out
    unfolding admit_bytes
    admit_bytes-err state size out h = ground arith

    pub admit_item-ok :
        (state : DriverState) (size : ℕ) (p : sem.Permit) (out : Outbound sem chan)
        {u : Outbound sem chan} {a : OutboundAdmission sem}
        → admit_item sem chan config state size p out ≡ (u, ok a)
        → (a ≡ record { byte_permit = p; message_size = size })
          × (u.outbound_budget ≡ out.outbound_budget)
          × (capacity out.outbound ≡ suc (capacity u.outbound))
          × (contents u.outbound ≡ contents out.outbound)
          × (is_closed u.outbound ≡ is_closed out.outbound)
    unfolding admit_item
    admit_item-ok state size p out {u} h = ground (arith, chan.reserved_lem out.outbound u.outbound)

    pub admit_item-err :
        (state : DriverState) (size : ℕ) (p : sem.Permit) (out : Outbound sem chan)
        {u : Outbound sem chan} {e : DriverError}
        → admit_item sem chan config state size p out ≡ (u, err e)
        → (u.outbound ≡ out.outbound)
          × (available_permits u.outbound_budget
              ≡ available_permits out.outbound_budget + num_permits p)
    unfolding admit_item
    admit_item-err state size p out h =
        ground (arith, sem.available_permits-drop_permit p out.outbound_budget)

  module _ (w : Tungstenite) where
    pub send_admitted-ok :
        (a : OutboundAdmission sem) (message : Message) (out : Outbound sem chan)
        {u : Outbound sem chan}
        → send_admitted sem chan w a message out ≡ (u, ok tt)
        → (w.message_len message ≡ a.message_size)
          × (u.outbound_budget ≡ out.outbound_budget)
          × (contents u.outbound
              ≡ contents out.outbound
                ++ (record { message = message; permit = a.byte_permit } ∷ []))
          × (capacity u.outbound ≡ capacity out.outbound)
          × (is_closed u.outbound ≡ is_closed out.outbound)
    unfolding send_admitted
    send_admitted-ok a message out h = ground (
      arith,
      chan.send_lem
          (let c : OutboundCommand sem = record { message = message; permit = a.byte_permit } in c)
          out.outbound,
    )

    -- The early return drops both permits.
    pub send_admitted-err :
        (a : OutboundAdmission sem) (message : Message) (out : Outbound sem chan)
        {u : Outbound sem chan} {e : DriverError}
        → send_admitted sem chan w a message out ≡ (u, err e)
        → (w.message_len message ≢ a.message_size) × (u ≡ drop_admission sem chan a out)
    unfolding send_admitted drop_admission
    send_admitted-err a message out h = ground arith

  pub drop_admission_lem :
      (a : OutboundAdmission sem) (out : Outbound sem chan)
      → let u = drop_admission sem chan a out in
        (available_permits u.outbound_budget
          ≡ available_permits out.outbound_budget + admission_bytes a)
        × (contents u.outbound ≡ contents out.outbound)
        × (capacity u.outbound ≡ suc (capacity out.outbound))
        × (is_closed u.outbound ≡ is_closed out.outbound)
  unfolding drop_admission
  drop_admission_lem a out =
      let dropped = chan.drop_permit_lem out.outbound in
      (
        sem.available_permits-drop_permit a.byte_permit out.outbound_budget,
        dropped.0,
        dropped.1,
        dropped.2,
      )

  pub drop_command_lem :
      (c : OutboundCommand sem) (out : Outbound sem chan)
      → (available_permits (drop_command sem chan c out).outbound_budget
          ≡ available_permits out.outbound_budget + command_bytes c)
        × ((drop_command sem chan c out).outbound ≡ out.outbound)
  unfolding drop_command
  drop_command_lem c out = (sem.available_permits-drop_permit c.permit out.outbound_budget, refl)

  pub drop_commands_lem :
      (cs : List (OutboundCommand sem)) (out : Outbound sem chan)
      → (available_permits (drop_commands sem chan cs out).outbound_budget
          ≡ available_permits out.outbound_budget + sum_of command_bytes cs)
        × ((drop_commands sem chan cs out).outbound ≡ out.outbound)
  unfolding drop_commands
  drop_commands_lem [] out = (omega arith, refl)
  drop_commands_lem (c ∷ cs) out =
      let one = drop_command_lem c out in
      let rest = drop_commands_lem cs (drop_command sem chan c out) in
      (omega (arith, one.0, rest.0), rest.1 ∙ one.1)

  pub drop_receiver_lem :
      (out : Outbound sem chan)
      → let u = drop_receiver sem chan out in
        (available_permits u.outbound_budget
          ≡ available_permits out.outbound_budget + sum_of command_bytes (contents out.outbound))
        × (contents u.outbound ≡ [])
        × (capacity u.outbound ≤ capacity out.outbound + length (contents out.outbound))
        × (is_closed u.outbound ≡ true)
  unfolding drop_receiver
  drop_receiver_lem out =
      let closed_out : Outbound sem chan = record out {
        outbound = chan.drop_receiver out.outbound;
      } in
      let rest = drop_commands_lem (contents out.outbound) closed_out in
      let channel_facts = chan.drop_receiver_lem out.outbound in
      (
        rest.0,
        ap contents rest.1 ∙ channel_facts.0,
        omega (arith, ap capacity rest.1, channel_facts.1),
        ap is_closed rest.1 ∙ channel_facts.2,
      )
