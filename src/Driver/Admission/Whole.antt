-- ===== src/Driver/Admission/Whole.antt =====
-- `try_admit_outbound` of src/driver.rs as a whole: when it admits, and what a refusal leaves.
use fogws.Prelude.{
  ℕ, ◌≤◌, ◌≡◌, ◌≢◌, refl, false, ok, arith, Option-cases, inl, inr, Result-cases, Bool-cases,
}
use fogws.Config.{ConnectionConfig, u32_max}
use fogws.Tokio.Semaphore.{Semaphore}
use fogws.Tokio.Mpsc.{Mpsc, Reserve, reserved, full, closed}
use fogws.Driver.State.{DriverState, open_, ensure_open}
use fogws.Driver.Admission.{
  OutboundCommand, OutboundAdmission, Outbound, admit_bytes, admit_item, try_admit_outbound,
}

module _ (sem : Semaphore) (chan : Mpsc) (config : ConnectionConfig) where
  open sem use {available_permits, num_permits}
  open chan use {contents, capacity, is_closed}

  pub admit_bytes-open :
      (size : ℕ) (out : Outbound sem chan)
      → size ≤ config.max_message_size
      → size ≤ u32_max
      → size ≤ available_permits out.outbound_budget
      → (u : Outbound sem chan) × (p : sem.Permit) × (admit_bytes sem chan config open_ size out
          ≡ (u, ok p))
  unfolding admit_bytes ensure_open
  admit_bytes-open size out small word room =
      elim (Option-cases (sem.try_acquire_many_owned size out.outbound_budget)) [
        | inl e ↦ absurd (omega (arith, (sem.refused_iff size out.outbound_budget).0 e))
        | inr ((p, rest), e) ↦ (record out { outbound_budget = rest }, p, ground arith)
      ]

  pub admit_item-open :
      (state : DriverState) (size : ℕ) (p : sem.Permit) (out : Outbound sem chan)
      → is_closed out.outbound ≡ false
      → capacity out.outbound ≢ 0
      → (u : Outbound sem chan) × (a : OutboundAdmission sem) × (admit_item sem chan config state
            size p out
          ≡ (u, ok a))
  unfolding admit_item
  admit_item-open state size p out running slot = go (chan.try_reserve_owned out.outbound) refl
    where
      go :
          (r : Reserve (chan.Channel (OutboundCommand sem)))
          → chan.try_reserve_owned out.outbound ≡ r
          → (u : Outbound sem chan) × (a : OutboundAdmission sem) × (admit_item sem chan config
                state size p out
              ≡ (u, ok a))
      go (reserved rest) e = (
        record out { outbound = rest },
        record { byte_permit = p; message_size = size },
        ground arith,
      )
      go full e = absurd (slot ((chan.full_iff out.outbound).0 e).1)
      go closed e = cc ((chan.closed_iff out.outbound).0 e)

  pub admit_item-running :
      (state : DriverState) (size : ℕ) (p : sem.Permit) (out : Outbound sem chan)
      {u : Outbound sem chan} {a : OutboundAdmission sem}
      → admit_item sem chan config state size p out ≡ (u, ok a)
      → is_closed out.outbound ≡ false
  unfolding admit_item
  admit_item-running state size p out h = elim (Bool-cases (is_closed out.outbound)) [
    | inl shut ↦ ground (arith, (chan.closed_iff out.outbound).1 shut)
    | inr running ↦ running
  ]

  pub try_admit_outbound_complete :
      (before after : DriverState) (size : ℕ) (out : Outbound sem chan) {u v : Outbound sem chan}
      {p : sem.Permit} {a : OutboundAdmission sem}
      → admit_bytes sem chan config before size out ≡ (v, ok p)
      → admit_item sem chan config after size p v ≡ (u, ok a)
      → try_admit_outbound sem chan config before after size out ≡ (u, ok a)
  unfolding try_admit_outbound
  try_admit_outbound_complete before after size out e f = ground arith

  pub try_admit_outbound-ok :
      (before after : DriverState) (size : ℕ) (out : Outbound sem chan) {u : Outbound sem chan}
      {a : OutboundAdmission sem}
      → try_admit_outbound sem chan config before after size out ≡ (u, ok a)
      → (v : Outbound sem chan) × (p : sem.Permit) × (admit_bytes sem chan config before size out
          ≡ (v, ok p))
        × (admit_item sem chan config after size p v ≡ (u, ok a))
  unfolding try_admit_outbound
  try_admit_outbound-ok before after size out h =
      let admitted = admit_bytes sem chan config before size out in
      elim (Result-cases admitted.1) [
        | inl (p, e) ↦ (admitted.0, p, ground arith, ground arith)
        | inr (error, e) ↦ ground arith
      ]
