-- ===== src/Driver/Admission/Emptied.antt =====
-- The outbound queue of src/driver.rs can always be emptied while the writer runs.
use fogws.Prelude.{
  ◌+◌, ◌≡◌, refl, sym, ap, ◌∙◌, false, Option-cases, inl, inr, none, arith, List, [], ◌∷◌, ◌++◌,
  map, sum_of,
}
use mathlib.Core.List.{append-nil}
use fogws.Config.{ConnectionConfig}
use fogws.Tokio.Semaphore.{Semaphore}
use fogws.Tokio.Mpsc.{Mpsc}
use fogws.Driver.Wire.{Tungstenite}
use fogws.Driver.Admission.{OutboundCommand, drop_command}
use fogws.Driver.Admission.Senders.{Senders, Reach, start, takes, writes, here, next}
use fogws.Driver.Admission.Calls.{command_bytes, admission_bytes}
use fogws.Driver.Admission.Ledger.{queued, message_of, writing_bytes, Conserved, start-Conserved}
use fogws.Driver.Admission.Conserved.{Reach-Conserved}

module _ (sem : Semaphore) (chan : Mpsc) (w : Tungstenite) (config : ConnectionConfig) where
  open sem use {available_permits}
  open chan use {contents, is_closed}

  -- A run from `s` to `u` in which nothing is sent, after which the writer has taken all that was
  -- queued.
  pub record Emptied (s u : Senders sem chan) : Type 0 where
    pub run : Reach sem chan w config s u
    pub nothing_new : u.sent ≡ s.sent
    pub all_taken : u.taken ≡ s.sent
    pub empty : queued sem chan w config u ≡ []
    pub idle : u.writing ≡ none
    pub budget :
        available_permits u.out.outbound_budget
          + sum_of (admission_bytes sem chan) s.entering
          + sum_of (admission_bytes sem chan) s.admitted
        ≡ config.max_buffered_bytes

  -- With no command in the writer's hands, one command after the other.
  take_rest :
      {s : Senders sem chan}
      → Conserved sem chan w config s
      → (l : List (OutboundCommand sem)) (u : Senders sem chan) → Reach sem chan w config s u
      → u.sent ≡ s.sent
      → u.entering ≡ s.entering
      → u.admitted ≡ s.admitted
      → u.writing ≡ none
      → is_closed u.out.outbound ≡ false
      → contents u.out.outbound ≡ l
      → (v : Senders sem chan) × Emptied s v
  unfolding drop_command
  take_rest {s} c [] u r same entering admitted idle running empty =
      let c' = Reach-Conserved sem chan w config r c in
      (
        u,
        record {
          run = r;
          nothing_new = same;
          all_taken = sym (
              sym same
              ∙ c'.in_order running
              ∙ ap (λ l. u.taken ++ map (message_of sem chan w config) l) empty
              ∙ append-nil u.taken);
          empty = empty;
          idle = idle;
          budget = omega (
            arith,
            c'.bytes,
            ap (sum_of (command_bytes sem chan)) empty,
            ap (writing_bytes sem chan w config) idle,
            ap (sum_of (admission_bytes sem chan)) entering,
            ap (sum_of (admission_bytes sem chan)) admitted,
          );
        },
      )
  take_rest {s} c (e ∷ l) u r same entering admitted idle running full =
      elim (Option-cases (chan.recv u.out.outbound)) [
        | inl nothing ↦ absurd (cc (chan.recv_none u.out.outbound nothing))
        | inr ((first, rest), h) ↦
            let (taken, _, still) = chan.recv_lem u.out.outbound first rest h in
            take_rest c l _ (next (next r (takes running idle h)) (writes refl)) same entering
              admitted refl (still ∙ running) (cc taken)
      ]

  -- From every reachable state in which the writer runs there is a run in which nothing is sent, the
  -- writer finishes its command and takes and writes all that is queued: then every message that was
  -- sent has been taken, and the whole budget is available but for the admissions that were in
  -- progress.
  pub commands-Emptied :
      {s : Senders sem chan}
      → Reach sem chan w config (start sem chan w config) s
      → is_closed s.out.outbound ≡ false
      → (u : Senders sem chan) × Emptied s u
  unfolding drop_command
  commands-Emptied {s} r running =
      let c = Reach-Conserved sem chan w config r (start-Conserved sem chan w config) in
      elim (Option-cases s.writing) [
        | inl idle ↦ take_rest c _ s here refl refl refl idle running refl
        | inr (command, busy) ↦
            take_rest c _ _ (next here (writes busy)) refl refl refl refl running refl
      ]
