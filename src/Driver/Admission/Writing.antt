-- ===== src/Driver/Admission/Writing.antt =====
-- The writer of src/driver.rs between its calls: what it has in hand and what the sink has been given;
-- and the parts of it that touch neither.
use fogws.Prelude.{
  ℕ, zero, suc, ◌≡◌, sym, ap, ◌∙◌, ◌⊎◌, inl, inr, true, false, none, some, Result, ok, err, [], ◌∷◌,
  ◌++◌,
}
use fogws.Error.{DriverError}
use fogws.Config.{ConnectionConfig}
use fogws.Tokio.Semaphore.{Semaphore}
use fogws.Tokio.Mpsc.{Mpsc}
use fogws.Driver.Wire.{Message, Tungstenite, WsError}
use fogws.Driver.State.{is_abort, is_local_close}
use fogws.Driver.Publish.{publish_writer_failure, signal_abort}
use fogws.Driver.Writer.{
  WriterRound, normal_close, wait_for_handshake, writer_failure, flush_close, after_handshake,
  after_close_frame,
}
use fogws.Driver.Admission.Senders.{Senders, Reach}
use fogws.Driver.Leads.{Quiet, Quiet-bind, Quiet-if, Stable}
use fogws.Driver.Admission.Program.{Output, Free, Holding, Reach-trans, writing, Neutral}

pub wait_for_handshake-Quiet : (fuel : ℕ) → Quiet Neutral (wait_for_handshake fuel)
unfolding Quiet wait_for_handshake
wait_for_handshake-Quiet zero = (tt, λ a. absurd a)
wait_for_handshake-Quiet (suc fuel) = (
  tt,
  λ signal.
      Quiet-if Neutral (is_local_close signal) _ _
        (tt, elim [ true ↦ wait_for_handshake-Quiet fuel | false ↦ tt ]) tt,
)

pub writer_failure-Quiet : (e : DriverError) → Quiet Neutral (writer_failure e)
unfolding Quiet writer_failure publish_writer_failure signal_abort
writer_failure-Quiet e = (tt, λ t. (tt, λ b. tt))

module _ (w : Tungstenite) where
  pub flush_close-Quiet : Quiet Neutral (flush_close w)
  unfolding Quiet flush_close
  flush_close-Quiet = (tt, λ r. tt)

  pub after_handshake-Quiet :
      (r : Result (Unit {0}) DriverError) → Quiet Neutral (after_handshake w r)
  unfolding Quiet after_handshake
  after_handshake-Quiet (err e) = tt
  after_handshake-Quiet (ok _) =
      (tt, λ signal. Quiet-if Neutral (is_abort signal) _ _ tt flush_close-Quiet)

  pub after_close_frame-Quiet :
      (fuel : ℕ) (r : Result (Unit {0}) WsError) → Quiet Neutral (after_close_frame w fuel r)
  unfolding Quiet after_close_frame
  after_close_frame-Quiet fuel (err e) = tt
  after_close_frame-Quiet fuel (ok _) =
      Quiet-bind Neutral (wait_for_handshake fuel) _ (wait_for_handshake-Quiet fuel)
        after_handshake-Quiet

module _ (sem : Semaphore) (chan : Mpsc) (w : Tungstenite) (config : ConnectionConfig)
    (s : Senders sem chan) where
  open chan use {is_closed}

  -- Between two rounds, and at the end, of a writer that was started in the state `s`.
  pub record Idle (x : Output sem chan w config) : Type 0 where
    pub run : Reach sem chan w config s x.path
    pub free : Free sem chan w config x
    pub all_written : x.path.taken ≡ x.written

  pub record Over (x : Output sem chan w config) : Type 0 where
    pub run : Reach sem chan w config s x.path
    pub free : Free sem chan w config x
    pub all_written : (x.written ≡ x.path.taken) ⊎ (x.written ≡ x.path.taken ++ (normal_close ∷ []))

  -- While a command is written, before and after its message goes to the sink.
  pub record Busy (x : Output sem chan w config) : Type 0 where
    pub run : Reach sem chan w config s x.path
    pub hand : Holding sem chan w config x
    pub all_written : x.path.taken ≡ x.written

  pub record Next (m : Message) (x : Output sem chan w config) : Type 0 where
    pub run : Reach sem chan w config s x.path
    pub hand : Holding sem chan w config x
    pub all_but_one : x.path.taken ≡ x.written ++ (m ∷ [])

  pub Free-Stable : Stable (writing sem chan w config) (Free sem chan w config)
  Free-Stable x y aside p = record {
    none_held = aside.writing ∙ p.none_held;
    open_still = aside.open_still ∙ p.open_still;
  }

  pub Holding-Stable : Stable (writing sem chan w config) (Holding sem chan w config)
  Holding-Stable x y aside p = record {
    command = p.command;
    held = aside.writing ∙ p.held;
    open_still = aside.open_still ∙ p.open_still;
  }

  pub Idle-Stable : Stable (writing sem chan w config) Idle
  Idle-Stable x y aside p = record {
    run = Reach-trans sem chan w config p.run aside.run;
    free = Free-Stable x y aside p.free;
    all_written = aside.taken ∙ p.all_written ∙ sym aside.written;
  }

  pub Busy-Stable : Stable (writing sem chan w config) Busy
  Busy-Stable x y aside p = record {
    run = Reach-trans sem chan w config p.run aside.run;
    hand = Holding-Stable x y aside p.hand;
    all_written = aside.taken ∙ p.all_written ∙ sym aside.written;
  }

  pub Next-Stable : (m : Message) → Stable (writing sem chan w config) (Next m)
  Next-Stable m x y aside p = record {
    run = Reach-trans sem chan w config p.run aside.run;
    hand = Holding-Stable x y aside p.hand;
    all_but_one = aside.taken ∙ p.all_but_one ∙ ap (λ l. l ++ (m ∷ [])) (sym aside.written);
  }

  pub Over-Stable : Stable (writing sem chan w config) Over
  Over-Stable x y aside p = record {
    run = Reach-trans sem chan w config p.run aside.run;
    free = Free-Stable x y aside p.free;
    all_written = elim p.all_written [
      | inl e ↦ inl (aside.written ∙ e ∙ sym aside.taken)
      | inr e ↦ inr (aside.written ∙ e ∙ ap (λ l. l ++ (normal_close ∷ [])) (sym aside.taken))
    ];
  }

  pub Idle-Over : (x : Output sem chan w config) → Idle x → Over x
  Idle-Over x p = record { run = p.run; free = p.free; all_written = inl (sym p.all_written) }

  -- What a round leaves.
  abbrev pub After : WriterRound → Output sem chan w config → Type 0
  After none x = Idle x
  After (some _) x = Over x
