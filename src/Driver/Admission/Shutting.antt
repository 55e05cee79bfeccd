-- ===== src/Driver/Admission/Shutting.antt =====
-- The reaction of the writer of src/driver.rs to the shutdown signal and to a failure.
use fogws.Prelude.{
  ℕ, refl, sym, subst, ap, inr, Bool, not, ◌||◌, Option, none, some, Result, ok, err, [], ◌∷◌, ◌++◌,
}
use fogws.Error.{DriverError}
use fogws.Config.{ConnectionConfig}
use fogws.Tokio.Semaphore.{Semaphore}
use fogws.Tokio.Mpsc.{Mpsc}
use fogws.Driver.Wire.{Tungstenite}
use fogws.Driver.State.{ShutdownSignal, is_abort, is_running, is_local_close, peer_outcome}
use fogws.Driver.Task.{done, ◌>>=◌}
use fogws.Driver.Publish.{publish_terminal, peer_close_outcome}
use fogws.Driver.Writer.{
  finished, normal_close, writer_failure, publish_outcome, flush_close, after_close_frame,
  close_writer, after_close_writer, writer_signal,
}
use fogws.Driver.Admission.Senders.{Senders}
use fogws.Driver.Leads.{Leads, Leads-done, Leads-bind, Leads-weaken, Leads-if, Leads-Quiet}
use fogws.Driver.Admission.Program.{Output, writing}
use fogws.Driver.Admission.Writing.{
  writer_failure-Quiet, flush_close-Quiet, after_close_frame-Quiet, Idle, Over, After, Idle-Stable,
  Over-Stable, Idle-Over,
}

module _ (sem : Semaphore) (chan : Mpsc) (w : Tungstenite) (config : ConnectionConfig)
    (s : Senders sem chan) where
  Over-close :
      (x : Output sem chan w config)
      → Idle sem chan w config s x
      → Over sem chan w config s (record x { written = x.written ++ (normal_close ∷ []) })
  Over-close x p = record {
    run = p.run;
    free = record { none_held = p.free.none_held; open_still = p.free.open_still };
    all_written = inr (ap (λ l. l ++ (normal_close ∷ [])) (sym p.all_written));
  }

  pub close_writer-Over :
      (fuel : ℕ) (signal : ShutdownSignal) (x : Output sem chan w config)
      → Idle sem chan w config s x
      → Leads
          (writing sem chan w config)
          (close_writer w fuel signal)
          (λ _. (Over sem chan w config s))
          x
  unfolding close_writer Leads
  close_writer-Over fuel signal x p =
      Leads-if (writing sem chan w config) (is_local_close signal) _ _
        (λ _. (Over sem chan w config s)) x
        (λ y aside.
          let q = (Idle-Stable sem chan w config s) x y aside p in
          (
            inr (q.free, q.all_written, refl),
            λ a z sent.
                Leads-Quiet (writing sem chan w config) (after_close_frame w fuel a)
                  (Over sem chan w config s) (λ _. (Over sem chan w config s)) z
                  (after_close_frame-Quiet w fuel a) (Over-Stable sem chan w config s)
                  (subst (Over sem chan w config s) (sym sent) (Over-close y q)) (λ r u o. o),
          ))
        (Leads-Quiet (writing sem chan w config) (flush_close w) (Over sem chan w config s)
          (λ _. (Over sem chan w config s)) x (flush_close-Quiet w)
          (Over-Stable sem chan w config s) ((Idle-Over sem chan w config s) x p) (λ r u o. o))

  -- A failure ends the writer.
  pub failure-After :
      (e : DriverError) (x : Output sem chan w config)
      → Over sem chan w config s x
      → Leads
          (writing sem chan w config)
          (writer_failure e >>= λ _. done (some finished))
          (After sem chan w config s)
          x
  failure-After e x p =
      Leads-bind (writing sem chan w config) (writer_failure e) (λ _. done (some finished))
        (After sem chan w config s) x
        (Leads-Quiet (writing sem chan w config) (writer_failure e) (Over sem chan w config s) _ x
          (writer_failure-Quiet e) (Over-Stable sem chan w config s) p
          (λ r u o.
            Leads-done (writing sem chan w config) (some finished) (After sem chan w config s) u o))

  pub outcome-After :
      (outcome : Option DriverError) (x : Output sem chan w config)
      → Over sem chan w config s x
      → Leads (writing sem chan w config) (publish_outcome outcome) (After sem chan w config s) x
  unfolding Leads publish_outcome publish_terminal
  outcome-After none x p = p
  outcome-After (some e) x p = λ y aside. (
    tt,
    λ b z same.
        subst (Over sem chan w config s) (sym same) ((Over-Stable sem chan w config s) x y aside p),
  )

  pub after_close_writer-After :
      (r : Result (Unit {0}) DriverError) (x : Output sem chan w config)
      → Over sem chan w config s x
      → Leads (writing sem chan w config) (after_close_writer w r) (After sem chan w config s) x
  unfolding after_close_writer peer_close_outcome Leads
  after_close_writer-After (err e) x p = failure-After e x p
  after_close_writer-After (ok _) x p = λ y aside. (
    tt,
    λ state z same. outcome-After (peer_outcome state) z (
        subst (Over sem chan w config s) (sym same)
          ((Over-Stable sem chan w config s) x y aside p)),
  )

  pub writer_signal-After :
      (fuel : ℕ) (is_ok : Bool) (x : Output sem chan w config)
      → Idle sem chan w config s x
      → Leads (writing sem chan w config) (writer_signal w fuel is_ok) (After sem chan w config s) x
  unfolding writer_signal Leads
  writer_signal-After fuel is_ok x p = λ y aside. (
    tt,
    λ signal z same.
        let q =
          subst (Idle sem chan w config s) (sym same)
            ((Idle-Stable sem chan w config s) x y aside p) in
        Leads-if (writing sem chan w config) (not is_ok || not (is_running signal)) _ _
          (After sem chan w config s) z
          (Leads-if (writing sem chan w config) (is_abort signal) _ _ (After sem chan w config s) z
            ((Idle-Over sem chan w config s) z q)
            (Leads-bind (writing sem chan w config) (close_writer w fuel signal)
              (after_close_writer w) (After sem chan w config s) z
              (Leads-weaken (writing sem chan w config) (close_writer w fuel signal)
                (λ _. (Over sem chan w config s)) _ z after_close_writer-After
                (close_writer-Over fuel signal z q))))
          q,
  )
