-- ===== src/Driver/Admission/Written.antt =====
-- What the writer task of src/driver.rs has given to the sink when it ends.
use fogws.Prelude.{ℕ, zero, suc, ◌≡◌, refl, sym, subst, ◌⊎◌, none, some, List, [], ◌∷◌, ◌++◌}
use fogws.Config.{ConnectionConfig}
use fogws.Tokio.Semaphore.{Semaphore}
use fogws.Tokio.Mpsc.{Mpsc}
use fogws.Driver.Wire.{Message, Tungstenite}
use fogws.Driver.Task.{
  Task, done, WriterWake, writer_select, signal_changed, event, control, outbound,
}
use fogws.Driver.Writer.{
  WriterEnd, WriterRound, normal_close, writer_event, writer_signal, writer_round, run_writer,
}
use fogws.Driver.Admission.{OutboundCommand, drop_receiver}
use fogws.Driver.Admission.Results.{sent_in_order}
use fogws.Driver.Admission.Senders.{Senders, Step, Reach, start, here, next}
use fogws.Driver.Leads.{Leads, Leads-done, Leads-bind, Leads-weaken}
use fogws.Driver.Admission.Program.{Output, Effect, writing}
use fogws.Driver.Admission.Shutting.{writer_signal-After}
use fogws.Driver.Admission.Commands.{writer_event-After, Taken-Next}
use fogws.Driver.Admission.Writing.{Idle, Over, After, Idle-Stable}

module _ (sem : Semaphore) (chan : Mpsc) (w : Tungstenite) (config : ConnectionConfig)
    (s : Senders sem chan) where
  round-After :
      (fuel : ℕ) (a : WriterWake) (x y : Output sem chan w config)
      → Idle sem chan w config s x
      → Effect sem chan w config writer_select a x y
      → Leads
          (writing sem chan w config)
          (elim a [
            | signal_changed is_ok ↦ writer_signal w fuel is_ok
            | event e ↦ writer_event w e
          ])
          (After sem chan w config s)
          y
  round-After fuel (signal_changed is_ok) x y p same =
      (writer_signal-After sem chan w config s) fuel is_ok y
        (subst (Idle sem chan w config s) (sym same) p)
  round-After fuel (event (control c)) x y p same =
      (writer_event-After sem chan w config s) (control c) y
        (subst (Idle sem chan w config s) (sym same) p)
  round-After fuel (event (outbound none)) x y p same =
      (writer_event-After sem chan w config s) (outbound none) y
        (subst (Idle sem chan w config s) (sym same) p)
  round-After fuel (event (outbound (some m))) x y p taken =
      (writer_event-After sem chan w config s) (outbound (some m)) y
        ((Taken-Next sem chan w config s) m x y p taken)

  writer_round-After :
      (fuel : ℕ) (x : Output sem chan w config)
      → Idle sem chan w config s x
      → Leads (writing sem chan w config) (writer_round w fuel) (After sem chan w config s) x
  unfolding writer_round Leads
  writer_round-After fuel x p = λ y aside.
      let q = (Idle-Stable sem chan w config s) x y aside p in
      ((q.free, q.all_written), λ a z effect. round-After fuel a y z q effect)

  abbrev go_on : ℕ → WriterRound → Task WriterEnd
  go_on fuel none = run_writer w fuel
  go_on fuel (some end) = done end

  halted :
      (x : Output sem chan w config)
      → Leads (writing sem chan w config) (run_writer w zero) (λ _. (Over sem chan w config s)) x
  unfolding run_writer Leads
  halted x = λ y aside. (tt, λ a. absurd a)

  rounds :
      (fuel : ℕ) (x : Output sem chan w config)
      → Leads
          (writing sem chan w config)
          (writer_round w fuel)
          (λ r u.
            Leads (writing sem chan w config) (go_on fuel r) (λ _. (Over sem chan w config s)) u)
          x
      → Leads
          (writing sem chan w config)
          (run_writer w (suc fuel))
          (λ _. (Over sem chan w config s))
          x
  unfolding run_writer
  rounds fuel x p =
      Leads-bind (writing sem chan w config) (writer_round w fuel) (go_on fuel)
        (λ _. (Over sem chan w config s)) x p

  run_writer-Over :
      (fuel : ℕ) (x : Output sem chan w config)
      → Idle sem chan w config s x
      → Leads (writing sem chan w config) (run_writer w fuel) (λ _. (Over sem chan w config s)) x
  run_writer-Over zero x p = halted x
  run_writer-Over (suc fuel) x p = rounds fuel x (
      Leads-weaken (writing sem chan w config) (writer_round w fuel) (After sem chan w config s)
        (λ r u.
          Leads (writing sem chan w config) (go_on fuel r) (λ _. (Over sem chan w config s)) u)
        x
        (elim [
          | none ↦ λ u h. run_writer-Over fuel u h
          | some end ↦ λ u h.
              Leads-done (writing sem chan w config) end (λ _. (Over sem chan w config s)) u h
        ])
        (writer_round-After fuel x p))

module _ (sem : Semaphore) (chan : Mpsc) (w : Tungstenite) (config : ConnectionConfig) where
  -- The sink has been given the first of the messages that were sent, in order, and then at most a
  -- close frame; and the writer may drop its receiver.
  pub record Handed (x : Output sem chan w config) : Type 0 where
    pub data_written : List Message
    pub left : List Message
    pub in_order : x.path.sent ≡ data_written ++ left
    pub written : (x.written ≡ data_written) ⊎ (x.written ≡ data_written ++ (normal_close ∷ []))
    pub ends :
        Reach sem chan w config
          (start sem chan w config)
          (record x.path { out = drop_receiver sem chan x.path.out })

  -- Whatever the sends do meanwhile and however its calls are answered, the writer gives each command
  -- that it takes to the sink, once and before the next, answers it once, and gives nothing else but a
  -- close frame at its end. What the sink has been given by then is the first of the sent messages, in
  -- the order of the sends.
  pub run_writer-Handed :
      (fuel : ℕ)
      → Leads
          (writing sem chan w config)
          (run_writer w fuel)
          (λ _. Handed)
          (record { path = start sem chan w config; written = [] })
  run_writer-Handed fuel =
      Leads-weaken (writing sem chan w config) (run_writer w fuel) _ _ _
        (λ _ x over. record {
          data_written = x.path.taken;
          left = _;
          in_order = sent_in_order sem chan w config over.run over.free.open_still;
          written = over.all_written;
          ends = next over.run (Step.ends over.free.open_still over.free.none_held);
        })
        (run_writer-Over sem chan w config (start sem chan w config) fuel _ (record {
          run = here;
          free = record {
            none_held = refl;
            open_still = (chan.channel_lem {A = OutboundCommand sem} config.max_queue).2;
          };
          all_written = refl;
        }))
