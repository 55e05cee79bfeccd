-- ===== src/Driver/Admission/Commands.antt =====
-- The commands that the writer of src/driver.rs takes: each goes to the sink, is answered, and is dropped.
use Prim.Native.String
use fogws.Prelude.{refl, sym, subst, ◌∙◌, inl, none, some, Result, ok, err, [], ◌∷◌, ◌++◌}
use fogws.Error.{DriverError, transport}
use fogws.Config.{ConnectionConfig}
use fogws.Tokio.Semaphore.{Semaphore}
use fogws.Tokio.Mpsc.{Mpsc}
use fogws.Driver.Wire.{Message, Tungstenite}
use fogws.Driver.State.{flush}
use fogws.Driver.Task.{done, op, ◌>>=◌, WriterEvent, control, outbound, respond}
use fogws.Driver.Writer.{finished, WriterRound, writer_failure, writer_event}
use fogws.Driver.Admission.{drop_command}
use fogws.Driver.Admission.Senders.{Senders, next, takes, writes}
use fogws.Driver.Leads.{Leads, Leads-bind, Leads-Quiet}
use fogws.Driver.Admission.Program.{Output, Taken, Dropped, writing}
use fogws.Driver.Admission.Shutting.{failure-After}
use fogws.Driver.Admission.Writing.{
  writer_failure-Quiet, Idle, Busy, Next, After, Idle-Stable, Busy-Stable, Next-Stable, Idle-Over,
}

module _ (sem : Semaphore) (chan : Mpsc) (w : Tungstenite) (config : ConnectionConfig)
    (s : Senders sem chan) where
  pub Idle-After :
      (r : WriterRound) (x : Output sem chan w config)
      → Idle sem chan w config s x
      → After sem chan w config s r x
  Idle-After none x p = p
  Idle-After (some end) x p = (Idle-Over sem chan w config s) x p

  Dropped-Idle :
      (x y : Output sem chan w config)
      → Busy sem chan w config s x
      → Dropped sem chan w config x y
      → Idle sem chan w config s y
  unfolding drop_command
  Dropped-Idle x y p d = subst (Idle sem chan w config s) (sym d.now) (record {
    run = next p.run (writes d.held);
    free = record { none_held = refl; open_still = p.hand.open_still };
    all_written = p.all_written;
  })

  pub responds-After :
      (result : Result (Unit {0}) DriverError) (r : WriterRound) (x : Output sem chan w config)
      → Busy sem chan w config s x
      → Leads
          (writing sem chan w config)
          (op (respond result) >>= λ _. done r)
          (After sem chan w config s)
          x
  unfolding Leads
  responds-After result r x p = λ y aside.
      let q = (Busy-Stable sem chan w config s) x y aside p in
      ((q.hand, q.all_written), λ a z dropped. Idle-After r z (Dropped-Idle y z q dropped))

  -- A failed write ends the writer with the response.
  pub refused-After :
      (e : DriverError) (x : Output sem chan w config)
      → Busy sem chan w config s x
      → Leads
          (writing sem chan w config)
          (writer_failure e >>= λ terminal.
            op (respond (err terminal)) >>= λ _. done (some finished))
          (After sem chan w config s)
          x
  refused-After e x p =
      Leads-bind (writing sem chan w config) (writer_failure e) _ (After sem chan w config s) x (
        Leads-Quiet (writing sem chan w config) (writer_failure e) (Busy sem chan w config s) _ x
          (writer_failure-Quiet e) (Busy-Stable sem chan w config s) p
          (λ terminal u b. responds-After (err terminal) (some finished) u b))

  written_Busy :
      (m : Message) (x : Output sem chan w config)
      → Next sem chan w config s m x
      → Busy sem chan w config s (record x { written = x.written ++ (m ∷ []) })
  written_Busy m x p = record {
    run = p.run;
    hand = record { command = p.hand.command; held = p.hand.held; open_still = p.hand.open_still };
    all_written = p.all_but_one;
  }

  pub Taken-Next :
      (m : Message) (x y : Output sem chan w config)
      → Idle sem chan w config s x
      → Taken sem chan w config m x y
      → Next sem chan w config s m y
  Taken-Next m x y p t = subst ((Next sem chan w config s) m) (sym t.now) (record {
    run = next p.run (takes p.free.open_still p.free.none_held t.received);
    hand = record {
      command = t.command;
      held = refl;
      open_still =
          (chan.recv_lem x.path.out.outbound t.command t.rest t.received).2 ∙ p.free.open_still;
    };
    all_but_one = rw (p.all_written, t.same) refl;
  })

  abbrev pub Before : WriterEvent → Output sem chan w config → Type 0
  Before (outbound (some m)) x = (Next sem chan w config s) m x
  Before _ x = (Idle sem chan w config s) x

  pub writer_event-After :
      (e : WriterEvent) (x : Output sem chan w config)
      → Before e x
      → Leads (writing sem chan w config) (writer_event w e) (After sem chan w config s) x
  unfolding writer_event Leads
  writer_event-After (control (some flush)) x p = λ y aside. (
    tt,
    let q = (Idle-Stable sem chan w config s) x y aside p in
        elim [
          | ok _ ↦ λ z same. subst (Idle sem chan w config s) (sym same) q
          | err _ ↦ λ z same.
              (failure-After sem chan w config s) (transport "WebSocket control flush failed") z
                ((Idle-Over sem chan w config s) z (subst (Idle sem chan w config s) (sym same) q))
        ],
  )
  writer_event-After (control none) x p =
      (failure-After sem chan w config s) (transport "connection reader stopped unexpectedly") x
        ((Idle-Over sem chan w config s) x p)
  writer_event-After (outbound none) x p = (Idle-Over sem chan w config s) x p
  writer_event-After (outbound (some m)) x p = λ y aside.
      let q = (Next-Stable sem chan w config s) m x y aside p in
      (
        inl (q.hand, q.all_but_one),
        let b = written_Busy m y q in
            elim [
              | ok _ ↦ λ z sent.
                  responds-After (ok tt) none z (subst (Busy sem chan w config s) (sym sent) b)
              | err error ↦ λ z sent.
                  refused-After
                    (transport (String.◌++◌ "WebSocket send failed: " (w.error_text error))) z
                    (subst (Busy sem chan w config s) (sym sent) b)
            ],
      )
