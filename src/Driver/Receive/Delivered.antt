-- ===== src/Driver/Receive/Delivered.antt =====
-- The reader of src/driver.rs over the inbound path: what it reads off the socket is queued in order.
use mathlib.Core.List.{append_assoc}
use fogws.Prelude.{
  map, ℕ, zero, suc, ◌≡◌, refl, sym, subst, ap, ◌∙◌, inl, Bool, true, false, none, some, ok, err,
  List, [], ◌++◌, if◌then◌else◌,
}
use fogws.Config.{ConnectionConfig}
use fogws.Tokio.Semaphore.{Semaphore}
use fogws.Tokio.Mpsc.{Mpsc}
use fogws.Driver.Wire.{Tungstenite}
use fogws.Driver.State.{InboundMessage, ShutdownSignal, running, is_abort}
use fogws.Driver.Task.{
  call, borrow_shutdown, Task, done, op, ◌>>=◌, ReaderWake, message, shutdown_changed,
  reader_select,
}
use fogws.Driver.Leads.{
  World, Leads, Leads-bind, Leads-weaken, Leads-done, Leads-split, Leads-Quiet, Quiet,
}
use fogws.Driver.Reader.{
  Round, returned, left, again, reader_wake, reader_round, reader_left, run_reader,
}
use fogws.Driver.Receive.Receivers.{Receivers, start, Reach, here}
use fogws.Driver.Receive.Input.{Neutral, Input, Effect, reading}
use fogws.Driver.Receive.Delivering.{Idle, Over, Idle-Stable, Over-Stable, Idle-Over}
use fogws.Driver.Receive.Account.{waiting, envelope_message}
use fogws.Driver.Receive.Results.{received_in_order}
use fogws.Driver.Receive.Rounds.{
  After, Before, read_Before, reader_message-After, reader_error-After, finish_reader-Quiet,
}

module _ (sem : Semaphore) (chan : Mpsc) (w : Tungstenite) (config : ConnectionConfig)
    (s : Receivers sem chan) where
  abbrev world : World
  world = reading sem chan w config

  -- After a signal was told: a return on an abort, and the next round otherwise.
  aborted-After :
      (b : Bool) (x : Input sem chan w config)
      → Idle sem chan w config s x
      → After sem chan w config s (if b then returned else again) x
  aborted-After true x p = Idle-Over sem chan w config s x p
  aborted-After false x p = p

  told-After :
      (k : ShutdownSignal → Task Round) (x : Input sem chan w config)
      → Idle sem chan w config s x
      → ((a : ShutdownSignal) (y : Input sem chan w config)
          → Idle sem chan w config s y
          → Leads world (k a) (After sem chan w config s) y)
      → Leads world (call borrow_shutdown k) (After sem chan w config s) x
  unfolding Leads
  told-After k x p rest = λ y aside. (
    tt,
    λ a z e.
        rest a z (
          subst (Idle sem chan w config s) (sym e.1) (Idle-Stable sem chan w config s x y aside p)),
  )

  reader_wake-After :
      (fuel : ℕ) (wake : ReaderWake) (x y : Input sem chan w config)
      → Idle sem chan w config s x
      → Effect sem chan w config reader_select wake x y
      → Leads world (reader_wake w fuel wake) (After sem chan w config s) y
  unfolding reader_wake
  reader_wake-After fuel (message none) x y p same =
      Leads-done world left (After sem chan w config s) y
        (Idle-Over sem chan w config s y (subst (Idle sem chan w config s) (sym same) p))
  reader_wake-After fuel (message (some (ok payload))) x y p same =
      (reader_message-After sem chan w config s) fuel payload y (
        subst ((Before sem chan w config s) payload) (sym same)
          ((read_Before sem chan w config s) payload x p))
  reader_wake-After fuel (message (some (err error))) x y p same =
      (reader_error-After sem chan w config s) fuel error y
        (subst (Idle sem chan w config s) (sym same) p)
  reader_wake-After fuel (shutdown_changed false) x y p same =
      Leads-done world returned (After sem chan w config s) y
        (Idle-Over sem chan w config s y (subst (Idle sem chan w config s) (sym same) p))
  reader_wake-After fuel (shutdown_changed true) x y p same =
      told-After _ y (subst (Idle sem chan w config s) (sym same) p)
        (λ a z q. Leads-done world _ (After sem chan w config s) z (aborted-After (is_abort a) z q))

  selects-After :
      (fuel : ℕ) (x : Input sem chan w config)
      → Idle sem chan w config s x
      → Leads world (op reader_select >>= reader_wake w fuel) (After sem chan w config s) x
  unfolding Leads
  selects-After fuel x p = λ y aside.
      let q = Idle-Stable sem chan w config s x y aside p in
      ((q.none_held, q.in_order), λ a z effect. reader_wake-After fuel a y z q effect)

  reader_round-After :
      (fuel : ℕ) (x : Input sem chan w config)
      → Idle sem chan w config s x
      → Leads world (reader_round w fuel) (After sem chan w config s) x
  unfolding reader_round
  reader_round-After fuel x p = told-After _ x p (λ a y q.
      Leads-split world (is_abort a) _ _ (After sem chan w config s) y
        (λ _.
          Leads-done world returned (After sem chan w config s) y
            (Idle-Over sem chan w config s y q))
        (λ _. selects-After fuel y q))

  reader_left-Quiet : (fuel : ℕ) → Quiet Neutral (reader_left w fuel)
  unfolding Quiet reader_left
  reader_left-Quiet fuel = (tt, λ a. finish_reader-Quiet fuel a _)

  abbrev go_on : ℕ → Round → Task (Unit {0})
  go_on fuel returned = done tt
  go_on fuel left = reader_left w fuel
  go_on fuel again = run_reader w fuel

  halted :
      (x : Input sem chan w config)
      → Leads world (run_reader w zero) (λ _. Over sem chan w config s) x
  unfolding run_reader Leads
  halted x = λ y aside. (tt, λ a. absurd a)

  rounds :
      (fuel : ℕ) (x : Input sem chan w config)
      → Leads world
          (reader_round w fuel)
          (λ r y. Leads world (go_on fuel r) (λ _. Over sem chan w config s) y)
          x
      → Leads world (run_reader w (suc fuel)) (λ _. Over sem chan w config s) x
  unfolding run_reader
  rounds fuel x p =
      Leads-bind world (reader_round w fuel) (go_on fuel) (λ _. Over sem chan w config s) x p

  run_reader-Over :
      (fuel : ℕ) (x : Input sem chan w config)
      → Idle sem chan w config s x
      → Leads world (run_reader w fuel) (λ _. Over sem chan w config s) x
  run_reader-Over zero x p = halted x
  run_reader-Over (suc fuel) x p = rounds fuel x (
      Leads-weaken world (reader_round w fuel) (After sem chan w config s)
        (λ r y. Leads world (go_on fuel r) (λ _. Over sem chan w config s) y) x
        (elim [
          | again ↦ λ y q. run_reader-Over fuel y q
          | returned ↦ λ y q. Leads-done world tt (λ _. Over sem chan w config s) y q
          | left ↦ λ y q.
              Leads-Quiet world (reader_left w fuel) (Over sem chan w config s) _ y
                (reader_left-Quiet fuel) (Over-Stable sem chan w config s) q (λ r u o. o)
        ])
        (reader_round-After fuel x p))

module _ (sem : Semaphore) (chan : Mpsc) (w : Tungstenite) (config : ConnectionConfig) where
  -- What was read is what receives have returned, then what is queued, and then what was not queued;
  -- no permit is in hand.
  pub record Delivered (x : Input sem chan w config) : Type 0 where
    pub run : Reach sem chan w config (start sem chan w config) x.path
    pub none_held : x.path.holding ≡ none
    pub unqueued : List InboundMessage
    pub in_order :
        x.read
        ≡ x.path.received
          ++ (map (envelope_message sem chan w config) (waiting sem chan w config x.path)
              ++ unqueued)

  -- Whatever the receives do meanwhile, whatever comes from the socket and whenever there is a signal,
  -- each time the reader waits for a message it has queued all the data that it read before, in order,
  -- unless there has been a signal. At its end what it queued is still the first of what it read: no
  -- data is skipped, repeated or overtaken.
  pub run_reader-Delivered :
      (fuel : ℕ)
      → Leads
          (reading sem chan w config)
          (run_reader w fuel)
          (λ _. Delivered)
          (record { path = start sem chan w config; read = []; signal = running })
  run_reader-Delivered fuel =
      Leads-weaken (reading sem chan w config) (run_reader w fuel) _ _ _
        (λ _ x over. record {
          run = over.run;
          none_held = over.none_held;
          unqueued = over.unqueued.dropped;
          in_order =
              over.unqueued.all
              ∙ ap (λ l. l ++ over.unqueued.dropped) (received_in_order sem chan w config over.run)
              ∙ append_assoc x.path.received _ over.unqueued.dropped;
        })
        (run_reader-Over sem chan w config (start sem chan w config) fuel _
          (record { run = here; none_held = refl; in_order = inl refl }))
