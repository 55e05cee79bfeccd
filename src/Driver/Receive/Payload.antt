-- ===== src/Driver/Receive/Payload.antt =====
-- `queue_inbound` of src/driver.rs over the inbound path.
use fogws.Prelude.{◌≤◌, ◌≡◌, sym, subst, ap, ◌∙◌, arith, true, false, not, ltb, some, Result}
use fogws.Config.{ConnectionConfig, u32_max}
use fogws.Tokio.Semaphore.{Semaphore}
use fogws.Tokio.Mpsc.{Mpsc}
use fogws.Driver.Wire.{Message, Tungstenite}
use fogws.Driver.State.{InboundMessage, is_running}
use fogws.Driver.Task.{op, ◌>>=◌, completed, signalled, acquire_budget as acquire_op}
use fogws.Driver.Leads.{World, Leads, Leads-split}
use fogws.Driver.Reader.{inbound_message, queue_inbound, after_acquire, deliver}
use fogws.Driver.Receive.Receivers.{Receivers}
use fogws.Driver.Receive.Input.{Input, IsSignalled, reading}
use fogws.Driver.Receive.Delivering.{
  Idle, Over, Reading, Ready, Pending, Reading-Stable, Ready-Stable, Pending-Stable,
}
use fogws.Driver.Receive.Handling.{
  Queueing, Ready-Reading, Reading-Over, Reading-Idle, Reading-Ready, Permitted-Pending,
  Queued-Idle, GivenUp-Reading,
}

module _ (sem : Semaphore) (chan : Mpsc) (w : Tungstenite) (config : ConnectionConfig)
    (s : Receivers sem chan) where
  abbrev world : World
  world = reading sem chan w config

  abbrev Queues : Result (Unit {0}) (Unit {0}) → Input sem chan w config → Type 0
  Queues = Queueing sem chan w config s

  deliver-Leads :
      (m : InboundMessage) (x : Input sem chan w config)
      → Pending sem chan w config s m x
      → Leads world (deliver (some m)) Queues x
  unfolding Leads
  deliver-Leads m x p = λ y aside.
      let q = Pending-Stable sem chan w config s m x y aside p in
      (
        (q.hand, q.last),
        elim [
          | completed true ↦ λ z moved. Queued-Idle sem chan w config s m y z q moved
          | completed false ↦ λ z moved.
              Reading-Over sem chan w config s m z
                (GivenUp-Reading sem chan w config s m y z q moved).0
          | signalled true ↦ λ z given.
              let (r, same) = GivenUp-Reading sem chan w config s m y z q given.1 in
              Reading-Idle sem chan w config s m z (subst IsSignalled (sym same) given.0) r
          | signalled false ↦ λ z moved.
              Reading-Over sem chan w config s m z
                (GivenUp-Reading sem chan w config s m y z q moved).0
        ],
      )

  acquire-Leads :
      (payload : Message) (m : InboundMessage) (x : Input sem chan w config)
      → inbound_message payload ≡ some m
      → w.message_len payload ≤ u32_max
      → Ready sem chan w config s m x
      → Leads world (op (acquire_op (w.message_len payload)) >>= after_acquire payload) Queues x
  unfolding Leads
  acquire-Leads payload m x converts word p = λ y aside.
      let q = Ready-Stable sem chan w config s m x y aside p in
      let r = Ready-Reading sem chan w config s m y q in
      (
        q.none_held,
        elim [
          | completed true ↦ λ z permitted. rw converts (
              deliver-Leads m z
                (Permitted-Pending sem chan w config s payload m y z converts word q permitted))
          | completed false ↦ λ z same.
              subst (Over sem chan w config s) (sym same) (Reading-Over sem chan w config s m y r)
          | signalled true ↦ λ z told.
              subst (Idle sem chan w config s) (sym told.1)
                (Reading-Idle sem chan w config s m y told.0 r)
          | signalled false ↦ λ z same.
              subst (Over sem chan w config s) (sym same) (Reading-Over sem chan w config s m y r)
        ],
      )

  pub queue_inbound-Leads :
      (payload : Message) (m : InboundMessage) (x : Input sem chan w config)
      → inbound_message payload ≡ some m
      → Reading sem chan w config s m x
      → Leads world (queue_inbound w payload) Queues x
  unfolding Leads queue_inbound
  queue_inbound-Leads payload m x converts p = λ y aside. (
    tt,
    λ a z read.
        let q =
          subst (Reading sem chan w config s m) (sym read.1)
            (Reading-Stable sem chan w config s m x y aside p) in
        let signal = read.0 ∙ ap (λ (u : Input sem chan w config). u.signal) (sym read.1) in
        Leads-split world (not (is_running a)) _ _ Queues z
          (λ stopped. Reading-Idle sem chan w config s m z (ground (arith, stopped, signal)) q)
          (λ goes.
            let r = Reading-Ready sem chan w config s m z (ground (arith, goes, signal)) q in
            Leads-split world (ltb u32_max (w.message_len payload)) _ _ Queues z
              (λ _. Reading-Over sem chan w config s m z q)
              (λ word. acquire-Leads payload m z converts (ground arith) r)),
  )
