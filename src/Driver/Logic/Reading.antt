-- ===== src/Driver/Logic/Reading.antt =====
-- The reader task of src/driver.rs, whatever the network and the other tasks do: it keeps what the
-- others rely on, and when it ends the connection is closed.
use fogws.Prelude.{
  ℕ, zero, suc, ◌<◌, Bool, true, false, ◌≡◌, refl, inl, inr, arith, not, Option, none, some, Result,
  ok, err, Bool-cases, ltb,
}
use fogws.Error.{DriverError}
use fogws.Config.{u32_max}
use fogws.Driver.Wire.{Message, text, binary, ping, pong, close, frame, WsError, Tungstenite}
use fogws.Driver.State.{is_abort, is_running, InboundMessage, classify_close}
use fogws.Driver.Task.{
  done, op, ◌>>=◌, borrow_shutdown, load_closing, store_closing, drop_guard, reader_select,
  ReaderWake, message, shutdown_changed, acquire_budget, send_inbound, OrSignal, completed,
  signalled, try_flush,
}
use fogws.Driver.Reader.{
  queue_inbound, inbound_message, deliver, after_acquire, Round, returned, left, again, after_queue,
  reader_message, reader_error, reader_wake, reader_round, reader_left, run_reader, reader_task,
  finish_reader, finish_peer_close,
}
use fogws.Driver.View.{View, after, ReaderNoError}
use fogws.Driver.Order.{Inv, IsClosed}
use fogws.Driver.Logic.{reader, Runs, Runs-done, Runs-bind, Runs-if}
use fogws.Driver.Logic.Access.{store_closing_access}
use fogws.Driver.Logic.Rules.{
  out_of_fuel-Runs, access-call, quiet-call, guard-call, IsClosedNow, IsClosedNow-Stable,
}
use fogws.Driver.Logic.Ends.{
  NoPeer, NoPeer-Stable, finish_reader_failure-Runs, finish_peer_close-Runs,
}

-- What holds after a round of the reader's loop.
abbrev RoundEnd : Round → View → Type 0
RoundEnd returned w = IsClosed w.state
RoundEnd _ w = NoPeer w

module _ (g : ℕ) (holds : 0 < g) where
  deliver-Runs :
      (Q : Result (Unit {0}) (Unit {0}) → ℕ → View → Type 0)
      → ((x : Result (Unit {0}) (Unit {0})) (w : View) → NoPeer w → Q x g w)
      → (m : Option InboundMessage) (v : View) → NoPeer v
      → Runs reader (deliver m) Q g v
  deliver-Runs Q rest none v p = Runs-done reader _ Q g v (rest _ v p)
  deliver-Runs Q rest (some m) v p =
      quiet-call reader g holds Q (send_inbound m) _ NoPeer v refl NoPeer-Stable p
        λ a w q _ _. Runs-done reader _ Q g w (rest _ w q)

  after_acquire-Runs :
      (Q : Result (Unit {0}) (Unit {0}) → ℕ → View → Type 0)
      → ((x : Result (Unit {0}) (Unit {0})) (w : View) → NoPeer w → Q x g w)
      → (payload : Message) (a : OrSignal) (v : View) → NoPeer v
      → Runs reader (after_acquire payload a) Q g v
  after_acquire-Runs Q rest payload (completed true) v p =
      deliver-Runs Q rest (inbound_message payload) v p
  after_acquire-Runs Q rest payload (completed false) v p = Runs-done reader _ Q g v (rest _ v p)
  after_acquire-Runs Q rest payload (signalled b) v p = Runs-done reader _ Q g v (rest _ v p)

  queue_inbound-Runs :
      (w : Tungstenite) (Q : Result (Unit {0}) (Unit {0}) → ℕ → View → Type 0)
      → ((x : Result (Unit {0}) (Unit {0})) (v : View) → NoPeer v → Q x g v)
      → (payload : Message) (v : View) → NoPeer v
      → Runs reader (queue_inbound w payload) Q g v
  unfolding queue_inbound
  queue_inbound-Runs w Q rest payload v p =
      quiet-call reader g holds Q borrow_shutdown _ NoPeer v refl NoPeer-Stable p λ signal u q _ _.
        Runs-if reader (not (is_running signal)) _ _ Q g u
          (λ _. Runs-done reader _ Q g u (rest _ u q))
          λ _.
            Runs-if reader (ltb u32_max (w.message_len payload)) _ _ Q g u
              (λ _. Runs-done reader _ Q g u (rest _ u q))
              λ _.
                quiet-call reader g holds Q (acquire_budget (w.message_len payload)) _ NoPeer u refl
                  NoPeer-Stable q λ a x s _ _. after_acquire-Runs Q rest payload a x s

  -- A clean outcome is chosen only when the connection is marked as closing.
  finish_reader-Runs :
      (Q : Unit → ℕ → View → Type 0)
      → ((w : View) → IsClosed w.state → Q tt g w)
      → (fuel : ℕ) (clean : Bool) (e : DriverError) (v : View) → NoPeer v
      → (clean ≡ true → v.closing ≡ true)
      → Runs reader (finish_reader fuel clean e) Q g v
  unfolding finish_reader
  finish_reader-Runs Q rest fuel clean e v p marked =
      Runs-if reader clean _ _ Q g v
        (λ c. finish_peer_close-Runs g holds Q rest fuel _ v p (marked c))
        (λ _. finish_reader_failure-Runs g holds Q rest e v p)

module _ (g : ℕ) (holds : 0 < g) (w : Tungstenite) (Q : Round → ℕ → View → Type 0)
    (rest : (x : Round) (v : View) → RoundEnd x v → Q x g v) where
  close_reply-Runs :
      (fuel : ℕ) (reply : DriverError) (v : View)
      → NoPeer v
      → v.closing ≡ true
      → Runs reader (finish_peer_close fuel reply >>= λ _. done returned) Q g v
  close_reply-Runs fuel reply v p c = Runs-bind reader (finish_peer_close fuel reply) _ Q g v (
      finish_peer_close-Runs g holds _
        (λ u closed_now. Runs-done reader _ Q g u (rest returned u closed_now)) fuel reply v p c)

  queued-Runs :
      (payload : Message) (v : View)
      → NoPeer v
      → Runs reader (queue_inbound w payload >>= λ outcome. done (after_queue outcome)) Q g v
  queued-Runs payload v p = Runs-bind reader (queue_inbound w payload) _ Q g v (
      queue_inbound-Runs g holds w _
        (elim [
          | ok _ ↦ λ u q. Runs-done reader _ Q g u (rest again u q)
          | err _ ↦ λ u q. Runs-done reader _ Q g u (rest left u q)
        ])
        payload v p)

  flushed-Runs : (v : View) → NoPeer v → Runs reader (op try_flush >>= λ _. done again) Q g v
  flushed-Runs v p =
      quiet-call reader g holds Q try_flush _ NoPeer v refl NoPeer-Stable p
        λ _ u q _ _. Runs-done reader _ Q g u (rest again u q)

  reader_message-Runs :
      (fuel : ℕ) (payload : Message) (v : View)
      → NoPeer v
      → Runs reader (reader_message w fuel payload) Q g v
  unfolding reader_message
  reader_message-Runs fuel (close reply) v p =
      quiet-call reader g holds Q load_closing _ NoPeer v refl NoPeer-Stable p λ a u q _ _.
        access-call reader g holds Q (store_closing true) _ NoPeer u refl tt NoPeer-Stable q
          (λ x _ inv. store_closing_access reader x inv)
          λ _ x s _ _.
            close_reply-Runs fuel (classify_close w reply a) _ (unfold after in s)
              (unfold after in refl)
  reader_message-Runs fuel (ping _) v p = flushed-Runs v p
  reader_message-Runs fuel (pong _) v p = flushed-Runs v p
  reader_message-Runs fuel (frame _) v p = Runs-done reader _ Q g v (rest again v p)
  reader_message-Runs fuel (text s) v p = queued-Runs (text s) v p
  reader_message-Runs fuel (binary s) v p = queued-Runs (binary s) v p

  reader_error-Runs :
      (fuel : ℕ) (error : WsError) (v : View)
      → NoPeer v
      → Runs reader (reader_error w fuel error) Q g v
  unfolding reader_error
  reader_error-Runs fuel error v p =
      quiet-call reader g holds Q load_closing _ NoPeer v refl NoPeer-Stable p λ a u q _ al.
        Runs-bind reader (finish_reader fuel _ _) _ Q g u (
          finish_reader-Runs g holds _
            (λ x closed_now. Runs-done reader _ Q g x (rest returned x closed_now)) fuel _ _ u q
            (λ c. ground arith))

  reader_wake-Runs :
      (fuel : ℕ) (wake : ReaderWake) (v : View)
      → NoPeer v
      → Inv v
      → ReaderNoError wake
      → Runs reader (reader_wake w fuel wake) Q g v
  unfolding reader_wake
  reader_wake-Runs fuel (message none) v p i a = Runs-done reader _ Q g v (rest left v p)
  reader_wake-Runs fuel (message (some (ok payload))) v p i a = reader_message-Runs fuel payload v p
  reader_wake-Runs fuel (message (some (err error))) v p i a = reader_error-Runs fuel error v p
  reader_wake-Runs fuel (shutdown_changed false) v p i a = absurd (ground arith)
  reader_wake-Runs fuel (shutdown_changed true) v p i a =
      quiet-call reader g holds Q borrow_shutdown _ NoPeer v refl NoPeer-Stable p
        λ signal u q inv al. elim (Bool-cases (is_abort signal)) [
          | inl e ↦ rw e (Runs-done reader _ Q g u (rest returned u (ground arith)))
          | inr e ↦ rw e (Runs-done reader _ Q g u (rest again u q))
        ]

  reader_round-Runs : (fuel : ℕ) (v : View) → NoPeer v → Runs reader (reader_round w fuel) Q g v
  unfolding reader_round
  reader_round-Runs fuel v p =
      quiet-call reader g holds Q borrow_shutdown _ NoPeer v refl NoPeer-Stable p
        λ signal u q inv al.
          Runs-if reader (is_abort signal) _ _ Q g u
            (λ e. Runs-done reader _ Q g u (rest returned u (ground arith)))
            λ _.
              quiet-call reader g holds Q reader_select _ NoPeer u refl NoPeer-Stable q
                λ wake x s i a. reader_wake-Runs fuel wake x s i a

-- When the reader's loop ends, the connection is closed.
run_reader-Runs :
    (g : ℕ)
    → 0 < g
    → (w : Tungstenite) (Q : Unit → ℕ → View → Type 0) → ((v : View) → IsClosed v.state → Q tt g v)
    → (fuel : ℕ) (v : View) → NoPeer v
    → Runs reader (run_reader w fuel) Q g v
unfolding run_reader
run_reader-Runs g holds w Q rest zero v p = out_of_fuel-Runs reader g holds Q v
run_reader-Runs g holds w Q rest (suc fuel) v p = Runs-bind reader (reader_round w fuel) _ Q g v (
    reader_round-Runs g holds w _
      (elim [
        | returned ↦ λ u closed_now. Runs-done reader _ Q g u (rest u closed_now)
        | left ↦ λ u q.
            unfold reader_left in
            quiet-call reader g holds Q load_closing _ NoPeer u refl NoPeer-Stable q
              λ a x s _ al. finish_reader-Runs g holds Q rest fuel a _ x s (λ c. ground arith)
        | again ↦ λ u q. run_reader-Runs g holds w Q rest fuel u q
      ])
      fuel v p)

-- The reader task ends with the connection closed, and without its guard.
pub reader_task-Runs :
    (w : Tungstenite) (fuel : ℕ) (v : View)
    → NoPeer v
    → Runs reader (reader_task w fuel) (λ _ h u. (h ≡ 0) × IsClosed u.state) 1 v
unfolding reader_task
reader_task-Runs w fuel v p = Runs-bind reader (run_reader w fuel) _ _ 1 v (
    run_reader-Runs 1 (omega arith) w _
      (λ u closed_now.
        guard-call reader 1 (omega arith) _ drop_guard _ IsClosedNow u refl (omega arith)
          (IsClosedNow-Stable reader) closed_now
          λ _ x c _. Runs-done reader _ _ 0 _ (refl, unfold after in c))
      fuel v p)
