-- ===== src/Driver/Logic/Handshake.antt =====
-- The close of the socket by the writer of src/driver.rs: when it succeeds, the connection is closed or
-- has the peer's outcome.
use fogws.Prelude.{ℕ, zero, suc, ◌≤◌, ◌<◌, true, false, ◌≡◌, refl, arith, Result, ok, err}
use fogws.Error.{DriverError}
use fogws.Driver.Wire.{WsError, Tungstenite}
use fogws.Driver.State.{ShutdownSignal, is_abort, is_local_close}
use fogws.Driver.Task.{borrow_shutdown, shutdown_signal_changed, sink_send, sink_flush}
use fogws.Driver.Writer.{
  normal_close, wait_for_handshake, flush_close, after_handshake, after_close_frame, close_writer,
}
use fogws.Driver.View.{View}
use fogws.Driver.Order.{IsEnded, IsEnded-Later, signal_rank}
use fogws.Driver.Logic.{writer, Runs, Runs-done, Runs-bind, Runs-if, Stable}
use fogws.Driver.Logic.Rules.{out_of_fuel-Runs, quiet-call}

-- A close has been signalled.
abbrev pub Past : View → Type 0
Past v = 1 ≤ signal_rank v.shutdown

pub Past-Stable : Stable writer Past
Past-Stable v w env h = omega (arith, env.later.signal_up)

abbrev pub Ended : View → Type 0
Ended v = IsEnded v.state

pub Ended-Stable : Stable writer Ended
Ended-Stable v w env h = IsEnded-Later v w env.later h

-- What holds after the close of the socket, and after a round.
abbrev pub ClosePost : Result (Unit {0}) DriverError → View → Type 0
ClosePost (ok _) v = IsEnded v.state
ClosePost (err _) v = Unit

module _ (g : ℕ) (holds : 0 < g) (w : Tungstenite) where
  module _ (Q : Result (Unit {0}) DriverError → ℕ → View → Type 0)
      (rest : (x : Result (Unit {0}) DriverError) (v : View) → ClosePost x v → Q x g v) where
    flush_close-Runs : (v : View) → IsEnded v.state → Runs writer (flush_close w) Q g v
    unfolding flush_close
    flush_close-Runs v p =
        quiet-call writer g holds Q sink_flush _ Ended v refl Ended-Stable p (elim [
          | ok _ ↦ λ u q _ _. Runs-done writer _ Q g u (rest _ u q)
          | err _ ↦ λ u q _ _. Runs-done writer _ Q g u (rest _ u tt)
        ])

    after_handshake-Runs :
        (x : Result (Unit {0}) DriverError) (v : View)
        → ClosePost x v
        → Runs writer (after_handshake w x) Q g v
    unfolding after_handshake
    after_handshake-Runs (err error) v p = Runs-done writer _ Q g v (rest _ v tt)
    after_handshake-Runs (ok _) v p =
        quiet-call writer g holds Q borrow_shutdown _ Ended v refl Ended-Stable p λ a u q _ _.
          Runs-if writer (is_abort a) _ _ Q g u (λ _. Runs-done writer _ Q g u (rest _ u q))
            (λ _. flush_close-Runs u q)

  wait_for_handshake-Runs :
      (Q : Result (Unit {0}) DriverError → ℕ → View → Type 0)
      → ((x : Result (Unit {0}) DriverError) (v : View) → ClosePost x v → Q x g v)
      → (fuel : ℕ) (v : View) → Past v
      → Runs writer (wait_for_handshake fuel) Q g v
  unfolding wait_for_handshake
  wait_for_handshake-Runs Q rest zero v p = out_of_fuel-Runs writer g holds Q v
  wait_for_handshake-Runs Q rest (suc fuel) v p =
      quiet-call writer g holds Q borrow_shutdown _ Past v refl Past-Stable p λ a u q inv al.
        Runs-if writer (is_local_close a) _ _ Q g u
          (λ _.
            quiet-call writer g holds Q shutdown_signal_changed _ Past u refl Past-Stable q (elim [
              | true ↦ λ x s _ _. wait_for_handshake-Runs Q rest fuel x s
              | false ↦ λ x s _ no. absurd (ground arith)
            ]))
          (λ e. Runs-done writer _ Q g u (rest (ok tt) u (ground arith)))

  module _ (Q : Result (Unit {0}) DriverError → ℕ → View → Type 0)
      (rest : (x : Result (Unit {0}) DriverError) (v : View) → ClosePost x v → Q x g v) where
    after_close_frame-Runs :
        (fuel : ℕ) (x : Result (Unit {0}) WsError) (v : View)
        → Past v
        → Runs writer (after_close_frame w fuel x) Q g v
    unfolding after_close_frame
    after_close_frame-Runs fuel (err error) v p = Runs-done writer _ Q g v (rest _ v tt)
    after_close_frame-Runs fuel (ok _) v p =
        Runs-bind writer (wait_for_handshake fuel) _ Q g v
          (wait_for_handshake-Runs _ (λ x u q. after_handshake-Runs Q rest x u q) fuel v p)

    -- With a signal past `Running`, the socket's close succeeds only on a connection that is closed
    -- or has the peer's outcome.
    pub close_writer-Runs :
        (fuel : ℕ) (signal : ShutdownSignal) (v : View)
        → Past v
        → (is_local_close signal ≡ false → IsEnded v.state)
        → Runs writer (close_writer w fuel signal) Q g v
    unfolding close_writer
    close_writer-Runs fuel signal v p ended =
        Runs-if writer (is_local_close signal) _ _ Q g v
          (λ _.
            quiet-call writer g holds Q (sink_send normal_close) _ Past v refl Past-Stable p
              λ x u q _ _. after_close_frame-Runs fuel x u q)
          (λ e. flush_close-Runs Q rest v (ended e))
