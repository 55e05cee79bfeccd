-- ===== src/Driver/Logic/Ends.antt =====
-- What the programs of src/driver.rs that end a connection keep and achieve: the close watchdog,
-- `abort`, and the reader's and the writer's ways out.
use fogws.Prelude.{ℕ, ◌<◌, true, ◌≡◌, refl, arith}
use fogws.Error.{DriverError}
use fogws.Driver.State.{
  closed, peer_closed, close_timeout_update, peer_closed_update, peer_close_update,
}
use fogws.Driver.Close.{abandoned, abort, watchdog}
use fogws.Driver.Task.{op, modify_state, modify_shutdown, store_closing, drop_guard}
use fogws.Driver.Publish.{
  publish_terminal, publish_close_timeout, signal_abort, terminal_or_timeout,
}
use fogws.Driver.Reader.{finish_reader_failure, finish_peer_close}
use fogws.Driver.View.{View, after}
use fogws.Driver.Order.{IsClosed}
use fogws.Driver.Logic.{
  Role, reader, watchdog as the_watchdog, HoldsGuard, Runs, Runs-done, Runs-bind, Stable,
}
use fogws.Driver.Logic.Access.{
  close_timeout_access, store_closing_access, peer_closed_access, signal_peer_close_access,
}
use fogws.Driver.Logic.Rules.{
  CanPublish, access-call, guard-call, publish_terminal-call, signal_abort-call, abort_reader-call,
  abort_writer-call, terminal_or_timeout-Runs, IsClosedNow, IsClosedNow-Stable,
}

-- The reader knows that the peer's close has not been reported yet.
abbrev pub NoPeer : View → Type 0
NoPeer v = elim v.state [ peer_closed _ ↦ ⊥ | _ ↦ Unit ]

pub NoPeer-Stable : Stable reader NoPeer
NoPeer-Stable v w env h = ground (arith, env.no_new_peer tt)

-- The outcome that the reader has reported stands, or the connection is closed.
abbrev pub Reported : DriverError → View → Type 0
Reported o v = elim v.state [ closed _ ↦ Unit | peer_closed e ↦ e ≡ o | _ ↦ ⊥ ]

pub Reported-Stable : (r : Role) (o : DriverError) → Stable r (Reported o)
Reported-Stable r o v w env h = ground (arith, env.later)

-- `abort` closes the connection; it may replace any outcome but a final one.
abandoned_can : (r : Role) → CanPublish r abandoned (λ _. Unit)
abandoned_can r = record { stable = λ _ _ _ _. tt; fits = λ w _. ground arith }

pub abort-Runs :
    (r : Role) (g : ℕ)
    → HoldsGuard r g
    → (Q : Unit → ℕ → View → Type 0) → ((w : View) → IsClosed w.state → Q tt g w)
    → (v : View) → Runs r abort Q g v
unfolding abort publish_terminal signal_abort
abort-Runs r g holds Q rest v =
    access-call r g holds Q (store_closing true) _ (λ _. Unit) v refl tt (λ _ _ _ _. tt) tt
      (λ w _ inv. store_closing_access r w inv)
      λ _ u _ _ _.
        publish_terminal-call r g holds Q abandoned _ (λ _. Unit) _ (abandoned_can r) tt
          λ _ w c _. signal_abort-call r g holds Q _ w c λ _ x d _.
            abort_reader-call r g holds Q _ x d
              λ y e _. abort_writer-call r g holds Q _ y e λ z f _. Runs-done r _ Q g z (rest z f)

-- A watchdog ends on a closed connection, without its guard.
pub watchdog-Runs :
    (fuel : ℕ) (v : View)
    → Runs the_watchdog (watchdog fuel) (λ _ h w. (h ≡ 0) × IsClosed w.state) 1 v
unfolding watchdog publish_close_timeout
watchdog-Runs fuel v = Runs-bind the_watchdog (terminal_or_timeout fuel) _ _ 1 v (
    terminal_or_timeout-Runs the_watchdog 1 one _ (λ _. Unit) (λ _ _ _ _. tt) (λ w _ c. drop w c)
      (λ w _.
        access-call the_watchdog 1 one _ (modify_state close_timeout_update) _ (λ _. Unit) w refl tt
          (λ _ _ _ _. tt) tt (λ u _ inv. close_timeout_access the_watchdog u inv)
          λ _ u _ _ _.
            abort_reader-call the_watchdog 1 one _ _ _ (timed_out u)
              λ x d _. abort_writer-call the_watchdog 1 one _ _ x d λ y c _. drop y c)
      fuel v tt)
  where
    one : 0 < 1
    one = omega arith

    drop :
        (w : View)
        → IsClosed w.state
        → Runs the_watchdog (op drop_guard) (λ _ h u. (h ≡ 0) × IsClosed u.state) 1 w
    drop w c =
        guard-call the_watchdog 1 one _ drop_guard _ IsClosedNow w refl one
          (IsClosedNow-Stable the_watchdog) c
          λ _ u d _. Runs-done the_watchdog _ _ 0 _ (refl, unfold after in d)

    timed_out : (u : View) → IsClosed (after (modify_state close_timeout_update) u).state
    timed_out u = unfold after close_timeout_update in ground arith

-- The reader's way out after a failure leaves the connection closed.
pub finish_reader_failure-Runs :
    (g : ℕ)
    → 0 < g
    → (Q : Unit → ℕ → View → Type 0) → ((w : View) → IsClosed w.state → Q tt g w)
    → (e : DriverError) (v : View) → NoPeer v
    → Runs reader (finish_reader_failure e) Q g v
unfolding finish_reader_failure
finish_reader_failure-Runs g holds Q rest e v p =
    publish_terminal-call reader g holds Q e _ NoPeer v
      (record { stable = NoPeer-Stable; fits = λ w q. ground arith }) p
      λ _ w c _. signal_abort-call reader g holds Q _ w c λ _ x d _.
        abort_writer-call reader g holds Q _ x d λ y f _. Runs-done reader _ Q g y (rest y f)

abbrev Marked : View → Type 0
Marked v = NoPeer v × (v.closing ≡ true)

Marked-Stable : Stable reader Marked
Marked-Stable v w env h = (NoPeer-Stable v w env h.0, env.later.closing_up h.1)

-- The reader's way out after a close of the peer leaves the connection closed.
pub finish_peer_close-Runs :
    (g : ℕ)
    → 0 < g
    → (Q : Unit → ℕ → View → Type 0) → ((w : View) → IsClosed w.state → Q tt g w)
    → (fuel : ℕ) (o : DriverError) (v : View) → NoPeer v
    → v.closing ≡ true
    → Runs reader (finish_peer_close fuel o) Q g v
unfolding finish_peer_close
finish_peer_close-Runs g holds Q rest fuel o v p c =
    access-call reader g holds Q (modify_state (peer_closed_update o)) _ Marked v refl tt
      Marked-Stable (p, c) (λ w q inv. peer_closed_access o w q.1 inv)
      λ _ w q inv _.
        access-call reader g holds Q (modify_shutdown peer_close_update) _ (Reported o) _ refl tt
          (Reported-Stable reader o) (reported w q.0)
          (λ x k i. signal_peer_close_access reader x (ground arith) i)
          λ _ x k i _. Runs-bind reader (terminal_or_timeout fuel) _ Q g _ (
            terminal_or_timeout-Runs reader g holds _ (Reported o) (Reported-Stable reader o)
              (λ y _ closed_now. Runs-done reader _ Q g y (rest y closed_now))
              (λ y s. publish_terminal-call reader g holds Q o _ (Reported o) y can s λ _ z d _.
                abort_writer-call reader g holds Q _ z d
                  λ u f _. Runs-done reader _ Q g u (rest u f))
              fuel (after (modify_shutdown peer_close_update) x) (unfold after in k))
  where
    can : CanPublish reader o (Reported o)
    can = record { stable = Reported-Stable reader o; fits = λ w s. ground arith }

    reported : (w : View) → NoPeer w → Reported o (after (modify_state (peer_closed_update o)) w)
    reported w q = unfold after peer_closed_update in ground arith
