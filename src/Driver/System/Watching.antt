-- ===== src/Driver/System/Watching.antt =====
-- What src/driver.rs keeps true of a local close while calls begin it: one call at most is beginning
-- one, and a connection that is closing has its watchdog, or has the call that spawns it.
use fogws.Prelude.{ℕ, ◌+◌, ◌≤◌, ◌<◌, Bool-cases, true, false, ◌≡◌, refl, sym, ◌∙◌, arith, inl, inr}
use fogws.Driver.State.{DriverState, closing, start_closing_update}
use fogws.Driver.Task.{
  Op, Answer, modify_state, modify_state_with, modify_shutdown, swap_closing, swap_timeout_started,
  spawn_watchdog,
}
use fogws.Driver.View.{View, after, Allowed}
use fogws.Driver.Order.{Later}
use fogws.Driver.System.Claims.{Stage, idle, claimed, owing, spawning, At, Turn}

-- A call that is beginning a close; one that has not marked the watchdog as started; and one that
-- has moved the state and has not spawned the watchdog.
abbrev pub busy : Stage → ℕ
busy idle = 0
busy _ = 1

abbrev pub early : Stage → ℕ
early claimed = 1
early owing = 1
early _ = 0

abbrev pub late : Stage → ℕ
late owing = 1
late spawning = 1
late _ = 0

-- The counts of busy, early and late calls, and of watchdogs.
pub record Sound (v : View) (b e l w : ℕ) : Type 0 where
  pub unmarked : v.closing ≡ false → b ≡ 0
  pub unmarked_timeout : v.closing ≡ false → v.close_timeout_started ≡ false
  pub one : b ≤ 1
  pub fresh : 0 < e → v.close_timeout_started ≡ false
  pub watched : v.state ≡ closing → 0 < l + w

-- What begins no close.
pub record Quiet (v w : View) : Type 0 where
  pub no_new_closing : w.state ≡ closing → v.state ≡ closing
  pub same_timeout : w.close_timeout_started ≡ v.close_timeout_started
  pub closing_up : v.closing ≡ true → w.closing ≡ true

unmarked_before : (v w : View) → Quiet v w → w.closing ≡ false → v.closing ≡ false
unmarked_before v w q h = elim (Bool-cases v.closing) [
  | inl marked ↦ ground (arith, q.closing_up marked, h)
  | inr unmarked ↦ unmarked
]

pub Sound-Quiet :
    (v w : View) {b e l n b' e' l' n' : ℕ}
    → Quiet v w
    → Sound v b e l n
    → b' ≤ b
    → e' ≤ e
    → l' ≡ l
    → n ≤ n'
    → Sound w b' e' l' n'
Sound-Quiet v w q p less_b less_e same_l more = record {
  unmarked = λ h. let none = p.unmarked (unmarked_before v w q h) in omega arith;
  unmarked_timeout = λ h. q.same_timeout ∙ p.unmarked_timeout (unmarked_before v w q h);
  one = let least = p.one in omega arith;
  fresh = λ h. q.same_timeout ∙ p.fresh (omega arith);
  watched = λ h. let pos = p.watched (q.no_new_closing h) in omega arith;
}

pub Sound-counts :
    (v : View) {b e l n b' e' l' n' : ℕ}
    → Sound v b e l n
    → b' ≤ b
    → e' ≤ e
    → l' ≡ l
    → n ≤ n'
    → Sound v b' e' l' n'
Sound-counts v p less_b less_e same_l more =
    Sound-Quiet v v (record { no_new_closing = λ c. c; same_timeout = refl; closing_up = λ c. c }) p
      less_b less_e same_l more

-- The watchdogs that a call starts.
abbrev pub watchers : Op → ℕ
watchers (spawn_watchdog _) = 1
watchers _ = 0

-- A state that `begin_close` does not move.
unmoved :
    (s : DriverState)
    → false ≡ (start_closing_update s).1
    → (start_closing_update s).0 ≡ closing
    → s ≡ closing
unfolding start_closing_update
unmoved s h c = ground arith

module _ (v : View) (b e l n : ℕ) (e_busy : e ≤ b) (l_busy : l ≤ b) where
  -- A call that is beginning no close makes its next call.
  idle-Sound :
      (o : Op) (a : Answer o) (h : Stage)
      → At idle o
      → Turn idle o a h
      → Allowed o v a
      → Later v (after o v)
      → Sound v b e l n
      → Sound (after o v) (busy h + b) (early h + e) (late h + l) (watchers o + n)
  unfolding after
  idle-Sound (modify_state f) a h at turn al later p = rw turn.1 (
      Sound-Quiet v _
        (record { no_new_closing = turn.0 v.state; same_timeout = refl; closing_up = λ c. c }) p
        (omega arith) (omega arith) (omega arith) (omega arith))
  idle-Sound (modify_state_with f) a h at turn al later p = rw turn.1 (
      Sound-Quiet v _
        (record { no_new_closing = turn.0 v.state; same_timeout = refl; closing_up = λ c. c }) p
        (omega arith) (omega arith) (omega arith) (omega arith))
  idle-Sound (swap_closing m) true h at turn al later p = rw turn.1 (
      Sound-Quiet v _
        (record { no_new_closing = λ c. c; same_timeout = refl; closing_up = later.closing_up }) p
        (omega arith) (omega arith) (omega arith) (omega arith))
  idle-Sound (swap_closing m) false h at turn al later p = rw turn.1 (record {
    unmarked = λ c. ground (arith, turn.0, c);
    unmarked_timeout = λ _. p.unmarked_timeout (sym al);
    one = let none = p.unmarked (sym al) in omega arith;
    fresh = λ _. p.unmarked_timeout (sym al);
    watched = λ c. let pos = p.watched c in omega arith;
  })
  idle-Sound (swap_timeout_started m) a h at turn al later p = absurd at
  idle-Sound o a h at turn al later p = rw turn (
      Sound-Quiet v _
        (record { no_new_closing = λ c. c; same_timeout = refl; closing_up = later.closing_up }) p
        (omega arith) (omega arith) (omega arith) (omega arith))

  -- From the mark of the close to the spawn of the watchdog.
  pub busy-Sound :
      (g : Stage) (o : Op) (a : Answer o) (h : Stage)
      → At g o
      → Turn g o a h
      → Allowed o v a
      → Later v (after o v)
      → Sound v (busy g + b) (early g + e) (late g + l) n
      → Sound (after o v) (busy h + b) (early h + e) (late h + l) (watchers o + n)
  unfolding after start_closing_update
  busy-Sound idle o a h at turn al later p =
      idle-Sound o a h at turn al later
        (Sound-counts v p (omega arith) (omega arith) (omega arith) (omega arith))
  busy-Sound claimed (modify_state f) true h at turn al later p = rw turn.1 (record {
    unmarked = λ c. absurd (omega (arith, p.unmarked c));
    unmarked_timeout = λ c. absurd (omega (arith, p.unmarked c));
    one = omega (arith, p.one);
    fresh = λ _. p.fresh (omega arith);
    watched = λ c. omega arith;
  })
  busy-Sound claimed (modify_state f) false h at turn al later p = rw turn.1 (
      rw turn.0 (
        Sound-Quiet v _
          (record {
            no_new_closing = unmoved v.state (rw turn.0 at al);
            same_timeout = refl;
            closing_up = later.closing_up;
          })
          p (omega arith) (omega arith) (omega arith) (omega arith)))
  busy-Sound claimed o a h at turn al later p = absurd at
  busy-Sound owing (modify_shutdown f) a h at turn al later p = rw turn (
      Sound-Quiet v _
        (record { no_new_closing = λ c. c; same_timeout = refl; closing_up = later.closing_up }) p
        (omega arith) (omega arith) (omega arith) (omega arith))
  busy-Sound owing (swap_timeout_started m) true h at turn al later p =
      let unstarted = p.fresh (omega arith) in ground (arith, unstarted, al)
  busy-Sound owing (swap_timeout_started m) false h at turn al later p = rw turn.1 (record {
    unmarked = λ c. absurd (omega (arith, p.unmarked c));
    unmarked_timeout = λ c. absurd (omega (arith, p.unmarked c));
    one = omega (arith, p.one);
    fresh = λ c. absurd (omega (arith, p.one));
    watched = λ c. omega arith;
  })
  busy-Sound owing o a h at turn al later p = absurd at
  busy-Sound spawning (spawn_watchdog fuel) a h at turn al later p = rw turn (record {
    unmarked = λ c. absurd (omega (arith, p.unmarked c));
    unmarked_timeout = p.unmarked_timeout;
    one = omega (arith, p.one);
    fresh = λ c. p.fresh (omega arith);
    watched = λ c. omega arith;
  })
  busy-Sound spawning o a h at turn al later p = absurd at
