-- ===== src/Driver/Logic/Access.antt =====
-- Each access to the shared state of src/driver.rs moves it within the order and keeps the invariant.
use fogws.Prelude.{Bool, true, false, ◌≡◌, ◌⊎◌, ◌≢◌, arith}
use fogws.Error.{DriverError}
use fogws.Driver.State.{
  DriverState, open_, peer_closed, terminal_update, peer_closed_update, writer_failure_update,
  close_timeout_update, start_closing_update, abort_update, local_close_update, peer_close_update,
}
use fogws.Driver.Close.{abandoned}
use fogws.Driver.Task.{
  Op, modify_state, modify_state_with, modify_shutdown, store_closing, swap_closing,
  swap_timeout_started, new_guard, abort_reader, abort_writer,
}
use fogws.Driver.View.{View, after}
use fogws.Driver.Order.{Later, NoNewPeer, Inv, IsClosed, IsEnded}
use fogws.Driver.Logic.{Role, reader, caller, Moves, IsOther, IsTask, BeginsNoClose}

-- The outcome `e` may replace the outcome that the peer's close gave.
abbrev pub Fits : DriverError → DriverState → Type 0
Fits e (peer_closed o) = (o ≡ e) ⊎ (e ≡ abandoned)
Fits e _ = Unit

-- What an access does, whoever makes it.
pub record Kept (r : Role) (o : Op) (v : View) : Type 0 where
  pub moves : Moves r v (after o v)
  pub inv : Inv (after o v)

kept :
    {r : Role} {o : Op} {v : View}
    → Later v (after o v)
    → (IsOther r → NoNewPeer v.state (after o v).state)
    → (IsTask r → BeginsNoClose v (after o v))
    → Inv (after o v)
    → Kept r o v
kept later no_new_peer begins_no_close inv = record {
  moves = record { later = later; no_new_peer = no_new_peer; begins_no_close = begins_no_close };
  inv = inv;
}

pub publish_terminal_access :
    (r : Role) (e : DriverError) (v : View)
    → Fits e v.state
    → Inv v
    → Kept r (modify_state (terminal_update e)) v
unfolding after terminal_update
publish_terminal_access r e v f i =
    kept (ground arith) (λ _. ground arith) (λ _. ground arith) (ground arith)

pub writer_failure_access :
    (r : Role) (e : DriverError) (v : View)
    → Inv v
    → Kept r (modify_state_with (writer_failure_update e)) v
unfolding after writer_failure_update
writer_failure_access r e v i =
    kept (ground arith) (λ _. ground arith) (λ _. ground arith) (ground arith)

pub close_timeout_access :
    (r : Role) (v : View) → Inv v → Kept r (modify_state close_timeout_update) v
unfolding after close_timeout_update
close_timeout_access r v i =
    kept (ground arith) (λ _. ground arith) (λ _. ground arith) (ground arith)

-- Only the reader reports the peer's close, when the connection is marked as closing.
pub peer_closed_access :
    (e : DriverError) (v : View)
    → v.closing ≡ true
    → Inv v
    → Kept reader (modify_state (peer_closed_update e)) v
unfolding after peer_closed_update
peer_closed_access e v c i = kept (ground arith) (λ h. absurd h) (λ _. ground arith) (ground arith)

-- Only a caller begins a local close.
pub start_closing_access :
    (v : View) → v.closing ≡ true → Inv v → Kept caller (modify_state start_closing_update) v
unfolding after start_closing_update
start_closing_access v c i = kept (ground arith) (λ _. ground arith) (λ h. absurd h) (ground arith)

pub signal_abort_access :
    (r : Role) (v : View) → IsClosed v.state → Inv v → Kept r (modify_shutdown abort_update) v
unfolding after abort_update
signal_abort_access r v c i =
    kept (ground arith) (λ _. ground arith) (λ _. ground arith) (ground arith)

pub signal_local_close_access :
    (r : Role) (v : View) → v.state ≢ open_ → Inv v → Kept r (modify_shutdown local_close_update) v
unfolding after local_close_update
signal_local_close_access r v c i =
    kept (ground arith) (λ _. ground arith) (λ _. ground arith) (ground arith)

pub signal_peer_close_access :
    (r : Role) (v : View) → IsEnded v.state → Inv v → Kept r (modify_shutdown peer_close_update) v
unfolding after peer_close_update
signal_peer_close_access r v c i =
    kept (ground arith) (λ _. ground arith) (λ _. ground arith) (ground arith)

-- The flags are only ever set.
pub store_closing_access : (r : Role) (v : View) → Inv v → Kept r (store_closing true) v
unfolding after
store_closing_access r v i =
    kept (ground arith) (λ _. ground arith) (λ _. ground arith) (ground arith)

pub swap_closing_access : (r : Role) (v : View) → Inv v → Kept r (swap_closing true) v
unfolding after
swap_closing_access r v i =
    kept (ground arith) (λ _. ground arith) (λ _. ground arith) (ground arith)

pub swap_timeout_started_access : (v : View) → Inv v → Kept caller (swap_timeout_started true) v
unfolding after
swap_timeout_started_access v i =
    kept (ground arith) (λ _. ground arith) (λ h. absurd h) (ground arith)

-- The abort handles are used on a closed connection.
pub abort_reader_access : (r : Role) (v : View) → IsClosed v.state → Inv v → Kept r abort_reader v
unfolding after
abort_reader_access r v c i =
    kept (ground arith) (λ _. ground arith) (λ _. ground arith) (ground arith)

pub abort_writer_access : (r : Role) (v : View) → IsClosed v.state → Inv v → Kept r abort_writer v
unfolding after
abort_writer_access r v c i =
    kept (ground arith) (λ _. ground arith) (λ _. ground arith) (ground arith)

-- The calls that touch neither the state nor the signal nor a flag.
abbrev pub is_plain : Op → Bool
is_plain (modify_state _) = false
is_plain (modify_state_with _) = false
is_plain (modify_shutdown _) = false
is_plain (store_closing _) = false
is_plain (swap_closing _) = false
is_plain (swap_timeout_started _) = false
is_plain abort_reader = false
is_plain abort_writer = false
is_plain _ = true

pub plain_access : (r : Role) (o : Op) (v : View) → is_plain o ≡ true → Inv v → Kept r o v
unfolding after
plain_access r new_guard v h i =
    kept (ground arith) (λ _. ground arith) (λ _. ground arith) (ground arith)
plain_access r o v h i = kept (ground arith) (λ _. ground arith) (λ _. ground arith) (ground arith)
