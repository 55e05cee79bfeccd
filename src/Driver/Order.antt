-- ===== src/Driver/Order.antt =====
-- How the shared state of src/driver.rs moves: what every access respects, and what every access but
-- the reader's does.
use fogws.Prelude.{ℕ, ◌≤◌, true, ◌≡◌, ◌⊎◌, ◌≢◌, arith}
use fogws.Error.{DriverError}
use fogws.Driver.State.{
  DriverState, closed, closing, open_, peer_closed, ShutdownSignal, abort, local_close, peer_close,
  running,
}
use fogws.Driver.Close.{abandoned}
use fogws.Driver.View.{View, started}

-- The order of the states: a connection goes from open to closed.
abbrev pub rank : DriverState → ℕ
rank open_ = 0
rank closing = 1
rank (peer_closed _) = 2
rank (closed _) = 3

abbrev pub signal_rank : ShutdownSignal → ℕ
signal_rank running = 0
signal_rank local_close = 1
signal_rank peer_close = 2
signal_rank abort = 3

abbrev pub IsClosed : DriverState → Type 0
IsClosed (closed _) = Unit
IsClosed _ = ⊥

-- Closed, or about to be with the outcome that the peer's close gave.
abbrev pub IsEnded : DriverState → Type 0
IsEnded (closed _) = Unit
IsEnded (peer_closed _) = Unit
IsEnded _ = ⊥

-- What becomes of an outcome that the peer's close gave: it stands, or it is the final outcome, or
-- the connection was abandoned.
abbrev pub KeepsPeer : DriverState → DriverState → Type 0
KeepsPeer (peer_closed e) s = (s ≡ peer_closed e) ⊎ (s ≡ closed e) ⊎ (s ≡ closed abandoned)
KeepsPeer _ s = Unit

-- A final outcome never changes.
abbrev pub KeepsClosed : DriverState → DriverState → Type 0
KeepsClosed (closed e) s = s ≡ closed e
KeepsClosed _ s = Unit

pub record Later (v w : View) : Type 0 where
  pub state_up : rank v.state ≤ rank w.state
  pub keeps_closed : KeepsClosed v.state w.state
  pub keeps_peer : KeepsPeer v.state w.state
  pub signal_up : signal_rank v.shutdown ≤ signal_rank w.shutdown
  pub closing_up : v.closing ≡ true → w.closing ≡ true
  pub timeout_up : v.close_timeout_started ≡ true → w.close_timeout_started ≡ true

-- No outcome of the peer's close is new.
abbrev pub NoNewPeer : DriverState → DriverState → Type 0
NoNewPeer s (peer_closed e) = s ≡ peer_closed e
NoNewPeer s _ = Unit

-- What the driver relies on in every reachable state.
pub record Inv (v : View) : Type 0 where
  pub abort_closed : v.shutdown ≡ abort → IsClosed v.state
  pub peer_ended : v.shutdown ≡ peer_close → IsEnded v.state
  pub local_started : v.shutdown ≡ local_close → v.state ≢ open_
  pub reader_aborted_closed : v.reader_aborted ≡ true → IsClosed v.state
  pub writer_aborted_closed : v.writer_aborted ≡ true → IsClosed v.state
  pub closing_marked : v.state ≡ closing → v.closing ≡ true
  pub peer_marked : (e : DriverError) → v.state ≡ peer_closed e → v.closing ≡ true

pub started-Inv : Inv started
started-Inv = ground arith

pub Later-refl : (v : View) → Later v v
Later-refl v = ground arith

pub Later-trans : (u v w : View) → Later u v → Later v w → Later u w
Later-trans u v w p q = record {
  state_up = ground arith;
  keeps_closed = ground arith;
  keeps_peer = ground arith;
  signal_up = ground arith;
  closing_up = λ h. q.closing_up (p.closing_up h);
  timeout_up = λ h. q.timeout_up (p.timeout_up h);
}

pub NoNewPeer-trans : (r s t : DriverState) → NoNewPeer r s → NoNewPeer s t → NoNewPeer r t
NoNewPeer-trans r s t p q = ground arith

-- A state with a final outcome stays so.
pub IsClosed-Later : (v w : View) → Later v w → IsClosed v.state → IsClosed w.state
IsClosed-Later v w p h = ground arith

pub IsEnded-Later : (v w : View) → Later v w → IsEnded v.state → IsEnded w.state
IsEnded-Later v w p h = ground arith
