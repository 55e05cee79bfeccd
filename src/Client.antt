-- ===== src/Client.antt =====
-- src/client.rs: the checks of a URI and the one attempt to connect. The parser of URIs and the
-- handshake are other crates'; the text of an authority and of its host is a list of bytes.
pub mod Attempts
pub mod Port
use Prim.Native.String
use fogws.Prelude.{
  ℕ, String, Bool, true, false, not, ◌&&◌, Option, none, some, Result, ok, err, List, [], ◌∷◌,
  length, ltb, ◌==◌, if◌then◌else◌,
}
use text.Mathlib.Text.{◌==◌ as str_eq}
use fogws.Error.{DriverError, invalid_uri, connection_failed}
use fogws.Config.{ConnectionConfig, WebSocketConfig, websocket_config}

pub record Authority : Type 0 where
  pub as_str : List ℕ
  pub host : List ℕ
  pub port_u16 : Option ℕ

-- What the code uses of the parser and of the handshake. `connect_async_with_config` is not told to
-- disable Nagle's algorithm.
pub record Handshake : Type 1 where
  pub Request : Type 0
  pub Socket : Type 0
  pub into_client_request : String → Result Request String
  pub scheme_str : Request → Option String
  pub authority : Request → Option Authority
  pub connect_async_with_config : Request → WebSocketConfig → Result Socket String

abbrev is_at : ℕ → Bool
is_at c = c == b'@'

-- `rsplit('@').next()`: what follows the last `@`, or all of it. The first list is what follows the last
-- `@` seen.
unfoldable pub after_last_at_from : List ℕ → List ℕ → List ℕ
after_last_at_from found [] = found
after_last_at_from found (c ∷ rest) = after_last_at_from (if is_at c then rest else found) rest

unfoldable pub after_last_at : List ℕ → List ℕ
unfolding after_last_at_from
after_last_at bytes = after_last_at_from bytes bytes

abbrev is_none {ℓ} : {A : Type ℓ} → Option A → Bool
is_none none = true
is_none (some a) = false

unfoldable pub has_invalid_port : Authority → Bool
has_invalid_port authority =
    let host_and_port = after_last_at authority.as_str in
    ltb (length authority.host) (length host_and_port) && is_none authority.port_u16

module _ (http : Handshake) where
  open http use {
    Request, Socket, into_client_request, scheme_str, authority, connect_async_with_config,
  }

  unfoldable pub has_invalid_explicit_port : Request → Bool
  has_invalid_explicit_port uri = elim (authority uri) [
    | none ↦ false
    | some a ↦ has_invalid_port a
  ]

  abbrev pub is_ws : Option String → Bool
  is_ws none = false
  is_ws (some scheme) = str_eq scheme "ws"

  -- The attempts to connect that were made, and the result: what `ConnectionDriver::start` is given.
  abbrev pub Attempted : Type 0
  Attempted = List (Request × WebSocketConfig) × Result (Socket × ConnectionConfig) DriverError

  abbrev pub no_attempt : DriverError → Attempted
  no_attempt error = ([], err error)

  -- The `await` of the handshake.
  abbrev pub attempt : Request → WebSocketConfig → ConnectionConfig → Attempted
  attempt request settings config = (
    (request, settings) ∷ [],
    elim (connect_async_with_config request settings) [
      | ok websocket ↦ ok (websocket, config)
      | err error ↦ err (connection_failed (String.◌++◌ "WebSocket connection failed: " error))
    ],
  )

  unfoldable pub connect : ℕ → String → ConnectionConfig → Attempted
  connect usize_bits uri config = elim (into_client_request uri) [
    | err error ↦ no_attempt (invalid_uri (String.◌++◌ "invalid WebSocket URI: " error))
    | ok request ↦
        if not (is_ws (scheme_str request))
        then no_attempt (invalid_uri "only plain ws:// URIs are supported in this release slice")
        else if has_invalid_explicit_port request
        then no_attempt (invalid_uri "WebSocket URI has an invalid explicit port")
        else attempt request (websocket_config usize_bits config) config
  ]
