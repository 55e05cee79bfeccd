-- ===== src/Tests/Samples.antt =====
-- Concrete versions of the crates' parts that the model takes as parameters.
use Prim.Native.String
use Prim.Native.String.{String}
use fogws.Prelude.{ℕ, refl, length}
use fogws.Tokio.{Watch}
use fogws.Driver.Wire.{
  CloseCode, normal, away, other, Message, text, binary, ping, pong, close, frame, WsError,
  connection_closed, other_error, Tungstenite,
}

-- A channel that is its value.
abbrev pub cell : Watch
cell = record {
  Channel = λ A. A;
  channel = λ a. a;
  borrow = λ c. c;
  send_if_modified = λ f c. f c;
  send_modify = λ f c. f c;
  borrow-channel = λ a. refl;
  borrow-send_if_modified = λ f c. refl;
  result-send_if_modified = λ f c. refl;
  borrow-send_modify = λ f c. refl;
}

abbrev message_len : Message → ℕ
message_len (text s) = String.len s
message_len (binary bytes) = length bytes
message_len (ping bytes) = length bytes
message_len (pong bytes) = length bytes
message_len (close _) = 0
message_len (frame bytes) = length bytes

abbrev into_u16 : CloseCode → ℕ
into_u16 normal = 1000
into_u16 away = 1001
into_u16 (other code) = code

abbrev error_text : WsError → String
error_text connection_closed = "Connection closed normally"
error_text (other_error message) = message

abbrev pub wire : Tungstenite
wire = record { message_len = message_len; into_u16 = into_u16; error_text = error_text }
