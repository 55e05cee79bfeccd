-- ===== src/Driver/Wire.antt =====
-- The values of tungstenite that src/driver.rs takes apart. What the crate computes from them is a
-- parameter, the record `Tungstenite`.
use fogws.Prelude.{ℕ, String, Option, List}

-- The codes that the driver names, and any other.
pub data CloseCode : Type 0 where
  normal : CloseCode
  away : CloseCode
  other : ℕ → CloseCode

pub record CloseFrame : Type 0 where
  pub code : CloseCode
  pub reason : String

pub data Message : Type 0 where
  text : String → Message
  binary : List ℕ → Message
  ping : List ℕ → Message
  pong : List ℕ → Message
  close : Option CloseFrame → Message
  frame : List ℕ → Message

-- `ConnectionClosed` is the one error that the driver tells apart.
pub data WsError : Type 0 where
  connection_closed : WsError
  other_error : String → WsError

-- `len` of a message, the conversion of a close code into `u16`, and the text of an error.
pub record Tungstenite : Type 0 where
  pub message_len : Message → ℕ
  pub into_u16 : CloseCode → ℕ
  pub error_text : WsError → String
