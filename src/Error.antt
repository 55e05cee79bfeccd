-- ===== src/Error.antt =====
-- src/error.rs: how a connection ended, the errors of the driver, and their texts.
-- A text is a native `String`; a `u16` is a number below 2 ^ 16.
pub mod Decimal
use Prim.Native.String
use fogws.Prelude.{ℕ, String, Bool, true, false, Option, none, some, if◌then◌else◌}
use Decimal.{to_string}

pub record CloseInfo : Type 0 where
  pub code : Option ℕ
  pub initiated_by_local : Bool
  pub reason : String

pub data DriverError : Type 0 where
  closed_error : CloseInfo → DriverError
  closed_ok : CloseInfo → DriverError
  concurrency : String → DriverError
  connection_failed : String → DriverError
  invalid_uri : String → DriverError
  resource_limit : String → DriverError
  transport : String → DriverError

abbrev pub local_normal : CloseInfo
local_normal = record { code = some 1000; initiated_by_local = true; reason = "" }

-- The `map_or_else` of `describe`.
abbrev code_text : Option ℕ → String
code_text none = "without a status code"
code_text (some value) = to_string value

unfoldable pub describe : CloseInfo → String
describe info = String.◌++◌ "connection closed by " (
    String.◌++◌ (if info.initiated_by_local then "local endpoint" else "remote endpoint")
      (String.◌++◌ " with code " (code_text info.code)))

-- `fmt` of `Display`.
unfoldable pub display : DriverError → String
unfolding describe
display (closed_error info) = describe info
display (closed_ok info) = describe info
display (concurrency message) = message
display (connection_failed message) = message
display (invalid_uri message) = message
display (resource_limit message) = message
display (transport message) = message
