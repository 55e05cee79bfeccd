-- ===== src/Config.antt =====
-- src/config.rs: the limits of a connection, their checks, and the settings of the WebSocket codec.
-- A `Duration` is its number of nanoseconds. Floats have no model: `F64` and the conversion
-- `Duration::try_from_secs_f64` are parameters, and so is tokio's `Semaphore::MAX_PERMITS`.
pub mod Limits
pub mod Buffers
use Prim.Native.String
use fogws.Prelude.{
  ℕ, ◌+◌, ◌%◌, ◌^◌, ◌*◌, max, String, Option, none, some, Result, ok, err, ◌>>=◌, ◌>>◌, fail_if,
  ok_or, ltb, ◌==◌,
}
use fogws.Error.Decimal.{to_string}
use fogws.Error.{DriverError, resource_limit}

abbrev pub u32_max : ℕ
u32_max = 4294967295

abbrev pub default_max_buffered_bytes : ℕ
default_max_buffered_bytes = 1048576

abbrev pub default_max_message_size : ℕ
default_max_message_size = 1048576

abbrev pub default_max_queue : ℕ
default_max_queue = 16

abbrev pub max_control_payload_bytes : ℕ
max_control_payload_bytes = 125

abbrev pub max_frame_header_bytes : ℕ
max_frame_header_bytes = 14

abbrev pub read_buffer_bytes : ℕ
read_buffer_bytes = 16384

abbrev pub write_buffer_bytes : ℕ
write_buffer_bytes = 0

pub record ConnectionConfig : Type 0 where
  pub close_timeout : ℕ
  pub max_buffered_bytes : ℕ
  pub max_message_size : ℕ
  pub max_queue : ℕ

abbrev pub bad_timeout : DriverError
bad_timeout = resource_limit "close_timeout must be a finite number greater than zero"

module _ {F64 : Type 0} (try_from_secs_f64 : F64 → Option ℕ) (max_permits : ℕ) where
  unfoldable pub new : ℕ → ℕ → ℕ → F64 → Result ConnectionConfig DriverError
  new max_queue max_message_size max_buffered_bytes close_timeout_seconds = do
    fail_if (max_queue == 0) (resource_limit "max_queue must be greater than zero")
    fail_if (ltb max_permits max_queue)
        (resource_limit (String.◌++◌ "max_queue must not exceed " (to_string max_permits)))
    fail_if (max_message_size == 0) (resource_limit "max_message_size must be greater than zero")
    fail_if (ltb max_buffered_bytes max_message_size)
        (resource_limit "max_buffered_bytes must be at least max_message_size")
    fail_if (ltb u32_max max_buffered_bytes)
        (resource_limit (String.◌++◌ "max_buffered_bytes must not exceed " (to_string u32_max)))
    close_timeout ← ok_or (try_from_secs_f64 close_timeout_seconds) bad_timeout
    fail_if (close_timeout == 0) bad_timeout
    ok (record {
      close_timeout = close_timeout;
      max_buffered_bytes = max_buffered_bytes;
      max_message_size = max_message_size;
      max_queue = max_queue;
    })

-- 10.0 seconds, the value of `DEFAULT_CLOSE_TIMEOUT_SECONDS`.
abbrev pub default : ConnectionConfig
default = record {
  close_timeout = 10 * 10 ^ 9;
  max_buffered_bytes = default_max_buffered_bytes;
  max_message_size = default_max_message_size;
  max_queue = default_max_queue;
}

-- The settings that `websocket_config` hands to tungstenite's builder, which keeps its defaults for
-- all others.
pub record WebSocketConfig : Type 0 where
  pub read_buffer_size : ℕ
  pub write_buffer_size : ℕ
  pub max_write_buffer_size : ℕ
  pub max_message_size : Option ℕ
  pub max_frame_size : Option ℕ

-- `usize_bits` is the width of the target's `usize`, in which the sum is taken.
unfoldable pub websocket_config : ℕ → ConnectionConfig → WebSocketConfig
websocket_config usize_bits self =
    let max_write_buffer_size : ℕ =
      (max self.max_buffered_bytes max_control_payload_bytes + max_frame_header_bytes)
      % 2 ^ usize_bits in
    record {
      read_buffer_size = read_buffer_bytes;
      write_buffer_size = write_buffer_bytes;
      max_write_buffer_size = max_write_buffer_size;
      max_message_size = some self.max_message_size;
      max_frame_size = some self.max_message_size;
    }
