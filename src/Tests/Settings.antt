-- ===== src/Tests/Settings.antt =====
-- Configurations, close frames and texts.
use fogws.Prelude.{ℕ, ◌+◌, ◌*◌, ◌^◌, ◌≤◌, ◌<◌, ◌≡◌, refl, ◌↔◌, Option, some, ok, arith, false}
use fogws.Error.{CloseInfo, describe}
use fogws.Error.Decimal.{to_string}
use fogws.Config.{
  new, default, websocket_config, max_control_payload_bytes, max_frame_header_bytes, u32_max,
}
use fogws.Config.Limits.{IsValid, Given, new-ok_iff}
use fogws.Config.Buffers.{websocket_config_room, websocket_config_narrow}
use fogws.Driver.Wire.{CloseFrame, other}

-- Whole seconds stand for the floats; tokio's limit on 64 bits.
abbrev pub seconds : ℕ → Option ℕ
seconds s = some (s * 10 ^ 9)

abbrev pub permits : ℕ
permits = 2305843009213693951

pub default-IsValid : IsValid permits default
default-IsValid = omega arith

new-ok_iff_example :
    (new seconds permits 16 1048576 1048576 10 ≡ ok default)
    ↔ (Given seconds permits 16 1048576 1048576 10 default × IsValid permits default)
new-ok_iff_example = new-ok_iff seconds permits 16 1048576 1048576 10 default

websocket_config_room_example :
    let w = websocket_config 64 default in
    (default.max_buffered_bytes + max_frame_header_bytes ≤ w.max_write_buffer_size)
    × (default.max_message_size + max_frame_header_bytes ≤ w.max_write_buffer_size)
    × (max_control_payload_bytes + max_frame_header_bytes ≤ w.max_write_buffer_size)
    × (w.write_buffer_size < w.max_write_buffer_size)
    × (w.max_message_size ≡ some default.max_message_size)
    × (w.max_frame_size ≡ w.max_message_size)
websocket_config_room_example = websocket_config_room permits default default-IsValid

websocket_config_narrow_example :
    (default.max_buffered_bytes + max_frame_header_bytes
      ≤ (websocket_config 32 default).max_write_buffer_size)
    ↔ (default.max_buffered_bytes + max_frame_header_bytes ≤ u32_max)
websocket_config_narrow_example = websocket_config_narrow permits default default-IsValid

abbrev pub failure_frame : CloseFrame
failure_frame = record { code = other 1011; reason = "failed" }

abbrev failure_info : CloseInfo
failure_info = record { code = some 1011; initiated_by_local = false; reason = "failed" }

-- The diagnostic text of the tests in src/error.rs.
describe_failure : describe failure_info ≡ "connection closed by remote endpoint with code 1011"
unfolding describe to_string
describe_failure = refl
