-- ===== src/Config/Buffers.antt =====
-- The buffer sizes of `websocket_config` of src/config.rs, for each width of `usize`.
use fogws.Prelude.{ℕ, ◌+◌, ◌≤◌, ◌<◌, ◌≡◌, ◌↔◌, arith, some}
use fogws.Config.{
  ConnectionConfig, max_control_payload_bytes, max_frame_header_bytes, u32_max, websocket_config,
}
use fogws.Config.Limits.{IsValid}

-- With a 64-bit `usize` and valid limits the write buffer has room, each with a frame header, for
-- the whole byte budget, for a message of the largest size and for a control frame, and exceeds the
-- flush threshold; messages and frames have the same limit.
pub websocket_config_room :
    (max_permits : ℕ) (c : ConnectionConfig)
    → IsValid max_permits c
    → let w = websocket_config 64 c in
      (c.max_buffered_bytes + max_frame_header_bytes ≤ w.max_write_buffer_size)
      × (c.max_message_size + max_frame_header_bytes ≤ w.max_write_buffer_size)
      × (max_control_payload_bytes + max_frame_header_bytes ≤ w.max_write_buffer_size)
      × (w.write_buffer_size < w.max_write_buffer_size)
      × (w.max_message_size ≡ some c.max_message_size)
      × (w.max_frame_size ≡ w.max_message_size)
unfolding websocket_config
websocket_config_room max_permits c v = ground arith

-- With a 32-bit `usize` the same limits leave the room for the budget and a header exactly when the
-- budget is at most `u32::MAX` less a header: above that the sum wraps.
pub websocket_config_narrow :
    (max_permits : ℕ) (c : ConnectionConfig)
    → IsValid max_permits c
    → (c.max_buffered_bytes + max_frame_header_bytes
        ≤ (websocket_config 32 c).max_write_buffer_size)
      ↔ (c.max_buffered_bytes + max_frame_header_bytes ≤ u32_max)
unfolding websocket_config
websocket_config_narrow max_permits c v = ground arith
