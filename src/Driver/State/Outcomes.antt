-- ===== src/Driver/State/Outcomes.antt =====
-- The outcomes of src/driver.rs: how a close frame becomes an outcome, what `close` makes of it, and
-- what `ensure_open` and `terminal_error` report in each state.
use Prim.Native.String.{String}
use fogws.Prelude.{ℕ, Bool, ◌≡◌, refl, ◌↔◌, ◌⊎◌, inl, Option, none, some, ok, arith}
use fogws.Error.{CloseInfo, DriverError, closed_error, closed_ok}
use fogws.Driver.Wire.{normal, away, CloseFrame, Tungstenite}
use fogws.Driver.State.{classify_close, close_result}

-- A close without a frame, or with the code `Normal` or `Away`.
abbrev pub IsCleanClose : Option CloseFrame → Type 0
IsCleanClose none = Unit
IsCleanClose (some frame) = (frame.code ≡ normal) ⊎ (frame.code ≡ away)

-- What the peer's frame said, as a caller sees it.
abbrev pub frame_code : Tungstenite → Option CloseFrame → Option ℕ
frame_code w none = none
frame_code w (some frame) = some (w.into_u16 frame.code)

abbrev pub frame_reason : Option CloseFrame → String
frame_reason none = ""
frame_reason (some frame) = frame.reason

abbrev pub Carries : CloseInfo → DriverError → Type 0
Carries info error = (error ≡ closed_ok info) ⊎ (error ≡ closed_error info)

clean_sound :
    (w : Tungstenite) (frame : Option CloseFrame) (local_side : Bool)
    → close_result (classify_close w frame local_side) ≡ ok tt
    → IsCleanClose frame
unfolding close_result classify_close
clean_sound w none local_side h = tt
clean_sound w (some frame) local_side h = ground arith

clean_complete :
    (w : Tungstenite) (frame : Option CloseFrame) (local_side : Bool)
    → IsCleanClose frame
    → close_result (classify_close w frame local_side) ≡ ok tt
unfolding close_result classify_close
clean_complete w none local_side h = refl
clean_complete w (some frame) local_side h = ground arith

-- `close` succeeds on the outcome of a close frame exactly when the frame is clean.
pub classify_close_clean :
    (w : Tungstenite) (frame : Option CloseFrame) (local_side : Bool)
    → (close_result (classify_close w frame local_side) ≡ ok tt) ↔ IsCleanClose frame
classify_close_clean w frame local_side =
    (clean_sound w frame local_side, clean_complete w frame local_side)

-- The outcome of a close frame carries the frame's code and reason and the side that began, and is a
-- clean or an abnormal close, whatever the code.
pub classify_close-Carries :
    (w : Tungstenite) (frame : Option CloseFrame) (local_side : Bool)
    → Carries
        (record {
          code = frame_code w frame;
          initiated_by_local = local_side;
          reason = frame_reason frame;
        })
        (classify_close w frame local_side)
unfolding classify_close
classify_close-Carries w none local_side = inl refl
classify_close-Carries w (some frame) local_side = ground arith
