-- ===== src/Bindings/Exceptions/Classes.antt =====
-- What a Python caller can tell from the exceptions of src/py.rs.
use fogws.Prelude.{
  ℕ, ◌≡◌, refl, sym, ap, subst, ◌↔◌, inl, inr, arith, String, Bool, Option, none, some, ok,
}
use fogws.Error.{
  CloseInfo, DriverError, closed_error, closed_ok, concurrency, connection_failed, invalid_uri,
  resource_limit, transport, describe,
}
use fogws.Python.{
  ExceptionClass, connection_closed, connection_closed_ok, PyErr, Attribute, base, new_err,
  set_code, set_reason, set_initiated_by_local, connection_closed_error,
}
use fogws.Driver.Wire.{CloseFrame, Tungstenite}
use fogws.Driver.State.{classify_close, close_result}
use fogws.Driver.State.Outcomes.{
  IsCleanClose, frame_code, frame_reason, Carries, classify_close_clean, classify_close-Carries,
}
use fogws.Bindings.Exceptions.{attach_close_info, driver_error_to_python}

-- `except c:` catches an exception of class `d`: `c` is `d`, or a class above it.
pub data IsSubclass (c : ExceptionClass) : ExceptionClass → Type 0 where
  itself : IsSubclass c c
  below : {d e : ExceptionClass} → base d ≡ some e → IsSubclass c e → IsSubclass c d

-- `setattr` on exceptions of the module raises no error.
abbrev pub Settable : (Attribute → PyErr → Option PyErr) → Type 0
Settable setattr = (a : Attribute) (e : PyErr) → setattr a e ≡ none

module _ (setattr : Attribute → PyErr → Option PyErr) (settable : Settable setattr) where
  attached :
      (e : PyErr) (c : Option ℕ) (r : String) (l : Option Bool)
      → attach_close_info setattr e c r l
        ≡ record e { code = c; reason = r; initiated_by_local = l }
  unfolding attach_close_info
  attached e c r l = ground (
    arith,
    settable (set_code c) e,
    settable (set_reason r) (record e { code = c }),
    settable (set_initiated_by_local l) (record e { code = c; reason = r }),
  )

  carried :
      (info : CloseInfo) (e : DriverError)
      → Carries info e
      → let x = driver_error_to_python setattr e in
        ((x.kind ≡ connection_closed_ok) ↔ (close_result e ≡ ok tt))
        × ((x.code ≡ info.code)
            × (x.reason ≡ info.reason)
            × (x.initiated_by_local ≡ some info.initiated_by_local)
            × (x.message ≡ describe (record info { reason = "" }))
            × IsSubclass connection_closed x.kind)
  unfolding driver_error_to_python close_result new_err describe base
  carried info (closed_ok i) h =
      let a =
        attached (new_err connection_closed_ok (describe i)) i.code i.reason
          (some i.initiated_by_local) in
      (
        ground arith,
        (
          ground arith,
          ground arith,
          ground arith,
          ground arith,
          subst (IsSubclass connection_closed) (sym (ap (λ x. x.kind) a)) (below refl itself),
        ),
      )
  carried info (closed_error i) h =
      let a =
        attached (new_err connection_closed_error (describe i)) i.code i.reason
          (some i.initiated_by_local) in
      (
        ground arith,
        (
          ground arith,
          ground arith,
          ground arith,
          ground arith,
          subst (IsSubclass connection_closed) (sym (ap (λ x. x.kind) a)) (below refl itself),
        ),
      )
  carried info (concurrency _) h = absurd (elim h [ inl e ↦ cc | inr e ↦ cc ])
  carried info (connection_failed _) h = absurd (elim h [ inl e ↦ cc | inr e ↦ cc ])
  carried info (invalid_uri _) h = absurd (elim h [ inl e ↦ cc | inr e ↦ cc ])
  carried info (resource_limit _) h = absurd (elim h [ inl e ↦ cc | inr e ↦ cc ])
  carried info (transport _) h = absurd (elim h [ inl e ↦ cc | inr e ↦ cc ])

  -- The exception of a close frame can be caught as `ConnectionClosed`, and is a `ConnectionClosedOK`
  -- exactly if the frame is clean; its attributes are the frame's code and reason and the side that
  -- began, and its text is the one for an empty reason.
  pub close_frame_exception :
      (w : Tungstenite) (frame : Option CloseFrame) (local_side : Bool)
      → let e = driver_error_to_python setattr (classify_close w frame local_side) in
        ((e.kind ≡ connection_closed_ok) ↔ IsCleanClose frame)
        × (e.code ≡ frame_code w frame)
        × (e.reason ≡ frame_reason frame)
        × (e.initiated_by_local ≡ some local_side)
        × (e.message
            ≡ describe (record {
              code = frame_code w frame;
              initiated_by_local = local_side;
              reason = "";
            }))
        × IsSubclass connection_closed e.kind
  close_frame_exception w frame local_side =
      let info : CloseInfo = record {
        code = frame_code w frame;
        initiated_by_local = local_side;
        reason = frame_reason frame;
      } in
      let (kind, rest) =
        carried info (classify_close w frame local_side)
          (classify_close-Carries w frame local_side) in
      let clean = classify_close_clean w frame local_side in
      ((λ h. clean.0 (kind.0 h), λ h. kind.1 (clean.1 h)), rest.0, rest.1, rest.2, rest.3, rest.4)
