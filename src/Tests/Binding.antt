-- ===== src/Tests/Binding.antt =====
-- The Python bindings at concrete inputs.
use Prim.Native.String.{len}
use fogws.Prelude.{ℕ, ◌≡◌, ◌↔◌, inl, refl, arith, true, false, Option, none, some, ok, err, [], ◌∷◌}
use fogws.Error.{describe}
use fogws.Config.{
  default, default_max_queue, default_max_message_size, default_max_buffered_bytes, new,
}
use fogws.Config.Limits.{IsValid}
use fogws.Python.{
  PyErr, Attribute, new_err, loop_affinity_error, resource_limit_error, connection_closed,
  connection_closed_ok,
}
use fogws.Runtime.{after_fork, ensure_current_process}
use fogws.Driver.Wire.{text}
use fogws.Driver.State.{open_, classify_close, ensure_open}
use fogws.Driver.State.Outcomes.{IsCleanClose, frame_code, frame_reason}
use fogws.Driver.Admission.{
  OutboundAdmission, Outbound, try_admit_outbound, send_admitted, admit_bytes, admit_item,
  validate_outbound_message,
}
use fogws.Bindings.Exceptions.{driver_error_to_python}
use fogws.Bindings.Exceptions.Classes.{IsSubclass, close_frame_exception}
use fogws.Bindings.Connection.{
  Context, PyText, Reads, Future, sending, start_text, abort_actions, drop_connection,
  driver_forgotten, Connecting, connect, current_loop, extract_limit,
}
use fogws.Bindings.Guards.{RefusesAll, loop_error, forked_process_refused, other_loop_refused}
use fogws.Bindings.Sends.{MeasuresBytes, start_text-ok_iff, started_send_accepted}
use fogws.Bindings.Connects.{Chosen, connecting-IsValid, connecting_refusals}
use fogws.Tests.Samples.{wire}
use fogws.Tests.Settings.{seconds, permits, failure_frame}
use fogws.Tests.Channels.{counting, slots}
use fogws.Tests.Sending.{queueing}

-- Attributes can always be set.
abbrev pub sets : Attribute → PyErr → Option PyErr
sets a e = none

close_frame_exception_example :
    let e = driver_error_to_python sets (classify_close wire (some failure_frame) false) in
    ((e.kind ≡ connection_closed_ok) ↔ IsCleanClose (some failure_frame))
    × (e.code ≡ frame_code wire (some failure_frame))
    × (e.reason ≡ frame_reason (some failure_frame))
    × (e.initiated_by_local ≡ some false)
    × (e.message
        ≡ describe (record {
          code = frame_code wire (some failure_frame);
          initiated_by_local = false;
          reason = "";
        }))
    × IsSubclass connection_closed e.kind
close_frame_exception_example =
    close_frame_exception sets (λ a e. refl) wire (some failure_frame) false

abbrev child : Context
child = record { process = 101; owner_process = some 100; running_loop = some 1 }

abbrev pub still_open : Reads
still_open = record { checked = open_; before = open_; after = open_ }

abbrev pub hi : PyText
hi = record { chars = ok 2; to_str = ok "hi" }

forked_process_refused_example :
    RefusesAll sets counting slots default child 1 still_open hi
      (1 ∷ [])
      queueing.out
      (some 100)
      after_fork
    × (abort_actions child true ≡ [])
    × (drop_connection child ≡ driver_forgotten)
forked_process_refused_example =
    forked_process_refused sets counting slots default child 1 100 still_open hi (1 ∷ [])
      queueing.out true refl (omega arith)

abbrev elsewhere : Context
elsewhere = record { process = 100; owner_process = some 100; running_loop = none }

other_loop_refused_example :
    RefusesAll sets counting slots default elsewhere 1 still_open hi
      (1 ∷ [])
      queueing.out
      (some 100)
      (loop_error none)
    × ((loop_error none).kind ≡ loop_affinity_error)
other_loop_refused_example =
    other_loop_refused sets counting slots default elsewhere 1 still_open hi (1 ∷ []) queueing.out
      refl (cc)

abbrev pub admission : OutboundAdmission counting
admission = record { byte_permit = 2; message_size = 2 }

abbrev pub admitted : Outbound counting slots
admitted = record {
  outbound_budget = 1048569;
  outbound = record queueing.out.outbound { free = 14 };
}

abbrev started : Future counting
started = sending admission (text "hi")

start_text-ok_iff_example :
    (start_text sets counting slots default still_open hi queueing.out
      ≡ (admitted, ok (sending admission (text "hi"))))
    ↔ ((a : OutboundAdmission counting) × (try_admit_outbound counting slots default open_ open_
            (len "hi")
            queueing.out
          ≡ (admitted, ok a))
        × (started ≡ sending a (text "hi")))
start_text-ok_iff_example =
    start_text-ok_iff sets counting slots default open_ open_ hi 2 "hi" queueing.out admitted
      (sending admission (text "hi")) refl refl (omega arith)

measures : MeasuresBytes wire
measures = record { text_bytes = λ s. refl; binary_bytes = λ b. refl }

starts :
    start_text sets counting slots default still_open hi queueing.out
    ≡ (admitted, ok (sending admission (text "hi")))
unfolding start_text try_admit_outbound admit_bytes admit_item ensure_open validate_outbound_message
starts = refl

started_send_accepted_example :
    (send_admitted counting slots wire admission (text "hi") admitted).1 ≡ ok tt
started_send_accepted_example =
    started_send_accepted sets counting slots default wire measures still_open hi [] queueing.out
      admitted admitted admission (text "hi") (inl starts)

-- A number of Python below 2 ^ 64 converts.
abbrev usize : ℕ → Option ℕ
usize n = some n

abbrev importer : Context
importer = record { process = 100; owner_process = none; running_loop = some 1 }

abbrev connecting : Connecting
connecting = record { uri = "ws://a"; config = record default { max_queue = 4 }; owner_loop = 1 }

connects :
    connect usize sets seconds permits importer "ws://a" (some 4) none none 10
    ≡ (some 100, ok connecting)
unfolding connect ensure_current_process current_loop extract_limit new
connects = refl

connecting-IsValid_example :
    (connecting.uri ≡ "ws://a")
    × (importer.running_loop ≡ some connecting.owner_loop)
    × IsValid permits connecting.config
    × Chosen usize default_max_queue (some 4) connecting.config.max_queue
    × Chosen usize default_max_message_size none connecting.config.max_message_size
    × Chosen usize default_max_buffered_bytes none connecting.config.max_buffered_bytes
    × (seconds 10 ≡ some connecting.config.close_timeout)
connecting-IsValid_example =
    connecting-IsValid usize sets seconds permits importer "ws://a" (some 4) none none 10 connects

abbrev empty_queue : PyErr
unfolding new_err
empty_queue = new_err resource_limit_error "max_queue must be greater than zero"

refuses :
    connect usize sets seconds permits importer "ws://a" (some 0) none none 10
    ≡ (some 100, err empty_queue)
unfolding connect ensure_current_process current_loop extract_limit new driver_error_to_python
refuses = refl

current_process_ok : (ensure_current_process importer.process importer.owner_process).1 ≡ ok tt
unfolding ensure_current_process
current_process_ok = refl

connecting_refusals_example : empty_queue.kind ≡ resource_limit_error
connecting_refusals_example =
    connecting_refusals usize sets seconds permits importer "ws://a" (some 0) none none 10 1
      current_process_ok refl refuses
