-- ===== src/Tests/Sending.antt =====
-- The outbound path at work: one message admitted, sent and taken, and one that is sent after the
-- writer's end.
use fogws.Prelude.{◌+◌, ◌≤◌, ◌≡◌, ◌↔◌, refl, false, ok, err, [], ◌∷◌, ◌++◌, map, sum_of, All}
use fogws.Error.{DriverError, resource_limit}
use fogws.Config.{default}
use fogws.Driver.Wire.{Message, text}
use fogws.Driver.State.{open_, ensure_open}
use fogws.Driver.Admission.{
  OutboundCommand, OutboundAdmission, Outbound, admit_bytes, admit_item, send_admitted,
  try_admit_outbound,
}
use fogws.Driver.Admission.Senders.{Senders, Step, Reach, start, enters, admits, sends, here, next}
use fogws.Driver.Admission.Ledger.{queued, message_of}
use fogws.Driver.Admission.Results.{
  held, bytes_conserved, queue_bounded, sent_in_order, Admissible, try_admit_outbound-ok_iff,
}
use fogws.Driver.Admission.Emptied.{Emptied, commands-Emptied}
use fogws.Driver.Writer.{run_writer}
use fogws.Driver.Leads.{Leads}
use fogws.Driver.Admission.Program.{writing}
use fogws.Driver.Admission.Written.{Handed, run_writer-Handed}
use fogws.Tests.Samples.{wire}
use fogws.Tests.Channels.{counting, slots}
use fogws.Tests.Settings.{permits, default-IsValid}

abbrev pub hello : Message
hello = text "hello"

abbrev pub Sending : Type 0
Sending = Senders counting slots

abbrev pub fresh : Sending
fresh = start counting slots wire default

abbrev pub admission : OutboundAdmission counting
admission = record { byte_permit = 5; message_size = 5 }

abbrev pub entering : Sending
entering = record fresh {
  out = record fresh.out { outbound_budget = 1048571 };
  entering = admission ∷ [];
}

enters_one : Step counting slots wire default fresh entering
unfolding admit_bytes ensure_open
enters_one = enters open_ 5 refl

abbrev pub admitted : Sending
admitted = record entering {
  out = record entering.out { outbound = record { items = []; free = 15; shut = false } };
  entering = [];
  admitted = admission ∷ [];
}

admits_one : Step counting slots wire default entering admitted
unfolding admit_item
admits_one = admits open_ [] admission [] refl refl

abbrev pub command : OutboundCommand counting
command = record { message = hello; permit = 5 }

abbrev pub queueing : Sending
queueing = record admitted {
  out = record admitted.out { outbound = record { items = command ∷ []; free = 15; shut = false } };
  admitted = [];
  sent = hello ∷ [];
}

sends_one : Step counting slots wire default admitted queueing
unfolding send_admitted
sends_one = sends [] admission [] hello refl refl

queueing-Reach : Reach counting slots wire default fresh queueing
queueing-Reach = next (next (next here enters_one) admits_one) sends_one

bytes_conserved_example : 1048571 + held counting slots wire default queueing ≡ 1048576
bytes_conserved_example = bytes_conserved counting slots wire default queueing-Reach

queue_bounded_example :
    (1 ≤ 16)
    × (sum_of (λ c. wire.message_len c.message) (command ∷ []) ≤ 1048576)
    × All (λ c. wire.message_len c.message ≤ 1048576) (command ∷ [])
queue_bounded_example = queue_bounded counting slots wire default queueing-Reach

sent_in_order_example :
    queueing.sent
    ≡ queueing.taken
      ++ map (message_of counting slots wire default) (queued counting slots wire default queueing)
sent_in_order_example = sent_in_order counting slots wire default queueing-Reach refl

try_admit_outbound-ok_iff_example :
    ((u : Outbound counting slots) × (a : OutboundAdmission counting) × (try_admit_outbound counting
          slots default open_ open_ 7 queueing.out
        ≡ (u, ok a)))
    ↔ Admissible counting slots wire default open_ 7 queueing
try_admit_outbound-ok_iff_example =
    try_admit_outbound-ok_iff counting slots wire default queueing-Reach permits default-IsValid
      open_ open_ 7

abbrev exhausted : Outbound counting slots
exhausted = record queueing.out { outbound_budget = 3 }

abbrev no_bytes : DriverError
no_bytes =
    resource_limit "outbound byte budget is exhausted; retry after an accepted send completes"

refused_hello :
    try_admit_outbound counting slots default open_ open_ 5 exhausted ≡ (exhausted, err no_bytes)
unfolding try_admit_outbound admit_bytes ensure_open
refused_hello = refl

commands-Emptied_example : (u : Sending) × Emptied counting slots wire default queueing u
commands-Emptied_example = commands-Emptied counting slots wire default queueing-Reach refl

run_writer-Handed_example :
    Leads
      (writing counting slots wire default)
      (run_writer wire 3)
      (λ _. Handed counting slots wire default)
      (record { path = start counting slots wire default; written = [] })
run_writer-Handed_example = run_writer-Handed counting slots wire default 3
