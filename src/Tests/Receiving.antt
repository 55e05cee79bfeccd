-- ===== src/Tests/Receiving.antt =====
-- The inbound path at work: one message queued, and one receive that takes it.
use fogws.Prelude.{
  ◌+◌, ◌≤◌, ◌≡◌, ◌⊎◌, refl, arith, true, false, none, some, ok, [], ◌∷◌, ◌++◌, map, sum_of,
}
use fogws.Config.{default}
use fogws.Driver.Wire.{text}
use fogws.Driver.State.{InboundMessage, open_, running, terminal_error}
use fogws.Driver.Receive.{
  InboundEnvelope, claim, receive, release, acquire_budget, send_inbound, drop_sender,
}
use fogws.Driver.Receive.Receivers.{
  Receivers, Step, Reach, start, claims, receives, acquires, queues, finds_end, reader_ends, here,
  next,
}
use fogws.Driver.Receive.Account.{inbound_len, waiting, envelope_message}
use fogws.Driver.Receive.Results.{IsRefused, one_receive, inbound_bounded, received_in_order}
use fogws.Driver.Receive.Outcomes.{Waits, Returns, Fails, receive_outcomes}
use fogws.Driver.Receive.Emptied.{Emptied, queue-Emptied}
use fogws.Driver.Leads.{Leads}
use fogws.Driver.Receive.Input.{reading}
use fogws.Driver.Receive.Delivered.{Delivered, run_reader-Delivered}
use fogws.Driver.Reader.{run_reader}
use fogws.Tests.Samples.{wire}
use fogws.Tests.Channels.{counting, slots}

abbrev Receiving : Type 0
Receiving = Receivers counting slots

abbrev fresh : Receiving
fresh = start counting slots wire default

abbrev greeting : InboundMessage
greeting = InboundMessage.text "hello"

abbrev envelope : InboundEnvelope counting
envelope = record { message = greeting; permit = 5 }

abbrev holding : Receiving
holding = record fresh {
  shared = record fresh.shared { inbound_budget = 1048571 };
  holding = some envelope;
}

acquires_one : Step counting slots wire default fresh holding
unfolding acquire_budget
acquires_one = acquires (text "hello") refl refl refl (omega arith) refl

abbrev queueing : Receiving
queueing = record holding {
  shared = record holding.shared {
    inbound = record { items = envelope ∷ []; free = 15; shut = false };
  };
  holding = none;
  delivered = greeting ∷ [];
}

queues_one : Step counting slots wire default holding queueing
unfolding send_inbound
queues_one = queues refl refl

abbrev busy : Receiving
busy = record queueing { shared = record queueing.shared { receive_active = true }; receiving = 1 }

claims_guard : Step counting slots wire default queueing busy
unfolding claim
claims_guard = claims refl

busy-Reach : Reach counting slots wire default fresh busy
busy-Reach = next (next (next here acquires_one) queues_one) claims_guard

abbrev drained : Receiving
drained = record busy {
  shared = record {
    inbound = record { items = []; free = 16; shut = false };
    inbound_budget = 1048576;
    receive_active = false;
    sender_dropped = false;
  };
  receiving = 0;
  received = greeting ∷ [];
}

receives_one : Step counting slots wire default busy drained
unfolding receive
receives_one = receives open_ refl refl

drained-Reach : Reach counting slots wire default fresh drained
drained-Reach = next busy-Reach receives_one

one_receive_example :
    ((busy.receiving ≡ 0) × (claim busy.shared.receive_active ≡ (true, ok tt)))
    ⊎ ((busy.receiving ≡ 1) × IsRefused busy.shared.receive_active)
one_receive_example = one_receive counting slots wire default busy-Reach

inbound_bounded_example :
    (1 ≤ 16)
    × (1048571 + 0 + sum_of (λ e. inbound_len counting slots wire default e.message) (envelope ∷ [])
        ≡ 1048576)
inbound_bounded_example = inbound_bounded counting slots wire default busy-Reach

received_in_order_example :
    busy.delivered
    ≡ busy.received
      ++ map
          (envelope_message counting slots wire default)
          (waiting counting slots wire default busy)
received_in_order_example = received_in_order counting slots wire default busy-Reach

-- The reader ends, and the next receive finds the end of the queue.
abbrev ended : Receiving
ended = record drained { shared = record drained.shared { sender_dropped = true } }

ends : Step counting slots wire default drained ended
unfolding drop_sender
ends = reader_ends refl

abbrev claimed : Receiving
claimed = record ended { shared = record ended.shared { receive_active = true }; receiving = 1 }

claims_last : Step counting slots wire default ended claimed
unfolding claim
claims_last = claims refl

claimed-Reach : Reach counting slots wire default fresh claimed
claimed-Reach = next (next drained-Reach ends) claims_last

finds_nothing : Step counting slots wire default claimed ended
unfolding receive release
finds_nothing = finds_end open_ refl refl

receive_outcomes_example :
    Waits counting slots wire default (receive counting slots open_ claimed.shared) claimed
    ⊎ Returns counting slots wire default (receive counting slots open_ claimed.shared) claimed
    ⊎ Fails counting slots wire default
        (receive counting slots open_ claimed.shared)
        (terminal_error open_)
        claimed
        ended
receive_outcomes_example =
    receive_outcomes counting slots wire default claimed-Reach (next here finds_nothing) open_

queue-Emptied_example : (u : Receiving) × Emptied counting slots wire default busy u
queue-Emptied_example = queue-Emptied counting slots wire default busy-Reach open_

run_reader-Delivered_example :
    Leads
      (reading counting slots wire default)
      (run_reader wire 3)
      (λ _. Delivered counting slots wire default)
      (record { path = fresh; read = []; signal = running })
run_reader-Delivered_example = run_reader-Delivered counting slots wire default 3
