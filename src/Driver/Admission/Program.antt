-- ===== src/Driver/Admission/Program.antt =====
-- The programs of the writer of src/driver.rs at work on the outbound queue: what their calls do to it
-- and to the sink, while the sends go on.
use fogws.Prelude.{◌≡◌, ◌⊎◌, false, none, some, List, [], ◌∷◌, ◌++◌}
use fogws.Config.{ConnectionConfig}
use fogws.Tokio.Semaphore.{Semaphore}
use fogws.Tokio.Mpsc.{Mpsc}
use fogws.Driver.Wire.{Message, Tungstenite}
use fogws.Driver.Leads.{World}
use fogws.Driver.Task.{Op, Answer, writer_select, event, outbound, sink_send, respond}
use fogws.Driver.Writer.{normal_close}
use fogws.Driver.Admission.{OutboundCommand, drop_command}
use fogws.Driver.Admission.Senders.{Senders, Reach, here, next}

-- The calls that touch neither the outbound queue nor what the sink is given.
abbrev pub Neutral : Op → Type 0
Neutral writer_select = ⊥
Neutral (sink_send _) = ⊥
Neutral (respond _) = ⊥
Neutral _ = Unit

module _ (sem : Semaphore) (chan : Mpsc) (w : Tungstenite) (config : ConnectionConfig) where
  open chan use {recv, is_closed}

  -- The outbound path, with the messages that the sink has been given, in order.
  pub record Output : Type 0 where
    pub path : Senders sem chan
    pub written : List Message

  -- The sends move, and leave the writer's end of the queue.
  pub record Aside (x y : Output) : Type 0 where
    pub run : Reach sem chan w config x.path y.path
    pub writing : y.path.writing ≡ x.path.writing
    pub taken : y.path.taken ≡ x.path.taken
    pub open_still : is_closed y.path.out.outbound ≡ is_closed x.path.out.outbound
    pub written : y.written ≡ x.written

  -- The writer has no command in hand and its receiver.
  pub record Free (x : Output) : Type 0 where
    pub none_held : x.path.writing ≡ none
    pub open_still : is_closed x.path.out.outbound ≡ false

  -- The writer has a command in hand.
  pub record Holding (x : Output) : Type 0 where
    pub command : OutboundCommand sem
    pub held : x.path.writing ≡ some command
    pub open_still : is_closed x.path.out.outbound ≡ false

  -- What a call needs: to take a command, a free hand, and that all that were taken have been given to
  -- the sink; the message that the sink is given is the one that was taken last, and all before it have
  -- been given, or it is the writer's close frame, after all that were taken; a response is for the
  -- command in hand, whose message has been given.
  abbrev pub Owed : Op → Output → Type 0
  Owed writer_select x = Free x × (x.path.taken ≡ x.written)
  Owed (sink_send m) x =
      (Holding x × (x.path.taken ≡ x.written ++ (m ∷ [])))
      ⊎ (Free x × (x.path.taken ≡ x.written) × (m ≡ normal_close))
  Owed (respond _) x = Holding x × (x.path.taken ≡ x.written)
  Owed _ x = Unit

  -- The two steps of the writer on the queue. The command in hand is dropped at the end of its arm,
  -- which follows the response.
  pub record Taken (m : Message) (x y : Output) : Type 0 where
    pub command : OutboundCommand sem
    pub rest : chan.Channel (OutboundCommand sem)
    pub received : recv x.path.out.outbound ≡ some (command, rest)
    pub same : command.message ≡ m
    pub now : y ≡ record x {
      path = record x.path {
        out = record x.path.out { outbound = rest };
        writing = some command;
        taken = x.path.taken ++ (command.message ∷ []);
      };
    }

  pub record Dropped (x y : Output) : Type 0 where
    pub command : OutboundCommand sem
    pub held : x.path.writing ≡ some command
    pub now : y ≡ record x {
      path = record x.path { out = drop_command sem chan command x.path.out; writing = none };
    }

  abbrev pub Effect : (o : Op) → Answer o → Output → Output → Type 0
  Effect writer_select (event (outbound (some m))) x y = Taken m x y
  Effect (sink_send m) _ x y = y ≡ record x { written = x.written ++ (m ∷ []) }
  Effect (respond _) _ x y = Dropped x y
  Effect _ _ x y = y ≡ x

  pub Neutral-Owed : (o : Op) (x : Output) → Neutral o → Owed o x
  Neutral-Owed writer_select x n = absurd n
  Neutral-Owed (sink_send m) x n = absurd n
  Neutral-Owed (respond r) x n = absurd n
  Neutral-Owed o x n = tt

  pub Neutral-Effect : (o : Op) (a : Answer o) (x y : Output) → Neutral o → Effect o a x y → y ≡ x
  Neutral-Effect writer_select a x y n e = absurd n
  Neutral-Effect (sink_send m) a x y n e = absurd n
  Neutral-Effect (respond r) a x y n e = absurd n
  Neutral-Effect o a x y n e = e

  -- The outbound path as the writer's programs see it.
  abbrev pub writing : World
  writing = record {
    State = Output;
    Aside = Aside;
    Owed = Owed;
    Effect = Effect;
    Neutral = Neutral;
    neutral_owed = Neutral-Owed;
    neutral_effect = Neutral-Effect;
  }

  pub Reach-trans :
      {s t u : Senders sem chan}
      → Reach sem chan w config s t
      → Reach sem chan w config t u
      → Reach sem chan w config s u
  Reach-trans r here = r
  Reach-trans r (next q st) = next (Reach-trans r q) st
