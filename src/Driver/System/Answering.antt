-- ===== src/Driver/System/Answering.antt =====
-- The responses of the writer of src/driver.rs to the senders of its commands, whatever the network and
-- the other tasks do, its abort included.
use fogws.Prelude.{
  ◌≡◌, refl, ◌∙◌, Bool, true, false, sym, ap, arith, Option, none, some, Result, ok, err, List, [],
  ◌∷◌, ◌++◌,
}
use fogws.Error.{DriverError}
use fogws.Driver.Wire.{Message, Tungstenite}
use fogws.Driver.State.{
  DriverState, closed, closing, open_, peer_closed, writer_failure_update, is_terminal,
  terminal_error,
}
use fogws.Driver.Task.{Op, Answer, Task, done, call, respond, outbound, halt, is_await}
use fogws.Driver.Publish.{publish_writer_failure, signal_abort}
use fogws.Driver.Writer.{WriterRound, finished, writer_event, writer_failure}
use fogws.Driver.View.{View, after, Allowed}
use fogws.Driver.Order.{Later, KeepsClosed, Inv, IsClosed}
use fogws.Driver.Logic.{writer, Env}
use fogws.Driver.System.{MayDrop}
use fogws.Driver.Admission.{send_response}

abbrev is_halt : Op → Bool
is_halt halt = true
is_halt _ = false

abbrev pub Responses : Type 0
Responses = List (Result (Unit {0}) DriverError)

-- The program of the writer ends, with every answer that its calls can get and every move of the
-- others before each call, and never runs out of fuel; then `Q` holds of the responses that it has
-- sent, those in the list first. At each await it may be dropped instead, where the abort handle has
-- been used; then `D` holds of them.
unfoldable pub Responds :
    {R : Type 0}
    → Task R
    → (Responses → R → View → Type 0)
    → (Responses → View → Type 0)
    → Responses
    → View
    → Type 0
Responds (done x) Q D sent v = Q sent x v
Responds (call (respond result) k) Q D sent v =
    (u : View) → Env writer v u → Inv u → Responds (k tt) Q D (sent ++ (result ∷ [])) u
Responds (call o k) Q D sent v =
    (is_halt o ≡ false)
    × ((u : View)
        → Env writer v u
        → Inv u
        → (is_await o ≡ true → MayDrop writer u → D sent u)
          × ((a : Answer o) → Allowed o u a → Responds (k a) Q D sent (after o u)))

-- What a sender whose command got these responses returns, from `v` on.
abbrev pub first_of : Responses → Option (Result (Unit {0}) DriverError)
first_of [] = none
first_of (response ∷ _) = some response

abbrev pub SenderGets : Responses → Result (Unit {0}) DriverError → View → Type 0
SenderGets sent result v = (u : View) → Later v u → send_response u.state (first_of sent) ≡ result

-- One response: of success, or of the connection's final outcome, after which the writer ends.
pub data Answered (sent : Responses) (round : WriterRound) (v : View) : Type 0 where
  accepted : sent ≡ ok tt ∷ [] → round ≡ none → SenderGets sent (ok tt) v → Answered sent round v
  failed :
      {terminal : DriverError}
      → sent ≡ err terminal ∷ []
      → round ≡ some finished
      → v.state ≡ closed terminal
      → SenderGets sent (err terminal) v
      → Answered sent round v

-- No response, on a connection that is closed.
pub record Unanswered (sent : Responses) (v : View) : Type 0 where
  pub terminal : DriverError
  pub nothing_sent : sent ≡ []
  pub final : v.state ≡ closed terminal
  pub sender_fails : SenderGets sent (err terminal) v

failure_final :
    (error : DriverError) (s : DriverState)
    → (writer_failure_update error s).0 ≡ closed (writer_failure_update error s).2
unfolding writer_failure_update is_terminal
failure_final error s = ground arith

closed_stays : (s t : DriverState) (e : DriverError) → s ≡ closed e → KeepsClosed s t → t ≡ closed e
closed_stays s t e now keeps = ground arith

closed-cases : (s : DriverState) → IsClosed s → (e : DriverError) × (s ≡ closed e)
closed-cases (closed e) p = (e, refl)
closed-cases closing p = absurd p
closed-cases open_ p = absurd p
closed-cases (peer_closed e) p = absurd p

responded : (r : Result (Unit {0}) DriverError) (v : View) → SenderGets (r ∷ []) r v
unfolding send_response
responded r v u later = refl

terminal_reported :
    (s : DriverState) (e : DriverError) → s ≡ closed e → send_response s none ≡ err e
unfolding send_response terminal_error
terminal_reported s e h = ground arith

aborted-Unanswered : (v : View) → Inv v → MayDrop writer v → Unanswered [] v
aborted-Unanswered v inv may =
    let (e, final) = closed-cases v.state (inv.writer_aborted_closed may) in
    record {
      terminal = e;
      nothing_sent = refl;
      final = final;
      sender_fails = λ u later.
          terminal_reported u.state e (closed_stays v.state u.state e final later.keeps_closed);
    }

-- A command that the writer takes is answered exactly once, and its sender returns the answer: success,
-- after which the loop goes on, or, if the socket refused the message, the error that is the
-- connection's final outcome. Or the writer is aborted before it answers; then the connection is
-- closed, and the sender, whose response is dropped, returns the final outcome.
pub command-Answered :
    (w : Tungstenite) (message : Message) (v : View)
    → Responds (writer_event w (outbound (some message))) Answered Unanswered [] v
unfolding Responds writer_event writer_failure publish_writer_failure signal_abort after
command-Answered w message v = (
  refl,
  λ u env inv. (
    λ _ may. aborted-Unanswered u inv may,
    elim [
      | ok _ ↦ λ _ x env' inv'. accepted refl refl (responded (ok tt) x)
      | err error ↦ λ _. (
        refl,
        λ x _ _. (
          λ e _. cc,
          λ terminal told. (
            refl,
            λ y env'' _. (
              λ e _. cc,
              λ _ _ z env''' _.
                  let now = failure_final _ x.state ∙ ap closed (sym told) in
                  let at_y = closed_stays _ y.state terminal now env''.later.keeps_closed in
                  failed refl refl
                    (closed_stays y.state z.state terminal at_y env'''.later.keeps_closed)
                    (responded (err terminal) z),
            ),
          ),
        ),
      )
    ],
  ),
)
