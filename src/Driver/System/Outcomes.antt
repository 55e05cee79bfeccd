-- ===== src/Driver/System/Outcomes.antt =====
-- The outcome of a connection of src/driver.rs, in every reachable state: for every order of the
-- tasks' steps, every answer of the network and any number of calls of `close` and `abort`.
use fogws.Prelude.{
  ℕ, ◌≤◌, ◌≡◌, sym, ap, subst, ◌∙◌, ◌⊎◌, arith, List, ◌∷◌, ◌++◌, Result, true, All, All-behind,
}
use fogws.Error.{DriverError}
use fogws.Tokio.{Watch}
use fogws.Driver.Wire.{Tungstenite}
use fogws.Driver.State.{closed, peer_closed, close_result}
use fogws.Driver.Close.{abandoned}
use fogws.Driver.Task.{done}
use fogws.Driver.Order.{Inv, IsClosed, rank, signal_rank}
use fogws.Driver.Logic.{writer, caller}
use fogws.Driver.Store.{view}
use fogws.Driver.System.{Outcome, close_returned, Thread, System, Reach, start}
use fogws.Driver.System.Safe.{Ended, ThreadPost}
use fogws.Driver.System.Moved.{OtherSafe}
use fogws.Driver.System.Invariant.{Good, start-Good}
use fogws.Driver.System.Safety.{Runs-ended, Reach-Good, Reach-Later}

-- A thread of a list, with the place at which it stands.
pub record Holds (ths : List Thread) (th : Thread) : Type 0 where
  pub before : List Thread
  pub behind : List Thread
  pub split : ths ≡ before ++ (th ∷ behind)

module _ (t : Watch) (w : Tungstenite) (fuel : ℕ) where
  Good-at : {s : System t} → Reach t (start t w fuel) s → Good t s
  Good-at r = Reach-Good t r (start-Good t w fuel)

  pub other-Ended :
      {s : System t}
      → Reach t (start t w fuel) s
      → (th : Thread) → Holds s.others th
      → (x : Outcome) → th.prog ≡ done x
      → Ended th.role x (view t s.store)
  other-Ended {s} r th h x e =
      let safe =
        (All-behind _ h.before (th ∷ h.behind)
          (subst (All (OtherSafe (view t s.store))) h.split (Good-at r).others_safe)).0.safe in
      (Runs-ended th.role th.prog x (ThreadPost th.role) th.guards (view t s.store) e safe).1

  -- In a reachable state an abort is signalled only for a closed connection, the peer's close only
  -- for one that is closed or has the peer's outcome, and the local close only for one that is no
  -- longer open; the abort handles are used only on a closed connection; and a connection that is
  -- closing or has the peer's outcome is marked as closing.
  pub reachable-Inv : {s : System t} → Reach t (start t w fuel) s → Inv (view t s.store)
  reachable-Inv r = (Good-at r).inv

  -- Once a connection is closed, its outcome never changes.
  pub final_outcome :
      {s u : System t}
      → Reach t (start t w fuel) s
      → Reach t s u
      → (e : DriverError) → (view t s.store).state ≡ closed e
      → (view t u.store).state ≡ closed e
  final_outcome r q e h = ground (arith, (Reach-Later t q (Good-at r)).keeps_closed)

  -- An outcome that the peer's close gave stands, becomes the final one unchanged, or is replaced by
  -- the one of an abandoned connection; no failure of the writer, timeout or other task replaces it.
  pub peer_outcome_kept :
      {s u : System t}
      → Reach t (start t w fuel) s
      → Reach t s u
      → (e : DriverError) → (view t s.store).state ≡ peer_closed e
      → ((view t u.store).state ≡ peer_closed e)
        ⊎ ((view t u.store).state ≡ closed e)
        ⊎ ((view t u.store).state ≡ closed abandoned)
  peer_outcome_kept r q e h = ground (arith, (Reach-Later t q (Good-at r)).keeps_peer)

  -- A connection only advances, from open over closing and the peer's outcome to closed, and its
  -- signal from running over the local and the peer's close to an abort; the mark of closing stays.
  pub only_advances :
      {s u : System t}
      → Reach t (start t w fuel) s
      → Reach t s u
      → (rank (view t s.store).state ≤ rank (view t u.store).state)
        × (signal_rank (view t s.store).shutdown ≤ signal_rank (view t u.store).shutdown)
        × ((view t s.store).closing ≡ true → (view t u.store).closing ≡ true)
  only_advances r q =
      let later = Reach-Later t q (Good-at r) in (later.state_up, later.signal_up, later.closing_up)

  -- When the reader task has ended, by itself or by an abort, the connection is closed.
  pub reader_end-IsClosed :
      {s : System t}
      → Reach t (start t w fuel) s
      → (x : Outcome) → s.reader.prog ≡ done x
      → IsClosed (view t s.store).state
  reader_end-IsClosed {s} r x e =
      let good = Good-at r in
      subst (λ role. Ended role x (view t s.store)) good.reader_role
        (Runs-ended s.reader.role s.reader.prog x (ThreadPost s.reader.role) s.reader.guards _ e
          good.reader_safe).1

  -- When the writer task has ended, by itself or by an abort, the connection is closed.
  pub writer_end-IsClosed :
      {s : System t}
      → Reach t (start t w fuel) s
      → (th : Thread) → Holds s.others th
      → th.role ≡ writer
      → (x : Outcome) → th.prog ≡ done x
      → IsClosed (view t s.store).state
  writer_end-IsClosed {s} r th h role x e =
      subst (λ k. Ended k x (view t s.store)) role (other-Ended r th h x e)

  -- A call of `close` that has returned gave the result that the connection's final outcome stands
  -- for: success for a clean close, and the outcome itself as the error otherwise.
  pub close_returns_outcome :
      {s : System t}
      → Reach t (start t w fuel) s
      → (th : Thread) → Holds s.others th
      → th.role ≡ caller
      → (result : Result (Unit {0}) DriverError) → th.prog ≡ done (close_returned result)
      → (e : DriverError) × ((view t s.store).state ≡ closed e) × (result ≡ close_result e)
  close_returns_outcome {s} r th h role result e =
      subst (λ k. Ended k (close_returned result) (view t s.store)) role (other-Ended r th h _ e)

  -- All calls of `close` that have returned gave the same result.
  pub close_results_agree :
      {s : System t}
      → Reach t (start t w fuel) s
      → (a b : Thread) → Holds s.others a
      → Holds s.others b
      → a.role ≡ caller
      → b.role ≡ caller
      → (x y : Result (Unit {0}) DriverError) → a.prog ≡ done (close_returned x)
      → b.prog ≡ done (close_returned y)
      → x ≡ y
  close_results_agree r a b ha hb ra rb x y ea eb =
      let (e, ce, re) = close_returns_outcome r a ha ra x ea in
      let (f, cf, rf) = close_returns_outcome r b hb rb y eb in
      re ∙ ap close_result (cc (sym ce ∙ cf)) ∙ sym rf
