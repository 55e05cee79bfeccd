-- ===== src/Driver/System/Invariant.antt =====
-- Every step of a connection keeps each thread safe, the shared state in order, and the count of
-- tasks equal to the guards that are held.
use fogws.Prelude.{
  ℕ, ◌+◌, ◌≤◌, ◌≡◌, refl, sym, ap, subst, ◌∙◌, arith, List, ◌∷◌, ◌++◌, sum_of-append, All,
  All-append, All-front, All-behind, All-map,
}
use fogws.Tokio.{Watch}
use fogws.Driver.Wire.{Tungstenite}
use fogws.Driver.Task.{}
use fogws.Driver.View.{View, started}
use fogws.Driver.Order.{Inv, started-Inv}
use fogws.Driver.Logic.{Role, reader, writer, watchdog, caller, IsOther, IsReader, Moves}
use fogws.Driver.Store.{Store, view, start-view}
use fogws.Driver.System.{
  Thread, Move, System, Step, start, reader_moves, other_moves, closes, aborts,
}
use fogws.Driver.System.Moved.{guards_of, OtherSafe, Moved, Move-Moved}
use fogws.Driver.System.Safe.{
  Safe, Safe-later, reader_thread-Safe, writer_thread-Safe, close_thread-Safe, abort_thread-Safe,
}

module _ (t : Watch) where
  pub record Good (s : System t) : Type 0 where
    pub inv : Inv (view t s.store)
    pub reader_role : s.reader.role ≡ reader
    pub reader_safe : Safe s.reader (view t s.store)
    pub others_safe : All (OtherSafe (view t s.store)) s.others
    pub counted : (view t s.store).tasks_remaining ≡ s.reader.guards + guards_of s.others

  pub start-Good : (w : Tungstenite) (fuel : ℕ) → Good (start t w fuel)
  start-Good w fuel = record {
    inv = rw (start-view t) started-Inv;
    reader_role = refl;
    reader_safe = rw (start-view t) (reader_thread-Safe w fuel started tt);
    others_safe = (record { other = tt; safe = writer_thread-Safe w fuel _ }, tt);
    counted = ap (λ v. v.tasks_remaining) (start-view t);
  }

  -- How a thread sees the move of another one.
  others_later :
      (r : Role) (v w : View) → Moves r v w → (th : Thread) → OtherSafe v th → OtherSafe w th
  others_later r v w m th h = record {
    other = h.other;
    safe =
        Safe-later th v w
          (record {
            later = m.later;
            no_new_peer = λ is_reader. absurd (not_both th.role h.other is_reader);
          })
          h.safe;
  }
    where
      not_both : (r : Role) → IsOther r → IsReader r → ⊥
      not_both reader o i = o
      not_both writer o i = i
      not_both watchdog o i = i
      not_both caller o i = i

  -- The thread that moves among the others.
  mover_safe :
      {s : System t}
      → Good s
      → (before : List Thread) (mover : Thread) (behind : List Thread)
      → s.others ≡ before ++ (mover ∷ behind)
      → All (OtherSafe (view t s.store)) (mover ∷ behind)
        × (mover.guards ≤ (view t s.store).tasks_remaining)
  mover_safe {s} good before mover behind e =
      let total =
        subst (λ ths. (view t s.store).tasks_remaining ≡ s.reader.guards + guards_of ths) e
          good.counted in
      (
        All-behind _ before (mover ∷ behind)
            (subst (All (OtherSafe (view t s.store))) e good.others_safe),
        omega (arith, total, sum_of-append (λ (x : Thread). x.guards) before (mover ∷ behind)),
      )

  pub mover-Moved :
      {s : System t} {st : Store t} {th : Thread} {new : List Thread}
      → Good s
      → (before : List Thread) (mover : Thread) (behind : List Thread)
      → s.others ≡ before ++ (mover ∷ behind)
      → Move t s.store mover st th new
      → Moved t s.store mover st th new
  mover-Moved {s} good before mover behind e m =
      let (rest_safe, few) = mover_safe good before mover behind e in
      Move-Moved t s.store mover good.inv rest_safe.0.safe few m

  pub Step-Good : {s u : System t} → Step t s u → Good s → Good u
  Step-Good {s} (reader_moves {st} {th} {new} m) good =
      let after_move =
        Move-Moved t s.store s.reader good.inv good.reader_safe (omega (arith, good.counted)) m in
      record {
        inv = after_move.inv;
        reader_role = after_move.same_role ∙ good.reader_role;
        reader_safe = after_move.safe;
        others_safe = All-append _ new s.others after_move.new_safe (
            All-map _ _ (others_later s.reader.role _ _ after_move.moves) s.others
              good.others_safe);
        counted = omega (
          arith,
          after_move.counted,
          good.counted,
          sum_of-append (λ (x : Thread). x.guards) new s.others,
        );
      }
  Step-Good {s} (other_moves {st} {th} {new} before mover behind e m) good =
      let (rest_safe, few) = mover_safe good before mover behind e in
      let all_safe = subst (All (OtherSafe (view t s.store))) e good.others_safe in
      let after_move = mover-Moved good before mover behind e m in
      let later = others_later mover.role _ _ after_move.moves in
      record {
        inv = after_move.inv;
        reader_role = good.reader_role;
        reader_safe =
            Safe-later s.reader _ _
              (record {
                later = after_move.moves.later;
                no_new_peer = λ _. after_move.moves.no_new_peer rest_safe.0.other;
              })
              good.reader_safe;
        others_safe = All-append _ new _ after_move.new_safe (
            All-append _ before (th ∷ behind)
              (All-map _ _ later before (All-front _ before (mover ∷ behind) all_safe))
              (
                record {
                  other = subst IsOther (sym after_move.same_role) rest_safe.0.other;
                  safe = after_move.safe;
                },
                All-map _ _ later behind rest_safe.1,
              ));
        counted = omega (
          arith,
          after_move.counted,
          subst (λ ths. (view t s.store).tasks_remaining ≡ s.reader.guards + guards_of ths) e
              good.counted,
          sum_of-append (λ (x : Thread). x.guards) before (mover ∷ behind),
          sum_of-append (λ (x : Thread). x.guards) before (th ∷ behind),
          sum_of-append (λ (x : Thread). x.guards) new (before ++ (th ∷ behind)),
        );
      }
  Step-Good {s} (closes fuel) good = record {
    inv = good.inv;
    reader_role = good.reader_role;
    reader_safe = good.reader_safe;
    others_safe = (record { other = tt; safe = close_thread-Safe fuel _ }, good.others_safe);
    counted = omega (arith, good.counted);
  }
  Step-Good {s} aborts good = record {
    inv = good.inv;
    reader_role = good.reader_role;
    reader_safe = good.reader_safe;
    others_safe = (record { other = tt; safe = abort_thread-Safe _ }, good.others_safe);
    counted = omega (arith, good.counted);
  }
