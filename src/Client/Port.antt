-- ===== src/Client/Port.antt =====
-- The test of an explicit port of src/client.rs.
use fogws.Prelude.{
  ℕ, ◌≡◌, ◌≢◌, ◌↔◌, ◌⊎◌, inl, inr, refl, ap, ◌∙◌, arith, true, none, List, [], ◌∷◌, ◌++◌, All,
  length, length-append, if◌then◌else◌,
}
use mathlib.Core.List.{append_assoc}
use fogws.Client.{is_at, Authority, after_last_at, after_last_at_from, has_invalid_port}

abbrev pub NotAt : ℕ → Type 0
NotAt c = c ≢ b'@'

skips : (found bytes : List ℕ) → All NotAt bytes → after_last_at_from found bytes ≡ found
unfolding after_last_at_from
skips found [] h = refl
skips found (c ∷ rest) h = ground (arith, skips found rest h.1)

finds :
    (found info bytes : List ℕ)
    → All NotAt bytes
    → after_last_at_from found (info ++ (b'@' ∷ bytes)) ≡ bytes
unfolding after_last_at_from
finds found [] bytes h = skips bytes bytes h
finds found (c ∷ info) bytes h =
    finds (if is_at c then info ++ (b'@' ∷ bytes) else found) info bytes h

-- The part of an authority before the host: nothing, or the user's information and an `@`.
abbrev pub IsUserPart : List ℕ → Type 0
IsUserPart user = (user ≡ []) ⊎ ((info : List ℕ) × (user ≡ info ++ (b'@' ∷ [])))

host_part :
    (user rest : List ℕ) → IsUserPart user → All NotAt rest → after_last_at (user ++ rest) ≡ rest
unfolding after_last_at
host_part user rest (inl e) h = ap (λ u. after_last_at (u ++ rest)) e ∙ skips rest rest h
host_part user rest (inr (info, e)) h =
    ap (λ u. after_last_at (u ++ rest)) e
    ∙ ap after_last_at (append_assoc info (b'@' ∷ []) rest)
    ∙ finds (info ++ (b'@' ∷ rest)) info rest h

port_by_rest :
    (a : Authority) (rest : List ℕ)
    → after_last_at a.as_str ≡ a.host ++ rest
    → (has_invalid_port a ≡ true) ↔ ((rest ≢ []) × (a.port_u16 ≡ none))
unfolding has_invalid_port
port_by_rest a [] e =
    let same = ap length e ∙ length-append a.host [] in (λ h. ground arith, λ h. absurd (h.0 refl))
port_by_rest a (c ∷ rest) e =
    let longer = ap length e ∙ length-append a.host (c ∷ rest) in
    (λ h. (λ empty. cc, ground arith), λ h. ground arith)

-- For an authority that is a user part, the host and a rest without `@`, the port is reported as
-- invalid exactly when there is such a rest and the parser found no port number in it: an authority
-- that ends with its host is accepted, whatever the user part holds.
pub has_invalid_port_iff :
    (a : Authority) (user rest : List ℕ)
    → IsUserPart user
    → All NotAt (a.host ++ rest)
    → a.as_str ≡ user ++ (a.host ++ rest)
    → (has_invalid_port a ≡ true) ↔ ((rest ≢ []) × (a.port_u16 ≡ none))
has_invalid_port_iff a user rest u h e =
    port_by_rest a rest (ap after_last_at e ∙ host_part user (a.host ++ rest) u h)
