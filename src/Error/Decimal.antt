-- ===== src/Error/Decimal.antt =====
-- `to_string` of an unsigned number, as `format!` and `describe` of src/error.rs write it.
use Prim.Native.String
use fogws.Prelude.{
  ℕ, zero, suc, ◌+◌, ◌*◌, ◌/◌, ◌%◌, ◌<◌, String, ◌≡◌, refl, ap, List, [], ◌∷◌, arith, ltb, ◌==◌,
  if◌then◌else◌, Bool-cases, inl, inr,
}

abbrev digit : ℕ → String
digit n =
    if n == 0
    then "0"
    else if n == 1
    then "1"
    else if n == 2
    then "2"
    else if n == 3
    then "3"
    else if n == 4
    then "4"
    else if n == 5
    then "5"
    else if n == 6
    then "6"
    else if n == 7
    then "7"
    else if n == 8
    then "8"
    else "9"

-- The digits of `n`, the highest first, in front of those already found.
digits : ℕ → ℕ → List ℕ → List ℕ
digits zero n found = found
digits (suc fuel) n found =
    let rest = digits fuel (n / 10) ((n % 10) ∷ found) in if ltb n 10 then n ∷ found else rest

abbrev text : List ℕ → String
text [] = ""
text (d ∷ ds) = String.◌++◌ (digit d) (text ds)

unfoldable pub to_string : ℕ → String
unfolding digits
to_string n = text (digits (suc n) n [])

-- The number that a list of digits stands for.
value : ℕ → List ℕ → ℕ
value acc [] = acc
value acc (d ∷ ds) = value (acc * 10 + d) ds

digits-value :
    (fuel n : ℕ) (found : List ℕ) → n < fuel → value 0 (digits fuel n found) ≡ value n found
unfolding digits value
digits-value zero n found h = elim h [ ]
digits-value (suc fuel) n found h = elim (Bool-cases (ltb n 10)) [
  | inl last ↦ rw last (ap (λ k. value k found) (omega arith))
  | inr more ↦ rw more (
      rw (digits-value fuel (n / 10) ((n % 10) ∷ found) (ground arith))
        (ap (λ k. value k found) (omega arith)))
]

to_string_1011 : to_string 1011 ≡ "1011"
unfolding to_string
to_string_1011 = refl
