-- ===== src/Prelude/Lists.antt =====
-- Lists measured by native numbers, under the library's names.
use Prim.Native.Nat.{ℕ, suc, ◌+◌}
use mathlib.Core.Path.{◌≡◌, refl, ap, ◌∙◌, subst}
use mathlib.Core.List.{List, [], ◌∷◌, ◌++◌}
use native.Mathlib.Omega.{arith}

module _ {ℓ} {A : Type ℓ} where
  abbrev pub length : List A → ℕ
  length [] = 0
  length (x ∷ xs) = suc (length xs)

  -- The sum of a measure over a list.
  abbrev pub sum_of : (A → ℕ) → List A → ℕ
  sum_of f [] = 0
  sum_of f (x ∷ xs) = f x + sum_of f xs

  pub length-append : (xs ys : List A) → length (xs ++ ys) ≡ length xs + length ys
  length-append [] ys = omega arith
  length-append (x ∷ xs) ys = omega (arith, length-append xs ys)

  pub sum_of-append : (f : A → ℕ) (xs ys : List A) → sum_of f (xs ++ ys) ≡ sum_of f xs + sum_of f ys
  sum_of-append f [] ys = omega arith
  sum_of-append f (x ∷ xs) ys = omega (arith, sum_of-append f xs ys)

  -- A predicate on every entry.
  abbrev pub All : (A → Type 0) → List A → Type 0
  All P [] = Unit
  All P (x ∷ xs) = P x × All P xs

  pub All-append : (P : A → Type 0) (xs ys : List A) → All P xs → All P ys → All P (xs ++ ys)
  All-append P [] ys hx hy = hy
  All-append P (x ∷ xs) ys hx hy = (hx.0, All-append P xs ys hx.1 hy)

  pub All-front : (P : A → Type 0) (xs ys : List A) → All P (xs ++ ys) → All P xs
  All-front P [] ys h = tt
  All-front P (x ∷ xs) ys h = (h.0, All-front P xs ys h.1)

  pub All-behind : (P : A → Type 0) (xs ys : List A) → All P (xs ++ ys) → All P ys
  All-behind P [] ys h = h
  All-behind P (x ∷ xs) ys h = All-behind P xs ys h.1

  pub All-within :
      (P : A → Type 0) (xs : List A) (x : A) (ys : List A)
      → All P (xs ++ (x ∷ ys))
      → P x × All P (xs ++ ys)
  All-within P xs x ys h =
      let rest = All-behind P xs (x ∷ ys) h in
      (rest.0, All-append P xs ys (All-front P xs (x ∷ ys) h) rest.1)

  pub All-map : (P Q : A → Type 0) → ((x : A) → P x → Q x) → (xs : List A) → All P xs → All Q xs
  All-map P Q f [] h = tt
  All-map P Q f (x ∷ xs) h = (f x h.0, All-map P Q f xs h.1)

  -- An entry within a list.
  pub length-within :
      (xs : List A) (x : A) (ys : List A) → length (xs ++ (x ∷ ys)) ≡ suc (length (xs ++ ys))
  length-within [] x ys = refl
  length-within (z ∷ xs) x ys = ap suc (length-within xs x ys)

  pub sum_of-within :
      (f : A → ℕ) (xs : List A) (x : A) (ys : List A)
      → sum_of f (xs ++ (x ∷ ys)) ≡ f x + sum_of f (xs ++ ys)
  sum_of-within f [] x ys = refl
  sum_of-within f (z ∷ xs) x ys = omega (arith, sum_of-within f xs x ys)

  pub sum_of-cong :
      {P : A → Type 0} (f g : A → ℕ)
      → ((x : A) → P x → f x ≡ g x)
      → (xs : List A) → All P xs
      → sum_of f xs ≡ sum_of g xs
  sum_of-cong f g same [] h = refl
  sum_of-cong f g same (x ∷ xs) h = omega (arith, same x h.0, sum_of-cong f g same xs h.1)

  -- The same, where an equation shows the entry.
  pub length-split :
      {ys : List A} (xs : List A) (x : A) (zs : List A)
      → ys ≡ xs ++ (x ∷ zs)
      → length ys ≡ suc (length (xs ++ zs))
  length-split xs x zs e = ap length e ∙ length-within xs x zs

  pub sum_of-split :
      {ys : List A} (f : A → ℕ) (xs : List A) (x : A) (zs : List A)
      → ys ≡ xs ++ (x ∷ zs)
      → sum_of f ys ≡ f x + sum_of f (xs ++ zs)
  sum_of-split f xs x zs e = ap (sum_of f) e ∙ sum_of-within f xs x zs

  pub All-split :
      {ys : List A} (P : A → Type 0) (xs : List A) (x : A) (zs : List A)
      → ys ≡ xs ++ (x ∷ zs)
      → All P ys
      → P x × All P (xs ++ zs)
  All-split P xs x zs e h = All-within P xs x zs (subst (All P) e h)
