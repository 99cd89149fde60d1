-- ===== src/Base/Count.antt =====
-- How often an address stands in a list of pairs, and the lengths of such lists.
use Prim.Native.Nat.{ℕ, suc, ◌+◌, ◌≤◌}
use mathlib.Core.Path.{◌≡◌, refl}
use mathlib.Core.Bool.{true, false}
use mathlib.Core.Option.{none, some}
use mathlib.Core.List.{List, [], ◌∷◌, ◌++◌}
use mathlib.Core.Logic.{inl, inr}
use native.Mathlib.Omega.{arith}
use flag_bearer.Base.Tests.{◌==◌, if◌then◌else◌, Bool-cases}
use flag_bearer.Base.Assoc.{length, has, find, erase, put, Distinct}

abbrev pub one_if : ℕ → ℕ → ℕ
one_if j k = if j == k then 1 else 0

module _ {ℓ} {A : Type ℓ} where
  abbrev pub count : ℕ → List (ℕ × A) → ℕ
  count k [] = 0
  count k ((j, a) ∷ xs) = one_if j k + count k xs

  pub count-append : (k : ℕ) (xs ys : List (ℕ × A)) → count k (xs ++ ys) ≡ count k xs + count k ys
  count-append k [] ys = omega arith
  count-append k ((j, a) ∷ xs) ys = omega (arith, count-append k xs ys)

  pub count-put : (k j : ℕ) (v : A) (xs : List (ℕ × A)) → count k (put j v xs) ≡ count k xs
  count-put k j v [] = refl
  count-put k j v ((i, a) ∷ xs) = ground (arith, count-put k j v xs)

  pub count-erase :
      (k j : ℕ) (v : A) (xs : List (ℕ × A))
      → find j xs ≡ some v
      → count k (erase j xs) + one_if j k ≡ count k xs
  count-erase k j v [] h = ground arith
  count-erase k j v ((i, a) ∷ xs) h = ground (arith, count-erase k j v xs)

  pub count-has : (k : ℕ) (xs : List (ℕ × A)) → has k xs ≡ false → count k xs ≡ 0
  count-has k [] h = refl
  count-has k ((j, a) ∷ xs) h = ground (arith, count-has k xs)

  pub has-count : (k : ℕ) (xs : List (ℕ × A)) → count k xs ≡ 0 → has k xs ≡ false
  has-count k [] h = refl
  has-count k ((j, a) ∷ xs) h = ground (arith, has-count k xs)

  pub find-has : (k : ℕ) (xs : List (ℕ × A)) → has k xs ≡ true → (v : A) × (find k xs ≡ some v)
  find-has k [] h = ground arith
  find-has k ((j, a) ∷ xs) h = elim (Bool-cases (j == k)) [
    | inl e ↦ (a, rw e)
    | inr e ↦ let (v, f) = find-has k xs (ground arith) in (v, rw e f)
  ]

  pub find-none : (k : ℕ) (xs : List (ℕ × A)) → has k xs ≡ false → find k xs ≡ none
  find-none k [] h = refl
  find-none k ((j, a) ∷ xs) h = ground (arith, find-none k xs)

  pub has-find : (k : ℕ) (v : A) (xs : List (ℕ × A)) → find k xs ≡ some v → has k xs ≡ true
  has-find k v [] h = ground arith
  has-find k v ((j, a) ∷ xs) h = ground (arith, has-find k v xs)

  pub Distinct-count : (xs : List (ℕ × A)) → ((k : ℕ) → count k xs ≤ 1) → Distinct xs
  Distinct-count [] h = tt
  Distinct-count ((j, a) ∷ xs) h =
      (has-count j xs (ground (arith, h j)), Distinct-count xs (λ k. omega (arith, h k)))

  pub length-put : (j : ℕ) (v : A) (xs : List (ℕ × A)) → length (put j v xs) ≡ length xs
  length-put j v [] = refl
  length-put j v ((i, a) ∷ xs) = ground (arith, length-put j v xs)

  pub length-erase :
      (j : ℕ) (v : A) (xs : List (ℕ × A))
      → find j xs ≡ some v
      → suc (length (erase j xs)) ≡ length xs
  length-erase j v [] h = ground arith
  length-erase j v ((i, a) ∷ xs) h = ground (arith, length-erase j v xs)
