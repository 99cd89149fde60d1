-- ===== src/Base/Assoc.antt =====
-- Lists of pairs of a node's address and a value, first match first; lengths in native numbers.
use Prim.Native.Nat.{ℕ, suc, ◌+◌}
use mathlib.Core.Path.{◌≡◌, refl}
use mathlib.Core.Bool.{Bool, true, false, ◌||◌}
use mathlib.Core.Option.{Option, none, some}
use mathlib.Core.List.{List, [], ◌∷◌, ◌++◌}
use native.Mathlib.Omega.{arith}
use flag_bearer.Base.Tests.{◌==◌, if◌then◌else◌, ==_refl}

module _ {ℓ} {A : Type ℓ} where
  abbrev pub length : List A → ℕ
  length [] = 0
  length (x ∷ xs) = suc (length xs)

  pub length-append : (xs ys : List A) → length (xs ++ ys) ≡ length xs + length ys
  length-append [] ys = omega arith
  length-append (x ∷ xs) ys = omega (arith, length-append xs ys)

  abbrev pub is_nil : List A → Bool
  is_nil [] = true
  is_nil (x ∷ xs) = false

module _ {ℓ} {A : Type ℓ} where
  abbrev pub has : ℕ → List (ℕ × A) → Bool
  has k [] = false
  has k ((j, a) ∷ xs) = (j == k) || has k xs

  abbrev pub find : ℕ → List (ℕ × A) → Option A
  find k [] = none
  find k ((j, a) ∷ xs) = if j == k then some a else find k xs

  abbrev pub erase : ℕ → List (ℕ × A) → List (ℕ × A)
  erase k [] = []
  erase k ((j, a) ∷ xs) = if j == k then xs else (j, a) ∷ erase k xs

  abbrev pub put : ℕ → A → List (ℕ × A) → List (ℕ × A)
  put k v [] = []
  put k v ((j, a) ∷ xs) = if j == k then (k, v) ∷ xs else (j, a) ∷ put k v xs

  abbrev pub first_key : List (ℕ × A) → Option ℕ
  first_key [] = none
  first_key ((j, a) ∷ xs) = some j

  -- The address behind that of `k`.
  abbrev pub key_after : ℕ → List (ℕ × A) → Option ℕ
  key_after k [] = none
  key_after k ((j, a) ∷ xs) = if j == k then first_key xs else key_after k xs

  -- No address twice.
  abbrev pub Distinct : List (ℕ × A) → Type 0
  Distinct [] = Unit {0}
  Distinct ((k, a) ∷ xs) = (has k xs ≡ false) × Distinct xs

  -- The operations at a node behind a front that does not hold it.
  module _ (k : ℕ) (v : A) where
    pub find-append :
        (xs ys : List (ℕ × A)) → has k xs ≡ false → find k (xs ++ (k, v) ∷ ys) ≡ some v
    find-append [] ys h = ground (arith, ==_refl k)
    find-append ((j, a) ∷ xs) ys h = ground (arith, find-append xs ys)

    pub erase-append :
        (xs ys : List (ℕ × A)) → has k xs ≡ false → erase k (xs ++ (k, v) ∷ ys) ≡ xs ++ ys
    erase-append [] ys h = ground (arith, ==_refl k)
    erase-append ((j, a) ∷ xs) ys h = ground (arith, erase-append xs ys)

    pub put-append :
        (u : A) (xs ys : List (ℕ × A))
        → has k xs ≡ false
        → put k u (xs ++ (k, v) ∷ ys) ≡ xs ++ (k, u) ∷ ys
    put-append u [] ys h = ground (arith, ==_refl k)
    put-append u ((j, a) ∷ xs) ys h = ground (arith, put-append u xs ys)

    pub key_after-append :
        (xs ys : List (ℕ × A)) → has k xs ≡ false → key_after k (xs ++ (k, v) ∷ ys) ≡ first_key ys
    key_after-append [] ys h = ground (arith, ==_refl k)
    key_after-append ((j, a) ∷ xs) ys h = ground (arith, key_after-append xs ys)

  pub has-append : (k : ℕ) (xs ys : List (ℕ × A)) → has k (xs ++ ys) ≡ (has k xs || has k ys)
  has-append k [] ys = refl
  has-append k ((j, a) ∷ xs) ys = ground (arith, has-append k xs ys)

  pub Distinct-front :
      (xs : List (ℕ × A)) (k : ℕ) (v : A) (ys : List (ℕ × A))
      → Distinct (xs ++ (k, v) ∷ ys)
      → has k xs ≡ false
  Distinct-front [] k v ys d = refl
  Distinct-front ((j, a) ∷ xs) k v ys d =
      ground (arith, Distinct-front xs k v ys d.1, has-append j xs ((k, v) ∷ ys))

  pub Distinct-remove :
      (xs : List (ℕ × A)) (k : ℕ) (v : A) (ys : List (ℕ × A))
      → Distinct (xs ++ (k, v) ∷ ys)
      → Distinct (xs ++ ys)
  Distinct-remove [] k v ys d = d.1
  Distinct-remove ((j, a) ∷ xs) k v ys d = (
    ground (arith, has-append j xs ((k, v) ∷ ys), has-append j xs ys),
    Distinct-remove xs k v ys d.1,
  )

  pub Distinct-replace :
      (xs : List (ℕ × A)) (k : ℕ) (u v : A) (ys : List (ℕ × A))
      → Distinct (xs ++ (k, u) ∷ ys)
      → Distinct (xs ++ (k, v) ∷ ys)
  Distinct-replace [] k u v ys d = d
  Distinct-replace ((j, a) ∷ xs) k u v ys d = (
    ground (arith, has-append j xs ((k, u) ∷ ys), has-append j xs ((k, v) ∷ ys)),
    Distinct-replace xs k u v ys d.1,
  )
