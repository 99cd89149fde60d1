-- ===== src/Examples/Words.antt =====
-- Rust's `+=` and `-=` on an unsigned integer below `modulus`, and `checked_add`. With overflow checks
-- in the build the operators panic on overflow, without they wrap around.
use flag_bearer.Base.{
  ℕ, ◌+◌, ◌-◌, ◌%◌, ◌≤◌, ◌<◌, ◌≡◌, ap, ◌∙◌, Bool, true, false, Option, none, some, ltb, leb,
  if◌then◌else◌, arith, usize_mod,
}
use native.Mathlib.Nat.{mod-eq_of_lt, mod-eq-sub-mod}

abbrev pub u32_mod : ℕ
u32_mod = 4294967296

abbrev pub u64_mod : ℕ
u64_mod = usize_mod

abbrev pub checked_add : ℕ → ℕ → ℕ → Option ℕ
checked_add modulus a b = if ltb (a + b) modulus then some (a + b) else none

-- `none` is a panic.
abbrev pub plus : Bool → ℕ → ℕ → ℕ → Option ℕ
plus true modulus a b = checked_add modulus a b
plus false modulus a b = some ((a + b) % modulus)

abbrev pub minus : Bool → ℕ → ℕ → ℕ → Option ℕ
minus true modulus a b = if leb b a then some (a - b) else none
minus false modulus a b = some ((a + modulus - b) % modulus)

pub checked_add-fits : (modulus a b : ℕ) → a + b < modulus → checked_add modulus a b ≡ some (a + b)
checked_add-fits modulus a b h = ground arith

pub plus-fits :
    (checks : Bool) (modulus a b : ℕ) → a + b < modulus → plus checks modulus a b ≡ some (a + b)
plus-fits true modulus a b h = checked_add-fits modulus a b h
plus-fits false modulus a b h = ap some (mod-eq_of_lt h)

pub minus-fits :
    (checks : Bool) (modulus a b : ℕ)
    → b ≤ a
    → a < modulus
    → minus checks modulus a b ≡ some (a - b)
minus-fits true modulus a b h k = ground arith
minus-fits false modulus a b h k = ap some (
    mod-eq-sub-mod (omega arith) ∙ ap (λ n. n % modulus) (omega arith) ∙ mod-eq_of_lt (omega arith))
