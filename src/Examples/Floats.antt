-- ===== src/Examples/Floats.antt =====
-- What the examples use of Rust's `f64`, as an interface: its operations, and the behaviour that IEEE 754
-- and the documentation of `f64` promise. NaN is the value that is not `<=` itself.
use flag_bearer.Base.{ℕ, ◌<◌, ◌≤◌, ◌≡◌, Bool, true}
use flag_bearer.Examples.Words.{u32_mod}

pub record Float : Type 1 where
  pub F : Type 0
  pub lt : F → F → Bool
  pub le : F → F → Bool
  pub add : F → F → F
  pub mul : F → F → F
  -- `f64::min` and `f64::max`
  pub min : F → F → F
  pub max : F → F → F
  -- `f64::from(u32)` and `as u32`
  pub from_u32 : ℕ → F
  pub as_u32 : F → ℕ
  -- The constants 0.0, 0.5 and 1.0
  pub zero : F
  pub half : F
  pub one : F

module _ (f : Float) where
  open f use {F, lt, le, add, mul, min, max, from_u32, as_u32, zero, half, one}

  abbrev pub Le : F → F → Type 0
  Le x y = le x y ≡ true

  pub record IsFloat : Type 0 where
    pub le_trans : (x y z : F) → Le x y → Le y z → Le x z
    pub lt-le_trans : (x y z : F) → lt x y ≡ true → Le y z → lt x z ≡ true
    -- A `u32` is a number of the type, exactly.
    pub lt-from_u32 :
        (m n : ℕ) → m < u32_mod → n < u32_mod → lt (from_u32 m) (from_u32 n) ≡ true → m < n
    pub le-add-one : (x : F) → Le zero x → Le x (add x one)
    pub mul-half-le : (x : F) → Le zero x → Le (mul x half) x
    pub min_le : (x y : F) → Le x x → Le y y → Le (min x y) y
    pub le-min : (x y z : F) → Le z x → Le z y → Le z (min x y)
    pub le_max : (x y : F) → Le x x → Le y y → Le y (max x y)
    pub max-le : (x y z : F) → Le x z → Le y z → Le (max x y) z
    pub refl_of_le : (x y : F) → Le x y → (Le x x) × (Le y y)
    -- `as` truncates towards zero and saturates.
    pub as_u32-le : (x y : F) → Le x y → as_u32 x ≤ as_u32 y
