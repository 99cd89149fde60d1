-- ===== src/Examples/Random.antt =====
-- flag-bearer-tests/src/lib.rs: the order `Random`.
use flag_bearer.Base.{
  ℕ, ◌<◌, ◌≡◌, ◌||◌, refl, ap, Bool, true, false, Call, gives, panics, if◌then◌else◌, Bool-cases,
  inl, inr, usize_mod, has, length, ◌+◌,
}
use flag_bearer.Closeable.{Kind}
use flag_bearer.Order.{Order}
use flag_bearer.External.{Setting}
use flag_bearer.Queue.State.{QueueState, waiting, settled}
use flag_bearer.Queue.Acquire.{acquire, poll}
use flag_bearer.Queue.Arrive.{Arrives, attempt, poll-Arrives}
use flag_bearer.Queue.Sound.{Inv}
use flag_bearer.Queue.Serve.Check.{IsServing}

-- What `Random` uses of `f64` and of the crate rand: operations, and the behaviour that IEEE 754 and
-- the documentation promise. `Known x` says that `x` is not NaN, `Finite x` that it is no infinity
-- either.
pub record Chance : Type 1 where
  pub F : Type 0
  pub le : F → F → Bool
  pub gt : F → F → Bool
  pub add : F → F → F
  pub sub : F → F → F
  pub mul : F → F → F
  pub div : F → F → F
  pub neg : F → F
  pub exp : F → F
  -- `as f64`
  pub as_f64 : ℕ → F
  -- The constants 0.0, 1.0 and 4.0
  pub zero : F
  pub one : F
  pub four : F
  -- A generator. `random_bool` panics if its probability is not in `[0, 1]`.
  pub Rng : Type 0
  pub seed_from_u64 : ℕ → Rng
  pub random_bool : Rng → F → Call Rng Bool
  -- The laws.
  pub Known : F → Type 0
  pub Finite : F → Type 0
  pub as_f64-Finite : (n : ℕ) → n < usize_mod → Finite (as_f64 n)
  pub sub-Finite : (m n : ℕ) → m < usize_mod → n < usize_mod → Finite (sub (as_f64 m) (as_f64 n))
  -- The least positive integer is 1.
  pub one-le-as_f64 : (n : ℕ) → n < usize_mod → gt (as_f64 n) zero ≡ true → le one (as_f64 n) ≡ true
  pub one-Finite : Finite one
  pub four-Finite : Finite four
  pub div-Finite : (x y : F) → Finite x → Finite y → le one y ≡ true → Finite (div x y)
  pub mul-Known : (x y : F) → Finite x → Finite y → Known (mul x y)
  pub neg-Known : (x : F) → Known x → Known (neg x)
  pub zero-le-exp : (x : F) → Known x → le zero (exp x) ≡ true
  pub one-le-add : (x : F) → le zero x ≡ true → le one (add one x) ≡ true
  pub zero-le-div : (x : F) → le one x ≡ true → le zero (div one x) ≡ true
  pub div-le-one : (x : F) → le one x ≡ true → le (div one x) one ≡ true
  pub random_bool_gives :
      (r : Rng) (p : F)
      → le zero p ≡ true
      → le p one ≡ true
      → (r' : Rng) × (b : Bool) × (random_bool r p ≡ gives r' b)

module _ (f : Chance) where
  pub record Random : Type 0 where
    pub midpoint : f.F
    pub steepness : f.F
    pub rng : f.Rng

  -- `Random::new`
  abbrev pub new : ℕ → Random
  new midpoint =
      let m = f.as_f64 midpoint in
      record {
        midpoint = m;
        steepness = if f.gt m f.zero then f.div f.four m else f.one;
        rng = f.seed_from_u64 11400714819323198485;
      }

  -- `p_front`
  abbrev p_front : Random → ℕ → f.F
  p_front self queued =
      let x = f.mul self.steepness (f.sub (f.as_f64 queued) self.midpoint) in
      f.div f.one (f.add f.one (f.exp (f.neg x)))

  abbrev drawn : Random → Call f.Rng Bool → Call Random Bool
  drawn self (gives rng front) = gives (record self { rng = rng }) front
  drawn self (panics rng) = panics (record self { rng = rng })

  abbrev pub enqueue_front : Random → ℕ → Call Random Bool
  enqueue_front self queued = drawn self (f.random_bool self.rng (p_front self queued))

  abbrev pub random_order : Order
  random_order = record { Policy = Random; enqueue_front = enqueue_front }

  -- Any setting with this order.
  abbrev pub random_setting : Setting → Setting
  random_setting g = record g { ord = random_order }

  -- `r` was made by `new` and may have drawn numbers since.
  abbrev pub IsFrom : ℕ → Random → Type 0
  IsFrom midpoint r =
      (r.midpoint ≡ (new midpoint).midpoint) × (r.steepness ≡ (new midpoint).steepness)

  steepness-Finite : (midpoint : ℕ) → midpoint < usize_mod → f.Finite (new midpoint).steepness
  steepness-Finite midpoint h = elim (Bool-cases (f.gt (f.as_f64 midpoint) f.zero)) [
    | inl e ↦
        rw e (
          f.div-Finite _ _ f.four-Finite (f.as_f64-Finite midpoint h)
            (f.one-le-as_f64 midpoint h e))
    | inr e ↦ rw e f.one-Finite
  ]

  module _ (midpoint queued : ℕ) (r : Random) (h : midpoint < usize_mod) (k : queued < usize_mod)
      (d : IsFrom midpoint r) where
    denominator :
        f.le f.one
          (f.add f.one (f.exp (f.neg (f.mul r.steepness (f.sub (f.as_f64 queued) r.midpoint)))))
        ≡ true
    denominator =
        rw (d.0, d.1)
          (f.one-le-add _ (
            f.zero-le-exp _ (
              f.neg-Known _ (
                f.mul-Known _ _ (steepness-Finite midpoint h) (f.sub-Finite queued midpoint k h)))))

    -- The probability is in `[0, 1]`, so the generator answers.
    enqueue_front-gives :
        (r' : Random) × (front : Bool) × (enqueue_front r queued ≡ gives r' front)
        × IsFrom midpoint r'
    enqueue_front-gives =
        let (rng, front, e) =
          f.random_bool_gives r.rng (p_front r queued) (f.zero-le-div _ denominator)
            (f.div-le-one _ denominator) in
        (record r { rng = rng }, front, ap (drawn r) e, d)

module _ (f : Chance) (g : Setting) {c : Kind} where
  -- A task that arrives under the order `Random`. If the order was made by `Random::new` and has only
  -- drawn numbers since, for `f64` and a generator with the laws of `Chance`: the first poll of a new
  -- future on an open, healthy, well-formed semaphore with memory for one more node calls the order's
  -- `enqueue_front` with the number of tasks that wait, and that call answers, without a panic, and
  -- leaves such an order. The user's `acquire` is called at once if this answer is the front or nobody
  -- waits, a task that must wait joins the end of the list that this answer names, and the queue keeps
  -- the order that the call left.
  pub poll-Random :
      (midpoint : ℕ) (q : QueueState (random_setting f g) c) (k : ℕ) (p : g.Params) (w : g.Waker)
      → midpoint < usize_mod
      → IsFrom f midpoint q.order
      → (has k (waiting q) || has k (settled q)) ≡ false
      → length (waiting q) + 1 < usize_mod
      → Inv q
      → IsServing q
      → (o : Random f) × (front : Bool) × (enqueue_front f q.order (length (waiting q))
          ≡ gives o front)
        × IsFrom f midpoint o
        × Arrives {g = random_setting f g}
            (attempt {g = random_setting f g} front q p)
            front
            o
            p
            w
            k
            q
            (poll q (acquire k p) w)
  poll-Random midpoint q k p w h d fresh memory i s =
      let (o, front, e, d') =
        enqueue_front-gives f midpoint (length (waiting q)) q.order h i.fits d in
      (
        o,
        front,
        e,
        d',
        poll-Arrives q (acquire k p) p w fresh memory i s front o (rw i.counted e) refl,
      )
