-- ===== src/Queue/Sound.antt =====
-- flag-bearer-queue/src/lib.rs: the well-formedness of a `QueueState`, as its comments state it.
pub mod Admit
pub mod Poll
pub mod Leave
pub mod Check
pub mod Close
pub mod Reach
use flag_bearer.Base.{
  ℕ, ◌+◌, ◌≤◌, ◌<◌, ◌≡◌, refl, ap, Bool, true, false, ◌||◌, Option, none, some, List, [], ◌∷◌, ◌++◌,
  Result, ok, err, Exec, returns, unwinds, faults, arith, length, length-append, has, find, erase,
  put, usize_mod, one_if, incr, decr, count, count-append, count-put, count-erase, count-has,
  length-put, length-erase,
}
use flag_bearer.Closeable.{Kind, can_close, Closed}
use flag_bearer.External.{Setting}
use flag_bearer.Queue.State.{Protected, Removed, QueueState, waiting, settled}

module _ {A E X : Type 0} where
  -- An `Err` queue has no linked nodes, and is closed.
  abbrev pub IsDiscarded : Result A E → Bool → List X → Type 0
  IsDiscarded (ok _) closed xs = Unit {0}
  IsDiscarded (err _) closed xs = (xs ≡ []) × (closed ≡ true)

-- `len` counts the linked nodes `xs`, and no node is linked twice, or both linked and removed.
pub record IsSound {P R : Type 0} (c : Kind) (queue : Result (Unit {0}) (Closed c (Unit {0})))
    (closed : Bool) (len : ℕ) (xs : List (ℕ × P)) (ys : List (ℕ × R)) : Type 0 where
  pub counted : len ≡ length xs
  pub fits : length xs < usize_mod
  pub single : (k : ℕ) → count k xs + count k ys ≤ 1
  pub discarded : IsDiscarded queue closed xs
  pub allowed : closed ≡ true → can_close c ≡ true

abbrev pub Inv : {g : Setting} {c : Kind} → QueueState g c → Type 0
Inv {c} q = IsSound c q.queue q.closed q.len (waiting q) (settled q)

-- A call ends, with no undefined behaviour and no abort, in a state with `P`.
abbrev pub Keeps : {S A : Type 0} → (S → Type 0) → Exec S A → Type 0
Keeps P (returns s _) = P s
Keeps P (unwinds s) = P s
Keeps P (faults _) = ⊥

IsDiscarded-of :
    {A E X Y : Type 0} (queue : Result A E) (closed : Bool) {xs : List X} {ys : List Y}
    → (xs ≡ [] → ys ≡ [])
    → IsDiscarded queue closed xs
    → IsDiscarded queue closed ys
IsDiscarded-of (ok _) closed f h = tt
IsDiscarded-of (err _) closed f h = (f h.0, h.1)

module _ {P R : Type 0} {c : Kind} {queue : Result (Unit {0}) (Closed c (Unit {0}))} {closed : Bool}
    {len : ℕ} {xs : List (ℕ × P)} {ys : List (ℕ × R)} where
  pub IsSound-unlink :
      (k : ℕ) (p : P)
      → find k xs ≡ some p
      → IsSound c queue closed len xs ys
      → IsSound c queue closed (decr len) (erase k xs) ys
  IsSound-unlink k p e h = record {
    counted = omega (arith, h.counted, h.fits, length-erase k p xs e);
    fits = omega (arith, h.fits, length-erase k p xs e);
    single = λ j. omega (arith, h.single j, count-erase j k p xs e);
    discarded = IsDiscarded-of queue closed (λ n. ap (erase k) n) h.discarded;
    allowed = h.allowed;
  }

  -- From the linked nodes to the removed ones.
  pub IsSound-remove :
      (k : ℕ) (p : P) (r : R)
      → find k xs ≡ some p
      → IsSound c queue closed len xs ys
      → IsSound c queue closed (decr len) (erase k xs) ((k, r) ∷ ys)
  IsSound-remove k p r e h = record {
    counted = omega (arith, h.counted, h.fits, length-erase k p xs e);
    fits = omega (arith, h.fits, length-erase k p xs e);
    single = λ j. omega (arith, h.single j, count-erase j k p xs e);
    discarded = IsDiscarded-of queue closed (λ n. ap (erase k) n) h.discarded;
    allowed = h.allowed;
  }

  pub IsSound-take :
      (k : ℕ) (r : R)
      → find k ys ≡ some r
      → IsSound c queue closed len xs ys
      → IsSound c queue closed len xs (erase k ys)
  IsSound-take k r e h = record {
    counted = h.counted;
    fits = h.fits;
    single = λ j. omega (arith, h.single j, count-erase j k r ys e);
    discarded = h.discarded;
    allowed = h.allowed;
  }

  pub IsSound-put :
      (k : ℕ) (p : P)
      → IsSound c queue closed len xs ys
      → IsSound c queue closed len (put k p xs) ys
  IsSound-put k p h = record {
    counted = omega (arith, h.counted, length-put k p xs);
    fits = omega (arith, h.fits, length-put k p xs);
    single = λ j. omega (arith, h.single j, count-put j k p xs);
    discarded = IsDiscarded-of queue closed (λ n. ap (put k p) n) h.discarded;
    allowed = h.allowed;
  }

  pub IsSound-set_closed :
      can_close c ≡ true → IsSound c queue closed len xs ys → IsSound c queue true len xs ys
  IsSound-set_closed e h = record {
    counted = h.counted;
    fits = h.fits;
    single = h.single;
    discarded = closes queue h.discarded;
    allowed = λ _. e;
  }
    where
      closes :
          (q : Result (Unit {0}) (Closed c (Unit {0})))
          → IsDiscarded q closed xs
          → IsDiscarded q true xs
      closes (ok _) d = tt
      closes (err _) d = (d.0, refl)

-- A new node at either end of an open queue.
module _ {P R : Type 0} {c : Kind} {closed : Bool} {len : ℕ} {xs : List (ℕ × P)} {ys : List (ℕ × R)}
    (k : ℕ) (p : P) (u : Unit {0}) (fresh : (has k xs || has k ys) ≡ false)
    (memory : length xs + 1 < usize_mod) (h : IsSound c (ok u) closed len xs ys) where
  unused : (count k xs ≡ 0) × (count k ys ≡ 0)
  unused = (count-has k xs (ground arith), count-has k ys (ground arith))

  pub IsSound-push_front : IsSound c (ok u) closed (incr len) ((k, p) ∷ xs) ys
  IsSound-push_front = record {
    counted = omega (arith, h.counted);
    fits = omega arith;
    single = λ j. single j;
    discarded = tt;
    allowed = h.allowed;
  }
    where
      single : (j : ℕ) → one_if k j + count j xs + count j ys ≤ 1
      single j = ground (arith, h.single j, unused)

  pub IsSound-push_back : IsSound c (ok u) closed (incr len) (xs ++ (k, p) ∷ []) ys
  IsSound-push_back = record {
    counted = omega (arith, h.counted, length-append xs ((k, p) ∷ []));
    fits = omega (arith, length-append xs ((k, p) ∷ []));
    single = λ j. single j;
    discarded = tt;
    allowed = h.allowed;
  }
    where
      single : (j : ℕ) → count j (xs ++ (k, p) ∷ []) + count j ys ≤ 1
      single j = ground (arith, h.single j, unused, count-append j xs ((k, p) ∷ []))

module _ {g : Setting} {c : Kind} (q : QueueState g c) (v : Closed c (Unit {0})) where
  pub discarded-waiting : q.queue ≡ err v → Inv q → (waiting q ≡ []) × (q.closed ≡ true)
  discarded-waiting e h = go q.queue e h.discarded
    where
      go :
          (r : Result (Unit {0}) (Closed c (Unit {0})))
          → r ≡ err v
          → IsDiscarded r q.closed (waiting q)
          → (waiting q ≡ []) × (q.closed ≡ true)
      go (ok u) f d = cc
      go (err x) f d = d
