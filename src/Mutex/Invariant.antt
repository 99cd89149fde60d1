-- ===== src/Mutex/Invariant.antt =====
-- flag-bearer-mutex/src/futex.rs: who holds the mutex, and who cares for sleepers.
use flag_bearer.Base.{
  ℕ, ◌<◌, ◌≡◌, ◌≢◌, refl, sym, ap, ◌∙◌, subst, ◌⊎◌, inl, inr, Bool, true, false, arith, ◌==◌,
  Bool-cases, ==_iff, ==_refl,
}
use flag_bearer.Mutex.Raw.{
  Place, outside, spins, retries, marks, waits, in_wait, holds, wakes, contended, Entry, act,
}
use flag_bearer.Mutex.System.{set}
use flag_bearer.Mutex.Effect.{holding, moves, Effect, act-Effect, Cares, act-Cares}

module _ {A : Type 0} (t : ℕ) (a : A) (f : ℕ → A) where
  set-same : set t a f t ≡ a
  set-same = rw (==_refl t) refl

  set-other : (j : ℕ) → j ≢ t → set t a f j ≡ f j
  set-other j n = elim (Bool-cases (j == t)) [
    | inl e ↦ absurd (n ((==_iff j t).0 e))
    | inr e ↦ rw e refl
  ]

same-or-other : (i j : ℕ) → (i ≡ j) ⊎ (i ≢ j)
same-or-other i j = elim (Bool-cases (i == j)) [
  | inl e ↦ inl ((==_iff i j).0 e)
  | inr e ↦ inr (λ h. ground (arith, h, e))
]

-- Nobody holds the mutex and its word is UNLOCKED, or one thread does and it is not.
abbrev pub Owned : ℕ → (ℕ → Place) → Type 0
Owned w f =
    ((w ≡ 0) × ((j : ℕ) → holding (f j) ≡ false))
    ⊎ ((0 < w) × ((o : ℕ) × (holding (f o) ≡ true) × ((j : ℕ) → holding (f j) ≡ true → j ≡ o)))

set-holding :
    (t : ℕ) (p : Place) (f : ℕ → Place) (j : ℕ)
    → holding p ≡ holding (f t)
    → holding (set t p f j) ≡ holding (f j)
set-holding t p f j e = elim (same-or-other j t) [
  | inl h ↦ rw h (ap holding (set-same t p f) ∙ e)
  | inr h ↦ ap holding (set-other t p f j h)
]

act-Owned :
    (t : ℕ) (f : ℕ → Place) (w : ℕ) (r : ℕ × Place)
    → Effect w (f t) r
    → Owned w f
    → Owned r.0 (set t r.1 f)
act-Owned t f w r (inl ((a, b), e)) (inl (z, n)) = inl (b z, λ j. set-holding t r.1 f j e ∙ n j)
act-Owned t f w r (inl ((a, b), e)) (inr (l, (o, h, u))) = inr (
  ground (arith, a, l),
  (o, set-holding t r.1 f o e ∙ h, λ j k. u j (sym (set-holding t r.1 f j e) ∙ k)),
)
act-Owned t f w r (inr (inl (z, l, e))) (inl (_, n)) =
    inr (l, (t, ap holding (set-same t r.1 f) ∙ e, only))
  where
    only : (j : ℕ) → holding (set t r.1 f j) ≡ true → j ≡ t
    only j k = elim (same-or-other j t) [
      | inl h ↦ h
      | inr h ↦ cc (k, n j, ap holding (set-other t r.1 f j h))
    ]
act-Owned t f w r (inr (inl (z, l, e))) (inr (l', _)) = absurd (omega (arith, z, l'))
act-Owned t f w r (inr (inr (p, z, e))) (inl (_, n)) = cc (n t)
act-Owned t f w r (inr (inr (p, z, e))) (inr (l, (o, h, u))) = inl (z, none_holds)
  where
    none_holds : (j : ℕ) → holding (set t r.1 f j) ≡ false
    none_holds j = elim (same-or-other j t) [
      | inl i ↦ rw i (ap holding (set-same t r.1 f) ∙ e)
      | inr i ↦ elim (Bool-cases (holding (f j))) [
        | inl k ↦ absurd (i (u j k ∙ sym (u t p)))
        | inr k ↦ ap holding (set-other t r.1 f j i) ∙ k
      ]
    ]

-- A sleeper is in its system call, and somebody cares for it.
pub record IsSafe (w : ℕ) (f : ℕ → Place) (s : ℕ → Bool) : Type 0 where
  pub owned : Owned w f
  pub asleep : (j : ℕ) → s j ≡ true → f j ≡ in_wait
  pub cared : (j : ℕ) → s j ≡ true → (i : ℕ) × Cares w (f i) (s i)

moves-awake : (p : Place) (b : Bool) → moves p b ≡ true → moves p false ≡ true
moves-awake in_wait b e = refl
moves-awake (spins true n) b e = e
moves-awake (spins false n) b e = e
moves-awake outside b e = e
moves-awake retries b e = e
moves-awake (marks s) b e = e
moves-awake waits b e = e
moves-awake holds b e = e
moves-awake wakes b e = e

Cares-of : (w : ℕ) (p : Place) (b b' : Bool) → (b' ≡ true → b ≡ true) → Cares w p b → Cares w p b'
Cares-of w p b b' h (inl e) = inl e
Cares-of w p b true h (inr e) = inr (subst (λ a. moves p a ≡ true) (h refl) e)
Cares-of w p b false h (inr e) = inr (moves-awake p b e)

module _ (w : ℕ) (f : ℕ → Place) (s : ℕ → Bool) (safe : IsSafe w f s) (t : ℕ) where
  put-Owned : (p : Place) → holding p ≡ holding (f t) → Owned w (set t p f)
  put-Owned p e = act-Owned t f w (w, p) (inl ((λ h. h, λ h. h), e)) safe.owned

  pub acts-IsSafe : (e : Entry) → IsSafe (act e (f t) w).0 (set t (act e (f t) w).1 f) s
  unfolding act
  acts-IsSafe e = record {
    owned = act-Owned t f w (act e (f t) w) (act-Effect e (f t) w) safe.owned;
    asleep = λ j k. elim (same-or-other j t) [
      | inl h ↦
          ap (set t (act e (f t) w).1 f) h
          ∙ set-same t (act e (f t) w).1 f
          ∙ ap (λ p. (act e p w).1) (safe.asleep t (subst (λ i. s i ≡ true) h k))
      | inr h ↦ set-other t (act e (f t) w).1 f j h ∙ safe.asleep j k
    ];
    cared = λ j k. let (i, h) = safe.cared j k in cared_by i h;
  }
    where
      acting :
          Cares w (f t) (s t)
          → (i : ℕ) × Cares (act e (f t) w).0 (set t (act e (f t) w).1 f i) (s i)
      acting h = (
        t,
        subst (λ p. Cares (act e (f t) w).0 p (s t)) (sym (set-same t (act e (f t) w).1 f))
            (act-Cares e (f t) w (s t) h),
      )

      cared_by :
          (i : ℕ)
          → Cares w (f i) (s i)
          → (i : ℕ) × Cares (act e (f t) w).0 (set t (act e (f t) w).1 f i) (s i)
      cared_by i (inl h) = acting (inl h)
      cared_by i (inr h) = elim (same-or-other i t) [
        | inl a ↦ acting (inr (subst (λ x. moves (f x) (s x) ≡ true) a h))
        | inr a ↦ (i, inr (ap (λ p. moves p (s i)) (set-other t (act e (f t) w).1 f i a) ∙ h))
      ]

  pub begins-IsSafe :
      (s' : ℕ → Bool)
      → f t ≡ waits
      → (s' t ≡ true → w ≡ contended)
      → ((j : ℕ) → j ≢ t → s' j ≡ s j)
      → IsSafe w (set t in_wait f) s'
  begins-IsSafe s' e a b = record {
    owned = put-Owned in_wait (sym (ap holding e));
    asleep = λ j k. elim (same-or-other j t) [
      | inl h ↦ ap (set t in_wait f) h ∙ set-same t in_wait f
      | inr h ↦ set-other t in_wait f j h ∙ safe.asleep j (sym (b j h) ∙ k)
    ];
    cared = λ j k. elim (Bool-cases (s' t)) [
      | inl h ↦ (t, inl (a h))
      | inr h ↦ (t, inr (rw (set-same t in_wait f, h) refl))
    ];
  }

  pub returns-IsSafe : f t ≡ in_wait → s t ≡ false → IsSafe w (set t (spins false 4) f) s
  returns-IsSafe e n = record {
    owned = put-Owned (spins false 4) (sym (ap holding e));
    asleep = λ j k. elim (same-or-other j t) [
      | inl h ↦ cc (ap s h, n, k)
      | inr h ↦ set-other t (spins false 4) f j h ∙ safe.asleep j k
    ];
    cared = λ j k. (t, inr (rw (set-same t (spins false 4) f) refl));
  }

  pub notifies-IsSafe :
      (s' : ℕ → Bool)
      → f t ≡ wakes
      → ((j : ℕ) → s' j ≡ true → s j ≡ true)
      → ((j : ℕ) → s j ≡ true → (i : ℕ) × (s i ≡ true) × (s' i ≡ false))
      → IsSafe w (set t outside f) s'
  notifies-IsSafe s' e a b = record {
    owned = put-Owned outside (sym (ap holding e));
    asleep = λ j k. set-other t outside f j (other j (a j k)) ∙ safe.asleep j (a j k);
    cared = λ j k.
        let (i, h, n) = b j (a j k) in
        (i, inr (rw (set-other t outside f i (other i h), safe.asleep i h, n) refl));
  }
    where
      other : (j : ℕ) → s j ≡ true → j ≢ t
      other j k h = cc (safe.asleep j k, ap f h, e)

  pub interrupts-IsSafe : (s' : ℕ → Bool) → ((j : ℕ) → s' j ≡ true → s j ≡ true) → IsSafe w f s'
  interrupts-IsSafe s' a = record {
    owned = safe.owned;
    asleep = λ j k. safe.asleep j (a j k);
    cared = λ j k. let (i, h) = safe.cared j (a j k) in (i, Cares-of w (f i) (s i) (s' i) (a i) h);
  }
