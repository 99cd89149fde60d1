-- ===== src/Mutex/Change.antt =====
-- flag-bearer-mutex/src/futex.rs: who has the mutex before and after a step of one thread.
use flag_bearer.Base.{
  ℕ, ◌≡◌, ◌≢◌, refl, sym, ap, ◌∙◌, ◌⊎◌, inl, inr, true, false, Bool-cases, ◌==◌, ==_iff,
}
use flag_bearer.Mutex.Futex.{Futex}
use flag_bearer.Mutex.Raw.{Place, holds, is_locked}
use flag_bearer.Mutex.System.{
  set, Mutex, Step, acts, begins, returns, notifies, interrupts, actor, Reach,
}
use flag_bearer.Mutex.Effect.{holding}
use flag_bearer.Mutex.Safety.{holding-holds, Reach-Exclusive, Reach-Held}

-- A step moves one thread at most.
unmoved_of : (t j : ℕ) (p : Place) (f f' : ℕ → Place) → f' ≡ set t p f → j ≢ t → f' j ≡ f j
unmoved_of t j p f f' e n = elim (Bool-cases (j == t)) [
  | inl i ↦ absurd (n ((==_iff j t).0 i))
  | inr i ↦ ap (λ h. h j) e ∙ rw i refl
]

pub unmoved :
    {K : Futex} {m m' : Mutex K} (s : Step K m m') (j : ℕ)
    → j ≢ actor s
    → m'.threads j ≡ m.threads j
unmoved {m} {m'} (acts t e a b c) j n = unmoved_of t j _ m.threads m'.threads b n
unmoved {m} {m'} (begins t i a b c) j n = unmoved_of t j _ m.threads m'.threads b n
unmoved {m} {m'} (returns t i s a b c) j n = unmoved_of t j _ m.threads m'.threads b n
unmoved {m} {m'} (notifies t i a b c) j n = unmoved_of t j _ m.threads m'.threads b n
unmoved (interrupts t a b c) j n = ap (λ f. f j) b

same_or : (t j : ℕ) → (j ≡ t) ⊎ (j ≢ t)
same_or t j = elim (Bool-cases (j == t)) [
  | inl i ↦ inl ((==_iff j t).0 i)
  | inr i ↦ inr (λ e. cc ((==_iff j t).1 e, i))
]

-- A step of the thread `t` from one reachable state to another.
module _ {K : Futex} {m m' : Mutex K} (t : ℕ) (r : Reach K m) (r' : Reach K m')
    (others : (j : ℕ) → j ≢ t → m'.threads j ≡ m.threads j) where
  -- Nobody has the mutex afterwards, if only `t` can have had it and does not have it afterwards.
  pub freed :
      ((j : ℕ) → m.threads j ≡ holds → j ≡ t)
      → holding (m'.threads t) ≡ false
      → is_locked m'.word ≡ false
  freed alone h = elim (Bool-cases (is_locked m'.word)) [
    | inr e ↦ e
    | inl e ↦ let (j, k) = Reach-Held r' e in absurd (nobody j k)
  ]
    where
      nobody : (j : ℕ) → m'.threads j ≡ holds → ⊥
      nobody j k = elim (same_or t j) [
        | inl i ↦ cc (ap (λ n. holding (m'.threads n)) i, ap holding k, h)
        | inr n ↦ n (alone j (sym (others j n) ∙ k))
      ]

  -- Who has the mutex before has it afterwards, unless it is `t`, which gave it up.
  pub kept :
      (j : ℕ) → m.threads j ≡ holds → (j ≡ t → holding (m'.threads t) ≡ true) → m'.threads j ≡ holds
  kept j h k = elim (same_or t j) [
    | inl i ↦ ap m'.threads i ∙ holding-holds _ (k i)
    | inr n ↦ others j n ∙ h
  ]

  pub untaken : is_locked m.word ≡ false → (j : ℕ) → m.threads j ≡ holds → ⊥
  untaken l j h = cc (l, (Reach-Exclusive j j r h h).1)
