-- ===== src/Mutex/Effect.antt =====
-- flag-bearer-mutex/src/futex.rs: what one action of a thread means for the mutex and for sleepers.
use flag_bearer.Base.{
  ℕ, ◌<◌, ◌≡◌, refl, ◌↔◌, ◌⊎◌, inl, inr, Bool, true, false, not, arith, ◌==◌, Bool-cases, ==_iff,
  sym, ◌∙◌, if-intro, ◌||◌,
}
use flag_bearer.Mutex.Raw.{
  Place, outside, spins, retries, marks, waits, in_wait, holds, wakes, contended, Entry, by_lock,
  by_try_lock, act, taken, compare_exchange, unlocked, locked, spin, mark, lock, try_lock, retry,
  unlock,
}

abbrev pub holding : Place → Bool
holding holds = true
holding _ = false

-- The thread is awake inside the loop of `lock_contended`, behind its first call of `spin`, or before
-- its call of `wake`.
abbrev pub moves : Place → Bool → Bool
moves (spins false n) asleep = true
moves (marks state) asleep = true
moves waits asleep = true
moves in_wait asleep = not asleep
moves wakes asleep = true
moves _ _ = false

abbrev pub Stays : ℕ → Place → ℕ × Place → Type 0
Stays w p r = ((r.0 ≡ 0) ↔ (w ≡ 0)) × (holding r.1 ≡ holding p)

abbrev pub Takes : ℕ → Place → ℕ × Place → Type 0
Takes w p r = (w ≡ 0) × (0 < r.0) × (holding r.1 ≡ true)

abbrev pub Frees : ℕ → Place → ℕ × Place → Type 0
Frees w p r = (holding p ≡ true) × (r.0 ≡ 0) × (holding r.1 ≡ false)

abbrev pub Effect : ℕ → Place → ℕ × Place → Type 0
Effect w p r = Stays w p r ⊎ (Takes w p r ⊎ Frees w p r)

-- The exchange from UNLOCKED to LOCKED takes a free mutex, and changes nothing otherwise.
taken-Effect :
    (f : ℕ → Place) (p : Place) (w : ℕ)
    → holding p ≡ false
    → ((s : ℕ) → holding (f s) ≡ false)
    → Effect w p (taken f (compare_exchange unlocked locked w))
taken-Effect f p w a b = elim (Bool-cases (w == unlocked)) [
  | inl e ↦ rw e (inr (inl ((==_iff w unlocked).0 e, omega arith, refl)))
  | inr e ↦ rw e (inl ((λ h. h, λ h. h), b w ∙ sym a))
]

spin-holding : (first : Bool) (n w : ℕ) → holding (spin first n w).1 ≡ false
unfolding spin
spin-holding true n w =
    if-intro (λ p. holding p ≡ false) (not (w == locked) || (n == 0))
      (if-intro (λ p. holding p ≡ false) (w == unlocked) refl refl) refl
spin-holding false n w = if-intro (λ p. holding p ≡ false) (not (w == locked) || (n == 0)) refl refl

mark-Effect : (s w : ℕ) → Effect w (marks s) (mark s w)
unfolding mark
mark-Effect s w =
    if-intro (Effect w (marks s)) (s == contended) (inl ((λ h. h, λ h. h), refl))
      (elim (Bool-cases (w == unlocked)) [
        | inl e ↦ rw e (inr (inl ((==_iff w unlocked).0 e, omega arith, refl)))
        | inr e ↦ rw e (inl ((λ h. absurd (omega (arith, h)), λ h. ground (arith, h, e)), refl))
      ])

pub act-Effect : (e : Entry) (p : Place) (w : ℕ) → Effect w p (act e p w)
unfolding act lock try_lock retry unlock spin
act-Effect (by_lock true) outside w = inl ((λ h. h, λ h. h), refl)
act-Effect (by_lock false) outside w = taken-Effect (λ s. spins true 4) outside w refl (λ s. refl)
act-Effect by_try_lock outside w = taken-Effect (λ s. outside) outside w refl (λ s. refl)
act-Effect e (spins first n) w = inl ((λ h. h, λ h. h), spin-holding first n w)
act-Effect e retries w = taken-Effect marks retries w refl (λ s. refl)
act-Effect e (marks s) w = mark-Effect s w
act-Effect e waits w = inl ((λ h. h, λ h. h), refl)
act-Effect e in_wait w = inl ((λ h. h, λ h. h), refl)
act-Effect e holds w =
    inr (inr (refl, refl, if-intro (λ p. holding p ≡ false) (w == contended) refl refl))
act-Effect e wakes w = inl ((λ h. h, λ h. h), refl)

-- The word is CONTENDED, or the thread is one that cares for sleepers.
abbrev pub Cares : ℕ → Place → Bool → Type 0
Cares w p asleep = (w ≡ contended) ⊎ (moves p asleep ≡ true)

-- An exchange changes no contended word.
taken-Cares :
    (f : ℕ → Place) (p : Place) (w : ℕ) (asleep : Bool)
    → moves p asleep ≡ false
    → Cares w p asleep
    → Cares
        (taken f (compare_exchange unlocked locked w)).0
        (taken f (compare_exchange unlocked locked w)).1
        asleep
taken-Cares f p w asleep a (inl e) = rw e (inl refl)
taken-Cares f p w asleep a (inr e) = cc

spin-Cares :
    (first : Bool) (n w : ℕ) (asleep : Bool)
    → Cares w (spins first n) asleep
    → Cares w (spin first n w).1 asleep
unfolding spin
spin-Cares first n w asleep (inl e) = inl e
spin-Cares false n w asleep (inr e) =
    inr (if-intro (λ p. moves p asleep ≡ true) (not (w == locked) || (n == 0)) refl refl)
spin-Cares true n w asleep (inr e) = cc

mark-Cares : (s w : ℕ) (asleep : Bool) → Cares (mark s w).0 (mark s w).1 asleep
unfolding mark
mark-Cares s w asleep =
    if-intro (λ (r : ℕ × Place). Cares r.0 r.1 asleep) (s == contended) (inr refl) (inl refl)

-- Care for sleepers is never dropped.
pub act-Cares :
    (e : Entry) (p : Place) (w : ℕ) (asleep : Bool)
    → Cares w p asleep
    → Cares (act e p w).0 (act e p w).1 asleep
unfolding act lock try_lock retry unlock spin
act-Cares (by_lock true) outside w asleep (inl h) = inl h
act-Cares (by_lock true) outside w asleep (inr h) = cc
act-Cares (by_lock false) outside w asleep h =
    taken-Cares (λ s. spins true 4) outside w asleep refl h
act-Cares by_try_lock outside w asleep h = taken-Cares (λ s. outside) outside w asleep refl h
act-Cares e (spins first n) w asleep h = spin-Cares first n w asleep h
act-Cares e retries w asleep h = taken-Cares marks retries w asleep refl h
act-Cares e (marks s) w asleep h = mark-Cares s w asleep
act-Cares e waits w asleep h = h
act-Cares e in_wait w asleep h = h
act-Cares e holds w asleep (inl h) = inr (rw h refl)
act-Cares e holds w asleep (inr h) = cc
act-Cares e wakes w asleep h = h
