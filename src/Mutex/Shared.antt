-- ===== src/Mutex/Shared.antt =====
-- flag-bearer-mutex/src/lib.rs and the field `state` of `SemaphoreQueue` in
-- flag-bearer-queue/src/lib.rs: a value behind the mutex. The crate lock_api gives out the value with a
-- guard: a thread reaches it only between the end of its `lock` and its `unlock`.
use flag_bearer.Base.{
  ℕ, ◌≡◌, ◌≢◌, refl, sym, ap, ◌∙◌, subst, Bool, true, false, Option, none, some, List, [], ◌∷◌,
  ◌++◌,
}
use flag_bearer.Mutex.Futex.{Futex}
use flag_bearer.Mutex.Raw.{holds, is_locked}
use flag_bearer.Mutex.System.{Mutex, init, Step, actor, Reach, here, next}
use flag_bearer.Mutex.Effect.{holding}
use flag_bearer.Mutex.Safety.{holding-holds, Reach-Exclusive}
use flag_bearer.Mutex.Change.{unmoved, freed, kept, untaken}

-- What an observer sees: a thread comes to hold the mutex, accesses the value, gives the mutex up.
pub data Event : Type 0 where
  locks : ℕ → Event
  accesses : ℕ → Event
  unlocks : ℕ → Event

-- The event of the thread `t`, from whether it held the mutex before and holds it afterwards.
abbrev pub passed : ℕ → (before after : Bool) → List Event
passed t true true = []
passed t true false = unlocks t ∷ []
passed t false true = locks t ∷ []
passed t false false = []

-- `Edit t d d'`: one access of the thread `t` makes `d'` of the value `d`.
module _ (K : Futex) {D : Type 0} (Edit : ℕ → D → D → Type 0) where
  pub record Shared : Type 0 where
    pub mutex : Mutex K
    pub value : D

  -- The mutex takes a step, or a thread that holds it accesses the value.
  pub data Access (u v : Shared) : Type 0 where
    synchronizes : Step K u.mutex v.mutex → v.value ≡ u.value → Access u v
    edits :
        (t : ℕ)
        → u.mutex.threads t ≡ holds
        → v.mutex ≡ u.mutex
        → Edit t u.value v.value
        → Access u v

  pub data Executes (d : D) : Shared → Type 0 where
    starts : Executes d (record { mutex = init K; value = d })
    goes : {u v : Shared} → Executes d u → Access u v → Executes d v

  abbrev pub event : {u v : Shared} → Access u v → List Event
  event {u} {v} (synchronizes s a) =
      let t = actor s in passed t (holding (u.mutex.threads t)) (holding (v.mutex.threads t))
  event (edits t h m x) = accesses t ∷ []

  -- The events of an execution, the latest first.
  abbrev pub history : {d : D} {v : Shared} → Executes d v → List Event
  history starts = []
  history (goes e a) = event a ++ history e

  -- A history that makes the value of `d`, one section after the other: the section of a thread is
  -- its `locks`, its own accesses, and its `unlocks`, with no event of another thread in between.
  -- The option is the thread whose section is open.
  pub data Serial (d : D) : Option ℕ → List Event → D → Type 0 where
    idle : Serial d none [] d
    opens :
        {es : List Event} {x : D}
        → Serial d none es x
        → (t : ℕ) → Serial d (some t) (locks t ∷ es) x
    extends :
        {t : ℕ} {es : List Event} {x y : D}
        → Serial d (some t) es x
        → Edit t x y
        → Serial d (some t) (accesses t ∷ es) y
    closes :
        {t : ℕ} {es : List Event} {x : D}
        → Serial d (some t) es x
        → Serial d none (unlocks t ∷ es) x

  -- The thread whose section is open, and nobody else, has the mutex.
  abbrev pub Has : Option ℕ → Mutex K → Type 0
  Has none m = is_locked m.word ≡ false
  Has (some t) m = m.threads t ≡ holds

  abbrev pub IsSerial : D → List Event → Shared → Type 0
  IsSerial d es v = (i : Option ℕ) × Has i v.mutex × Serial d i es v.value

  Executes-Reach : {d : D} {v : Shared} → Executes d v → Reach K v.mutex
  Executes-Reach starts = here
  Executes-Reach (goes e (synchronizes s a)) = next (Executes-Reach e) s
  Executes-Reach (goes e (edits t h a b)) = subst (Reach K) (sym a) (Executes-Reach e)

module _ {K : Futex} {m m' : Mutex K} (t : ℕ) (r : Reach K m) (r' : Reach K m')
    (others : (j : ℕ) → j ≢ t → m'.threads j ≡ m.threads j) {D : Type 0} {Edit : ℕ → D → D → Type 0}
    {d x : D} {es : List Event} where
  -- The history after a step of the thread `t` from one reachable state to another.
  goes_on :
      (before after : Bool)
      → holding (m.threads t) ≡ before
      → holding (m'.threads t) ≡ after
      → (i : Option ℕ) → Has K Edit i m
      → Serial K Edit d i es x
      → (i' : Option ℕ) × Has K Edit i' m' × Serial K Edit d i' (passed t before after ++ es) x
  goes_on true after a b none l s = absurd (untaken t r r' others l t (holding-holds _ a))
  goes_on true true a b (some j) h s = (some j, kept t r r' others j h (λ e. b), s)
  goes_on true false a b (some j) h s =
      let e = (Reach-Exclusive t j r (holding-holds _ a) h).0 in
      (
        none,
        freed t r r' others (λ i k. (Reach-Exclusive i t r k (holding-holds _ a)).0) b,
        closes (subst (λ i. Serial K Edit d (some i) es x) (sym e) s),
      )
  goes_on false false a b none l s =
      (none, freed t r r' others (λ j k. absurd (untaken t r r' others l j k)) b, s)
  goes_on false false a b (some j) h s = (
    some j,
    kept t r r' others j h (λ e. cc (ap (λ n. holding (m.threads n)) e, ap holding h, a)),
    s,
  )
  goes_on false true a b none l s = (some t, holding-holds _ b, opens s t)
  goes_on false true a b (some j) h s =
      let e = (Reach-Exclusive j t r' (kept t r r' others j h (λ _. b)) (holding-holds _ b)).0 in
      cc (ap (λ n. holding (m.threads n)) e, ap holding h, a)

module _ (K : Futex) {D : Type 0} (Edit : ℕ → D → D → Type 0) where
  edited :
      {d : D} {es : List Event} (u v : Shared K Edit) (t : ℕ)
      → Reach K u.mutex
      → u.mutex.threads t ≡ holds
      → v.mutex ≡ u.mutex
      → Edit t u.value v.value
      → IsSerial K Edit d es u
      → IsSerial K Edit d (accesses t ∷ es) v
  edited u v t r h m x (none, l, s) = cc (l, (Reach-Exclusive t t r h h).1)
  edited {d} {es} u v t r h m x (some j, k, s) = (
    some t,
    ap (λ n. n.threads t) m ∙ h,
    extends (subst (λ i. Serial K Edit d (some i) es u.value) (sym (Reach-Exclusive t j r h k).0) s)
        x,
  )

  -- The mutex makes sections atomic. In every execution in which any threads lock, try, unlock, spin,
  -- sleep and wake, and access the value only while they hold the mutex, in any interleaving of their
  -- atomic actions and accesses, the history, of which thread came to hold the mutex, accessed the
  -- value or gave the mutex up, in the order in which it happened, is serial: between the moment at
  -- which a thread comes to hold the mutex and the moment at which it gives the mutex up, no other
  -- thread comes to hold it or accesses the value; every access lies in such a section of its thread;
  -- and the accesses in this order make the present value of the first one. A thread whose section is
  -- not over holds the mutex, and if every section is over, `is_locked` says that nobody does.
  pub Executes-IsSerial :
      {d : D} {v : Shared K Edit} (e : Executes K Edit d v) → IsSerial K Edit d (history K Edit e) v
  unfolding is_locked
  Executes-IsSerial starts = (none, refl, idle)
  Executes-IsSerial {d} {v} (goes {u} e (synchronizes s a)) =
      let t = actor s in
      let r = Executes-Reach K Edit e in
      let (i, h, l) = Executes-IsSerial e in
      let (i', h', l') =
        goes_on t r (next r s) (unmoved s) (holding (u.mutex.threads t))
          (holding (v.mutex.threads t)) refl refl i h l in
      (i', h', subst (Serial K Edit d i' _) (sym a) l')
  Executes-IsSerial (goes {u} {v} e (edits t h m x)) =
      edited u v t (Executes-Reach K Edit e) h m x (Executes-IsSerial e)
