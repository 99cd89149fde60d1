-- ===== src/Sample.antt =====
-- Concrete instances of the interfaces, at which the theorems are tried: pin-list and arrayvec as
-- lists, a counting semaphore as in the documentation of flag-bearer/src/lib.rs, and wakers that
-- are numbers.
use flag_bearer.Base.{
  ℕ, ◌+◌, ◌-◌, refl, Bool, true, false, ◌||◌, not, Option, none, some, List, [], ◌∷◌, ◌++◌, Result,
  ok, err, Call, gives, ltb, leb, if◌then◌else◌, length, is_nil, has, find, erase, put, first_key,
  key_after,
}
use flag_bearer.Traits.{SemaphoreState}
use flag_bearer.Order.{Order, fair_order}
use flag_bearer.External.{NodeData, linked, removed, PinList, ArrayVec, Setting}

module _ (P R : Type 0) where
  pub record Lists : Type 0 where
    pub front : List (ℕ × P)
    pub rest : List (ℕ × R)

  module _ (k : ℕ) (ls : Lists) where
    abbrev unlink_at : Option P → Option (P × Lists)
    unlink_at none = none
    unlink_at (some p) = some (p, record ls { front = erase k ls.front })

    abbrev take_at : Option R → Option (R × Lists)
    take_at none = none
    take_at (some r) = some (r, record ls { rest = erase k ls.rest })

    abbrev reset_removed : Option R → Option (NodeData P R × Lists)
    reset_removed none = none
    reset_removed (some r) = some (removed r, record ls { rest = erase k ls.rest })

    abbrev reset_at : Option P → Option (NodeData P R × Lists)
    reset_at none = reset_removed (find k ls.rest)
    reset_at (some p) = some (linked p, record ls { front = erase k ls.front })

    abbrev settle_at : (P → R) → Option P → Option (P × Lists)
    settle_at f none = none
    settle_at f (some p) = some (p, record { front = erase k ls.front; rest = (k, f p) ∷ ls.rest })

    abbrev remove_at : R → Option P → Option (P × Option ℕ × Lists)
    remove_at r none = none
    remove_at r (some p) =
        some (p, key_after k ls.front, record { front = erase k ls.front; rest = (k, r) ∷ ls.rest })

  abbrev pub list_pins : PinList P R
  list_pins = record {
    Pins = Lists;
    linked = λ ls. ls.front;
    removed = λ ls. ls.rest;
    new = record { front = []; rest = [] };
    is_empty = λ ls. is_nil ls.front;
    initialized = λ k ls. has k ls.front || has k ls.rest;
    push_front = λ k p ls. record ls { front = (k, p) ∷ ls.front };
    push_back = λ k p ls. record ls { front = ls.front ++ (k, p) ∷ [] };
    protected = λ k ls. find k ls.front;
    write = λ k p ls. record ls { front = put k p ls.front };
    unlink = λ k ls. unlink_at k ls (find k ls.front);
    take_removed = λ k ls. take_at k ls (find k ls.rest);
    reset = λ k ls. reset_at k ls (find k ls.front);
    cursor_front = λ ls. first_key ls.front;
    move_next = λ k ls. key_after k ls.front;
    remove_current = λ k r ls. remove_at k ls r (find k ls.front);
    remove_current_with = λ k f ls. settle_at k ls f (find k ls.front);
    linked-new = refl;
    removed-new = refl;
    is_empty_lem = λ ls. refl;
    initialized_lem = λ k ls. refl;
    linked-push_front = λ k p ls h. refl;
    removed-push_front = λ k p ls h. refl;
    linked-push_back = λ k p ls h. refl;
    removed-push_back = λ k p ls h. refl;
    protected_lem = λ k ls. refl;
    linked-write = λ k p ls. refl;
    removed-write = λ k p ls. refl;
    unlink_none = λ k ls e. rw e refl;
    unlink_some = λ k p ls e. (_, rw e refl, refl, refl);
    take_removed_some = λ k r ls e. (_, rw e refl, refl, refl);
    reset_linked = λ k p ls e. (_, rw e refl, refl, refl);
    reset_removed = λ k r ls e f. (_, rw (e, f) refl, refl, refl);
    cursor_front_lem = λ ls. refl;
    move_next_lem = λ k ls. refl;
    remove_current_some = λ k p r ls e. (_, rw e refl, refl, refl);
    remove_current_with_some = λ k p f ls e. (_, rw e refl, refl, refl);
  }

module _ (A : Type 0) (n : ℕ) where
  abbrev push_at : Bool → A → List A → Option (List A)
  push_at true a xs = none
  push_at false a xs = some (xs ++ a ∷ [])

  abbrev pub list_vec : ArrayVec A n
  list_vec = record {
    Vec = List A;
    to_list = λ xs. xs;
    new = [];
    is_full = λ xs. not (ltb (length xs) n);
    push = λ a xs. push_at (not (ltb (length xs) n)) a xs;
    drain = λ xs. (xs, []);
    to_list-new = refl;
    is_full_lem = λ xs. refl;
    push_some = λ a xs e. (_, rw e refl, refl);
    drain_lem = λ xs. (refl, refl);
  }

-- `SemaphoreCounter`, without the overflow of its `release`.
abbrev count_down : ℕ → ℕ → Call ℕ (Result ℕ ℕ)
count_down s p = if leb p s then gives (s - p) (ok p) else gives s (err p)

abbrev pub counter : SemaphoreState
counter = record {
  State = ℕ;
  Params = ℕ;
  Permit = ℕ;
  acquire = count_down;
  release = λ s p. gives (s + p) tt;
}

abbrev pub setting_of : SemaphoreState → Order → Setting
setting_of s o = record {
  sem = s;
  ord = o;
  Waker = ℕ;
  wakes = λ w. true;
  pin_list = list_pins;
  array_vec = list_vec;
}

abbrev pub fair_counter : Setting
fair_counter = setting_of counter fair_order
