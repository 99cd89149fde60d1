-- ===== src/External.antt =====
-- What the queue uses of the crates pin-list and arrayvec, as interfaces: operations, and the
-- behaviour that their documentation promises, told through a view as lists.
use flag_bearer.Base.{
  ℕ, ◌≡◌, Bool, false, ◌||◌, Option, none, some, List, [], ◌∷◌, ◌++◌, ltb, not, length, is_nil, has,
  find, erase, put, first_key, key_after,
}
use flag_bearer.Traits.{SemaphoreState}
use flag_bearer.Order.{Order}

-- `NodeData`, which `reset` gives.
pub data NodeData (P R : Type 0) : Type 0 where
  linked : P → NodeData P R
  removed : R → NodeData P R

-- `PinList` with its nodes: `Pins` is the memory of one list and of every node that is registered
-- in it. A node is named by its address. It is initial, linked with protected data in `P`, or
-- removed with data in `R`. A cursor is the address of its node, `none` at the ghost node.
pub record PinList (P R : Type 0) : Type 1 where
  pub Pins : Type 0
  -- The view: the linked nodes from front to back, and the removed ones.
  pub linked : Pins → List (ℕ × P)
  pub removed : Pins → List (ℕ × R)
  -- Operations of a node.
  pub new : Pins
  pub is_empty : Pins → Bool
  pub initialized : ℕ → Pins → Bool
  pub push_front : ℕ → P → Pins → Pins
  pub push_back : ℕ → P → Pins → Pins
  pub protected : ℕ → Pins → Option P
  pub write : ℕ → P → Pins → Pins
  pub unlink : ℕ → Pins → Option (P × Pins)
  pub take_removed : ℕ → Pins → Option (R × Pins)
  pub reset : ℕ → Pins → Option (NodeData P R × Pins)
  -- Operations of a cursor. `remove_current` also gives the cursor's next place.
  pub cursor_front : Pins → Option ℕ
  pub move_next : ℕ → Pins → Option ℕ
  pub remove_current : ℕ → R → Pins → Option (P × Option ℕ × Pins)
  pub remove_current_with : ℕ → (P → R) → Pins → Option (P × Pins)
  -- The laws.
  pub linked-new : linked new ≡ []
  pub removed-new : removed new ≡ []
  pub is_empty_lem : (ps : Pins) → is_empty ps ≡ is_nil (linked ps)
  pub initialized_lem :
      (k : ℕ) (ps : Pins) → initialized k ps ≡ (has k (linked ps) || has k (removed ps))
  pub linked-push_front :
      (k : ℕ) (p : P) (ps : Pins)
      → initialized k ps ≡ false
      → linked (push_front k p ps) ≡ (k, p) ∷ linked ps
  pub removed-push_front :
      (k : ℕ) (p : P) (ps : Pins)
      → initialized k ps ≡ false
      → removed (push_front k p ps) ≡ removed ps
  pub linked-push_back :
      (k : ℕ) (p : P) (ps : Pins)
      → initialized k ps ≡ false
      → linked (push_back k p ps) ≡ linked ps ++ (k, p) ∷ []
  pub removed-push_back :
      (k : ℕ) (p : P) (ps : Pins)
      → initialized k ps ≡ false
      → removed (push_back k p ps) ≡ removed ps
  pub protected_lem : (k : ℕ) (ps : Pins) → protected k ps ≡ find k (linked ps)
  pub linked-write : (k : ℕ) (p : P) (ps : Pins) → linked (write k p ps) ≡ put k p (linked ps)
  pub removed-write : (k : ℕ) (p : P) (ps : Pins) → removed (write k p ps) ≡ removed ps
  pub unlink_none : (k : ℕ) (ps : Pins) → find k (linked ps) ≡ none → unlink k ps ≡ none
  pub unlink_some :
      (k : ℕ) (p : P) (ps : Pins)
      → find k (linked ps) ≡ some p
      → (qs : Pins) × (unlink k ps ≡ some (p, qs))
        × (linked qs ≡ erase k (linked ps))
        × (removed qs ≡ removed ps)
  pub take_removed_some :
      (k : ℕ) (r : R) (ps : Pins)
      → find k (removed ps) ≡ some r
      → (qs : Pins) × (take_removed k ps ≡ some (r, qs))
        × (linked qs ≡ linked ps)
        × (removed qs ≡ erase k (removed ps))
  pub reset_linked :
      (k : ℕ) (p : P) (ps : Pins)
      → find k (linked ps) ≡ some p
      → (qs : Pins) × (reset k ps ≡ some (NodeData.linked p, qs))
        × (linked qs ≡ erase k (linked ps))
        × (removed qs ≡ removed ps)
  pub reset_removed :
      (k : ℕ) (r : R) (ps : Pins)
      → find k (linked ps) ≡ none
      → find k (removed ps) ≡ some r
      → (qs : Pins) × (reset k ps ≡ some (NodeData.removed r, qs))
        × (linked qs ≡ linked ps)
        × (removed qs ≡ erase k (removed ps))
  pub cursor_front_lem : (ps : Pins) → cursor_front ps ≡ first_key (linked ps)
  pub move_next_lem : (k : ℕ) (ps : Pins) → move_next k ps ≡ key_after k (linked ps)
  pub remove_current_some :
      (k : ℕ) (p : P) (r : R) (ps : Pins)
      → find k (linked ps) ≡ some p
      → (qs : Pins) × (remove_current k r ps ≡ some (p, key_after k (linked ps), qs))
        × (linked qs ≡ erase k (linked ps))
        × (removed qs ≡ (k, r) ∷ removed ps)
  pub remove_current_with_some :
      (k : ℕ) (p : P) (f : P → R) (ps : Pins)
      → find k (linked ps) ≡ some p
      → (qs : Pins) × (remove_current_with k f ps ≡ some (p, qs))
        × (linked qs ≡ erase k (linked ps))
        × (removed qs ≡ (k, f p) ∷ removed ps)

-- `arrayvec::ArrayVec<A, n>`; `none` is the panic of `push` on a full vector.
pub record ArrayVec (A : Type 0) (n : ℕ) : Type 1 where
  pub Vec : Type 0
  pub to_list : Vec → List A
  pub new : Vec
  pub is_full : Vec → Bool
  pub push : A → Vec → Option Vec
  pub drain : Vec → List A × Vec
  pub to_list-new : to_list new ≡ []
  pub is_full_lem : (v : Vec) → is_full v ≡ not (ltb (length (to_list v)) n)
  pub push_some :
      (a : A) (v : Vec)
      → is_full v ≡ false
      → (w : Vec) × (push a v ≡ some w) × (to_list w ≡ to_list v ++ a ∷ [])
  pub drain_lem : (v : Vec) → ((drain v).0 ≡ to_list v) × (to_list (drain v).1 ≡ [])

-- What a `SemaphoreQueue` is instantiated at: the user's state and order, the wakers of the
-- runtime, and the two crates. `wakes w` is true if `wake` returns, false if it panics.
pub record Setting : Type 1 where
  pub sem : SemaphoreState
  pub open sem use *
  pub ord : Order
  pub open ord use *
  pub Waker : Type 0
  pub wakes : Waker → Bool
  pub pin_list : (P R : Type 0) → PinList P R
  pub array_vec : (A : Type 0) (n : ℕ) → ArrayVec A n
