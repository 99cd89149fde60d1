-- ===== src/Order.antt =====
-- flag-bearer-queue/src/order.rs
use flag_bearer.Base.{ℕ, Bool, true, false, Call, gives, ltb}

-- `trait Order`. `enqueue_front` is user code under `&mut self`: it may panic.
pub record Order : Type 1 where
  pub Policy : Type 0
  pub enqueue_front : Policy → ℕ → Call Policy Bool

pub data FairOrder : Type 0 where
  lifo fifo : FairOrder

abbrev pub is_lifo : FairOrder → Bool
is_lifo lifo = true
is_lifo fifo = false

abbrev pub fair_order : Order
fair_order = record { Policy = FairOrder; enqueue_front = λ self queued. gives self (is_lifo self) }

pub record Hybrid : Type 0 where
  pub lifo_above : ℕ

abbrev pub hybrid_order : Order
hybrid_order = record {
  Policy = Hybrid;
  enqueue_front = λ self queued. gives self (ltb self.lifo_above queued);
}
