-- ===== src/Guard.antt =====
-- flag-bearer/src/drop_wrapper.rs: a value that a guard owns, and hands on when it is dropped.

-- `trait Drop2`: what a run of `self.drop(t)` is.
abbrev pub Drop2 : Type 0 → Type 0 → Type 0
Drop2 T Run = T → Run

-- The guard `s` is an argument of `drop`.
pub record DropWrapper (T : Type 0) : Type 0 where
  pub t : T

abbrev pub new : {T : Type 0} → T → DropWrapper T
new t = record { t = t }

-- `Drop::drop`
abbrev pub drop : {T Run : Type 0} → Drop2 T Run → DropWrapper T → Run
drop s this = s this.t

-- The guard goes without its `drop`.
abbrev pub take : {T : Type 0} → DropWrapper T → T
take this = this.t
