-- ===== src/Tests/Claim.antt =====
-- Runs of flag-bearer-queue/src/acquire.rs: the end of a wait.
use flag_bearer.Base.{none, ok, refl, false}
use flag_bearer.External.{removed}
use flag_bearer.Queue.Acquire.{Acquire, poll}
use flag_bearer.Queue.Claim.{Claims, poll-Claims}
use flag_bearer.Sample.{fair_counter}
use flag_bearer.Tests.Inputs.{granted, granted-Inv}

-- The future of task 3, which was polled before.
abbrev third : Acquire fair_counter
third = record { node = 3; params = none }

poll-Claims_example : Claims false (removed (ok 1)) 9 3 granted (poll granted third 9)
poll-Claims_example = poll-Claims granted third 9 (removed (ok 1)) granted-Inv (refl, refl)
