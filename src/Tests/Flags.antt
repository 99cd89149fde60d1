-- ===== src/Tests/Flags.antt =====
-- Runs of flag-bearer-queue/src: a poll of a queue that is closed and poisoned.
use flag_bearer.Base.{refl, true, err, arith, []}
use flag_bearer.Closeable.{closeable}
use flag_bearer.Queue.State.{QueueState}
use flag_bearer.Queue.Acquire.{acquire, poll}
use flag_bearer.Queue.System.{Step, polls}
use flag_bearer.Queue.Flags.Step.{Flags, Step-Flags}
use flag_bearer.Sample.{fair_counter}
use flag_bearer.Tests.Inputs.{queue_of}

abbrev broken : QueueState fair_counter closeable
broken = record (queue_of 1 0 [] []) { closed = true; queue = err tt; poisoned = true }

-- A poll of the broken queue fails.
refused : Step broken broken
unfolding poll
refused = polls (acquire 1 1) 7 (omega arith) refl

Step-Flags_example : Flags refused
Step-Flags_example = Step-Flags refused
