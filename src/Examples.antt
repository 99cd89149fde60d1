-- ===== src/Examples.antt =====
-- flag-bearer-examples/examples and flag-bearer-tests/src/lib.rs: the users' states and orders of
-- the repository, with the queue that they are used with.
pub mod Words
pub mod Floats
pub mod Counter
pub mod Limits
pub mod Dynamic
pub mod Aimd
pub mod Pool
pub mod Random
pub mod Wrapper
use flag_bearer.Traits.{SemaphoreState}
use flag_bearer.External.{Setting}

-- Any setting, with the given user's state.
abbrev pub with_sem : SemaphoreState → Setting → Setting
with_sem s g = record g { sem = s }
