-- ===== src/Prelude/Locks.antt =====
-- `RwLock` of the standard library, between the calls of threads, which go by numbers. A guard for
-- reading is given back before its method goes on, so that only one for writing is held.
use lan_link.Prelude.Tests.{◌==◌, if◌then◌else◌}
use Prim.Native.Nat.{ℕ}

pub data RwLock : Type 0 where
  free poisoned : RwLock
  held : ℕ → RwLock

-- What the library does with a thread that asks for a lock which it holds itself: its documentation
-- leaves open whether the thread waits for ever or panics.
pub data Reentry : Type 0 where
  deadlocks unwinds : Reentry

-- What a thread gets that asks for a lock, for reading or for writing.
pub data Grant : Type 0 where
  granted refused blocked panicked : Grant

abbrev pub reenter : Reentry → Grant
reenter deadlocks = blocked
reenter unwinds = panicked

unfoldable pub acquire : Reentry → ℕ → RwLock → Grant
acquire reentry thread free = granted
acquire reentry thread poisoned = refused
acquire reentry thread (held owner) = if owner == thread then reenter reentry else blocked

-- How a call ends, if it ends.
pub data Outcome {ℓ} (A : Type ℓ) : Type ℓ where
  returns : A → Outcome A
  blocks panics : Outcome A
