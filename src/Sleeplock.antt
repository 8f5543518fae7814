-- ===== src/Sleeplock.antt =====
-- Sleep locks: c/os-master/sleeplock.c. The spin lock inside holds for the whole of each operation but
-- the sleep, and is left out, as the name is.
pub mod Handover
use c_cpp_projects.Prelude.{ℕ, Bool, true, false, List, Option, none, some, if◌then◌else◌}
use c_cpp_projects.Ptable.{Task, wakeup1}

pub record SleepLock : Type 0 where
  pub locked : Bool
  pub pid : ℕ

pub initsleeplock : SleepLock
initsleeplock = record { locked = false; pid = 0 }

-- One round of the loop of `acquiresleep` by the process `pid`: nothing where it sleeps on the lock.
pub acquiresleep : ℕ → SleepLock → Option SleepLock
acquiresleep pid lk = if lk.locked then none else some (record { locked = true; pid = pid })

-- The lock and the process table, for a lock at the address `chan`.
pub releasesleep : ℕ → SleepLock → List Task → SleepLock × List Task
releasesleep chan lk ps = (record { locked = false; pid = 0 }, wakeup1 chan ps)

pub holdingsleep : SleepLock → Bool
holdingsleep lk = lk.locked
