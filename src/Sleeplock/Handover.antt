-- ===== src/Sleeplock/Handover.antt =====
-- Passing a sleep lock on.
use c_cpp_projects.Prelude.{ℕ, ◌≡◌, refl, true, false, List, none, some, All}
use c_cpp_projects.Ptable.{Task}
use c_cpp_projects.Ptable.Exit.{Awake, wakeup1_self}
use c_cpp_projects.Sleeplock.{SleepLock, initsleeplock, acquiresleep, releasesleep, holdingsleep}

-- After `releasesleep` no process sleeps on the lock, the next process to come takes it, and those
-- after that one sleep until it gives the lock back.
pub handover_lem :
    (chan p q : ℕ) (lk : SleepLock) (ps : List Task)
    → let (free, qs) = releasesleep chan lk ps in
      All (Awake chan) qs
      × ((taken : SleepLock) × (acquiresleep p free ≡ some taken)
          × (holdingsleep free ≡ false)
          × (holdingsleep taken ≡ true)
          × (acquiresleep q taken ≡ none))
unfolding acquiresleep releasesleep holdingsleep
handover_lem chan p q lk ps =
    (wakeup1_self chan ps, (record { locked = true; pid = p }, refl, refl, refl, refl))

initsleeplock-free : holdingsleep initsleeplock ≡ false
unfolding initsleeplock holdingsleep
initsleeplock-free = refl
