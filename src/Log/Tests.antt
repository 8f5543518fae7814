-- ===== src/Log/Tests.antt =====
-- A log that starts at block 100 and holds two blocks: the theorems at this log.
use c_cpp_projects.Prelude.{
  panic, ◌≤◌, ◌<◌, ℕ, ◌+◌, ◌≡◌, ◌⊎◌, refl, true, false, [], ◌∷◌, ◌++◌, take, arith, ok, All,
  if◌then◌else◌,
}
use c_cpp_projects.Log.{Log, Disk, apply, commit, log_write, holds}
use c_cpp_projects.Log.Replay.{OutOfLog}
use c_cpp_projects.Log.Recovery.{Old, New}
use c_cpp_projects.Log.Crash.{starts, commit_lem, commit-recover}
use c_cpp_projects.Log.Room.{Reserved, log_write_lem}

abbrev two : Log
two = record { start = 100; size = 30; outstanding = 1; committing = false; lh = 7 ∷ 9 ∷ [] }

abbrev changed : ℕ → ℕ
changed b = b + 1

abbrev before : Disk
before = record { blocks = λ b. 0; head = [] }

two-OutOfLog : All (OutOfLog 100 2) (7 ∷ 9 ∷ [])
two-OutOfLog = ((λ t lt e. absurd (omega arith)), ((λ t lt e. absurd (omega arith)), tt))

commit_lem_example :
    let (ws, h) = commit two changed in
    (h.lh ≡ [])
    × ((apply ws before).head ≡ [])
    × New 100 2 (7 ∷ 9 ∷ []) changed before (apply ws before)
commit_lem_example = commit_lem two changed before (omega arith) two-OutOfLog

commit-recover_example :
    let e = starts 100 (1 ∷ []) (apply (take 4 (commit two changed).0) before) in
    (e.head ≡ []) × (Old 100 2 before e ⊎ New 100 2 (7 ∷ 9 ∷ []) changed before e)
commit-recover_example =
    commit-recover two changed before 4 (1 ∷ []) (omega arith) refl two-OutOfLog

two-Reserved : Reserved (8 ∷ []) two
two-Reserved = record { running = refl; room = omega arith; limit = omega arith }

log_write_lem_example :
    (2 + 1 < 30
      → (h : Log) × (log_write 9 two ≡ ok h)
        × (holds h.lh 9 ≡ true)
        × (h.lh ≡ (if holds two.lh 9 then two.lh else two.lh ++ 9 ∷ []))
        × Reserved (7 ∷ []) h)
    × (30 ≤ 2 + 1 → log_write 9 two ≡ panic "too big a transaction")
log_write_lem_example = log_write_lem two (8 ∷ []) 9 0 7 two-Reserved refl
