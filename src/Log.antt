-- ===== src/Log.antt =====
-- The file system's log: c/os-master/log.c.
pub mod Replay
pub mod Recovery
pub mod Crash
pub mod Room
mod Tests
use c_cpp_projects.Prelude.{
  ℕ, zero, suc, ◌+◌, ◌-◌, ◌*◌, Bool, true, false, ◌||◌, List, [], ◌∷◌, ◌++◌, length, ◌==◌, ltb, leb,
  if◌then◌else◌, Outcome, ok, panic, ◌>>=◌, update,
}

-- LOGSIZE and MAXOPBLOCKS of param.h
abbrev pub logsize : ℕ
logsize = 30

abbrev pub maxopblocks : ℕ
maxopblocks = 10

-- `struct log`; `lh` is the list of the first `lh.n` elements of `lh.block`.
pub record Log : Type 0 where
  pub start : ℕ
  pub size : ℕ
  pub outstanding : ℕ
  pub committing : Bool
  pub lh : List ℕ

-- A block that is not the header, with a number for its contents; or the header, as a list.
pub data Write : Type 0 where
  block : ℕ → ℕ → Write
  header : List ℕ → Write

pub record Disk : Type 0 where
  pub blocks : ℕ → ℕ
  pub head : List ℕ

abbrev pub apply : List Write → Disk → Disk
apply [] d = d
apply (block b v ∷ ws) d = apply ws (record d { blocks = update d.blocks b v })
apply (header bs ∷ ws) d = apply ws (record d { head = bs })

-- The loops over the logged blocks, from `tail` on. `cache` is what `bread` finds for a block; each
-- loop gives the writes in their order and the cache after them.
pub install_trans : ℕ → ℕ → List ℕ → (ℕ → ℕ) → List Write × (ℕ → ℕ)
install_trans start tail [] cache = ([], cache)
install_trans start tail (b ∷ bs) cache =
    let v = cache (start + tail + 1) in
    let (ws, after) = install_trans start (suc tail) bs (update cache b v) in
    (block b v ∷ ws, after)

pub write_log : ℕ → ℕ → List ℕ → (ℕ → ℕ) → List Write × (ℕ → ℕ)
write_log start tail [] cache = ([], cache)
write_log start tail (b ∷ bs) cache =
    let to = start + tail + 1 in
    let (ws, after) = write_log start (suc tail) bs (update cache to (cache b)) in
    (block to (cache b) ∷ ws, after)

-- `write_head`
abbrev pub write_head : List ℕ → List Write
write_head lh = header lh ∷ []

pub commit : Log → (ℕ → ℕ) → List Write × Log
commit g cache =
    if ltb 0 (length g.lh)
    then (let (logged, after) = write_log g.start 0 g.lh cache in
        let (installed, last) = install_trans g.start 0 g.lh after in
        (logged ++ (write_head g.lh ++ (installed ++ write_head [])), record g { lh = [] }))
    else ([], g)

-- `recover_from_log` after a start: nothing is cached, so `bread` finds what is on the disk.
pub recover_from_log : ℕ → Disk → List Write
recover_from_log start d =
    let (installed, after) = install_trans start 0 d.head d.blocks in installed ++ write_head []

-- Whether `begin_op` can go on; otherwise it sleeps on the log.
pub begin_op : Log → Bool × Log
begin_op g =
    if g.committing
    then (false, g)
    else if ltb logsize (length g.lh + (g.outstanding + 1) * maxopblocks)
    then (false, g)
    else (true, record g { outstanding = g.outstanding + 1 })

-- The first part of `end_op`: whether this operation is to commit.
pub end_op : Log → Outcome (Bool × Log)
end_op g =
    let h = record g { outstanding = g.outstanding - 1 } in
    if g.committing
    then panic "log.committing"
    else if h.outstanding == 0
    then ok (true, record h { committing = true })
    else ok (false, h)

-- The end of `end_op`, once the commit is done.
pub end_commit : Log → Log
end_commit g = record g { committing = false }

abbrev pub holds : List ℕ → ℕ → Bool
holds [] b = false
holds (x ∷ xs) b = (x == b) || holds xs b

pub log_write : ℕ → Log → Outcome Log
log_write b g =
    if leb logsize (length g.lh) || leb (g.size - 1) (length g.lh)
    then panic "too big a transaction"
    else if ltb g.outstanding 1
    then panic "log_write outside of trans"
    else if holds g.lh b
    then ok g
    else ok (record g { lh = g.lh ++ b ∷ [] })
