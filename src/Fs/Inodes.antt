-- ===== src/Fs/Inodes.antt =====
-- The table of inodes in memory and the allocation of inodes on disk: `iget` and `ialloc` of
-- c/os-master/fs.c. An entry of the table is its index; the locks are held for the whole of `iget`.
pub mod Table
pub mod Ialloc
use c_cpp_projects.Prelude.{
  ℕ, zero, suc, ◌+◌, Bool, true, false, ◌&&◌, ◌==◌, ltb, leb, if◌then◌else◌, Option, none, some,
  Outcome, ok, panic, ◌>>=◌, update, ℤ, pos,
}
use c_cpp_projects.Fs.{Disk, Inode, log_write}
use c_cpp_projects.Fs.File.{iblock}

-- What `iget` reads and writes of `struct inode`.
pub record Entry : Type 0 where
  pub dev : ℕ
  pub inum : ℕ
  pub ref : ℕ
  pub valid : Bool

-- NINODE
abbrev pub ninode : ℕ
ninode = 50

abbrev pub is_inode : ℕ → ℕ → Entry → Bool
is_inode dev inum e = ltb 0 e.ref && ((e.dev == dev) && (e.inum == inum))

-- `if(empty == 0 && ip->ref == 0) empty = ip`
abbrev pub remember : Option ℕ → ℕ → Entry → Option ℕ
remember (some e) k ip = some e
remember none k ip = if ip.ref == 0 then some k else none

abbrev pub recycle_entry : ℕ → ℕ → Option ℕ → (ℕ → Entry) → Outcome (ℕ × (ℕ → Entry))
recycle_entry dev inum none t = panic "iget: no inodes"
recycle_entry dev inum (some k) t =
    ok (k, update t k (record { dev = dev; inum = inum; ref = 1; valid = false }))

-- `ip->ref++`
abbrev pub add_ref : Entry → Entry
add_ref e = record e { ref = e.ref + 1 }

-- The loop of `iget` from the entry `k` on, with `n` entries left.
pub iget_loop : ℕ → ℕ → ℕ → ℕ → Option ℕ → (ℕ → Entry) → Outcome (ℕ × (ℕ → Entry))
iget_loop zero k dev inum empty t = recycle_entry dev inum empty t
iget_loop (suc n) k dev inum empty t =
    let rest = iget_loop n (suc k) dev inum (remember empty k (t k)) t in
    if is_inode dev inum (t k) then ok (k, update t k (add_ref (t k))) else rest

pub iget_entry : ℕ → ℕ → (ℕ → Entry) → Outcome (ℕ × (ℕ → Entry))
iget_entry dev inum t = iget_loop ninode 0 dev inum none t

-- `memset(dip, 0, sizeof(*dip))` and `dip->type = type`
abbrev pub fresh_inode : ℕ → ℕ → Inode
fresh_inode i type = record {
  inum = i;
  type = type;
  major = pos 0;
  minor = pos 0;
  nlink = 0;
  size = 0;
  addrs = λ _. 0;
}

abbrev pub take_inode : ℕ → ℕ → Disk → Disk
take_inode i type s =
    log_write (iblock s i) (record s { dinode = update s.dinode i (fresh_inode i type) })

-- The loop of `ialloc` from the number `i` on, for `n` rounds at most.
pub ialloc_loop : ℕ → ℕ → ℕ → ℕ → Disk → (ℕ → Entry) → Outcome (ℕ × Disk × (ℕ → Entry))
ialloc_loop zero i dev type s t = panic "ialloc: no inodes"
ialloc_loop (suc n) i dev type s t =
    let rest = ialloc_loop n (suc i) dev type s t in
    if leb s.ninodes i
    then panic "ialloc: no inodes"
    else if (s.dinode i).type == 0
    then (iget_entry dev i t >>= λ (k, t'). ok (k, take_inode i type s, t'))
    else rest

pub ialloc : ℕ → ℕ → Disk → (ℕ → Entry) → Outcome (ℕ × Disk × (ℕ → Entry))
ialloc dev type s t = ialloc_loop s.ninodes 1 dev type s t
