-- ===== src/Bcache.antt =====
-- The buffer cache: c/os-master/bio.c. The linked list of the buffers is a list, with the buffer used
-- last in front.
pub mod Single
mod Tests
use c_cpp_projects.Prelude.{
  ℕ, zero, suc, ◌+◌, ◌-◌, Bool, true, false, ◌&&◌, not, List, [], ◌∷◌, Option, none, some, ◌==◌,
  ltb, if◌then◌else◌, Outcome, ok, panic, ◌>>=◌, sub32, add32,
}

-- `struct buf`; `id` stands for the address of the buffer, and `locked` is the state of its sleep lock.
pub record Buf : Type 0 where
  pub id : ℕ
  pub valid : Bool
  pub dirty : Bool
  pub dev : ℕ
  pub blockno : ℕ
  pub refcnt : ℕ
  pub locked : Bool

-- `binit` puts each of the `n` buffers in front of those before it. They are zero at the start.
pub binit : ℕ → List Buf
binit zero = []
binit (suc n) =
    record {
      id = n;
      valid = false;
      dirty = false;
      dev = 0;
      blockno = 0;
      refcnt = 0;
      locked = false;
    }
    ∷ binit n

abbrev pub holds_block : ℕ → ℕ → Buf → Bool
holds_block dev blockno b = (b.dev == dev) && (b.blockno == blockno)

-- The buffer found, with the one in front put back on the list.
abbrev pub behind : Buf → Option (Buf × List Buf) → Option (Buf × List Buf)
behind b none = none
behind b (some (c, cs)) = some (c, b ∷ cs)

-- The first loop of `bget`: the buffer that holds the block, with one reference more.
pub find_block : ℕ → ℕ → List Buf → Option (Buf × List Buf)
find_block dev blockno [] = none
find_block dev blockno (b ∷ bs) =
    let taken = record b { refcnt = add32 b.refcnt 1 } in
    if holds_block dev blockno b
    then some (taken, taken ∷ bs)
    else behind b (find_block dev blockno bs)

abbrev pub is_free : Buf → Bool
is_free b = (b.refcnt == 0) && not b.dirty

-- The second loop of `bget`, from the end of the list.
pub recycle : ℕ → ℕ → List Buf → Option (Buf × List Buf)
recycle dev blockno [] = none
recycle dev blockno (b ∷ bs) =
    let fresh = record b {
      dev = dev;
      blockno = blockno;
      valid = false;
      dirty = false;
      refcnt = 1;
    } in
    elim (recycle dev blockno bs) [
      | some (c, cs) ↦ some (c, b ∷ cs)
      | none ↦ if is_free b then some (fresh, fresh ∷ bs) else none
    ]

-- Up to the wait for the buffer's lock.
pub bget : ℕ → ℕ → List Buf → Outcome (Buf × List Buf)
bget dev blockno bs = elim (find_block dev blockno bs) [
  | some r ↦ ok r
  | none ↦ elim (recycle dev blockno bs) [ some r ↦ ok r | none ↦ panic "bget: no buffers" ]
]

-- Whether `bread` reads the disk, after `bget`.
abbrev pub needs_read : Buf → Bool
needs_read b = not b.valid

-- The buffer as `bwrite` hands it to the disk driver.
pub bwrite : Buf → Outcome Buf
bwrite b = if not b.locked then panic "bwrite" else ok (record b { dirty = true })

-- The buffer at an address, taken off the list.
pub take_out : ℕ → List Buf → Option (Buf × List Buf)
take_out id [] = none
take_out id (b ∷ bs) = if b.id == id then some (b, bs) else behind b (take_out id bs)

pub replace : ℕ → Buf → List Buf → List Buf
replace id c [] = []
replace id c (b ∷ bs) = if b.id == id then c ∷ bs else b ∷ replace id c bs

-- `brelse` of the buffer `b` of the list.
pub brelse : Buf → List Buf → Outcome (List Buf)
brelse b bs =
    let c = record b { locked = false; refcnt = sub32 b.refcnt 1 } in
    if not b.locked
    then panic "brelse"
    else if c.refcnt == 0
    then elim (take_out b.id bs) [ none ↦ ok bs | some (d, cs) ↦ ok (c ∷ cs) ]
    else ok (replace b.id c bs)
