-- ===== src/Fs.antt =====
-- The blocks of the file system, the first part of c/os-master/fs.c, through the buffer cache. A block
-- is held in three views: bytes, words where it is an indirect block, and the inodes of the disk by
-- their number; no block is used in two views, and a block that changes its use is cleared by `bzero`
-- in the views of bytes and words. `logged` are the blocks that `log_write` was called
-- with, the last one first. `log_write` panics where the log is full or no transaction is open, which
-- is left out here: in Log it is modelled, and File/Bytes/Logged counts the calls of a `writei`.
pub mod Free
pub mod File
pub mod Path
pub mod Inodes
mod Tests
use c_cpp_projects.Prelude.{
  ℕ, zero, suc, ◌+◌, ◌*◌, ◌/◌, ◌%◌, Bool, true, false, ◌==◌, ltb, leb, if◌then◌else◌, Option, none,
  some, Outcome, ok, panic, out_of_fuel, ◌>>=◌, update, bit, bit_on, bit_off, List, ◌∷◌, ℤ,
}

-- BSIZE, BPB, NDIRECT, NINDIRECT and MAXFILE of fs.h
abbrev pub bsize : ℕ
bsize = 512

abbrev pub bpb : ℕ
bpb = 4096

abbrev pub ndirect : ℕ
ndirect = 12

abbrev pub nindirect : ℕ
nindirect = 128

abbrev pub maxfile : ℕ
maxfile = 140

-- `type` is 0 in a free inode, T_DEV is 3.
pub record Inode : Type 0 where
  pub inum : ℕ
  pub type : ℕ
  pub major : ℤ
  pub minor : ℤ
  pub nlink : ℕ
  pub size : ℕ
  pub addrs : ℕ → ℕ

-- `size`, `ninodes`, `bmapstart` and `inodestart` are those of the super block `sb`.
pub record Disk : Type 0 where
  pub size : ℕ
  pub ninodes : ℕ
  pub bmapstart : ℕ
  pub inodestart : ℕ
  pub byte : ℕ → ℕ → ℕ
  pub word : ℕ → ℕ → ℕ
  pub dinode : ℕ → Inode
  pub logged : List ℕ

-- `BBLOCK`
abbrev pub bblock : Disk → ℕ → ℕ
bblock s b = b / bpb + s.bmapstart

-- `bp->data[bi/8] & m` for the bit `bi` of the map's block for `b`.
abbrev pub map_bit : Disk → ℕ → ℕ → ℕ
map_bit s b bi = bit (s.byte (bblock s b) (bi / 8)) (bi % 8)

abbrev pub log_write : ℕ → Disk → Disk
log_write b s = record s { logged = b ∷ s.logged }

-- `bp->data[i] = v`
abbrev pub set_byte : ℕ → ℕ → ℕ → Disk → Disk
set_byte b i v s = record s { byte = update s.byte b (update (s.byte b) i v) }

abbrev pub set_word : ℕ → ℕ → ℕ → Disk → Disk
set_word b i v s = record s { word = update s.word b (update (s.word b) i v) }

unfoldable pub bzero : ℕ → Disk → Disk
bzero bno s =
    log_write bno
      (record s { byte = update s.byte bno (λ _. 0); word = update s.word bno (λ _. 0) })

-- The inner loop of `balloc` from the bit `bi` on, for `n` rounds at most: the bit that is clear.
pub scan_bits : ℕ → ℕ → ℕ → Disk → Option ℕ
scan_bits zero b bi s = none
scan_bits (suc n) b bi s =
    let rest = scan_bits n b (suc bi) s in
    if leb s.size (b + bi) then none else if map_bit s b bi == 0 then some bi else rest

-- What `balloc` does with the block that it has found.
abbrev pub take_block : ℕ → ℕ → Disk → Disk
take_block b bi s = bzero (b + bi) (
    log_write (bblock s b)
      (set_byte (bblock s b) (bi / 8) (bit_on (s.byte (bblock s b) (bi / 8)) (bi % 8)) s))

pub balloc_loop : ℕ → ℕ → Disk → Outcome (ℕ × Disk)
balloc_loop zero b s = out_of_fuel
balloc_loop (suc fuel) b s =
    let rest = balloc_loop fuel (b + bpb) s in
    if leb s.size b
    then panic "balloc: out of blocks"
    else elim (scan_bits bpb b 0 s) [ none ↦ rest | some bi ↦ ok (b + bi, take_block b bi s) ]

-- A round for each block of the map, and the last test.
pub balloc : Disk → Outcome (ℕ × Disk)
balloc s = balloc_loop (s.size / bpb + 2) 0 s

-- The super block that it reads again is the one in memory.
pub bfree : ℕ → Disk → Outcome Disk
bfree b s =
    let bi : ℕ = b % bpb in
    if map_bit s b bi == 0
    then panic "freeing free block"
    else ok (
        log_write (bblock s b)
          (set_byte (bblock s b) (bi / 8) (bit_off (s.byte (bblock s b) (bi / 8)) (bi % 8)) s))
