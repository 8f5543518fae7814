-- ===== src/Fs/Tests.antt =====
-- The file system at a small disk of four blocks: the map is in block 2, a file has block 1, and
-- block 3 is free.
use c_cpp_projects.Prelude.{
  ℕ, ◌+◌, ◌*◌, ◌%◌, ◌<◌, ◌≤◌, ◌≡◌, ◌≢◌, ◌⊎◌, refl, sym, ◌∙◌, arith, false, List, [], ◌∷◌, Option,
  none, some, Outcome, ok, panic, fault, out_of_fuel, update, ℤ, pos, minus_one, map, take,
  if◌then◌else◌, leb, ◌==◌, ◌&&◌, length,
}
use c_cpp_projects.Fs.{Disk, Inode, bblock, balloc}
use c_cpp_projects.Fs.Free.{IsValid}
use c_cpp_projects.Fs.Free.Balloc.{Ballocated, balloc_lem}
use c_cpp_projects.Fs.Path.{Icache, Dirent}
use c_cpp_projects.Fs.Inodes.{Entry, iget_entry, ialloc}
use c_cpp_projects.Fs.Inodes.Table.{Single, Got, iget_entry_lem}
use c_cpp_projects.Fs.Inodes.Ialloc.{IallocEnds, ialloc_lem}
use c_cpp_projects.Fs.Path.Names.{elements, cut}
use c_cpp_projects.Fs.Path.Resolve.{walk}
use c_cpp_projects.Fs.File.{itrunc, Io, bmap, bmap_direct, write_loop, writei, readi, Device}
use c_cpp_projects.Fs.File.Map.{block_at, Sound}
use c_cpp_projects.Fs.File.Map.Bmap.{bmap_lem}
use c_cpp_projects.Fs.File.Map.Place.{Located}
use c_cpp_projects.Fs.File.Trunc.Whole.{Truncated, itrunc_lem}
use c_cpp_projects.Fs.File.Bytes.Write.{WriteiEnds, writei_lem}
use c_cpp_projects.Fs.File.Bytes.Logged.{LogHolds}
use c_cpp_projects.Fs.File.Bytes.Readi.{readi-writei}

-- Blocks 0, 1 and 2 are in use.
abbrev disk : Disk
disk = record {
  size = 4;
  ninodes = 8;
  bmapstart = 2;
  inodestart = 1;
  byte = update (λ _ _. 0) 2 (update (λ _. 0) 0 7);
  word = λ _ _. 0;
  dinode = λ i. record {
    inum = i;
    type = 0;
    major = pos 0;
    minor = pos 0;
    nlink = 0;
    size = 0;
    addrs = λ _. 0;
  };
  logged = [];
}

abbrev file : Inode
file = record {
  inum = 5;
  type = 2;
  major = pos 0;
  minor = pos 0;
  nlink = 1;
  size = 10;
  addrs = update (λ _. 0) 0 1;
}

disk-IsValid : IsValid disk
disk-IsValid = record {
  marked = λ c h. let at : bblock disk c ≡ 2 = omega arith in rw (at) refl;
  room = λ c h. omega arith;
}

-- Only the first place of the file is filled.
only_first : (k : ℕ) → block_at file disk k ≢ 0 → k ≡ 0
unfolding block_at
only_first k h = ground arith

file-first : block_at file disk 0 ≡ 1
unfolding block_at
file-first = refl

file-Sound : Sound file disk
file-Sound = record {
  valid = disk-IsValid;
  boot = refl;
  inside = λ k h some. rw (only_first k some, file-first) (omega arith);
  held = λ k h some. rw (only_first k some, file-first) refl;
  no_map = λ k c h hc some. rw (only_first k some, file-first) (λ e. absurd (omega (arith, e)));
  distinct = λ k l hk hl n some e. n (only_first k some ∙ sym (only_first l (λ z. some (e ∙ z))));
}

abbrev io : Io
io = record { ip = file; disk = disk; mem = λ a. a % 256 }

abbrev no_device : ℕ → Option Device
no_device i = none

balloc_lem_example : Ballocated disk (balloc disk)
balloc_lem_example = balloc_lem disk disk-IsValid

itrunc_lem_example :
    (ip : Inode) × (u : Disk) × (itrunc file disk ≡ ok (ip, u)) × Truncated file disk ip u
itrunc_lem_example = itrunc_lem file disk file-Sound

bmap_lem_example : Located file disk 21 (bmap 20 file disk)
bmap_lem_example = bmap_lem file disk 20 file-Sound (omega arith)

writei_lem_example :
    ((10 < 2) ⊎ (140 * 512 < 2 + 3) → writei no_device 100 2 3 io ≡ ok (minus_one, io))
    × (2 ≤ 10
        → 2 + 3 ≤ 140 * 512
        → 3 ≤ 1536
        → 0 ≤ 4
        → WriteiEnds io 2 100 3 (writei no_device 100 2 3 io)
          × LogHolds (writei no_device 100 2 3 io))
writei_lem_example =
    writei_lem no_device io 2 100 3 file-Sound (omega arith) (omega arith) (omega arith)

abbrev io_of : Outcome (ℤ × Io) → Io
io_of (ok (z, s)) = s
io_of (panic m) = io
io_of fault = io
io_of out_of_fuel = io

abbrev written : Io
written = io_of (writei no_device 100 2 3 io)

written_run : writei no_device 100 2 3 io ≡ ok (pos 3, written)
unfolding writei write_loop bmap bmap_direct
written_run = refl

readi-writei_example :
    (v : Io) × (readi no_device 200 2 3 written ≡ ok (pos 3, v))
    × ((k : ℕ) → k < 3 → v.mem (200 + k) ≡ (100 + k) % 256)
readi-writei_example =
    readi-writei no_device io written 2 100 200 3 file-Sound (omega arith) (omega arith)
      (omega arith) (omega arith) written_run

-- Two directories: 1 lists each name of two bytes as 2, and 2 each name of one byte as 3.
abbrev tree : ℕ → List ℕ → Option ℕ
tree i name =
    if (i == 1) && (length name == 2)
    then some 2
    else if (i == 2) && (length name == 1)
    then some 3
    else none

abbrev icache : Icache
icache = record {
  ref = λ _. 0;
  valid = λ _. false;
  nlink = λ _. 1;
  type = λ i. if leb i 2 then 1 else 2;
  truncated = [];
}

-- `/ab//c`
abbrev path : List ℕ
path = b'/' ∷ b'a' ∷ b'b' ∷ b'/' ∷ b'/' ∷ b'c' ∷ []

walk_run : walk tree icache.type false (map (take 14) (elements path)) 1 ≡ some 3
unfolding walk elements cut
walk_run = refl

abbrev entries : List Dirent
entries = record { inum = 7; name = b'x' ∷ 0 ∷ [] } ∷ record { inum = 0; name = [] } ∷ []

-- One entry in memory is in use, for the inode 5.
abbrev cached : ℕ → Entry
cached k = record { dev = 1; inum = 5; ref = if k == 0 then 1 else 0; valid = false }

cached-first : (k : ℕ) → (cached k).ref ≢ 0 → k ≡ 0
cached-first k h = ground (arith, h)

cached-Single : Single cached
cached-Single dev inum k l hk hl (a, _, _) (b, _, _) = cached-first k a ∙ sym (cached-first l b)

iget_entry_lem_example : Got 1 5 cached (iget_entry 1 5 cached)
iget_entry_lem_example = iget_entry_lem cached 1 5 cached-Single

ialloc_lem_example : IallocEnds 1 2 disk cached (ialloc 1 2 disk cached)
ialloc_lem_example = ialloc_lem disk cached 1 2 cached-Single
