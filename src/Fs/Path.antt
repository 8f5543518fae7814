-- ===== src/Fs/Path.antt =====
-- Paths and directories: `skipelem`, `namex`, `namei` and `nameiparent` of c/os-master/fs.c with `iget`,
-- `idup`, `ilock` and `iput`, and the loops of `dirlookup` and `dirlink`. A path is the list of its
-- bytes before the terminating 0. An inode is its number: the table of inodes in memory is taken to
-- have a free place, and all inodes to be on one device.
pub mod Names
pub mod Resolve
pub mod Namex
pub mod Directory
use c_cpp_projects.Prelude.{
  ◌%◌, ◌^◌, ℕ, zero, suc, ◌+◌, ◌-◌, Bool, true, false, ◌&&◌, ◌||◌, not, ◌==◌, ltb, leb,
  if◌then◌else◌, Option, none, some, List, [], ◌∷◌, ◌++◌, length, take, drop, Outcome, ok, panic,
  ◌>>=◌, out_of_fuel, update,
}

-- DIRSIZ
abbrev pub dirsiz : ℕ
dirsiz = 14

-- `while(*path == '/') path++`
pub skip_slashes : List ℕ → List ℕ
skip_slashes [] = []
skip_slashes (c ∷ cs) = let rest = skip_slashes cs in if c == b'/' then rest else c ∷ cs

-- `while(*path != '/' && *path != 0) path++`: what it passes, and what is left.
pub split_elem : List ℕ → List ℕ × List ℕ
split_elem [] = ([], [])
split_elem (c ∷ cs) =
    let rest = split_elem cs in if c == b'/' then ([], c ∷ cs) else (c ∷ rest.0, rest.1)

-- `name` is the array of 14 bytes that `skipelem` writes to.
abbrev pub set_name : List ℕ → List ℕ → List ℕ
set_name s name =
    if leb dirsiz (length s) then take dirsiz s else s ++ (0 ∷ drop (length s + 1) name)

-- An element of the path, on the path without leading slashes.
abbrev pub take_elem : List ℕ → List ℕ → Option (List ℕ × List ℕ)
take_elem [] name = none
take_elem (c ∷ cs) name =
    let parts = split_elem (c ∷ cs) in some (skip_slashes parts.1, set_name parts.0 name)

-- The rest of the path and the new name, or nothing where no element is left.
pub skipelem : List ℕ → List ℕ → Option (List ℕ × List ℕ)
skipelem path name = take_elem (skip_slashes path) name

-- The string in the array: up to a 0 or the end.
pub c_string : List ℕ → List ℕ
c_string [] = []
c_string (c ∷ cs) = let rest = c_string cs in if c == 0 then [] else c ∷ rest

-- The inodes in memory: `truncated` are those that `iput` has truncated and freed, the last one first.
pub record Icache : Type 0 where
  pub ref : ℕ → ℕ
  pub valid : ℕ → Bool
  pub nlink : ℕ → ℕ
  pub type : ℕ → ℕ
  pub truncated : List ℕ

pub iget : ℕ → Icache → Icache
iget i s = record s {
  ref = update s.ref i (s.ref i + 1);
  valid = if s.ref i == 0 then update s.valid i false else s.valid;
}

pub idup : ℕ → Icache → Icache
idup i s = record s { ref = update s.ref i (s.ref i + 1) }

-- An inode that is not valid is read from the disk, where its type is the same. The sleep lock is left
-- out.
pub ilock : ℕ → Icache → Outcome Icache
ilock i s =
    if s.ref i == 0
    then panic "ilock"
    else if s.valid i
    then ok s
    else if s.type i == 0
    then panic "ilock: no type"
    else ok (record s { valid = update s.valid i true })

-- The last reference to an inode without links frees it.
abbrev pub drop_inode : ℕ → Icache → Icache
drop_inode i s =
    if s.valid i && ((s.nlink i == 0) && (s.ref i == 1))
    then record s {
      type = update s.type i 0;
      valid = update s.valid i false;
      truncated = i ∷ s.truncated;
    }
    else s

pub iput : ℕ → Icache → Icache
iput i s = let t : Icache = drop_inode i s in record t { ref = update t.ref i (t.ref i - 1) }

-- What `namex` does after its loop, and with what `dirlookup` finds; `more` is the next round.
abbrev pub ended : Bool → List ℕ → ℕ → Icache → Option ℕ × List ℕ × Icache
ended parent name ip s = if parent then (none, name, iput ip s) else (some ip, name, s)

abbrev pub descend :
    (ℕ → Icache → Outcome (Option ℕ × List ℕ × Icache))
    → List ℕ
    → ℕ
    → Icache
    → Option ℕ
    → Outcome (Option ℕ × List ℕ × Icache)
descend more name ip t none = ok (none, name, iput ip t)
descend more name ip t (some next) = more next (iput ip (iget next t))

-- The rest of a round, with the inode locked. T_DIR is 1.
abbrev pub locked :
    (List ℕ → List ℕ → ℕ → Icache → Outcome (Option ℕ × List ℕ × Icache))
    → (ℕ → List ℕ → Option ℕ)
    → Bool
    → List ℕ
    → List ℕ
    → ℕ
    → Icache
    → Outcome (Option ℕ × List ℕ × Icache)
locked more lookup parent rest name ip t =
    if not (t.type ip == 1)
    then ok (none, name, iput ip t)
    else if parent && leb (length rest) 0
    then ok (some ip, name, t)
    else descend (more rest name) name ip t (lookup ip (c_string name))

-- A round of `namex` on the outcome of `skipelem`.
abbrev pub round :
    (List ℕ → List ℕ → ℕ → Icache → Outcome (Option ℕ × List ℕ × Icache))
    → (ℕ → List ℕ → Option ℕ)
    → Bool
    → List ℕ
    → ℕ
    → Icache
    → Option (List ℕ × List ℕ)
    → Outcome (Option ℕ × List ℕ × Icache)
round more lookup parent name ip s none = ok (ended parent name ip s)
round more lookup parent name ip s (some (rest, name')) =
    ilock ip s >>= λ t. locked more lookup parent rest name' ip t

-- The loop of `namex`, from the inode `ip` on; `lookup` is what `dirlookup` finds in a directory.
pub namex_loop :
    ℕ
    → (ℕ → List ℕ → Option ℕ)
    → Bool
    → List ℕ
    → List ℕ
    → ℕ
    → Icache
    → Outcome (Option ℕ × List ℕ × Icache)
namex_loop zero lookup parent path name ip s = out_of_fuel
namex_loop (suc fuel) lookup parent path name ip s =
    round (namex_loop fuel lookup parent) lookup parent name ip s (skipelem path name)

-- `root` is ROOTINO and `cwd` the current directory of the process. A round takes a byte of the path
-- at least.
pub namex :
    (ℕ → List ℕ → Option ℕ)
    → ℕ
    → ℕ
    → Bool
    → List ℕ
    → List ℕ
    → Icache
    → Outcome (Option ℕ × List ℕ × Icache)
namex lookup root cwd parent path name s =
    let from_root = namex_loop (length path + 1) lookup parent path name root (iget root s) in
    let from_cwd = namex_loop (length path + 1) lookup parent path name cwd (idup cwd s) in
    elim path [ [] ↦ from_cwd | c ∷ _ ↦ if c == b'/' then from_root else from_cwd ]

-- `struct dirent`; the entries of a directory are what `readi` and `writei` move of it, 16 bytes each.
pub record Dirent : Type 0 where
  pub inum : ℕ
  pub name : List ℕ

-- `strncmp(p, q, n) == 0`, on strings that end with a 0 or with the list.
pub namecmp : ℕ → List ℕ → List ℕ → Bool
namecmp zero p q = true
namecmp (suc n) [] [] = true
namecmp (suc n) [] (b ∷ q) = b == 0
namecmp (suc n) (a ∷ p) [] = a == 0
namecmp (suc n) (a ∷ p) (b ∷ q) =
    let rest = namecmp n p q in if a == b then (if a == 0 then true else rest) else false

-- What `strncpy(d, s, n)` leaves in the array `d` of `n` bytes.
pub strncpy_name : ℕ → List ℕ → List ℕ
strncpy_name zero s = []
strncpy_name (suc n) [] = 0 ∷ strncpy_name n []
strncpy_name (suc n) (c ∷ s) =
    let rest = strncpy_name n s in
    let zeros = strncpy_name n [] in if c == 0 then 0 ∷ zeros else c ∷ rest

-- The inode's number and the place of the entry.
pub dirlookup : List ℕ → ℕ → List Dirent → Option (ℕ × ℕ)
dirlookup name i [] = none
dirlookup name i (e ∷ es) =
    let rest = dirlookup name (i + 1) es in
    if e.inum == 0 then rest else if namecmp dirsiz name e.name then some (e.inum, i) else rest

-- `de.inum = inum`, which is an `ushort`.
abbrev pub new_entry : List ℕ → ℕ → Dirent
new_entry name inum = record { inum = inum % 2 ^ 16; name = strncpy_name dirsiz name }

-- The second loop of `dirlink` and the write after it: into the first empty entry, or at the end.
pub put_entry : List ℕ → ℕ → List Dirent → List Dirent
put_entry name inum [] = new_entry name inum ∷ []
put_entry name inum (e ∷ es) =
    let rest = put_entry name inum es in if e.inum == 0 then new_entry name inum ∷ es else e ∷ rest

-- Nothing for -1, where the name is there already.
pub dirlink : List ℕ → ℕ → List Dirent → Option (List Dirent)
dirlink name inum es = elim (dirlookup name 0 es) [
  | some _ ↦ none
  | none ↦ some (put_entry name inum es)
]
