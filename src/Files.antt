-- ===== src/Files.antt =====
-- The table of open files: c/os-master/file.c.
pub mod Counts
pub mod Chunks
mod Tests
use c_cpp_projects.Prelude.{
  ℕ, zero, suc, ◌+◌, ◌-◌, Bool, true, false, not, List, [], ◌∷◌, get_elem?, set, Option, none, some,
  ◌==◌, ltb, if◌then◌else◌, Outcome, ok, panic, fault, out_of_fuel, ◌>>=◌, ℤ, pos, negsuc,
  minus_one, add32,
}

pub data FileType : Type 0 where
  fd_none : FileType
  fd_pipe : FileType
  fd_inode : FileType

-- `struct file`; the pipe and the inode are numbers that stand for their addresses.
pub record File : Type 0 where
  pub kind : FileType
  pub ref : ℕ
  pub readable : Bool
  pub writable : Bool
  pub pipe : ℕ
  pub ip : ℕ
  pub off : ℕ

pub find_free : List File → ℕ → Option ℕ
find_free [] i = none
find_free (f ∷ fs) i = if f.ref == 0 then some i else find_free fs (suc i)

abbrev pub set_ref : List File → ℕ → File → ℕ → List File
set_ref fs i f n = set fs i (record f { ref = n })

pub filealloc : List File → Option ℕ × List File
filealloc fs = elim (find_free fs 0) [
  | none ↦ (none, fs)
  | some i ↦ elim (get_elem? fs i) [ none ↦ (none, fs) | some f ↦ (some i, set_ref fs i f 1) ]
]

pub filedup : ℕ → List File → Outcome (List File)
filedup i fs = elim (get_elem? fs i) [
  | none ↦ fault
  | some f ↦ if ltb f.ref 1 then panic "filedup" else ok (set_ref fs i f (f.ref + 1))
]

-- What `fileclose` has to do after it releases the table: nothing while there are references or for
-- FD_NONE; `pipeclose`; or `iput` in a transaction.
pub data Closing : Type 0 where
  still_open : Closing
  nothing : Closing
  close_pipe : ℕ → Bool → Closing
  put_inode : ℕ → Closing

abbrev pub closing : File → Closing
closing f = elim f.kind [
  | fd_none ↦ nothing
  | fd_pipe ↦ close_pipe f.pipe f.writable
  | fd_inode ↦ put_inode f.ip
]

pub fileclose : ℕ → List File → Outcome (List File × Closing)
fileclose i fs = elim (get_elem? fs i) [
  | none ↦ fault
  | some f ↦
      if ltb f.ref 1
      then panic "fileclose"
      else if ltb 0 (f.ref - 1)
      then ok (set_ref fs i f (f.ref - 1), still_open)
      else ok (set fs i (record f { ref = 0; kind = fd_none }), closing f)
]

-- `pipe_result` is what `piperead` returns, and `readi off n` what `readi` does.
pub fileread : ℤ → (ℕ → ℕ → ℤ) → ℕ → File → Outcome (ℤ × File)
fileread pipe_result readi n f = if not f.readable then ok (minus_one, f) else elim f.kind [
  | fd_none ↦ panic "fileread"
  | fd_pipe ↦ ok (pipe_result, f)
  | fd_inode ↦ elim (readi f.off n) [
    | pos r ↦ ok (pos r, record f { off = add32 f.off r })
    | negsuc r ↦ ok (negsuc r, f)
  ]
]

-- ((MAXOPBLOCKS-1-1-2) / 2) * 512
abbrev pub max_chunk : ℕ
max_chunk = 1536

-- The loop of `filewrite` from byte `i` on, on fuel: the byte it ends at, and the file. `writei i off n`
-- is what `writei` returns for `n` bytes from byte `i` of the call.
pub write_from : ℕ → (ℕ → ℕ → ℕ → ℤ) → ℕ → ℕ → File → Outcome (ℕ × File)
write_from zero writei n i f = out_of_fuel
write_from (suc fuel) writei n i f =
    let n1 = if ltb max_chunk (n - i) then max_chunk else n - i in
    if not (ltb i n) then ok (i, f) else elim (writei i f.off n1) [
      | negsuc r ↦ ok (i, f)
      | pos r ↦
          let rest = write_from fuel writei n (i + r) (record f { off = add32 f.off r }) in
          if not (r == n1) then panic "short filewrite" else rest
    ]

-- Each round that goes on writes at least a byte, so `n + 1` rounds are enough.
pub filewrite : ℤ → (ℕ → ℕ → ℕ → ℤ) → ℕ → File → Outcome (ℤ × File)
filewrite pipe_result writei n f = if not f.writable then ok (minus_one, f) else elim f.kind [
  | fd_none ↦ panic "filewrite"
  | fd_pipe ↦ ok (pipe_result, f)
  | fd_inode ↦
      write_from (suc n) writei n 0 f >>= λ r. ok (if r.0 == n then pos n else minus_one, r.1)
]
