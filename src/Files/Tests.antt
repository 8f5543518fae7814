-- ===== src/Files/Tests.antt =====
-- A table with two open files and a free place: the theorems at this table.
use c_cpp_projects.Prelude.{
  ℤ, leb, ◌+◌, ◌*◌, ◌/◌, ◌<◌, ◌≤◌, ℕ, zero, suc, sym, ap, ◌≡◌, refl, true, false, List, [], ◌∷◌,
  arith, ok, if◌then◌else◌, pos, minus_one, some-injective,
}
use c_cpp_projects.Files.{File, fd_none, fd_pipe, fd_inode, filedup, filewrite}
use c_cpp_projects.Files.Counts.{Counted, filedup_lem}
use c_cpp_projects.Files.Chunks.{WritesUpTo, filewrite_lem}

abbrev free_file : File
free_file = record {
  kind = fd_none;
  ref = 0;
  readable = false;
  writable = false;
  pipe = 0;
  ip = 0;
  off = 0;
}

abbrev plain : File
plain = record free_file { kind = fd_inode; ref = 2; writable = true; ip = 5; off = 100 }

abbrev pipe_end : File
pipe_end = record free_file { kind = fd_pipe; ref = 1; readable = true; pipe = 9 }

abbrev table : List File
table = plain ∷ pipe_end ∷ free_file ∷ []

-- Three descriptors.
abbrev held : List ℕ
held = 1 ∷ 0 ∷ 0 ∷ []

table-Counted : Counted held table
table-Counted zero f e = rw (sym (ap (λ h. h.ref) (some-injective plain f e))) refl
table-Counted (suc zero) f e = rw (sym (ap (λ h. h.ref) (some-injective pipe_end f e))) refl
table-Counted (suc (suc zero)) f e = rw (sym (ap (λ h. h.ref) (some-injective free_file f e))) refl
table-Counted (suc (suc (suc i))) f e = cc

filedup_lem_example : (gs : List File) × (filedup 1 table ≡ ok gs) × Counted (1 ∷ 1 ∷ 0 ∷ 0 ∷ []) gs
filedup_lem_example = filedup_lem (0 ∷ 0 ∷ []) table 1 pipe_end table-Counted refl

-- Up to MAXFILE blocks.
abbrev up_to_maxfile : ℕ → ℕ → ℕ → ℤ
up_to_maxfile i off k = if leb (off + k) 71680 then pos k else minus_one

up_to_maxfile-WritesUpTo : WritesUpTo 100 71680 up_to_maxfile
up_to_maxfile-WritesUpTo i k small = ((λ h. ground (arith, h)), (λ h. ground (arith, h)))

-- 4000 bytes go in three chunks.
filewrite_lem_example :
    (4100 ≤ 71680
      → filewrite minus_one up_to_maxfile 4000 plain ≡ ok (pos 4000, record plain { off = 4100 }))
    × (71680 < 4100
        → filewrite minus_one up_to_maxfile 4000 plain
          ≡ ok (minus_one, record plain { off = 100 + 71580 / 1536 * 1536 }))
filewrite_lem_example =
    filewrite_lem minus_one up_to_maxfile 4000 71680 plain up_to_maxfile-WritesUpTo refl refl
      (omega arith) (omega arith)
