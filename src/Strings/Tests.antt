-- ===== src/Strings/Tests.antt =====
-- A memory with the string "abc" at 100: the theorems at this memory.
use c_cpp_projects.Prelude.{
  negsuc, ℕ, ◌+◌, ◌<◌, ◌≡◌, ◌≢◌, ◌↔◌, refl, arith, ltb, if◌then◌else◌, ok, pos,
}
use c_cpp_projects.Strings.{
  Memory, strncmp, memset, strncpy, fill_zero, memcpy, move_forward, memmove, memcmp, strlen,
}
use c_cpp_projects.Strings.Move.{Moved, memmove_lem}
use c_cpp_projects.Strings.Copy.{strlen_lem}
use c_cpp_projects.Strings.Compare.{SameBytes, memcmp_lem}

abbrev letters : Memory
letters a = if ltb a 103 then a else 0

-- The ranges overlap by two bytes.
memmove_lem_example : Moved 101 100 3 letters (memmove 101 100 3 letters)
memmove_lem_example = memmove_lem 101 100 3 letters

letters_ne : (i : ℕ) → i < 3 → letters (100 + i) ≢ 0
letters_ne i lt e = ground arith

strlen_lem_example : strlen 100 letters ≡ ok 3
strlen_lem_example = strlen_lem 100 3 letters (omega arith) refl letters_ne

memcmp_lem_example : (memcmp 103 200 4 letters ≡ pos 0) ↔ SameBytes 103 200 4 letters
memcmp_lem_example = memcmp_lem 103 200 4 letters

-- Comparing, clearing and copying with a limit.
compared : strncmp 100 101 3 letters ≡ negsuc 0
unfolding strncmp
compared = refl

cleared : memset 100 256 3 letters 101 ≡ 0
unfolding memset
cleared = refl

padded : strncpy 200 101 4 letters 203 ≡ 0
unfolding strncpy fill_zero
padded = refl

copied : memcpy 200 100 3 letters 202 ≡ 102
unfolding memcpy memmove move_forward
copied = refl
