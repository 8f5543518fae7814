-- ===== src/Syscalls/Tests.antt =====
-- A process of 8192 bytes with its stack at 4096: the theorems at this process.
use c_cpp_projects.Prelude.{◌+◌, ◌≤◌, ◌≡◌, refl, some, arith, ltb, if◌then◌else◌, pos}
use c_cpp_projects.Syscalls.{User, argptr, argint, argstr, fetchint, fetchstr, scan_string}
use c_cpp_projects.Syscalls.Bounds.{argptr_lem}

abbrev user : User
user = record { sz = 8192; esp = 4096; byte = λ a. if ltb a 8000 then 65 else 0; word = λ a. 8190 }

accepted : argptr 0 (pos 2) user ≡ some 8190
unfolding argptr argint fetchint
accepted = refl

argptr_lem_example : 8190 + 2 ≤ 8192
argptr_lem_example = argptr_lem 0 2 8190 user (omega arith) (omega arith) accepted

found : fetchstr 7998 user ≡ some 2
unfolding fetchstr scan_string
found = refl

string_argument : argstr 0 user ≡ some (8190, 0)
unfolding argstr argint fetchint fetchstr scan_string
string_argument = refl
