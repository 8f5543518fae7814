-- ===== src/Jobs.antt =====
-- The list of the jobs of a shell: c/Computer Architecture labs/lab5/task2.c. What `waitpid` does is a
-- parameter. A listing works on the list in memory, with its pointers; the two functions that only
-- look for a job or put one in front are on lists.
pub mod Chain
pub mod Listing
mod Tests
use c_cpp_projects.Prelude.{
  ℕ, zero, suc, ◌+◌, ◌-◌, ◌%◌, Bool, true, false, List, [], ◌∷◌, Option, none, some, ◌==◌,
  if◌then◌else◌, Outcome, ok, out_of_fuel, ◌>>=◌, update, ℤ, pos, negsuc, minus_one, eq_ℤ,
}

-- TERMINATED, RUNNING and SUSPENDED
abbrev pub terminated : ℤ
terminated = minus_one

abbrev pub running : ℤ
running = pos 1

abbrev pub suspended : ℤ
suspended = pos 0

-- `process`; the list is the chain by `next`, and `cmd` stands for the address of the command.
pub record Job : Type 0 where
  pub cmd : ℕ
  pub pid : ℕ
  pub status : ℤ

pub update_process_status : ℕ → ℤ → List Job → List Job
update_process_status pid status [] = []
update_process_status pid status (j ∷ js) =
    if j.pid == pid
    then record j { status = status } ∷ js
    else j ∷ update_process_status pid status js

-- The macros WIFSTOPPED and WIFCONTINUED: the low byte is 0x7f; the word is 0xffff.
abbrev pub wifstopped : ℤ → Bool
wifstopped (pos n) = n % 256 == 127
wifstopped (negsuc n) = n % 256 == 128

abbrev pub wifcontinued : ℤ → Bool
wifcontinued s = eq_ℤ s (pos 65535)

-- What `waitpid(pid, &status, WNOHANG)` returns, and the word it stores, if it stores one.
abbrev pub WaitPid : Type 0
WaitPid = ℕ → ℤ × Option ℤ

abbrev pub stored : Option ℤ → ℤ → ℤ
stored none old = old
stored (some w) old = w

abbrev pub judged : ℤ → ℤ → ℤ
judged i s =
    if eq_ℤ i minus_one
    then terminated
    else if wifstopped s
    then suspended
    else if wifcontinued s
    then running
    else s

pub update_job : WaitPid → Job → Job
update_job waitpid j =
    let (i, w) = waitpid j.pid in record j { status = judged i (stored w j.status) }

pub add_process : List Job → ℕ → ℕ → List Job
add_process js cmd pid = record { cmd = cmd; pid = pid; status = running } ∷ js

-- The list in memory: `next` and the fields of the process at each address, 0 is null, `head` is
-- `*process_list`, and `freed` are the addresses given to `free`, the last one first.
pub record Store : Type 0 where
  pub job : ℕ → Job
  pub next : ℕ → ℕ
  pub head : ℕ
  pub freed : List ℕ

-- The loop of `updateProcessList` from the process at `p` on.
pub update_from : ℕ → WaitPid → ℕ → Store → Outcome Store
update_from zero waitpid p s = out_of_fuel
update_from (suc fuel) waitpid p s =
    let rest =
      update_from fuel waitpid (s.next p)
        (record s { job = update s.job p (update_job waitpid (s.job p)) }) in
    if p == 0 then ok s else rest

pub update_process_list : ℕ → WaitPid → Store → Outcome Store
update_process_list fuel waitpid s = update_from fuel waitpid s.head s

-- `*process_list = p` where `prev` is null, and `prev->next = p` otherwise.
pub unlink : ℕ → ℕ → Store → Store
unlink prev p s =
    if prev == 0 then record s { head = p } else record s { next = update s.next prev p }

-- The loop of `printProcessList`: the processes printed, and the memory after it.
pub print_from : ℕ → ℕ → ℕ → Store → Outcome (List Job × Store)
print_from zero prev p s = out_of_fuel
print_from (suc fuel) prev p s =
    let unlinked : Store = unlink prev (s.next p) s in
    let gone : Outcome (List Job × Store) =
      print_from fuel prev (s.next p) (record unlinked { freed = p ∷ unlinked.freed }) in
    let kept : Outcome (List Job × Store) = print_from fuel p (s.next p) s in
    if p == 0
    then ok ([], s)
    else (if eq_ℤ (s.job p).status terminated then gone else kept) >>= λ r. ok (s.job p ∷ r.0, r.1)

-- Each loop runs on fuel of a round for each process and one more.
pub print_process_list : ℕ → WaitPid → Store → Outcome (List Job × Store)
print_process_list fuel waitpid s =
    update_process_list fuel waitpid s >>= λ t. print_from fuel 0 t.head t
