-- ===== src/Ptable.antt =====
-- The process table and the life of a process: `allocproc`, `wait`, `exit`, `sleep`, `wakeup`, `kill`,
-- `yield`, `sched` and `scheduler` of c/os-master/proc.c.
pub mod Exit
pub mod Wait
pub mod Born
pub mod Turns
mod Tests
use mathlib.Core.Option
use c_cpp_projects.Prelude.{
  ℕ, zero, suc, ◌+◌, Bool, true, false, ◌&&◌, ◌||◌, not, List, [], ◌∷◌, length, map, replicate,
  get_elem?, set, Option, none, some, ◌==◌, if◌then◌else◌, Outcome, ok, panic, fault, ◌>>=◌, ℤ, pos,
  minus_one,
}
use c_cpp_projects.Spinlock.{Cpu, Lock, holding, acquire, release}
use c_cpp_projects.Paging.{Page, max_psyc_pages, max_total_pages}

pub data ProcState : Type 0 where
  unused : ProcState
  embryo : ProcState
  sleeping : ProcState
  runnable : ProcState
  running : ProcState
  zombie : ProcState

abbrev pub state_code : ProcState → ℕ
state_code unused = 0
state_code embryo = 1
state_code sleeping = 2
state_code runnable = 3
state_code running = 4
state_code zombie = 5

abbrev pub is_in : ProcState → ProcState → Bool
is_in s t = state_code s == state_code t

-- A pointer to the process at place `i` of the table is the number `i + 1`, and 0 is null; the
-- channels that are not processes are the numbers above NPROC.
pub record Task : Type 0 where
  pub state : ProcState
  pub pid : ℕ
  pub parent : ℕ
  pub chan : ℕ
  pub killed : Bool
  pub kstack : ℕ
  pub file_offset : ℕ
  pub number_of_paged_out : ℕ
  pub number_of_page_faults : ℕ
  pub total_number_of_paged_out : ℕ
  pub number_of_allocated_pages : ℕ
  pub pages : List Page
  pub ram_queue : List ℤ
  pub offset_queue : List ℤ

-- `ptable` and `nextpid`, an `int` whose overflow C leaves undefined: it is left out.
pub record Ptable : Type 0 where
  pub proc : List Task
  pub nextpid : ℕ

pub find_unused : List Task → ℕ → Option ℕ
find_unused [] i = none
find_unused (p ∷ ps) i = if is_in p.state unused then some i else find_unused ps (suc i)

-- The paging fields of a new process; `age` is the policy's first age of a page.
pub clear_paging : ℕ → Task → Task
clear_paging age p = record p {
  file_offset = 0;
  number_of_paged_out = 0;
  number_of_page_faults = 0;
  total_number_of_paged_out = 0;
  number_of_allocated_pages = 0;
  pages = replicate max_total_pages (record {
    v_address = 0;
    file_offset = minus_one;
    is_in_ram = 0;
    is_allocated = 0;
    age = age;
  });
  ram_queue = replicate max_psyc_pages minus_one;
  offset_queue = replicate max_psyc_pages minus_one;
}

-- `kstack` is what `kalloc` returns. The trap frame and the context on the new stack are left out.
pub embryo_at : ℕ → ℕ → Ptable → ℕ → Task → Option ℕ × Ptable
embryo_at age kstack t i p =
    let q = record p { state = embryo; pid = t.nextpid } in
    if kstack == 0
    then (
      none,
      record {
        proc = set t.proc i (record q { state = unused; kstack = 0 });
        nextpid = suc t.nextpid;
      },
    )
    else (
      some i,
      record {
        proc = set t.proc i (clear_paging age (record q { kstack = kstack }));
        nextpid = suc t.nextpid;
      },
    )

pub allocproc : ℕ → ℕ → Ptable → Option ℕ × Ptable
allocproc age kstack t = elim (find_unused t.proc 0) [
  | none ↦ (none, t)
  | some i ↦ elim (get_elem? t.proc i) [ none ↦ (none, t) | some p ↦ embryo_at age kstack t i p ]
]

pub wake : ℕ → Task → Task
wake chan p =
    if is_in p.state sleeping && (p.chan == chan) then record p { state = runnable } else p

pub wakeup1 : ℕ → List Task → List Task
wakeup1 chan ps = map (wake chan) ps

pub kill_task : Task → Task
kill_task p =
    let q = record p { killed = true } in
    if is_in q.state sleeping then record q { state = runnable } else q

pub kill_from : ℕ → List Task → ℤ × List Task
kill_from pid [] = (minus_one, [])
kill_from pid (p ∷ ps) =
    let (r, qs) = kill_from pid ps in
    if p.pid == pid then (pos 0, kill_task p ∷ ps) else (r, p ∷ qs)

pub kill : ℕ → Ptable → ℤ × Ptable
kill pid t = let (r, ps) = kill_from pid t.proc in (r, record t { proc = ps })

-- The body of the loop of `exit` that passes the children to init, at place `i`. A zombie child wakes
-- init, wherever init stands in the table.
pub pass_child : ℕ → ℕ → ℕ → List Task → List Task
pass_child cur init i ps = elim (get_elem? ps i) [
  | none ↦ ps
  | some p ↦
      if p.parent == cur
      then (let qs = set ps i (record p { parent = init }) in
          if is_in p.state zombie then wakeup1 init qs else qs)
      else ps
]

pub pass_children : ℕ → ℕ → ℕ → ℕ → List Task → List Task
pass_children zero i cur init ps = ps
pass_children (suc n) i cur init ps = pass_children n (suc i) cur init (pass_child cur init i ps)

-- The part of `exit` under the lock, for the process at place `i`, up to the call of `sched`. `init`
-- points to the first process. Left out are what comes before the lock is taken, the files, the
-- directory and the swap file; only the panic for `init` is put here.
pub exit_task : ℕ → ℕ → List Task → Outcome (List Task)
exit_task init i ps = if suc i == init then panic "init exiting" else elim (get_elem? ps i) [
  | none ↦ fault
  | some me ↦
      let qs = pass_children (length ps) 0 (suc i) init (wakeup1 me.parent ps) in
      elim (get_elem? qs i) [ none ↦ fault | some p ↦ ok (set qs i (record p { state = zombie })) ]
]

-- What one look of `wait` at the table comes to.
pub data Waited : Type 0 where
  reaped : ℕ → ℕ → List Task → Waited
  no_children : Waited
  must_sleep : Waited

-- The entry of a child that was waited for; `freevm` and `kfree` take its memory.
pub reap : Task → Task
reap p = record p { state = unused; pid = 0; parent = 0; killed = false; kstack = 0 }

-- The scan of `wait` over the table: whether the process has children, and the first that has ended,
-- with its pid, its kernel stack and the table after it.
pub scan_children : ℕ → List Task → Bool × Option (ℕ × ℕ × List Task)
scan_children cur [] = (false, none)
scan_children cur (p ∷ ps) =
    let (havekids, found) = scan_children cur ps in
    let behind = Option.map (λ r. (r.0, r.1, p ∷ r.2)) found in
    if not (p.parent == cur)
    then (havekids, behind)
    else if is_in p.state zombie
    then (true, some (p.pid, p.kstack, reap p ∷ ps))
    else (true, behind)

-- What follows the scan.
abbrev pub wait_end : Bool → Bool → Option (ℕ × ℕ × List Task) → Waited
wait_end killed havekids (some (pid, kstack, qs)) = reaped pid kstack qs
wait_end killed havekids none = if not havekids || killed then no_children else must_sleep

pub wait_once : ℕ → Bool → List Task → Waited
wait_once cur killed ps =
    let (havekids, found) = scan_children cur ps in wait_end killed havekids found

-- `sched`, up to the switch to the scheduler. `lk` is the table's lock.
pub sched : Cpu → Lock → Task → Outcome Task
sched c lk p =
    if not (holding c lk)
    then panic "sched ptable.lock"
    else if not (c.ncli == 1)
    then panic "sched locks"
    else if is_in p.state running
    then panic "sched running"
    else if c.interrupts
    then panic "sched interruptible"
    else ok p

-- `yield`, up to the switch.
pub yield : Cpu → Lock → Task → Outcome (Cpu × Lock × Task)
yield c lk p = do
  (d, taken) ← acquire c lk
  q ← sched d taken (record p { state = runnable })
  ok (d, taken, q)

-- `sleep`, up to the switch: `none` is the null pointer, and `same` says that the lock is the table's.
-- The processor, the table's lock, the lock given and the process come back.
pub sleep : Bool → ℕ → Option Lock → Cpu → Lock → Option Task → Outcome (Cpu × Lock × Lock × Task)
sleep same chan lk c table none = panic "sleep"
sleep same chan none c table (some p) = panic "sleep without lk"
sleep true chan (some lk) c table (some p) = do
  q ← sched c table (record p { chan = chan; state = sleeping })
  ok (c, table, table, q)
sleep false chan (some lk) c table (some p) = do
  (d, taken) ← acquire c table
  (e, freed) ← release d lk
  q ← sched e taken (record p { chan = chan; state = sleeping })
  ok (e, taken, freed, q)

-- One pass of the scheduler over the table, from place `i` on. `turn i` is what the process at place
-- `i` and those it calls do to the table until it switches back; the places that ran are listed.
pub pass : (ℕ → List Task → List Task) → ℕ → ℕ → List Task → List ℕ × List Task
pass turn zero i ps = ([], ps)
pass turn (suc n) i ps = elim (get_elem? ps i) [
  | none ↦ pass turn n (suc i) ps
  | some p ↦ elim (is_in p.state runnable) [
    | false ↦ pass turn n (suc i) ps
    | true ↦
        let (ran, qs) = pass turn n (suc i) (turn i (set ps i (record p { state = running }))) in
        (i ∷ ran, qs)
  ]
]
