-- ===== src/Ptable/Tests.antt =====
-- A table of three places: init, a shell and a child of the shell. The theorems at this table.
use c_cpp_projects.Prelude.{ℕ, ◌≡◌, refl, true, false, List, [], ◌∷◌, arith, ok}
use c_cpp_projects.Spinlock.{Cpu}
use c_cpp_projects.Ptable.{
  Task, unused, sleeping, runnable, running, zombie, exit_task, wait_once, reaped, pass,
}
use c_cpp_projects.Ptable.Exit.{exit_task_lem, Ended}
use c_cpp_projects.Ptable.Wait.{Freed, wait_once-reaps}
use c_cpp_projects.Ptable.Turns.{pass_lem, among}

abbrev blank : Task
blank = record {
  state = unused;
  pid = 0;
  parent = 0;
  chan = 0;
  killed = false;
  kstack = 0;
  file_offset = 0;
  number_of_paged_out = 0;
  number_of_page_faults = 0;
  total_number_of_paged_out = 0;
  number_of_allocated_pages = 0;
  pages = [];
  ram_queue = [];
  offset_queue = [];
}

abbrev init_task : Task
init_task = record blank { state = runnable; pid = 1; kstack = 4096 }

-- The shell sleeps in `wait`.
abbrev shell : Task
shell = record blank { state = sleeping; pid = 2; parent = 1; chan = 2; kstack = 8192 }

abbrev child : Task
child = record blank { state = running; pid = 3; parent = 2; kstack = 12288 }

abbrev dead : Task
dead = record child { state = zombie }

abbrev tasks : List Task
tasks = init_task ∷ shell ∷ child ∷ blank ∷ []

abbrev idle : Cpu
idle = record { id = 0; ncli = 0; intena = false; interrupts = true }

exit_task_lem_example : (qs : List Task) × (exit_task 1 2 tasks ≡ ok qs) × Ended 2 2 tasks qs
exit_task_lem_example = exit_task_lem 1 2 tasks child (λ e. absurd (omega arith)) refl

wait_once-reaps_example :
    (q : Task) × (wait_once 2 false (init_task ∷ shell ∷ dead ∷ blank ∷ [])
      ≡ reaped 3 12288 (init_task ∷ shell ∷ q ∷ blank ∷ []))
    × Freed dead q
wait_once-reaps_example =
    wait_once-reaps 2 false (init_task ∷ shell ∷ []) (blank ∷ []) dead (refl, (refl, tt)) refl refl

-- A process whose turn changes nothing else.
abbrev quiet : ℕ → List Task → List Task
quiet i ps = ps

pass_lem_example : among 0 (pass quiet 4 0 tasks).0 ≡ true
pass_lem_example = pass_lem quiet 4 0 tasks (λ i j ps ne r. r) (omega arith) (init_task, refl, refl)
