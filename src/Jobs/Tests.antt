-- ===== src/Jobs/Tests.antt =====
-- A list of two jobs, of which one ends: the theorem at this list, and runs of the code.
use c_cpp_projects.Prelude.{
  ok, map, arith, ℕ, ◌≡◌, refl, [], ◌∷◌, none, All, ◌==◌, if◌then◌else◌, pos, minus_one,
}
use c_cpp_projects.Jobs.{
  Job, running, suspended, WaitPid, add_process, update_process_status, print_process_list, Store,
}
use c_cpp_projects.Jobs.Chain.{Chain, left, freed_after}
use c_cpp_projects.Jobs.Listing.{Judged, print_process_list_lem}

abbrev job : ℕ → Job
job n = record { cmd = n; pid = n; status = running }

-- Process 7 is gone, and nothing is new about the others.
abbrev seven_gone : WaitPid
seven_gone n = if n == 7 then (minus_one, none) else (pos 0, none)

-- The job at 200 is the first, and the job at 300 the second.
abbrev memory : Store
memory = record {
  job = λ a. job (if a == 200 then 8 else 7);
  next = λ a. if a == 200 then 300 else 0;
  head = 200;
  freed = [];
}

print_process_list_lem_example :
    (t : Store) × (print_process_list 3 seven_gone memory ≡ ok (map t.job (200 ∷ 300 ∷ []), t))
    × All (λ a. Judged seven_gone (memory.job a) (t.job a)) (200 ∷ 300 ∷ [])
    × Chain t.next t.head (left t.job (200 ∷ 300 ∷ []))
    × (t.freed ≡ freed_after t.job (200 ∷ 300 ∷ []) [])
print_process_list_lem_example =
    print_process_list_lem 3 seven_gone (200 ∷ 300 ∷ []) memory
      (refl, omega arith, (omega arith, tt), (refl, omega arith, tt, refl)) (omega arith)

added : add_process (job 7 ∷ []) 8 8 ≡ job 8 ∷ job 7 ∷ []
unfolding add_process
added = refl

updated :
    update_process_status 7 suspended (job 8 ∷ job 7 ∷ [])
    ≡ job 8 ∷ record (job 7) { status = suspended } ∷ []
unfolding update_process_status
updated = refl
