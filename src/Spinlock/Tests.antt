-- ===== src/Spinlock/Tests.antt =====
-- A processor with interrupts on: the theorems at this processor.
use c_cpp_projects.Prelude.{◌≡◌, refl, true, false, ok}
use c_cpp_projects.Spinlock.{Cpu}
use c_cpp_projects.Spinlock.Nesting.{IsValid, SameView, done, nested, run, run_lem}

abbrev running : Cpu
running = record { id = 3; ncli = 0; intena = false; interrupts = true }

running-IsValid : IsValid running
running-IsValid = record { off = λ ne. absurd (ne refl) }

run_lem_example :
    (d : Cpu) × (run (nested (nested done done) (nested done done)) running ≡ ok d)
    × SameView running d
run_lem_example = run_lem (nested (nested done done) (nested done done)) running running-IsValid
