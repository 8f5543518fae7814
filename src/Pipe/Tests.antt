-- ===== src/Pipe/Tests.antt =====
-- A pipe whose counters are about to wrap: runs of the code, and the theorems at this pipe.
use c_cpp_projects.Prelude.{
  ◌+◌, ◌≡◌, refl, ◌==◌, if◌then◌else◌, List, [], ◌∷◌, true, false, arith, ok, replicate,
}
use c_cpp_projects.Pipe.{Pipe, pipeinit, asleep, pipewrite, piperead}
use c_cpp_projects.Pipe.Window.{used, contents, IsValid}
use c_cpp_projects.Pipe.Fifo.{Trace, Call, writes, reads, closes, run, InOrder, run-InOrder}
use c_cpp_projects.Pipe.Exchange.{exchange, exchange_lem}

-- Empty, with both counters at the last word.
abbrev wrapping : Pipe
wrapping = record {
  bytes = λ _. 0;
  nread = 0xffff_ffff;
  nwrite = 0xffff_ffff;
  readopen = true;
  writeopen = true;
}

-- It holds the bytes 5, 6 and 7.
abbrev three : Pipe
three = record wrapping { bytes = λ i. if i == 511 then 5 else i + 6; nwrite = 2 }

wrapping-IsValid : IsValid wrapping
wrapping-IsValid = omega arith

three-IsValid : IsValid three
three-IsValid = omega arith

contents-three : contents three ≡ 5 ∷ 6 ∷ 7 ∷ []
contents-three = refl

read_across_the_wrap : (piperead false 2 three).0 ≡ 5 ∷ 6 ∷ []
unfolding piperead
read_across_the_wrap = refl

write_across_the_wrap : contents (pipewrite false (8 ∷ 9 ∷ []) wrapping).0 ≡ 8 ∷ 9 ∷ []
unfolding pipewrite
write_across_the_wrap = refl

-- The 513th byte does not fit.
long_write : (pipewrite false (replicate 513 4) (pipeinit (λ _. 0))).2 ≡ asleep (4 ∷ [])
unfolding pipewrite pipeinit
long_write = refl

abbrev history : List Call
history = writes false (1 ∷ 2 ∷ []) ∷ reads false 4 ∷ closes true ∷ reads false 1 ∷ []

abbrev begun : Trace
begun = record { sent = 5 ∷ 6 ∷ 7 ∷ []; received = []; pipe = three }

run-InOrder_example : InOrder (run begun history)
run-InOrder_example = run-InOrder begun history (record { valid = three-IsValid; order = refl })

exchange_lem_example :
    (q : Pipe) × (exchange 4 3 (1 ∷ 2 ∷ 3 ∷ []) wrapping ≡ ok (3, 1 ∷ 2 ∷ 3 ∷ [], q))
    × IsValid q
    × (used q ≡ 0)
exchange_lem_example =
    exchange_lem 4 3 (1 ∷ 2 ∷ 3 ∷ []) wrapping wrapping-IsValid refl refl (omega arith)
