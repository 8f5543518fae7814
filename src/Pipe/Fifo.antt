-- ===== src/Pipe/Fifo.antt =====
-- Any interleaving of the calls on one pipe (pipe.c) is a first-in first-out queue of bytes.
use c_cpp_projects.Prelude.{
  ℕ, not, arith, ◌-◌, ◌≡◌, ap, ◌∙◌, sym, Bool, true, false, List, [], ◌∷◌, ◌++◌, take, append_assoc,
  if◌then◌else◌,
}
use c_cpp_projects.Pipe.{Pipe, pipesize, readers, writers, pipewrite, piperead, pipeclose}
use c_cpp_projects.Pipe.Window.{used, contents, IsValid}
use c_cpp_projects.Pipe.Transfer.{pipewrite_lem, piperead_lem}

-- A call, up to its next sleep or its return.
pub data Call : Type 0 where
  writes : Bool → List ℕ → Call
  reads : Bool → ℕ → Call
  closes : Bool → Call

-- What has gone in, what has come out, and the pipe.
pub record Trace : Type 0 where
  pub sent : List ℕ
  pub received : List ℕ
  pub pipe : Pipe

pub step : Trace → Call → Trace
step s (writes killed addr) =
    let (q, _, _) = pipewrite killed addr s.pipe in
    record s { sent = s.sent ++ take (pipesize - used s.pipe) addr; pipe = q }
step s (reads killed n) =
    let (out, q, _, _) = piperead killed n s.pipe in
    record s { received = s.received ++ out; pipe = q }
step s (closes writable) = record s { pipe = (pipeclose s.pipe writable).0 }

pub run : Trace → List Call → Trace
run s [] = s
run s (c ∷ cs) = run (step s c) cs

-- The pipe is valid, and holds what went in and has not come out.
pub record InOrder (s : Trace) : Type 0 where
  pub valid : IsValid s.pipe
  pub order : s.sent ≡ s.received ++ contents s.pipe

close-InOrder : (s : Trace) (writable : Bool) → InOrder s → InOrder (step s (closes writable))
unfolding step pipeclose
close-InOrder s true i = record {
  valid = record {
    read_word = i.valid.read_word;
    write_word = i.valid.write_word;
    bounded = i.valid.bounded;
  };
  order = i.order;
}
close-InOrder s false i = record {
  valid = record {
    read_word = i.valid.read_word;
    write_word = i.valid.write_word;
    bounded = i.valid.bounded;
  };
  order = i.order;
}

step-InOrder : (s : Trace) (c : Call) → InOrder s → InOrder (step s c)
unfolding step
step-InOrder s (writes killed addr) i =
    let w = pipewrite_lem killed addr s.pipe i.valid in
    record {
      valid = w.valid;
      order =
          ap (λ xs. xs ++ take (pipesize - used s.pipe) addr) i.order
          ∙ (append_assoc s.received (contents s.pipe) (take (pipesize - used s.pipe) addr)
              ∙ ap (◌++◌ s.received) (sym w.bytes));
    }
step-InOrder s (reads killed n) i =
    let (c, _) = piperead_lem killed n s.pipe i.valid in
    record {
      valid = c.valid;
      order =
          i.order
          ∙ (ap (◌++◌ s.received) c.bytes
              ∙ sym (
                  append_assoc s.received (piperead killed n s.pipe).0
                    (contents (piperead killed n s.pipe).1)));
    }
step-InOrder s (closes writable) i = close-InOrder s writable i

-- Whatever calls readers, writers and closers make on a pipe, in whatever order, started with a
-- valid pipe that holds just the bytes sent and not yet received: the bytes sent are always those
-- received followed by those in the pipe, in the order of sending, so none is lost, repeated or
-- overtaken, although the counters wrap; and the pipe stays valid.
pub run-InOrder : (s : Trace) (cs : List Call) → InOrder s → InOrder (run s cs)
unfolding run
run-InOrder s [] i = i
run-InOrder s (c ∷ cs) i = run-InOrder (step s c) cs (step-InOrder s c i)

-- On a pipe with both ends open, closing one end and then the other gives the page back at the
-- second close only, whichever end comes first; each close wakes the processes that sleep at the
-- other end, and the bytes in the pipe stay for a reader.
pub pipeclose_both :
    (p : Pipe) (writable : Bool)
    → p.readopen ≡ true
    → p.writeopen ≡ true
    → let (q, woken, freed) = pipeclose p writable in
      let (r, woken', freed') = pipeclose q (not writable) in
      (freed ≡ false)
      × (freed' ≡ true)
      × (woken ≡ (if writable then readers else writers))
      × (woken' ≡ (if writable then writers else readers))
      × (contents r ≡ contents p)
unfolding pipeclose
pipeclose_both p true o o' = ground arith
pipeclose_both p false o o' = ground arith
