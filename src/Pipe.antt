-- ===== src/Pipe.antt =====
-- Pipes, c/os-master/pipe.c: a ring of 512 bytes between two counters that run freely and wrap.
-- A call holds `p->lock` except where it sleeps, so each function runs up to its next `sleep` or its
-- return; a sleeping call is run again, with what it has left, when it is woken. The result has the
-- channels that it woke, in order.
pub mod Window
pub mod Transfer
pub mod Fifo
pub mod Exchange
mod Tests
use c_cpp_projects.Prelude.{
  ℕ, zero, suc, ◌+◌, ◌%◌, Bool, true, false, ◌||◌, ◌&&◌, not, List, [], ◌∷◌, length, ◌==◌,
  if◌then◌else◌, add32, sub32, update,
}

abbrev pub pipesize : ℕ
pipesize = 512

-- `data` is the array, `nread` and `nwrite` are words.
pub record Pipe : Type 0 where
  pub bytes : ℕ → ℕ
  pub nread : ℕ
  pub nwrite : ℕ
  pub readopen : Bool
  pub writeopen : Bool

-- The addresses slept on: `&p->nread` by readers, `&p->nwrite` by writers.
pub data Chan : Type 0 where
  readers writers : Chan

-- How far a call got: it returned a count, it returned -1, or it sleeps with bytes still to send.
pub data Progress : Type 0 where
  returned : ℕ → Progress
  failed : Progress
  asleep : List ℕ → Progress

-- The pipe that `pipealloc` sets up in a fresh page, whose old bytes are arbitrary.
pub pipeinit : (ℕ → ℕ) → Pipe
pipeinit page = record { bytes = page; nread = 0; nwrite = 0; readopen = true; writeopen = true }

-- The pipe, the channel woken, and whether the page goes back to the allocator.
pub pipeclose : Pipe → Bool → Pipe × Chan × Bool
pipeclose p writable =
    if writable
    then (record p { writeopen = false }, readers, not p.readopen)
    else (record p { readopen = false }, writers, not p.writeopen)

abbrev pub is_full : Pipe → Bool
is_full p = p.nwrite == add32 p.nread pipesize

-- `p->data[p->nwrite++ % PIPESIZE] = x`
pub put : Pipe → ℕ → Pipe
put p x = record p { bytes = update p.bytes (p.nwrite % pipesize) x; nwrite = add32 p.nwrite 1 }

-- `pipewrite` from the byte at hand on, for a call of `n` bytes; `killed` is the caller's flag.
pub pipewrite_from : Bool → ℕ → List ℕ → Pipe → Pipe × List Chan × Progress
pipewrite_from killed n [] p = (p, readers ∷ [], returned n)
pipewrite_from killed n (x ∷ xs) p =
    let rest = pipewrite_from killed n xs (put p x) in
    if is_full p
    then (if not p.readopen || killed then (p, [], failed) else (p, readers ∷ [], asleep (x ∷ xs)))
    else rest

pub pipewrite : Bool → List ℕ → Pipe → Pipe × List Chan × Progress
unfolding pipewrite_from put
pipewrite killed addr p = pipewrite_from killed (length addr) addr p

abbrev pub is_empty : Pipe → Bool
is_empty p = p.nread == p.nwrite

-- The copying loop of `piperead`: the bytes stored through `addr`, and the pipe.
pub copy : ℕ → Pipe → List ℕ × Pipe
copy zero p = ([], p)
copy (suc n) p =
    let (out, q) = copy n (record p { nread = add32 p.nread 1 }) in
    if is_empty p then ([], p) else (p.bytes (p.nread % pipesize) ∷ out, q)

-- The bytes read come first. A reader that sleeps has nothing in hand.
pub piperead : Bool → ℕ → Pipe → List ℕ × Pipe × List Chan × Progress
unfolding copy
piperead killed n p =
    if is_empty p && p.writeopen
    then (if killed then ([], p, [], failed) else ([], p, [], asleep []))
    else (let (out, q) = copy n p in (out, q, writers ∷ [], returned (length out)))
