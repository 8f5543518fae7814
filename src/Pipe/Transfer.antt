-- ===== src/Pipe/Transfer.antt =====
-- `pipewrite` and `piperead` of pipe.c, as transfers to and from the queue of bytes.
use c_cpp_projects.Prelude.{
  ℕ, ◌%◌, ◌==◌, zero, suc, ◌+◌, ◌-◌, ◌≡◌, refl, ap, ◌∙◌, sym, Bool, ◌||◌, ◌&&◌, not, List, [], ◌∷◌,
  ◌++◌, length, take, drop, append-nil, append_assoc, arith, leb, lt→leb_false, true, false,
  if◌then◌else◌, min, take-nil, Bool-cases, inl, inr,
}
use c_cpp_projects.Pipe.{
  Pipe, pipesize, put, Chan, readers, writers, Progress, returned, failed, asleep, pipewrite_from,
  pipewrite, copy, piperead, is_empty,
}
use c_cpp_projects.Pipe.Window.{
  used, contents, IsValid, put_lem, get_lem, is_full-used, is_full-full, is_empty-used,
  is_empty-empty,
}

-- What a write of `xs` into `r` bytes of room comes to.
abbrev pub write_outcome : Bool → ℕ → ℕ → List ℕ → Pipe → List Chan × Progress
write_outcome killed n r xs p =
    if leb (length xs) r
    then (readers ∷ [], returned n)
    else if not p.readopen || killed
    then ([], failed)
    else (readers ∷ [], asleep (drop r xs))

pub record Written (killed : Bool) (n r : ℕ) (xs : List ℕ) (p : Pipe)
    (out : Pipe × List Chan × Progress) : Type 0 where
  pub valid : IsValid out.0
  pub bytes : contents out.0 ≡ contents p ++ take r xs
  pub read_end : out.0.readopen ≡ p.readopen
  pub write_end : out.0.writeopen ≡ p.writeopen
  pub outcome : (out.1, out.2) ≡ write_outcome killed n r xs p

-- Nothing is left to write.
Written-nil :
    (killed : Bool) (n r : ℕ) (p : Pipe)
    → IsValid p
    → Written killed n r [] p (p, readers ∷ [], returned n)
Written-nil killed n r p v = record {
  valid = v;
  bytes = rw (take-nil ℕ r) (sym (append-nil (contents p)));
  read_end = refl;
  write_end = refl;
  outcome = ground arith;
}

-- The pipe is full.
Written-full :
    (killed : Bool) (n x : ℕ) (xs : List ℕ) (p : Pipe)
    → IsValid p
    → Written killed n 0
        (x ∷ xs)
        p
        (if not p.readopen || killed then (p, [], failed) else (p, readers ∷ [], asleep (x ∷ xs)))
Written-full killed n x xs p v = elim (Bool-cases (not p.readopen || killed)) [
  | inl e ↦ rw e (record {
    valid = v;
    bytes = sym (append-nil (contents p));
    read_end = refl;
    write_end = refl;
    outcome = rw (lt→leb_false (suc (length xs)) 0 (omega arith), e) refl;
  })
  | inr e ↦ rw e (record {
    valid = v;
    bytes = sym (append-nil (contents p));
    read_end = refl;
    write_end = refl;
    outcome = rw (lt→leb_false (suc (length xs)) 0 (omega arith), e) refl;
  })
]

-- One byte more than a write that began after it.
Written-put :
    (killed : Bool) (n r x : ℕ) (xs : List ℕ) (p : Pipe) (out : Pipe × List Chan × Progress)
    → contents (put p x) ≡ contents p ++ x ∷ []
    → Written killed n r xs (put p x) out
    → Written killed n (suc r) (x ∷ xs) p out
unfolding put
Written-put killed n r x xs p out e w = record {
  valid = w.valid;
  bytes = w.bytes ∙ (ap (λ c. c ++ take r xs) e ∙ append_assoc (contents p) (x ∷ []) (take r xs));
  read_end = w.read_end;
  write_end = w.write_end;
  outcome = ground (arith, w.outcome);
}

pub write_from_lem :
    (killed : Bool) (n r : ℕ) (xs : List ℕ) (p : Pipe)
    → IsValid p
    → used p + r ≡ pipesize
    → Written killed n r xs p (pipewrite_from killed n xs p)
unfolding pipewrite_from
write_from_lem killed n r [] p v e = Written-nil killed n r p v
write_from_lem killed n zero (x ∷ xs) p v e =
    rw (is_full-full p v (omega arith)) (Written-full killed n x xs p v)
write_from_lem killed n (suc r) (x ∷ xs) p v e =
    let (v', u, c) = put_lem p x v (omega arith) in
    rw (is_full-used p v (omega arith))
      (Written-put killed n r x xs p _ c (write_from_lem killed n r xs (put p x) v' (omega arith)))

-- `pipewrite` of `addr` appends to a valid pipe as many of the bytes as there is room for, in order,
-- and keeps the pipe valid and its ends as they are. If all fit, it returns their number and wakes
-- the readers; if not, it returns -1 if the read end is closed or the caller killed, and otherwise
-- wakes the readers and sleeps with just the bytes that did not fit.
pub pipewrite_lem :
    (killed : Bool) (addr : List ℕ) (p : Pipe)
    → IsValid p
    → Written killed (length addr) (pipesize - used p) addr p (pipewrite killed addr p)
unfolding pipewrite
pipewrite_lem killed addr p v =
    write_from_lem killed (length addr) (pipesize - used p) addr p v (omega (arith, v.bounded))

pub record Copied (n : ℕ) (p : Pipe) (out : List ℕ × Pipe) : Type 0 where
  pub valid : IsValid out.1
  pub bytes : contents p ≡ out.0 ++ contents out.1
  pub count : length out.0 ≡ min n (used p)
  pub read_end : out.1.readopen ≡ p.readopen
  pub write_end : out.1.writeopen ≡ p.writeopen

copy_lem : (n k : ℕ) (p : Pipe) → IsValid p → used p ≡ k → Copied n p (copy n p)
unfolding copy
copy_lem zero k p v e = record {
  valid = v;
  bytes = refl;
  count = omega arith;
  read_end = refl;
  write_end = refl;
}
copy_lem (suc n) zero p v e =
    rw (is_empty-empty p v e)
      (record { valid = v; bytes = refl; count = omega arith; read_end = refl; write_end = refl })
copy_lem (suc n) (suc k) p v e =
    let (v', u, c) = get_lem p v e in
    let ih = copy_lem n k _ v' u in
    rw (is_empty-used p v (omega arith)) (record {
      valid = ih.valid;
      bytes = c ∙ ap (◌∷◌ (p.bytes (p.nread % pipesize))) ih.bytes;
      count = omega (arith, ih.count);
      read_end = ih.read_end;
      write_end = ih.write_end;
    })

abbrev pub waiting : Bool → List Chan × Progress
waiting killed = if killed then ([], failed) else ([], asleep [])

abbrev pub read_outcome : Bool → ℕ → Pipe → List Chan × Progress
read_outcome killed n p =
    if used p == 0 && p.writeopen then waiting killed else (writers ∷ [], returned (min n (used p)))

is_empty-eq : (p : Pipe) → IsValid p → is_empty p ≡ (used p == 0)
is_empty-eq p v = ground arith

abbrev waits : Bool → Pipe → List ℕ × Pipe × List Chan × Progress
waits killed p = if killed then ([], p, [], failed) else ([], p, [], asleep [])

Read-waits :
    (killed : Bool) (n : ℕ) (p : Pipe)
    → IsValid p
    → used p ≡ 0
    → let (out, q, woken, progress) = waits killed p in
      Copied n p (out, q) × ((woken, progress) ≡ waiting killed)
Read-waits true n p v e = (
  record { valid = v; bytes = refl; count = omega arith; read_end = refl; write_end = refl },
  refl,
)
Read-waits false n p v e = (
  record { valid = v; bytes = refl; count = omega arith; read_end = refl; write_end = refl },
  refl,
)

-- `piperead` of at most `n` bytes takes from a valid pipe the first bytes of the queue, as many as
-- there are up to `n`, and keeps the pipe valid and its ends as they are. It returns their number
-- and wakes the writers, except on an empty pipe whose write end is open: there it returns -1 if the
-- caller is killed, and sleeps otherwise.
pub piperead_lem :
    (killed : Bool) (n : ℕ) (p : Pipe)
    → IsValid p
    → let (out, q, woken, progress) = piperead killed n p in
      Copied n p (out, q) × ((woken, progress) ≡ read_outcome killed n p)
unfolding piperead
piperead_lem killed n p v = elim (Bool-cases (used p == 0 && p.writeopen)) [
  | inl e ↦ rw (is_empty-eq p v, e) (Read-waits killed n p v (ground arith))
  | inr e ↦
      let c = copy_lem n (used p) p v refl in
      rw (is_empty-eq p v, e) (c, ap (λ k. (writers ∷ [], returned k)) c.count)
]
