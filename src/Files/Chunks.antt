-- ===== src/Files/Chunks.antt =====
-- The loop of `filewrite`, which writes in chunks that fit a transaction of the log.
use c_cpp_projects.Prelude.{
  ◌*◌, ◌/◌, ◌%◌, ◌≢◌, sym, lt→ltb, dec_lt, ==_of_ne, ℕ, zero, suc, ◌+◌, ◌-◌, ◌^◌, ◌≤◌, ◌<◌, ◌≡◌,
  refl, ap, ap₂, ◌∙◌, true, false, Bool-cases, inl, inr, arith, ◌==◌, ==_self, ltb, if◌then◌else◌,
  Outcome, ok, ◌>>=◌, ℤ, pos, minus_one, add32,
}
use c_cpp_projects.Files.{File, fd_inode, max_chunk, write_from, filewrite}

-- `writei` at the bytes of a call that starts at the offset `start`: a chunk that ends no further than
-- `limit` is written as a whole, and one that would end further is refused.
abbrev pub WritesUpTo : ℕ → ℕ → (ℕ → ℕ → ℕ → ℤ) → Type 0
WritesUpTo start limit writei =
    (i k : ℕ)
    → k ≤ max_chunk
    → (start + i + k ≤ limit → writei i (start + i) k ≡ pos k)
      × (limit < start + i + k → writei i (start + i) k ≡ minus_one)

abbrev chunk : ℕ → ℕ
chunk n = if ltb max_chunk n then max_chunk else n

chunk_le : (n : ℕ) → chunk n ≤ max_chunk
chunk_le n = ground arith

chunk_fits : (n : ℕ) → 0 < n → (0 < chunk n) × (chunk n ≤ n)
chunk_fits n lt = ground arith

chunk_whole : (n : ℕ) → max_chunk ≤ n → chunk n ≡ max_chunk
chunk_whole n h = ground arith

chunk_past : (n m : ℕ) → m < max_chunk → m < n → m < chunk n
chunk_past n m h h' = ground arith

-- A chunk that fits, in the loop.
round :
    (fuel start limit : ℕ) (writei : ℕ → ℕ → ℕ → ℤ) (n i : ℕ) (f : File)
    → WritesUpTo start limit writei
    → limit < 2 ^ 31
    → f.off ≡ start + i
    → ltb i n ≡ true
    → start + i + chunk (n - i) ≤ limit
    → let r = chunk (n - i) in
      write_from (suc fuel) writei n i f
      ≡ write_from fuel writei n (i + r) (record f { off = start + (i + r) })
unfolding write_from
round fuel start limit writei n i f w small at lt fits =
    let whole : writei i f.off (chunk (n - i)) ≡ pos (chunk (n - i)) =
      ap (λ o. writei i o (chunk (n - i))) at ∙ (w i (chunk (n - i)) (chunk_le (n - i))).0 fits in
    let next : add32 f.off (chunk (n - i)) ≡ start + (i + chunk (n - i)) =
      omega (arith, at, fits) in
    rw (lt, whole, ==_self (chunk (n - i)), next) refl

-- A chunk that does not fit.
refused :
    (fuel start limit : ℕ) (writei : ℕ → ℕ → ℕ → ℤ) (n i : ℕ) (f : File)
    → WritesUpTo start limit writei
    → f.off ≡ start + i
    → ltb i n ≡ true
    → limit < start + i + chunk (n - i)
    → write_from (suc fuel) writei n i f ≡ ok (i, f)
unfolding write_from
refused fuel start limit writei n i f w at lt past =
    let none : writei i f.off (chunk (n - i)) ≡ minus_one =
      ap (λ o. writei i o (chunk (n - i))) at ∙ (w i (chunk (n - i)) (chunk_le (n - i))).1 past in
    rw (lt, none) refl

below : (i n : ℕ) → ltb i n ≡ true → 0 < n - i
below i n e = ground arith

at_end : (i n : ℕ) → i ≤ n → ltb i n ≡ false → i ≡ n
at_end i n le e = ground arith

-- All chunks fit.
write_from_lem :
    (fuel start limit : ℕ) (writei : ℕ → ℕ → ℕ → ℤ) (n i : ℕ) (f : File)
    → WritesUpTo start limit writei
    → limit < 2 ^ 31
    → start + n ≤ limit
    → f.off ≡ start + i
    → i ≤ n
    → n - i < fuel
    → write_from fuel writei n i f ≡ ok (n, record f { off = start + n })
unfolding write_from
write_from_lem zero start limit writei n i f w small all at le lt = absurd (omega arith)
write_from_lem (suc fuel) start limit writei n i f w small all at le lt =
    elim (Bool-cases (ltb i n)) [
      | inl e ↦
          let r = chunk (n - i) in
          let (gt, fits) = chunk_fits (n - i) (below i n e) in
          round fuel start limit writei n i f w small at e (omega (arith, fits, all, below i n e))
          ∙ write_from_lem fuel start limit writei n (i + r) (record f { off = start + (i + r) }) w
              small all refl (omega (arith, gt, fits, below i n e)) (omega (arith, gt, fits, lt))
      | inr e ↦
          let last : i ≡ n = at_end i n le e in
          rw e (ap₂ (λ j o. ok (j, record f { off = o })) last (at ∙ ap (λ j. start + j) last))
    ]

-- What fits, in whole chunks.
abbrev pub fitting : ℕ → ℕ → ℕ
fitting start limit = (limit - start) / max_chunk * max_chunk

-- The chunks before the one that does not fit.
write_from-short :
    (fuel start limit : ℕ) (writei : ℕ → ℕ → ℕ → ℤ) (n i : ℕ) (f : File)
    → WritesUpTo start limit writei
    → limit < 2 ^ 31
    → limit < start + n
    → f.off ≡ start + i
    → start + i ≤ limit
    → i % max_chunk ≡ 0
    → n - i < fuel
    → let k = fitting start limit in
      write_from fuel writei n i f ≡ ok (k, record f { off = start + k })
write_from-short zero start limit writei n i f w small past at le whole lt = absurd (omega arith)
write_from-short (suc fuel) start limit writei n i f w small past at le whole lt =
    let more : ltb i n ≡ true = lt→ltb i n (omega (arith, past, le)) in
    elim (dec_lt (limit - (start + i)) max_chunk) [
      | yes c ↦
          let k : fitting start limit ≡ i = omega (arith, c, whole, le) in
          let over : limit - (start + i) < chunk (n - i) =
            chunk_past (n - i) (limit - (start + i)) c (omega (arith, past, le)) in
          refused fuel start limit writei n i f w at more (omega (arith, over, le))
          ∙ ap₂ (λ j o. ok (j, record f { off = o })) (sym k) (at ∙ ap (λ j. start + j) (sym k))
      | no c ↦
          let r : chunk (n - i) ≡ max_chunk = chunk_whole (n - i) (omega (arith, c, past, le)) in
          round fuel start limit writei n i f w small at more (omega (arith, r, c, le))
          ∙ write_from-short fuel start limit writei n (i + chunk (n - i))
              (record f { off = start + (i + chunk (n - i)) }) w small past refl
              (omega (arith, r, c, le)) (omega (arith, r, whole))
              (omega (arith, r, c, past, le, lt))
    ]

to_inode :
    (pipe_result : ℤ) (writei : ℕ → ℕ → ℕ → ℤ) (n : ℕ) (f : File)
    → f.writable ≡ true
    → f.kind ≡ fd_inode
    → filewrite pipe_result writei n f
      ≡ (write_from (suc n) writei n 0 f >>= λ r. ok (if r.0 == n then pos n else minus_one, r.1))
unfolding filewrite
to_inode pipe_result writei n f can kind = simp (can, kind)

-- A write to an inode through a writable descriptor, at an offset up to the length that a file can
-- have, where `writei` writes each chunk that ends within that length and refuses the others, as it
-- does while the disk has blocks. If the write ends within the length, it returns the number of
-- bytes asked for and moves the offset by as many, in however many chunks. If not, it returns -1,
-- though the chunks that fit have been written and the offset stands after them.
pub filewrite_lem :
    (pipe_result : ℤ) (writei : ℕ → ℕ → ℕ → ℤ) (n limit : ℕ) (f : File)
    → WritesUpTo f.off limit writei
    → f.writable ≡ true
    → f.kind ≡ fd_inode
    → limit < 2 ^ 31
    → f.off ≤ limit
    → (f.off + n ≤ limit
        → filewrite pipe_result writei n f ≡ ok (pos n, record f { off = f.off + n }))
      × (limit < f.off + n
          → filewrite pipe_result writei n f
            ≡ ok (minus_one, record f { off = f.off + (limit - f.off) / 1536 * 1536 }))
filewrite_lem pipe_result writei n limit f w can kind small le = (
  λ all.
      to_inode pipe_result writei n f can kind
      ∙ ap (λ (o : Outcome (ℕ × File)). o >>= λ r. ok (if r.0 == n then pos n else minus_one, r.1))
          (write_from_lem (suc n) f.off limit writei n 0 f w small all (omega arith) (omega arith)
            (omega arith))
      ∙ rw (==_self n) refl,
  λ past.
      let k : ℕ = fitting f.off limit in
      let short : k ≢ n = λ e. omega (arith, e, past, le) in
      to_inode pipe_result writei n f can kind
      ∙ ap (λ (o : Outcome (ℕ × File)). o >>= λ r. ok (if r.0 == n then pos n else minus_one, r.1))
          (write_from-short (suc n) f.off limit writei n 0 f w small past (omega arith)
            (omega arith) refl (omega arith))
      ∙ rw (==_of_ne k n short) refl,
)
