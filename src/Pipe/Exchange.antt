-- ===== src/Pipe/Exchange.antt =====
-- A writer and a reader that take turns on a pipe (pipe.c): every byte arrives.
use c_cpp_projects.Prelude.{
  ℕ, zero, suc, ◌≤◌, ◌<◌, ◌≡◌, refl, ap, ◌∙◌, sym, true, false, List, [], ◌∷◌, ◌++◌, take, drop,
  length, append-nil, if◌then◌else◌, Outcome, ok, panic, Bool, not, ==_of_ne, ◌≢◌, out_of_fuel,
  ◌>>=◌, arith, leb, take-append-drop, length-drop, length-append, tests, Bool-cases, inl, inr,
}
use c_cpp_projects.Pipe.{
  Pipe, pipesize, Progress, Chan, readers, writers, returned, failed, asleep, pipewrite_from,
  piperead,
}
use c_cpp_projects.Pipe.Window.{used, contents, IsValid, length-window, window}
use c_cpp_projects.Pipe.Transfer.{Written, write_from_lem, read_outcome, piperead_lem, Copied}

-- Whether a call has woken those that sleep on the channel.
abbrev pub wakes : Chan → List Chan → Bool
wakes c [] = false
wakes readers (readers ∷ cs) = true
wakes readers (writers ∷ cs) = wakes readers cs
wakes writers (readers ∷ cs) = wakes writers cs
wakes writers (writers ∷ cs) = true

-- The writer runs until it sleeps or returns, then the reader takes what there is, if the writer has
-- woken it; the writer goes on if the reader has woken it. The result is what the writer returned, and
-- what the reader got. Where a process that sleeps is not woken, or the write fails, that is a panic.
pub exchange : ℕ → ℕ → List ℕ → Pipe → Outcome (ℕ × List ℕ × Pipe)
exchange zero n xs p = out_of_fuel
exchange (suc fuel) n xs p =
    let (q, woken, progress) = pipewrite_from false n xs p in
    let (out, r, woken', _) = piperead false pipesize q in
    if not (wakes readers woken) then panic "the reader sleeps" else elim progress [
      | returned k ↦ ok (k, out, r)
      | failed ↦ panic "the write fails"
      | asleep rest ↦
          let more = exchange fuel n rest r >>= λ s. ok (s.0, out ++ s.1, s.2) in
          if wakes writers woken' then more else panic "the writer sleeps"
    ]

take_all : (n : ℕ) (xs : List ℕ) → length xs ≤ n → take n xs ≡ xs
take_all zero [] h = refl
take_all zero (x ∷ xs) h = absurd (omega arith)
take_all (suc n) [] h = refl
take_all (suc n) (x ∷ xs) h = ap (◌∷◌ x) (take_all n xs (omega arith))

contents-empty : (p : Pipe) → used p ≡ 0 → contents p ≡ []
contents-empty p e = ap (window p.bytes p.nread) e

length-contents : (p : Pipe) → length (contents p) ≡ used p
length-contents p = length-window p.bytes p.nread (used p)

-- One turn of each, from an empty pipe.
record Turn (xs : List ℕ) (p : Pipe) (out : List ℕ) (r : Pipe) : Type 0 where
  valid : IsValid r
  empty : used r ≡ 0
  open_end : r.readopen ≡ p.readopen
  got : out ≡ take pipesize xs

Turn-of :
    (n : ℕ) (xs : List ℕ) (p : Pipe) (wr : Pipe × List Chan × Progress) (out : List ℕ) (r : Pipe)
    → used p ≡ 0
    → Written false n pipesize xs p wr
    → Copied pipesize wr.0 (out, r)
    → Turn xs p out r
Turn-of n xs p wr out r e w c =
    let none : used r ≡ 0 = omega (
      arith,
      c.count,
      w.valid.bounded,
      ap length c.bytes,
      length-append out (contents r),
      length-contents wr.0,
      length-contents r,
    ) in
    record {
      valid = c.valid;
      empty = none;
      open_end = c.read_end ∙ w.read_end;
      got =
          sym (append-nil out)
          ∙ (ap (◌++◌ out) (sym (contents-empty r none))
              ∙ (sym c.bytes ∙ (w.bytes ∙ ap (λ ys. ys ++ take pipesize xs) (contents-empty p e))));
    }

-- How the writer of a turn ends.
progress-eq :
    (n : ℕ) (xs : List ℕ) (p : Pipe) (wr : Pipe × List Chan × Progress)
    → p.readopen ≡ true
    → Written false n pipesize xs p wr
    → wr.2 ≡ (if leb (length xs) pipesize then returned n else asleep (drop pipesize xs))
progress-eq n xs p wr o w = ground (arith, w.outcome)

-- The writer has woken the reader.
reader-wakes :
    (n : ℕ) (xs : List ℕ) (p : Pipe) (wr : Pipe × List Chan × Progress)
    → p.readopen ≡ true
    → Written false n pipesize xs p wr
    → wr.1 ≡ readers ∷ []
reader-wakes n xs p wr o w = ground (arith, w.outcome)

-- The reader of a full pipe wakes the writer.
writer-wakes :
    (xs : List ℕ) (wr : Pipe × List Chan × Progress) (n : ℕ) (p : Pipe)
    (woken : List Chan × Progress)
    → used p ≡ 0
    → leb (length xs) pipesize ≡ false
    → Written false n pipesize xs p wr
    → woken ≡ read_outcome false pipesize wr.0
    → woken.0 ≡ writers ∷ []
writer-wakes xs wr n p woken e more w q =
    let full : used wr.0 ≢ 0 = λ z.
      let all : length (take pipesize xs) ≡ used wr.0 =
        sym (ap length (w.bytes ∙ ap (λ ys. ys ++ take pipesize xs) (contents-empty p e)))
        ∙ length-contents wr.0 in
      absurd (long xs more (all ∙ z)) in
    ap (λ (r : List Chan × Progress). r.0) q ∙ rw (==_of_ne (used wr.0) 0 full) refl
  where
    long : (ys : List ℕ) → leb (length ys) pipesize ≡ false → length (take pipesize ys) ≢ 0
    long [] h z = ground (arith, h)
    long (y ∷ ys) h z = omega (arith, z)

-- From a valid empty pipe whose read end is open, a writer and a reader that take turns deliver all
-- bytes in order within as many turns as there are bytes and one more, and leave the pipe empty. The
-- write returns its count; also where it is longer than the pipe it does not fail, and each of the
-- two wakes the other before it would sleep for ever.
pub exchange_lem :
    (fuel n : ℕ) (xs : List ℕ) (p : Pipe)
    → IsValid p
    → used p ≡ 0
    → p.readopen ≡ true
    → length xs < fuel
    → (q : Pipe) × (exchange fuel n xs p ≡ ok (n, xs, q)) × IsValid q × (used q ≡ 0)
unfolding exchange
exchange_lem zero n xs p v e o h = absurd (omega arith)
exchange_lem (suc fuel) n xs p v e o h =
    let w = write_from_lem false n pipesize xs p v (omega arith) in
    let (c, outcome) = piperead_lem false pipesize (pipewrite_from false n xs p).0 w.valid in
    let t = Turn-of n xs p (pipewrite_from false n xs p) _ _ e w c in
    let end = progress-eq n xs p (pipewrite_from false n xs p) o w in
    let awake = reader-wakes n xs p (pipewrite_from false n xs p) o w in
    elim (Bool-cases (leb (length xs) pipesize)) [
      | inl fits ↦
          let all : take pipesize xs ≡ xs = take_all pipesize xs (omega tests) in
          (_, rw (end, exchange, awake, fits, t.got, all) refl, t.valid, t.empty)
      | inr more ↦
          let (q, run, v', e') =
            exchange_lem fuel n (drop pipesize xs) _ t.valid t.empty (t.open_end ∙ o)
              (ground (arith, length-drop pipesize xs)) in
          let again = writer-wakes xs (pipewrite_from false n xs p) n p _ e more w outcome in
          (
            q,
            rw (end, exchange, awake, more, again, run, t.got, take-append-drop pipesize xs) refl,
            v',
            e',
          )
    ]
