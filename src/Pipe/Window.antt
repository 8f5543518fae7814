-- ===== src/Pipe/Window.antt =====
-- The bytes in a pipe, as a queue, and the invariant of its counters.
use c_cpp_projects.Prelude.{
  ℕ, zero, suc, ◌+◌, ◌%◌, ◌≤◌, ◌<◌, ◌≡◌, ◌≢◌, refl, ap, ap₂, sym, ◌∙◌, List, [], ◌∷◌, ◌++◌, length,
  arith, u32_mod, add32, sub32, update, true, false, update_self, update_ne,
}
use c_cpp_projects.Pipe.{Pipe, pipesize, put, is_full, is_empty}

-- `n` bytes of the ring from counter `h` on.
abbrev pub window : (ℕ → ℕ) → ℕ → ℕ → List ℕ
window buf h zero = []
window buf h (suc n) = buf (h % pipesize) ∷ window buf (add32 h 1) n

-- How many bytes the pipe holds: a difference of words.
abbrev pub used : Pipe → ℕ
used p = sub32 p.nwrite p.nread

abbrev pub contents : Pipe → List ℕ
contents p = window p.bytes p.nread (used p)

pub record IsValid (p : Pipe) : Type 0 where
  pub read_word : p.nread < u32_mod
  pub write_word : p.nwrite < u32_mod
  pub bounded : used p ≤ pipesize

pub length-window : (buf : ℕ → ℕ) (h n : ℕ) → length (window buf h n) ≡ n
length-window buf h zero = refl
length-window buf h (suc n) = ap suc (length-window buf (add32 h 1) n)

-- A write ahead of a window that leaves room for it in the ring spares the window.
window-update :
    (buf : ℕ → ℕ) (x h n m : ℕ)
    → n ≤ m
    → m < pipesize
    → window (update buf ((h + m) % pipesize) x) h n ≡ window buf h n
window-update buf x h zero m le lt = refl
window-update buf x h (suc n) zero le lt = absurd (omega arith)
window-update buf x h (suc n) (suc m) le lt =
    ap₂ ◌∷◌ (update_ne buf ((h + suc m) % pipesize) (h % pipesize) x (omega arith)) (
      ap (λ i. window (update buf i x) (add32 h 1) n) shift
      ∙ window-update buf x (add32 h 1) n m (omega arith) (omega arith))
  where
    shift : (h + suc m) % pipesize ≡ (add32 h 1 + m) % pipesize
    shift = omega arith

window-snoc :
    (buf : ℕ → ℕ) (h n : ℕ) → window buf h (suc n) ≡ window buf h n ++ buf ((h + n) % pipesize) ∷ []
window-snoc buf h zero = ap (λ i. buf i ∷ []) (omega arith)
window-snoc buf h (suc n) =
    ap (◌∷◌ (buf (h % pipesize))) (
      window-snoc buf (add32 h 1) n
      ∙ ap (λ i. window buf (add32 h 1) n ++ buf i ∷ []) (omega arith))

-- Full and empty, as the code tests them, are a length of 512 and of 0.
pub is_full-used : (p : Pipe) → IsValid p → used p < pipesize → is_full p ≡ false
is_full-used p v h = ground arith

pub is_full-full : (p : Pipe) → IsValid p → used p ≡ pipesize → is_full p ≡ true
is_full-full p v h = ground arith

pub is_empty-used : (p : Pipe) → IsValid p → used p ≢ 0 → is_empty p ≡ false
is_empty-used p v h = ground arith

pub is_empty-empty : (p : Pipe) → IsValid p → used p ≡ 0 → is_empty p ≡ true
is_empty-empty p v h = ground arith

-- A byte put into a pipe with room goes to the end of the queue.
contents-put :
    (p : Pipe) (x : ℕ) → IsValid p → used p < pipesize → contents (put p x) ≡ contents p ++ x ∷ []
unfolding put
contents-put p x v h =
    ap₂ (λ i n. window (update p.bytes i x) p.nread n) slot longer
    ∙ (window-snoc (update p.bytes j x) p.nread (used p)
        ∙ ap₂ (λ xs y. xs ++ y ∷ [])
            (window-update p.bytes x p.nread (used p) (used p) (omega arith) h)
            (update_self p.bytes j x))
  where
    j : ℕ
    j = (p.nread + used p) % pipesize

    slot : p.nwrite % pipesize ≡ j
    slot = omega arith

    longer : sub32 (add32 p.nwrite 1) p.nread ≡ suc (used p)
    longer = omega arith

pub put_lem :
    (p : Pipe) (x : ℕ)
    → IsValid p
    → used p < pipesize
    → IsValid (put p x)
      × (used (put p x) ≡ used p + 1)
      × (contents (put p x) ≡ contents p ++ x ∷ [])
put_lem p x v h = (put-IsValid, used-put, contents-put p x v h)
  where
    used-put : used (put p x) ≡ used p + 1
    used-put = unfold put in omega arith

    put-IsValid : IsValid (put p x)
    put-IsValid =
        unfold put in
        record { read_word = v.read_word; write_word = omega arith; bounded = omega arith }

-- Taking the first byte leaves the rest of the queue.
pub get_lem :
    (p : Pipe) {n : ℕ}
    → IsValid p
    → used p ≡ suc n
    → let q = record p { nread = add32 p.nread 1 } in
      IsValid q × (used q ≡ n) × (contents p ≡ p.bytes (p.nread % pipesize) ∷ contents q)
get_lem p {n} v e = (
  record { read_word = omega arith; write_word = v.write_word; bounded = omega arith },
  left,
  ap (window p.bytes p.nread) e
      ∙ ap (λ k. p.bytes (p.nread % pipesize) ∷ window p.bytes (add32 p.nread 1) k) (sym left),
)
  where
    left : sub32 p.nwrite (add32 p.nread 1) ≡ n
    left = omega arith
