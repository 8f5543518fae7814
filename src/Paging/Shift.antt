-- ===== src/Paging/Shift.antt =====
-- The loop of `updateQueue` (proc.c) takes one element out of the array.
use c_cpp_projects.Prelude.{
  ℕ, zero, suc, ◌+◌, ◌≤◌, ◌<◌, ◌≡◌, refl, ap, ◌∙◌, List, [], ◌∷◌, ◌++◌, length, get_or, set, arith,
  ℤ, pos, minus_one,
}
use c_cpp_projects.Paging.{shift}

abbrev pub remove_at {ℓ} : {A : Type ℓ} → List A → ℕ → List A
remove_at [] i = []
remove_at (x ∷ xs) zero = xs
remove_at (x ∷ xs) (suc i) = x ∷ remove_at xs i

shift-cons :
    (last n i : ℕ) (x : ℤ) (q : List ℤ) → shift (suc last) n (suc i) (x ∷ q) ≡ x ∷ shift last n i q
unfolding shift
shift-cons last zero i x q = refl
shift-cons last (suc n) i x q = shift-cons last n (suc i) x (set q i (get_or q (suc i) minus_one))

shift-head : (n : ℕ) (x : ℤ) (q : List ℤ) → length q ≡ n → shift n n 0 (x ∷ q) ≡ q ++ minus_one ∷ []
unfolding shift
shift-head zero x [] e = refl
shift-head zero x (y ∷ q) e = absurd (omega arith)
shift-head (suc n) x [] e = absurd (omega arith)
shift-head (suc n) x (y ∷ q) e =
    shift-cons n n 0 y (y ∷ q) ∙ ap (◌∷◌ y) (shift-head n y q (omega arith))

pub shift_lem :
    (last n i : ℕ) (q : List ℤ)
    → length q ≡ suc last
    → i + n ≡ last
    → shift last n i q ≡ remove_at q i ++ minus_one ∷ []
shift_lem last n i [] e e' = absurd (omega arith)
shift_lem last n zero (x ∷ q) e e' =
    let s : n ≡ last = omega arith in rw s (shift-head last x q (omega arith))
shift_lem zero n (suc i) (x ∷ q) e e' = absurd (omega arith)
shift_lem (suc last) n (suc i) (x ∷ q) e e' =
    shift-cons last n i x q ∙ ap (◌∷◌ x) (shift_lem last n i q (omega arith) (omega arith))

-- A queue of page numbers in an array of `n` places: -1 marks the places behind the last.
abbrev pub pad : ℕ → List ℕ → List ℤ
pad zero xs = []
pad (suc n) [] = minus_one ∷ pad n []
pad (suc n) (x ∷ xs) = pos x ∷ pad n xs

pub length-pad : (n : ℕ) (xs : List ℕ) → length (pad n xs) ≡ n
length-pad zero xs = refl
length-pad (suc n) [] = ap suc (length-pad n [])
length-pad (suc n) (x ∷ xs) = ap suc (length-pad n xs)

pub pad-snoc : (n : ℕ) (xs : List ℕ) → length xs ≤ n → pad n xs ++ minus_one ∷ [] ≡ pad (suc n) xs
pad-snoc zero [] h = refl
pad-snoc zero (x ∷ xs) h = absurd (omega arith)
pad-snoc (suc n) [] h = ap (◌∷◌ minus_one) (pad-snoc n [] (omega arith))
pad-snoc (suc n) (x ∷ xs) h = ap (◌∷◌ (pos x)) (pad-snoc n xs (omega arith))

pub remove_at-pad :
    (n i : ℕ) (xs : List ℕ)
    → length xs ≤ suc n
    → i < length xs
    → remove_at (pad (suc n) xs) i ++ minus_one ∷ [] ≡ pad (suc n) (remove_at xs i)
remove_at-pad n i [] h lt = absurd (omega arith)
remove_at-pad n zero (x ∷ xs) h lt = pad-snoc n xs (omega arith)
remove_at-pad zero (suc i) (x ∷ xs) h lt = absurd (omega arith)
remove_at-pad (suc n) (suc i) (x ∷ xs) h lt =
    ap (◌∷◌ (pos x)) (remove_at-pad n i xs (omega arith) (omega arith))
