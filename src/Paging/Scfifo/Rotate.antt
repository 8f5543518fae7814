-- ===== src/Paging/Scfifo/Rotate.antt =====
-- The two array loops of `removeSCFIFO` (proc.c) bring the tail of the queue to its front.
use c_cpp_projects.Prelude.{
  ℕ, zero, suc, ◌+◌, ◌-◌, ◌<◌, ◌≡◌, refl, ap, ap₂, ◌∙◌, List, [], ◌∷◌, ◌++◌, map, length, get_or,
  set, take, drop, append-nil, append_assoc, arith, ℤ, pos, minus_one, length-set, take-set_snoc,
  take_all, map-append, drop-set, get_or-drop, drop-suc, lt_of_drop, length-append, sym, length-map,
}
use c_cpp_projects.Paging.Shift.{pad, pad-snoc}
use c_cpp_projects.Paging.Scfifo.{compact, fill, rotate}

-- The first `m` places hold `front`, and the array keeps its length.
record Compacted (m index : ℕ) (q : List ℤ) (post : List ℕ) (r : ℕ × List ℤ) : Type 0 where
  stop : r.0 ≡ m
  front : take m r.1 ≡ take index q ++ map pos post
  size : length r.1 ≡ length q

compact_lem :
    (n i index m : ℕ) (q : List ℤ) (post : List ℕ)
    → drop i q ≡ map pos post
    → length post ≡ n
    → index < i
    → index + n ≡ m
    → Compacted m index q post (compact n i index q)
unfolding compact
compact_lem zero i index m q [] e l h s =
    let same : index ≡ m = omega arith in
    record { stop = same; front = rw (← same, append-nil) refl; size = refl }
compact_lem zero i index m q (x ∷ post) e l h s = absurd (omega arith)
compact_lem (suc n) i index m q [] e l h s = absurd (omega arith)
compact_lem (suc n) i index m q (x ∷ post) e l h s =
    let here : get_or q i minus_one ≡ pos x = get_or-drop q i minus_one (pos x) (map pos post) e in
    let room : i < length q = lt_of_drop q i (pos x) (map pos post) e in
    let ih =
      compact_lem n (suc i) (suc index) m (set q index (pos x)) post
        (drop-set q (suc i) index (pos x) (omega arith) ∙ drop-suc q i (pos x) (map pos post) e)
        (omega arith) (omega arith) (omega arith) in
    rw here (record {
      stop = ih.stop;
      front =
          ih.front
          ∙ (ap (λ t. t ++ map pos post) (take-set_snoc q index (pos x) (omega arith))
              ∙ append_assoc (take index q) (pos x ∷ []) (map pos post));
      size = ih.size ∙ length-set q index (pos x);
    })

-- `n` entries of `temp` from `i` on, -1 where it has none.
abbrev slots : ℕ → ℕ → List ℤ → List ℤ
slots zero i temp = []
slots (suc n) i temp = get_or temp i minus_one ∷ slots n (suc i) temp

fill_lem :
    (n index i : ℕ) (temp q : List ℤ)
    → length q ≡ index + n
    → fill n index i temp q ≡ take index q ++ slots n i temp
unfolding fill
fill_lem zero index i temp q l = sym (rw append-nil (take_all index q (omega arith)))
fill_lem (suc n) index i temp q l =
    fill_lem n (suc index) (suc i) temp (set q index (get_or temp i minus_one))
      (omega (arith, length-set q index (get_or temp i minus_one)))
    ∙ (ap (λ t. t ++ slots n (suc i) temp)
          (take-set_snoc q index (get_or temp i minus_one) (omega arith))
        ∙ append_assoc (take index q) (get_or temp i minus_one ∷ []) (slots n (suc i) temp))

slots-cons : (n i : ℕ) (x : ℤ) (temp : List ℤ) → slots n (suc i) (x ∷ temp) ≡ slots n i temp
slots-cons zero i x temp = refl
slots-cons (suc n) i x temp = ap (◌∷◌ (get_or temp i minus_one)) (slots-cons n (suc i) x temp)

slots-map :
    (pre : List ℕ) → slots (suc (length pre)) 0 (map pos pre) ≡ map pos pre ++ minus_one ∷ []
slots-map [] = refl
slots-map (x ∷ pre) =
    ap (◌∷◌ (pos x)) (slots-cons (suc (length pre)) 0 (pos x) (map pos pre) ∙ slots-map pre)

pub pad-full : (n : ℕ) (xs : List ℕ) → length xs ≡ n → pad n xs ≡ map pos xs
pad-full zero [] l = refl
pad-full zero (x ∷ xs) l = absurd (omega arith)
pad-full (suc n) [] l = absurd (omega arith)
pad-full (suc n) (x ∷ xs) l = ap (◌∷◌ (pos x)) (pad-full n xs (omega arith))

drop-append_one : (pre post : List ℤ) (x : ℤ) → drop (suc (length pre)) (pre ++ x ∷ post) ≡ post
drop-append_one [] post x = refl
drop-append_one (y ∷ pre) post x = drop-append_one pre post x

-- With `v` found behind the pages `pre`, and `temp` holding those, the array ends as `post` followed
-- by `pre`, and one free place.
pub rotate_lem :
    (pre post : List ℕ) (v : ℕ)
    → length pre + length post ≡ 15
    → rotate (length pre) (map pos pre) (map pos (pre ++ v ∷ post)) ≡ pad 16 (post ++ pre)
unfolding rotate
rotate_lem pre post v l = rw (c.stop) (
    fill_lem (16 - length post) (length post) 0 (map pos pre) _ (omega (arith, c.size, whole))
    ∙ (ap₂ ◌++◌ c.front (ap (λ n. slots n 0 (map pos pre)) rounds ∙ slots-map pre)
        ∙ (sym (append_assoc (map pos post) (map pos pre) (minus_one ∷ []))
            ∙ (ap (λ t. t ++ minus_one ∷ [])
                  (sym (map-append pos post pre)
                    ∙ sym (pad-full 15 (post ++ pre) (omega (arith, length-append post pre))))
                ∙ pad-snoc 15 (post ++ pre) (omega (arith, length-append post pre))))))
  where
    q : List ℤ
    q = map pos (pre ++ v ∷ post)

    whole : length q ≡ 16
    whole = length-map (pre ++ v ∷ post) pos ∙ omega (arith, length-append pre (v ∷ post))

    tail : drop (suc (length pre)) q ≡ map pos post
    tail =
        ap (drop (suc (length pre))) (map-append pos pre (v ∷ post))
        ∙ (ap (λ n. drop (suc n) (map pos pre ++ pos v ∷ map pos post)) (sym (length-map pre pos))
            ∙ drop-append_one (map pos pre) (map pos post) (pos v))

    c : Compacted (length post) 0 q post (compact (16 - suc (length pre)) (suc (length pre)) 0 q)
    c =
        compact_lem (16 - suc (length pre)) (suc (length pre)) 0 (length post) q post tail
          (omega arith) (omega arith) (omega arith)

    rounds : 16 - length post ≡ suc (length pre)
    rounds = omega arith
