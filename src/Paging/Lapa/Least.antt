-- ===== src/Paging/Lapa/Least.antt =====
-- Which page `removeLAPA` (proc.c) takes.
use c_cpp_projects.Prelude.{
  ◌>>=◌, ℕ, zero, suc, ◌+◌, ◌*◌, ◌%◌, ◌^◌, ◌≤◌, ◌<◌, ◌≡◌, ◌≢◌, refl, ap, ap₂, ◌∙◌, sym, List, [],
  ◌∷◌, map, length, get_elem?, get_or, take, drop, none, some, arith, Outcome, ok, u32_mod, pos,
  minus_one, signed32, All, All-append, All-mono, All-get, take-suc, get_elem?-drop,
  take-of-drop_nil, lt_of_get_elem?, get_or-map, drop-suc, bit, dec_lt, lt→ltb, ◌==◌, if◌then◌else◌,
}
use c_cpp_projects.Paging.{Page, Proc, update_queue}
use c_cpp_projects.Paging.Shift.{pad, remove_at}
use c_cpp_projects.Paging.Queue.{update_queue_lem}
use c_cpp_projects.Paging.Scfifo.Rotate.{pad-full}
use c_cpp_projects.Paging.Nfua.{age_of, IsEntry, age_at-ok}
use c_cpp_projects.Paging.Lapa.{
  count_from, count_bits, Best, better, best_place, take_place, remove_lapa,
}

count_from-le : (n j age count : ℕ) → count_from n j age count ≤ count + n
unfolding count_from
count_from-le zero j age count = omega arith
count_from-le (suc n) j age count =
    ground (arith, count_from-le n (suc j) age (if bit age j == 1 then count + 1 else count))

count_bits-le : (age : ℕ) → count_bits age ≤ 32
unfolding count_bits
count_bits-le age = count_from-le 32 0 age 0

-- The order of the search as one number: the count of bits first, then the age with its top bit
-- turned round.
pub rank : ℕ → ℕ
rank age = count_bits age * 2 ^ 32 + (age + 2 ^ 31) % 2 ^ 32

-- The state of the search when its choice is the page `x` at place `m`.
abbrev chosen : List Page → ℕ → ℕ → Best
chosen pages m x = record {
  min_i = some m;
  min_age = signed32 (age_of pages x);
  min_count = count_bits (age_of pages x);
}

better-less :
    (pages : List Page) (m x i y : ℕ)
    → age_of pages x < u32_mod
    → age_of pages y < u32_mod
    → rank (age_of pages y) < rank (age_of pages x)
    → better (chosen pages m x) i (age_of pages y) ≡ chosen pages i y
unfolding better rank
better-less pages m x i y hx hy h = ground arith

better-more :
    (pages : List Page) (m x i y : ℕ)
    → age_of pages x < u32_mod
    → age_of pages y < u32_mod
    → rank (age_of pages x) ≤ rank (age_of pages y)
    → better (chosen pages m x) i (age_of pages y) ≡ chosen pages m x
unfolding better rank
better-more pages m x i y hx hy h = ground arith

-- The entry exists and its age is a machine word.
abbrev pub IsAged : List Page → ℕ → Type 0
IsAged pages x = IsEntry pages x × (age_of pages x < u32_mod)

record Least (pages : List Page) (xs : List ℕ) (r : Outcome Best) : Type 0 where
  place : ℕ
  page : ℕ
  result : r ≡ ok (chosen pages place page)
  here : get_elem? xs place ≡ some page
  least : All (λ y. rank (age_of pages page) ≤ rank (age_of pages y)) xs

best_place_lem :
    (pages : List Page) (xs rest : List ℕ) (n i m x : ℕ)
    → All (IsAged pages) xs
    → drop i xs ≡ rest
    → length rest ≡ n
    → get_elem? xs m ≡ some x
    → All (λ y. rank (age_of pages x) ≤ rank (age_of pages y)) (take i xs)
    → Least pages xs (best_place pages (map pos xs) n i (chosen pages m x))
unfolding best_place
best_place_lem pages xs [] zero i m x es d l h least = record {
  place = m;
  page = x;
  result = refl;
  here = h;
  least = rw (take-of-drop_nil xs i d) at least;
}
best_place_lem pages xs (y ∷ rest) zero i m x es d l h least = absurd (omega arith)
best_place_lem pages xs [] (suc n) i m x es d l h least = absurd (omega arith)
best_place_lem pages xs (y ∷ rest) (suc n) i m x es d l h least =
    let here = get_elem?-drop xs i y rest d in
    let (ex, wx) = All-get (IsAged pages) xs m x es h in
    let (ey, wy) = All-get (IsAged pages) xs i y es here in
    let next = drop-suc xs i y rest d in
    rw (age_at-ok pages xs i y here ey)
      (elim (dec_lt (rank (age_of pages y)) (rank (age_of pages x))) [
        | yes e ↦ rw (better-less pages m x i y wx wy e) (
            best_place_lem pages xs rest n (suc i) i y es next (omega arith) here (
              rw (take-suc xs i y rest d) (
                All-append (λ z. rank (age_of pages y) ≤ rank (age_of pages z)) (take i xs) (y ∷ [])
                  (All-mono (take i xs) (λ z le. omega arith) least) (omega arith))))
        | no e ↦ rw (better-more pages m x i y wx wy (omega arith)) (
            best_place_lem pages xs rest n (suc i) m x es next (omega arith) h (
              rw (take-suc xs i y rest d) (
                All-append (λ z. rank (age_of pages x) ≤ rank (age_of pages z)) (take i xs) (y ∷ [])
                  least (omega arith))))
      ])

-- The first page of the queue is chosen whatever its age: no count is 33.
better-first :
    (pages : List Page) (x : ℕ)
    → better (record { min_i = none; min_age = minus_one; min_count = 33 }) 0 (age_of pages x)
      ≡ chosen pages 0 x
unfolding better
better-first pages x =
    rw (lt→ltb (count_bits (age_of pages x)) 33 (omega (arith, count_bits-le (age_of pages x))))
      refl

first_page :
    (pages : List Page) (n x : ℕ) (xs : List ℕ)
    → IsEntry pages x
    → best_place pages
        (map pos (x ∷ xs))
        (suc n)
        0
        (record { min_i = none; min_age = minus_one; min_count = 33 })
      ≡ best_place pages (map pos (x ∷ xs)) n 1 (chosen pages 0 x)
unfolding best_place
first_page pages n x xs e =
    rw (age_at-ok pages (x ∷ xs) 0 x refl e)
      (ap (best_place pages (map pos (x ∷ xs)) n 1) (better-first pages x))

take_place_lem :
    (p : Proc) (xs : List ℕ) (i x : ℕ)
    → p.ram_queue ≡ map pos xs
    → length xs ≡ 16
    → get_elem? xs i ≡ some x
    → take_place p (some i) ≡ ok (pos x, record p { ram_queue = pad 16 (remove_at xs i) })
unfolding take_place
take_place_lem p xs i x q l e =
    ap (λ t. ok (get_or t i minus_one, record p { ram_queue = update_queue i t })) q
    ∙ ap₂ (λ v t. ok (v, record p { ram_queue = t })) (get_or-map pos xs i minus_one x e)
        (ap (update_queue i) (sym (pad-full 16 xs l))
          ∙ update_queue_lem xs i (omega arith) (lt_of_get_elem? xs i x e))

-- On a full queue whose places all name entries of `pages`, with ages that are machine words,
-- `removeLAPA` neither fails nor panics: it returns a page of least rank, that is, with the fewest
-- bits set in its age and among those the least age as a signed number, and takes it out of the
-- queue, the others in order.
pub remove_lapa_lem :
    (p : Proc) (xs : List ℕ)
    → p.ram_queue ≡ map pos xs
    → length xs ≡ 16
    → All (IsAged p.pages) xs
    → (i : ℕ) × (v : ℕ) × (get_elem? xs i ≡ some v)
      × All (λ y. rank (age_of p.pages v) ≤ rank (age_of p.pages y)) xs
      × (remove_lapa p ≡ ok (pos v, record p { ram_queue = pad 16 (remove_at xs i) }))
unfolding remove_lapa
remove_lapa_lem p [] q l es = absurd (omega arith)
remove_lapa_lem p (x ∷ xs) q l es =
    let r =
      best_place_lem p.pages (x ∷ xs) xs 15 1 0 x es refl (omega arith) refl (omega arith, tt) in
    let lt = lt_of_get_elem? (x ∷ xs) r.place r.page r.here in
    (
      r.place,
      r.page,
      r.here,
      r.least,
      ap (λ (o : Outcome Best). o >>= λ b. take_place p b.min_i)
            (ap (λ t. best_place p.pages t 16 0 unset) q
              ∙ (first_page p.pages 15 x xs es.0.0 ∙ r.result))
          ∙ take_place_lem p (x ∷ xs) r.place r.page q l r.here,
    )
  where
    unset : Best
    unset = record { min_i = none; min_age = minus_one; min_count = 33 }

-- A page that was used in the last tick has the top bit of its age set, and its age is negative as
-- an `int`. So of two pages of the queue with equally many bits set, the one used in the last tick is
-- never kept in favour of the other: the page whose top bit is clear is not the one that goes.
pub remove_lapa-keeps_stale :
    (p : Proc) (xs : List ℕ) (a b x y : ℕ) (q : Proc)
    → p.ram_queue ≡ map pos xs
    → length xs ≡ 16
    → All (IsAged p.pages) xs
    → get_elem? xs a ≡ some x
    → get_elem? xs b ≡ some y
    → count_bits (age_of p.pages x) ≡ count_bits (age_of p.pages y)
    → age_of p.pages x < 2 ^ 31
    → 2 ^ 31 ≤ age_of p.pages y
    → remove_lapa p ≢ ok (pos x, q)
unfolding rank
remove_lapa-keeps_stale p xs a b x y q e l es hx hy same old new h =
    let (i, v, here, least, run) = remove_lapa_lem p xs e l es in
    let v-x : v ≡ x = ground (arith, run, h) in
    let wy = (All-get (IsAged p.pages) xs b y es hy).1 in
    let le : rank (age_of p.pages x) ≤ rank (age_of p.pages y) =
      rw (← v-x)
        (All-get (λ z. rank (age_of p.pages v) ≤ rank (age_of p.pages z)) xs b y least hy) in
    omega (arith, le, wy)
