-- ===== src/Paging/Nfua.antt =====
-- `removeNFUA` of proc.c: the page of least age in the queue goes.
use c_cpp_projects.Prelude.{
  ℕ, zero, suc, ◌≤◌, ◌≡◌, refl, ap, ap₂, ◌∙◌, List, [], ◌∷◌, map, length, get_elem?, get_or, take,
  drop, none, some, arith, ltb, if◌then◌else◌, Bool-cases, inl, inr, Outcome, ok, ◌>>=◌, ℤ, pos,
  minus_one, All, All-append, All-mono, All-get, take-suc, get_elem?-drop, take-of-drop_nil,
  lt_of_get_elem?, get_or-map, drop-suc, sym,
}
use c_cpp_projects.Paging.{Page, Proc, page_at, update_queue}
use c_cpp_projects.Paging.Shift.{pad, remove_at}
use c_cpp_projects.Paging.Queue.{update_queue_lem}
use c_cpp_projects.Paging.Scfifo.Rotate.{pad-full}

pub age_at : List Page → List ℤ → ℕ → Outcome ℕ
age_at pages q i = page_at pages (get_or q i minus_one) >>= λ g. ok g.age

-- The search from place `i` on, with `n` places to go.
pub min_place : List Page → List ℤ → ℕ → ℕ → ℕ → Outcome ℕ
min_place pages q zero i min_index = ok min_index
min_place pages q (suc n) i min_index = do
  a ← age_at pages q i
  b ← age_at pages q min_index
  min_place pages q n (suc i) (if ltb a b then i else min_index)

pub remove_nfua : Proc → Outcome (ℤ × Proc)
remove_nfua p = do
  i ← min_place p.pages p.ram_queue 15 1 0
  ok (get_or p.ram_queue i minus_one, record p { ram_queue = update_queue i p.ram_queue })

unfoldable pub age_of : List Page → ℕ → ℕ
age_of pages x = elim (get_elem? pages x) [ none ↦ 0 | some g ↦ g.age ]

-- The entry of `pages` exists.
abbrev pub IsEntry : List Page → ℕ → Type 0
IsEntry pages x = (g : Page) × (get_elem? pages x ≡ some g)

pub age_at-ok :
    (pages : List Page) (xs : List ℕ) (i x : ℕ)
    → get_elem? xs i ≡ some x
    → IsEntry pages x
    → age_at pages (map pos xs) i ≡ ok (age_of pages x)
unfolding age_at age_of page_at
age_at-ok pages xs i x e (g, h) =
    rw (get_or-map pos xs i minus_one x e) (rw (h, page_at, age_of) refl)

-- The place found, its page, and what the search says of them.
record Least (pages : List Page) (xs : List ℕ) (r : Outcome ℕ) : Type 0 where
  place : ℕ
  page : ℕ
  result : r ≡ ok place
  here : get_elem? xs place ≡ some page
  least : All (λ y. age_of pages page ≤ age_of pages y) xs

min_place_lem :
    (pages : List Page) (xs rest : List ℕ) (n i m x : ℕ)
    → All (IsEntry pages) xs
    → drop i xs ≡ rest
    → length rest ≡ n
    → get_elem? xs m ≡ some x
    → All (λ y. age_of pages x ≤ age_of pages y) (take i xs)
    → Least pages xs (min_place pages (map pos xs) n i m)
unfolding min_place
min_place_lem pages xs [] zero i m x es d l h least = record {
  place = m;
  page = x;
  result = refl;
  here = h;
  least = rw (take-of-drop_nil xs i d) at least;
}
min_place_lem pages xs (y ∷ rest) zero i m x es d l h least = absurd (omega arith)
min_place_lem pages xs [] (suc n) i m x es d l h least = absurd (omega arith)
min_place_lem pages xs (y ∷ rest) (suc n) i m x es d l h least =
    let here = get_elem?-drop xs i y rest d in
    rw
      (
        age_at-ok pages xs i y here (All-get (IsEntry pages) xs i y es here),
        age_at-ok pages xs m x h (All-get (IsEntry pages) xs m x es h),
      )
      (elim (Bool-cases (ltb (age_of pages y) (age_of pages x))) [
        | inl e ↦ rw e (
            min_place_lem pages xs rest n (suc i) i y es (drop-suc xs i y rest d) (omega arith) here
              (rw (take-suc xs i y rest d) (
                All-append (λ z. age_of pages y ≤ age_of pages z) (take i xs) (y ∷ [])
                  (All-mono (take i xs) (λ z le. ground arith) least) (omega arith))))
        | inr e ↦ rw e (
            min_place_lem pages xs rest n (suc i) m x es (drop-suc xs i y rest d) (omega arith) h (
              rw (take-suc xs i y rest d) (
                All-append (λ z. age_of pages x ≤ age_of pages z) (take i xs) (y ∷ []) least
                  (ground arith))))
      ])

-- On a full queue whose places all name entries of `pages`, `removeNFUA` does not fail: it returns
-- a page of the queue whose age is least, and takes it out of the queue, the others in order.
pub remove_nfua_lem :
    (p : Proc) (xs : List ℕ)
    → p.ram_queue ≡ map pos xs
    → length xs ≡ 16
    → All (IsEntry p.pages) xs
    → (i : ℕ) × (v : ℕ) × (get_elem? xs i ≡ some v)
      × All (λ y. age_of p.pages v ≤ age_of p.pages y) xs
      × (remove_nfua p ≡ ok (pos v, record p { ram_queue = pad 16 (remove_at xs i) }))
unfolding remove_nfua
remove_nfua_lem p [] q l es = absurd (omega arith)
remove_nfua_lem p (x ∷ xs) q l es =
    let r =
      min_place_lem p.pages (x ∷ xs) xs 15 1 0 x es refl (omega arith) refl (omega arith, tt) in
    let lt = lt_of_get_elem? (x ∷ xs) r.place r.page r.here in
    (
      r.place,
      r.page,
      r.here,
      r.least,
      rw (q, r.result)
          (ap₂ (λ v t. ok (v, record p { ram_queue = t }))
            (get_or-map pos (x ∷ xs) r.place minus_one r.page r.here)
            (ap (update_queue r.place) (sym (pad-full 16 (x ∷ xs) l))
              ∙ update_queue_lem (x ∷ xs) r.place (omega arith) lt)),
    )
