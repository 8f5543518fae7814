-- ===== src/Paging/Release.antt =====
-- `deallocatePage` of proc.c, which takes a page out of the process's table and queue.
use c_cpp_projects.Prelude.{
  ℕ, zero, suc, ◌+◌, ◌≤◌, ◌≡◌, refl, ap, ◌∙◌, Bool, ◌&&◌, not, true, false, List, [], ◌∷◌, length,
  take, get_elem?, set, Option, none, some, some-injective, arith, ◌==◌, ==_of_ne, ==_self,
  if◌then◌else◌, Outcome, ok, panic, ◌>>=◌, ℤ, pos, minus_one, eq_ℤ, All, NotIn, lt_of_get_elem?,
}
use c_cpp_projects.Paging.{Page, Proc, page_at, update_queue}
use c_cpp_projects.Paging.Access.{page_at-ok}
use c_cpp_projects.Paging.Shift.{pad, remove_at}
use c_cpp_projects.Paging.Queue.{update_queue_lem}
use c_cpp_projects.Paging.Offsets.{insert_offset_queue}

-- `(curproc->pages[i].isAllocated != 0) && (curproc->pages[i].v_address == va)`
unfoldable pub holds_address : ℕ → Page → Bool
holds_address va g = not (g.is_allocated == 0) && (g.v_address == va)

pub find_page : ℕ → List Page → ℕ → Option ℕ
find_page va [] i = none
find_page va (g ∷ gs) i = if holds_address va g then some i else find_page va gs (suc i)

-- The entry as the loop leaves it. `age` is 0xFFFFFFFF under LAPA and 0 under the other policies.
pub released : ℕ → Page → Page
released age g = record {
  v_address = 0;
  file_offset = minus_one;
  is_in_ram = 0;
  is_allocated = 0;
  age = age;
}

-- The last loop: the first place that names the page is taken out of the queue.
pub find_place : ℤ → List ℤ → ℕ → Option ℕ
find_place idx [] i = none
find_place idx (x ∷ q) i = if eq_ℤ x idx then some i else find_place idx q (suc i)

pub leave_queue : ℤ → List ℤ → List ℤ
unfolding find_place
leave_queue idx q = elim (find_place idx q 0) [ none ↦ q | some i ↦ update_queue i q ]

pub release_entry : ℕ → Proc → Option ℕ → Outcome Proc
unfolding released leave_queue
release_entry age p none = panic "deallocatePage"
release_entry age p (some i) = do
  g ← page_at p.pages (pos i)
  offsets ←
      if g.is_in_ram == 0
      then insert_offset_queue g.file_offset p.offset_queue
      else ok p.offset_queue
  ok (record p {
    pages = set p.pages i (released age g);
    offset_queue = offsets;
    ram_queue = leave_queue (pos i) p.ram_queue;
  })

pub deallocate_page : ℕ → ℕ → Proc → Outcome Proc
unfolding find_page release_entry
deallocate_page age va p = release_entry age p (find_page va p.pages 0)

-- The page at place `i` is the first that the address belongs to.
pub record Found (va : ℕ) (pages : List Page) (i : ℕ) (g : Page) : Type 0 where
  pub here : get_elem? pages i ≡ some g
  pub match : holds_address va g ≡ true
  pub first : All (λ h. holds_address va h ≡ false) (take i pages)

find_page_lem :
    (va n i : ℕ) (pages : List Page) (g : Page)
    → get_elem? pages i ≡ some g
    → holds_address va g ≡ true
    → All (λ h. holds_address va h ≡ false) (take i pages)
    → find_page va pages n ≡ some (n + i)
unfolding find_page
find_page_lem va n i [] g e m f = cc
find_page_lem va n zero (h ∷ pages) g e m f = rw (some-injective h g e, m) (ap some (omega arith))
find_page_lem va n (suc i) (h ∷ pages) g e m f =
    rw f.0 (find_page_lem va (suc n) i pages g e m f.1 ∙ ap some (omega arith))

find_place_lem :
    (x k n i : ℕ) (xs : List ℕ)
    → get_elem? xs k ≡ some x
    → NotIn x (take k xs)
    → length xs ≤ n
    → find_place (pos x) (pad n xs) i ≡ some (i + k)
unfolding find_place
find_place_lem x k n i [] e out h = cc
find_place_lem x k zero i (y ∷ xs) e out h = absurd (omega arith)
find_place_lem x zero (suc n) i (y ∷ xs) e out h =
    rw (some-injective y x e, ==_self x) (ap some (omega arith))
find_place_lem x (suc k) (suc n) i (y ∷ xs) e out h =
    rw (==_of_ne y x out.0)
      (find_place_lem x k n (suc i) xs e out.1 (omega arith) ∙ ap some (omega arith))

leave_queue_lem :
    (x k : ℕ) (xs : List ℕ)
    → get_elem? xs k ≡ some x
    → NotIn x (take k xs)
    → length xs ≤ 16
    → leave_queue (pos x) (pad 16 xs) ≡ pad 16 (remove_at xs k)
unfolding leave_queue
leave_queue_lem x k xs e out h =
    let from_zero : 0 + k ≡ k = omega arith in
    ap (λ o. elim o [ none ↦ pad 16 xs | some i ↦ update_queue i (pad 16 xs) ])
      (find_place_lem x k 16 0 xs e out h ∙ ap some from_zero)
    ∙ update_queue_lem xs k h (lt_of_get_elem? xs k x e)

-- `deallocatePage` of an address whose page is in memory, at place `k` of the queue, does not fail:
-- it resets the page's entry and takes the page out of the queue, the others in order. The other
-- entries and the free slots of the swap file stay as they are.
pub deallocate_page_lem :
    (age va i k : ℕ) (g : Page) (xs : List ℕ) (p : Proc)
    → Found va p.pages i g
    → g.is_in_ram ≡ 1
    → p.ram_queue ≡ pad 16 xs
    → length xs ≤ 16
    → get_elem? xs k ≡ some i
    → NotIn i (take k xs)
    → deallocate_page age va p
      ≡ ok
          (record p { pages = set p.pages i (released age g); ram_queue = pad 16 (remove_at xs k) })
unfolding deallocate_page
deallocate_page_lem age va i k g xs p f ram q h e out =
    let from_zero : 0 + i ≡ i = omega arith in
    ap (release_entry age p)
      (find_page_lem va 0 i p.pages g f.here f.match f.first ∙ ap some from_zero)
    ∙ (ap (λ (o : Outcome Page). o >>= next) (page_at-ok p.pages i g f.here)
        ∙ (rw (ram) refl
            ∙ ap (λ r. ok (record p { pages = set p.pages i (released age g); ram_queue = r }))
                (ap (leave_queue (pos i)) q ∙ leave_queue_lem i k xs e out h)))
  where
    next : Page → Outcome Proc
    next g = do
      offsets ←
          if g.is_in_ram == 0
          then insert_offset_queue g.file_offset p.offset_queue
          else ok p.offset_queue
      ok (record p {
        pages = set p.pages i (released age g);
        offset_queue = offsets;
        ram_queue = leave_queue (pos i) p.ram_queue;
      })

none_found :
    (va : ℕ) (pages : List Page) (i : ℕ)
    → All (λ h. holds_address va h ≡ false) pages
    → find_page va pages i ≡ none
unfolding find_page
none_found va [] i h = refl
none_found va (g ∷ pages) i h = rw h.0 (none_found va pages (suc i) h.1)

-- `deallocatePage` of an address that no allocated entry holds panics.
pub deallocate_page-panic :
    (age va : ℕ) (p : Proc)
    → All (λ h. holds_address va h ≡ false) p.pages
    → deallocate_page age va p ≡ panic "deallocatePage"
unfolding deallocate_page
deallocate_page-panic age va p h = ap (release_entry age p) (none_found va p.pages 0 h)
