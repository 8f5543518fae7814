-- ===== src/Paging/Scfifo.antt =====
-- `removeSCFIFO` of proc.c: the first page of the queue that was not used since the last look goes;
-- those before it lose their accessed bit and go to the end.
pub mod Rotate
pub mod Chance
use c_cpp_projects.Prelude.{
  ℕ, zero, suc, ◌+◌, ◌-◌, List, [], ◌∷◌, ◌++◌, get_or, set, Option, none, some, if◌then◌else◌, not,
  Outcome, ok, panic, ◌>>=◌, ℤ, minus_one, eq_ℤ,
}
use c_cpp_projects.Paging.{
  Page, Proc, page_at, load_pte, store_pte, accessed, pte_a_off, update_queue,
}

-- The first loop, over the queue from place `i` on: the place and page found, the pages put in
-- `temp` so far, and the page table.
pub scan :
    List Page
    → ℕ
    → List ℤ
    → List ℤ
    → (ℕ → Option ℕ)
    → Outcome (Option (ℕ × ℤ) × List ℤ × (ℕ → Option ℕ))
scan pages i [] temp pte = ok (none, temp, pte)
scan pages i (x ∷ q) temp pte = do
  page ← page_at pages x
  e ← load_pte pte page.v_address
  if accessed e
      then scan pages (suc i) q (temp ++ x ∷ []) (store_pte pte page.v_address (pte_a_off e))
      else ok (some (i, x), temp, pte)

-- The second loop moves the pages behind the one found to the front; it has `n` rounds at most.
pub compact : ℕ → ℕ → ℕ → List ℤ → ℕ × List ℤ
compact zero i index q = (index, q)
compact (suc n) i index q =
    let rest = compact n (suc i) (suc index) (set q index (get_or q i minus_one)) in
    if not (eq_ℤ (get_or q i minus_one) minus_one) then rest else (index, q)

-- The third loop fills the array from `temp`, which holds -1 past the pages put there.
pub fill : ℕ → ℕ → ℕ → List ℤ → List ℤ → List ℤ
fill zero index i temp q = q
fill (suc n) index i temp q =
    fill n (suc index) (suc i) temp (set q index (get_or temp i minus_one))

pub rotate : ℕ → List ℤ → List ℤ → List ℤ
unfolding compact fill
rotate i temp q =
    let (index, r) = compact (16 - suc i) (suc i) 0 q in fill (16 - index) index 0 temp r

pub take_first : Proc → Outcome (ℤ × Proc)
take_first p =
    let index = get_or p.ram_queue 0 minus_one in
    if eq_ℤ index minus_one
    then panic "removeSCFIFO"
    else ok (index, record p { ram_queue = update_queue 0 p.ram_queue })

pub settle : Proc → Option (ℕ × ℤ) → List ℤ → Outcome (ℤ × Proc)
unfolding take_first rotate
settle p none temp = take_first p
settle p (some (i, x)) temp = ok (x, record p { ram_queue = rotate i temp p.ram_queue })

pub remove_scfifo : Proc → Outcome (ℤ × Proc)
unfolding scan settle
remove_scfifo p = do
  (found, temp, pte) ← scan p.pages 0 p.ram_queue [] p.pte
  settle (record p { pte = pte }) found temp
