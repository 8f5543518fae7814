-- ===== src/Paging/Aging.antt =====
-- `agingPages` and `advanceQueue` of proc.c, which the scheduler runs after each turn of a process.
pub mod Marks
pub mod Ticks
use c_cpp_projects.Prelude.{
  ℕ, zero, suc, ◌+◌, ◌*◌, ◌/◌, ◌^◌, ◌<◌, ◌≡◌, ◌≢◌, refl, ap, ap₂, subst, map, Bool-cases, inl, inr,
  ◌∙◌, sym, not, List, [], ◌∷◌, get_elem?, set, Option, none, some, arith, ◌==◌, ==_of_ne, ==_iff,
  if◌then◌else◌, Outcome, ok, fault, out_of_fuel, ◌>>=◌, bit, bit_on, update, update_self, ◌-◌,
  false, update_ne, ℤ, pos, negsuc, minus_one, eq_ℤ, ltb_ℤ, ℕ_discrete, All, NotIn, Distinct,
}
use c_cpp_projects.Paging.{Page, Proc, page_at, load_pte, store_pte, accessed, pte_a_off}
use c_cpp_projects.Paging.Access.{load_pte-ok}

-- The age is shifted right; the accessed bit goes into its top bit.
abbrev pub aged : Page → ℕ → Page
aged g e = record g { age = if accessed e then bit_on (g.age / 2) 31 else g.age / 2 }

abbrev pub after_look : (ℕ → Option ℕ) → Page → ℕ → ℕ → Option ℕ
after_look pte g e = if accessed e then store_pte pte g.v_address (pte_a_off e) else pte

pub aging_from : List Page → (ℕ → Option ℕ) → Outcome (List Page × (ℕ → Option ℕ))
aging_from [] pte = ok ([], pte)
aging_from (g ∷ gs) pte =
    if g.is_allocated == 1
    then (do
      e ← load_pte pte g.v_address
      (rest, pte') ← aging_from gs (after_look pte g e)
      ok (aged g e ∷ rest, pte'))
    else (do (rest, pte') ← aging_from gs pte; ok (g ∷ rest, pte'))

pub aging_pages : Proc → Outcome Proc
unfolding aging_from
aging_pages p = do
  (pages, pte) ← aging_from p.pages p.pte
  ok (record p { pages = pages; pte = pte })

-- `curproc->RAMQueue[i]`
pub queue_at : List ℤ → ℤ → Outcome ℤ
queue_at q (negsuc n) = fault
queue_at q (pos n) = elim (get_elem? q n) [ none ↦ fault | some x ↦ ok x ]

abbrev pub prev : ℤ → ℤ
prev (pos zero) = negsuc 0
prev (pos (suc n)) = pos n
prev (negsuc n) = negsuc (suc n)

pub write_queue : List ℤ → ℤ → ℤ → Outcome (List ℤ)
write_queue q (negsuc n) x = fault
write_queue q (pos n) x = ok (set q n x)

-- The body of the loop of `advanceQueue` at place `i`.
pub advance_at : ℤ → Proc → Outcome Proc
unfolding queue_at write_queue
advance_at i p = do
  curr ← queue_at p.ram_queue i
  if eq_ℤ curr minus_one then ok p else (do
    before ← queue_at p.ram_queue (prev i)
    curr_page ← page_at p.pages curr
    prev_page ← page_at p.pages before
    pte_pre ← load_pte p.pte prev_page.v_address
    if not (accessed pte_pre) then ok p else (do
      pte_curr ← load_pte p.pte curr_page.v_address
      if accessed pte_curr then ok p else (do
        q ← write_queue p.ram_queue i before
        q' ← write_queue q (prev i) curr
        ok (record p { ram_queue = q' }))))

-- The loop runs while `i < 0`, as the code has it.
pub advance_from : ℕ → ℤ → Proc → Outcome Proc
advance_from zero i p = out_of_fuel
advance_from (suc fuel) i p =
    let rest = advance_at i p >>= λ q. advance_from fuel (prev i) q in
    if ltb_ℤ i (pos 0) then rest else ok p

-- `i` starts at MAX_PSYC_PAGES - 1.
pub advance_queue : Proc → Outcome Proc
unfolding advance_from
advance_queue p = advance_from 17 (pos 15) p

-- `advanceQueue` does nothing, whatever the state of the process: its loop condition fails at the
-- start. So under AQ no page is ever moved towards the front of the queue, or away from it.
pub advance_queue_lem : (p : Proc) → advance_queue p ≡ ok p
unfolding advance_queue
advance_queue_lem p = refl
