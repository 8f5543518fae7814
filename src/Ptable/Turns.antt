-- ===== src/Ptable/Turns.antt =====
-- Giving up the processor, and the turns that the scheduler hands out.
use mathlib.Core.Option.{none-ne-some}
use c_cpp_projects.Prelude.{
  ℕ, zero, suc, ◌+◌, ◌≤◌, ◌<◌, ◌≡◌, ◌≢◌, refl, sym, ap, ◌∙◌, Bool, true, false, ◌||◌, Bool-cases,
  inl, inr, List, [], ◌∷◌, get_elem?, get_elem?-set_ne, set, some, some-injective, Option-cases,
  arith, ◌==◌, ==_iff, ℕ_discrete, ok,
}
use c_cpp_projects.Spinlock.{Cpu, Lock, pushcli, holding}
use c_cpp_projects.Spinlock.Nesting.{pushcli_lem, holder, acquire_free}
use c_cpp_projects.Ptable.{Task, runnable, running, is_in, sched, yield, pass}

sched_lem :
    (c : Cpu) (lk : Lock) (p : Task)
    → holding c lk ≡ true
    → c.ncli ≡ 1
    → is_in p.state running ≡ false
    → c.interrupts ≡ false
    → sched c lk p ≡ ok p
unfolding sched
sched_lem c lk p h n r i = rw (h, n, r, i) refl

-- A process that holds no lock gives up the processor without a panic: `yield` reaches the switch with
-- the table's lock held by this processor, interrupts off and the process runnable.
pub yield_lem :
    (c : Cpu) (lk : Lock) (p : Task)
    → c.ncli ≡ 0
    → lk.locked ≡ false
    → (d : Cpu) × (yield c lk p
        ≡ ok (d, record { locked = true; cpu = some c.id }, record p { state = runnable }))
      × (d.interrupts ≡ false)
      × (d.ncli ≡ 1)
unfolding yield
yield_lem c lk p n free =
    let s = pushcli_lem c in
    let deep : (pushcli c).ncli ≡ 1 = s.ncli ∙ ap suc n in
    (
      pushcli c,
      rw
          (
            acquire_free c lk free,
            sched_lem (pushcli c) (record { locked = true; cpu = some c.id })
                (record p { state = runnable }) (holder (pushcli c) c.id s.id) deep refl
                s.interrupts,
          )
          refl,
      s.interrupts,
      deep,
    )

abbrev pub among : ℕ → List ℕ → Bool
among i [] = false
among i (x ∷ xs) = (x == i) || among i xs

-- The task at a place is runnable.
abbrev pub IsRunnable : ℕ → List Task → Type 0
IsRunnable j ps = (p : Task) × (get_elem? ps j ≡ some p) × (p.state ≡ runnable)

-- A turn of one process leaves the others that are runnable runnable.
abbrev pub Spares : (ℕ → List Task → List Task) → Type 0
Spares turn = (i j : ℕ) (ps : List Task) → i ≢ j → IsRunnable j ps → IsRunnable j (turn i ps)

IsRunnable-set :
    (i j : ℕ) (ps : List Task) (q : Task) → i ≢ j → IsRunnable j ps → IsRunnable j (set ps i q)
IsRunnable-set i j ps q ne (p, at, r) = (p, get_elem?-set_ne ps q ne ∙ at, r)

among-cons : (j i : ℕ) (xs : List ℕ) → among j xs ≡ true → among j (i ∷ xs) ≡ true
among-cons j i xs h = ground arith

runs : (q p : Task) → q ≡ p → p.state ≡ runnable → is_in q.state runnable ≢ false
runs q p e r u =
    let t : is_in q.state runnable ≡ true =
      ap (λ t. is_in t.state runnable) e ∙ ap (λ m. is_in m runnable) r in
    absurd (cc)

pass_from :
    (turn : ℕ → List Task → List Task) (n i j : ℕ) (ps : List Task)
    → Spares turn
    → i ≤ j
    → j < i + n
    → IsRunnable j ps
    → among j (pass turn n i ps).0 ≡ true
unfolding pass
pass_from turn zero i j ps s le lt r = absurd (omega arith)
pass_from turn (suc n) i j ps s le lt (p, at, r) = elim (Option-cases (get_elem? ps i)) [
  | inl e ↦
      let ne : i ≢ j = λ z. absurd (none-ne-some p (sym e ∙ ap (get_elem? ps) z ∙ at)) in
      rw (e, pass) (pass_from turn n (suc i) j ps s (omega (arith, ne)) (omega arith) (p, at, r))
  | inr (q, e) ↦ elim (Bool-cases (is_in q.state runnable)) [
    | inl u ↦
        rw (e, u, pass)
          (elim (ℕ_discrete i j) [
            | yes z ↦ rw ((==_iff i j).1 z) refl
            | no ne ↦ among-cons j i _ (
                pass_from turn n (suc i) j _ s (omega arith) (omega arith)
                  (s i j _ ne (IsRunnable-set i j ps (record q { state = running }) ne (p, at, r))))
          ])
    | inr u ↦
        let ne : i ≢ j =
          λ z. runs q p (some-injective q p (sym e ∙ ap (get_elem? ps) z ∙ at)) r u in
        rw (e, u, pass) (pass_from turn n (suc i) j ps s (omega arith) (omega arith) (p, at, r))
  ]
]

-- In one pass over the table every process that is runnable at the start gets a turn, provided a turn
-- of one process leaves the other runnable ones runnable.
pub pass_lem :
    (turn : ℕ → List Task → List Task) (n j : ℕ) (ps : List Task)
    → Spares turn
    → j < n
    → IsRunnable j ps
    → among j (pass turn n 0 ps).0 ≡ true
pass_lem turn n j ps s lt r = pass_from turn n 0 j ps s (omega arith) (omega arith) r
