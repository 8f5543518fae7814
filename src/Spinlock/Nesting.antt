-- ===== src/Spinlock/Nesting.antt =====
-- Nested critical sections: what a processor's interrupt flag is after them.
use c_cpp_projects.Prelude.{
  sym, ==_iff, ℕ, suc, ◌≡◌, ◌≢◌, refl, ap, ap₂, ◌∙◌, Bool, true, false, ◌&&◌, some, arith, ◌==◌,
  ==_self, ==_of_ne, ℕ_discrete, if◌then◌else◌, Outcome, ok, panic, ◌>>=◌,
}
use c_cpp_projects.Spinlock.{Cpu, Lock, initlock, pushcli, popcli, acquire, release, holding}

-- In a critical section interrupts are off; outside of one, `intena` is not in use.
pub record IsValid (c : Cpu) : Type 0 where
  pub off : c.ncli ≢ 0 → c.interrupts ≡ false

-- What outer code can see of a processor: the flag, the depth, and `intena` while it is in use.
pub record SameView (c d : Cpu) : Type 0 where
  pub id : d.id ≡ c.id
  pub ncli : d.ncli ≡ c.ncli
  pub interrupts : d.interrupts ≡ c.interrupts
  pub intena : c.ncli ≢ 0 → d.intena ≡ c.intena

-- A program of nested `pushcli`s, `popcli`s in last-in-first-out order.
pub data Section : Type 0 where
  done : Section
  nested : Section → Section → Section

-- `nested inner rest` is pushcli; inner; popcli; rest.
pub run : Section → Cpu → Outcome Cpu
run done c = ok c
run (nested inner rest) c = do d ← run inner (pushcli c); e ← popcli d; run rest e

pub record Pushed (c d : Cpu) : Type 0 where
  pub id : d.id ≡ c.id
  pub ncli : d.ncli ≡ suc c.ncli
  pub interrupts : d.interrupts ≡ false
  pub intena : d.intena ≡ (if c.ncli == 0 then c.interrupts else c.intena)

pub pushcli_lem : (c : Cpu) → Pushed c (pushcli c)
unfolding pushcli
pushcli_lem c = elim (ℕ_discrete c.ncli 0) [
  | yes e ↦ rw ((==_iff c.ncli 0).1 e) (record {
    id = refl;
    ncli = omega arith;
    interrupts = refl;
    intena = rw ((==_iff c.ncli 0).1 e) refl;
  })
  | no ne ↦ rw (==_of_ne c.ncli 0 ne) (record {
    id = refl;
    ncli = omega arith;
    interrupts = refl;
    intena = rw (==_of_ne c.ncli 0 ne) refl;
  })
]

popcli-fields :
    (id n : ℕ) (intena : Bool)
    → popcli (record { id = id; ncli = suc n; intena = intena; interrupts = false })
      ≡ ok (record { id = id; ncli = n; intena = intena; interrupts = (n == 0) && intena })
unfolding popcli
popcli-fields id n true = ground arith
popcli-fields id n false = ground arith

popcli-eq :
    (d : Cpu) (n : ℕ)
    → d.interrupts ≡ false
    → d.ncli ≡ suc n
    → popcli d ≡ ok (record d { ncli = n; interrupts = (n == 0) && d.intena })
popcli-eq d n off depth =
    ap₂ (λ f k. popcli (record d { interrupts = f; ncli = k })) off depth
    ∙ popcli-fields d.id n d.intena

restored :
    (c d : Cpu)
    → IsValid c
    → d.intena ≡ (if c.ncli == 0 then c.interrupts else c.intena)
    → (((c.ncli == 0) && d.intena) ≡ c.interrupts) × (c.ncli ≢ 0 → d.intena ≡ c.intena)
restored c d v e = elim (ℕ_discrete c.ncli 0) [
  | yes z ↦ (rw ((==_iff c.ncli 0).1 z) (e ∙ rw ((==_iff c.ncli 0).1 z) refl), λ ne. absurd (ne z))
  | no ne ↦ (rw (==_of_ne c.ncli 0 ne, v.off ne) refl, λ h. rw (==_of_ne c.ncli 0 ne) at e)
]

-- `popcli` undoes a `pushcli` over which the view was kept.
pub popcli-pushcli :
    (c d : Cpu) → IsValid c → SameView (pushcli c) d → (e : Cpu) × (popcli d ≡ ok e) × SameView c e
popcli-pushcli c d v s =
    let p = pushcli_lem c in
    let deep : (pushcli c).ncli ≢ 0 = λ z. absurd (omega (arith, p.ncli)) in
    let (flag, inner) = restored c d v (s.intena deep ∙ p.intena) in
    (
      record d { ncli = c.ncli; interrupts = (c.ncli == 0) && d.intena },
      popcli-eq d c.ncli (s.interrupts ∙ p.interrupts) (s.ncli ∙ p.ncli),
      record { id = s.id ∙ p.id; ncli = refl; interrupts = flag; intena = inner },
    )

IsValid-same : (c d : Cpu) → SameView c d → IsValid c → IsValid d
IsValid-same c d s v = record { off = λ ne. s.interrupts ∙ v.off (λ z. ne (s.ncli ∙ z)) }

SameView-trans : (c d e : Cpu) → SameView c d → SameView d e → SameView c e
SameView-trans c d e s t = record {
  id = t.id ∙ s.id;
  ncli = t.ncli ∙ s.ncli;
  interrupts = t.interrupts ∙ s.interrupts;
  intena = λ ne. t.intena (λ z. ne (sym s.ncli ∙ z)) ∙ s.intena ne;
}

pub pushcli-IsValid : (c : Cpu) → IsValid (pushcli c)
pushcli-IsValid c = record { off = λ ne. (pushcli_lem c).interrupts }

-- `pushcli` and `popcli` are matched: a program of nested pairs, however deep and however many, does
-- not panic, and leaves the depth and the interrupt flag as they were. So if interrupts were off
-- before it, they are off after it.
pub run_lem : (s : Section) (c : Cpu) → IsValid c → (d : Cpu) × (run s c ≡ ok d) × SameView c d
unfolding run
run_lem done c v =
    (c, refl, record { id = refl; ncli = refl; interrupts = refl; intena = λ h. refl })
run_lem (nested inner rest) c v =
    let (d, e, s) = run_lem inner (pushcli c) (pushcli-IsValid c) in
    let (f, e', s') = popcli-pushcli c d v s in
    let (g, e'', s'') = run_lem rest f (IsValid-same c f s' v) in
    (g, rw (e, e', e'') refl, SameView-trans c f g s' s'')

pub holder :
    (d : Cpu) (n : ℕ) → d.id ≡ n → holding d (record { locked = true; cpu = some n }) ≡ true
unfolding holding
holder d n e = rw (e, ==_self n) refl

pub release_lem :
    (d e : Cpu) (lk : Lock)
    → holding d lk ≡ true
    → popcli d ≡ ok e
    → release d lk ≡ ok (e, initlock)
unfolding release initlock
release_lem d e lk h run = rw (h, run) refl

acquire_again :
    (d : Cpu) (lk : Lock) → holding (pushcli d) lk ≡ true → acquire d lk ≡ panic "acquire"
unfolding acquire
acquire_again d lk h = rw h refl

pub acquire_free :
    (c : Cpu) (lk : Lock)
    → lk.locked ≡ false
    → acquire c lk ≡ ok (pushcli c, record { locked = true; cpu = some c.id })
unfolding acquire holding
acquire_free c lk free =
    rw free (ap (λ n. ok (pushcli c, record { locked = true; cpu = some n })) (pushcli_lem c).id)

-- A free lock is acquired at once, whatever the nesting, with interrupts off; a second `acquire` by
-- the same processor panics; and after a critical section that keeps the view, `release` frees the
-- lock and gives the processor back the flag and the depth that it had before `acquire`.
pub acquire-release :
    (c d : Cpu) (lk : Lock)
    → IsValid c
    → lk.locked ≡ false
    → SameView (pushcli c) d
    → let taken : Lock = record { locked = true; cpu = some c.id } in
      (acquire c lk ≡ ok (pushcli c, taken))
      × (acquire d taken ≡ panic "acquire")
      × ((e : Cpu) × (release d taken ≡ ok (e, initlock)) × SameView c e)
acquire-release c d lk v free s =
    let (e, run, same) = popcli-pushcli c d v s in
    let id = s.id ∙ (pushcli_lem c).id in
    (
      acquire_free c lk free,
      acquire_again d _ (holder (pushcli d) c.id ((pushcli_lem d).id ∙ id)),
      (e, release_lem d e _ (holder d c.id id) run, same),
    )
