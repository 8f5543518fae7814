-- ===== src/Ptable/Exit.antt =====
-- What `exit` leaves in the process table.
use mathlib.Core.Option.{none-ne-some}
use c_cpp_projects.Prelude.{
  ℕ, zero, suc, ◌+◌, ◌≤◌, ◌<◌, ◌≡◌, ◌≢◌, refl, sym, ap, ◌∙◌, false, ◌&&◌, Bool-cases, inl, inr,
  List, [], ◌∷◌, map, length, length-map, length-set, get_elem?, get_elem?-set_self,
  get_elem?-set_ne, set, some, some-injective, Option-cases, arith, ◌==◌, ==_iff, ==_of_ne,
  ℕ_discrete, ok, All, All-get, lt_of_get_elem?,
}
use c_cpp_projects.Ptable.{
  Task, sleeping, zombie, is_in, wake, wakeup1, pass_child, pass_children, exit_task,
}

-- The task does not sleep on the channel.
abbrev pub Awake : ℕ → Task → Type 0
Awake chan p = (is_in p.state sleeping && (p.chan == chan)) ≡ false

All-set {ℓ κ} :
    {A : Type ℓ} (P : A → Type κ) (xs : List A) (i : ℕ) (v : A)
    → P v
    → All P xs
    → All P (set xs i v)
All-set P [] i v p h = tt
All-set P (x ∷ xs) zero v p h = (p, h.1)
All-set P (x ∷ xs) (suc i) v p h = (h.0, All-set P xs i v p h.1)

wake-Awake : (chan c : ℕ) (p : Task) → Awake c p → Awake c (wake chan p)
unfolding wake
wake-Awake chan c p h = elim (Bool-cases (is_in p.state sleeping && (p.chan == chan))) [
  | inl e ↦ rw e refl
  | inr e ↦ rw e h
]

wake_self : (chan : ℕ) (p : Task) → Awake chan (wake chan p)
unfolding wake
wake_self chan p = elim (Bool-cases (is_in p.state sleeping && (p.chan == chan))) [
  | inl e ↦ rw e refl
  | inr e ↦ rw e e
]

wake-parent : (chan : ℕ) (p : Task) → (wake chan p).parent ≡ p.parent
unfolding wake
wake-parent chan p = elim (Bool-cases (is_in p.state sleeping && (p.chan == chan))) [
  | inl e ↦ rw e refl
  | inr e ↦ rw e refl
]

wake-pid : (chan : ℕ) (p : Task) → (wake chan p).pid ≡ p.pid
unfolding wake
wake-pid chan p = elim (Bool-cases (is_in p.state sleeping && (p.chan == chan))) [
  | inl e ↦ rw e refl
  | inr e ↦ rw e refl
]

pub wakeup1-Awake :
    (chan c : ℕ) (ps : List Task) → All (Awake c) ps → All (Awake c) (wakeup1 chan ps)
unfolding wakeup1
wakeup1-Awake chan c [] h = tt
wakeup1-Awake chan c (p ∷ ps) h = (wake-Awake chan c p h.0, wakeup1-Awake chan c ps h.1)

pub wakeup1_self : (chan : ℕ) (ps : List Task) → All (Awake chan) (wakeup1 chan ps)
unfolding wakeup1
wakeup1_self chan [] = tt
wakeup1_self chan (p ∷ ps) = (wake_self chan p, wakeup1_self chan ps)

-- What every step of `exit` keeps of a table: the number of places, the pids, and who is awake.
record Kept (c : ℕ) (ps qs : List Task) : Type 0 where
  pids : map (λ p. p.pid) qs ≡ map (λ p. p.pid) ps
  awake : All (Awake c) ps → All (Awake c) qs

Kept-trans : (c : ℕ) (ps qs rs : List Task) → Kept c ps qs → Kept c qs rs → Kept c ps rs
Kept-trans c ps qs rs k l = record { pids = l.pids ∙ k.pids; awake = λ a. l.awake (k.awake a) }

pids-wakeup1 :
    (chan : ℕ) (ps : List Task) → map (λ p. p.pid) (wakeup1 chan ps) ≡ map (λ p. p.pid) ps
unfolding wakeup1
pids-wakeup1 chan [] = refl
pids-wakeup1 chan (p ∷ ps) = rw (wake-pid chan p, pids-wakeup1 chan ps) refl

pids-set :
    (ps : List Task) (i : ℕ) (p q : Task)
    → get_elem? ps i ≡ some p
    → q.pid ≡ p.pid
    → map (λ r. r.pid) (set ps i q) ≡ map (λ r. r.pid) ps
pids-set [] i p q h e = refl
pids-set (r ∷ ps) zero p q h e = rw (e, some-injective r p h) refl
pids-set (r ∷ ps) (suc i) p q h e = ap (◌∷◌ r.pid) (pids-set ps i p q h e)

Kept-wakeup1 : (c chan : ℕ) (ps : List Task) → Kept c ps (wakeup1 chan ps)
Kept-wakeup1 c chan ps = record { pids = pids-wakeup1 chan ps; awake = wakeup1-Awake chan c ps }

-- None of the first `n` tasks has the parent.
abbrev Passed : ℕ → ℕ → List Task → Type 0
Passed cur n ps = (j : ℕ) (p : Task) → j < n → get_elem? ps j ≡ some p → p.parent ≢ cur

get_elem?-wakeup1 :
    (chan : ℕ) (ps : List Task) (j : ℕ) (q : Task)
    → get_elem? (wakeup1 chan ps) j ≡ some q
    → (p : Task) × (get_elem? ps j ≡ some p) × (q.parent ≡ p.parent)
unfolding wakeup1
get_elem?-wakeup1 chan [] j q h = cc
get_elem?-wakeup1 chan (p ∷ ps) zero q h =
    (p, refl, ap (λ t. t.parent) (sym (some-injective (wake chan p) q h)) ∙ wake-parent chan p)
get_elem?-wakeup1 chan (p ∷ ps) (suc j) q h = get_elem?-wakeup1 chan ps j q h

Passed-wakeup1 :
    (cur n chan : ℕ) (ps : List Task) → Passed cur n ps → Passed cur n (wakeup1 chan ps)
Passed-wakeup1 cur n chan ps h j q lt e =
    let (p, at, same) = get_elem?-wakeup1 chan ps j q e in λ z. h j p lt at (sym same ∙ z)

-- A write of a task with another parent at place `i`.
Passed-set :
    (cur i n : ℕ) (ps : List Task) (q : Task)
    → n ≤ suc i
    → q.parent ≢ cur
    → Passed cur i ps
    → Passed cur n (set ps i q)
Passed-set cur i n ps q le ne h j p lt e = elim (ℕ_discrete i j) [
  | yes s ↦
      let at : get_elem? (set ps i q) i ≡ some p = ap (get_elem? (set ps i q)) s ∙ e in
      let inside = lt_of_get_elem? (set ps i q) i p at in
      let is : q ≡ p =
        some-injective q p
          (sym (get_elem?-set_self ps i q (omega (arith, inside, length-set ps i q))) ∙ at) in
      λ z. ne (ap (λ t. t.parent) is ∙ z)
  | no d ↦ h j p (omega arith) (sym (get_elem?-set_ne ps q d) ∙ e)
]

-- What a step of the loop does, at place `i`.
record Step (c cur i : ℕ) (ps qs : List Task) : Type 0 where
  kept : Kept c ps qs
  passed : Passed cur i ps → Passed cur (suc i) qs

adopted :
    (c cur init i : ℕ) (ps : List Task) (p : Task)
    → init ≢ cur
    → get_elem? ps i ≡ some p
    → Step c cur i ps (set ps i (record p { parent = init }))
adopted c cur init i ps p ne at = record {
  kept = record {
    pids = pids-set ps i p (record p { parent = init }) at refl;
    awake =
        λ a. All-set (Awake c) ps i (record p { parent = init }) (All-get (Awake c) ps i p a at) a;
  };
  passed = Passed-set cur i (suc i) ps (record p { parent = init }) (omega arith) ne;
}

then_woken :
    (c cur init i : ℕ) (ps qs : List Task) → Step c cur i ps qs → Step c cur i ps (wakeup1 init qs)
then_woken c cur init i ps qs s = record {
  kept = Kept-trans c ps qs (wakeup1 init qs) s.kept (Kept-wakeup1 c init qs);
  passed = λ h. Passed-wakeup1 cur (suc i) init qs (s.passed h);
}

spared :
    (c cur i : ℕ) (ps : List Task)
    → ((p : Task) → get_elem? ps i ≡ some p → p.parent ≢ cur)
    → Step c cur i ps ps
spared c cur i ps ne = record {
  kept = record { pids = refl; awake = λ a. a };
  passed = λ h j p lt e. elim (ℕ_discrete j i) [
    | yes s ↦ ne p (ap (get_elem? ps) (sym s) ∙ e)
    | no d ↦ h j p (omega arith) e
  ];
}

pass_child_lem :
    (c cur init i : ℕ) (ps : List Task) → init ≢ cur → Step c cur i ps (pass_child cur init i ps)
unfolding pass_child
pass_child_lem c cur init i ps ne = elim (Option-cases (get_elem? ps i)) [
  | inl e ↦ rw (e, pass_child) (spared c cur i ps (λ p h. absurd (none-ne-some p (sym e ∙ h))))
  | inr (p, e) ↦
      rw (e, pass_child)
        (elim (ℕ_discrete p.parent cur) [
          | no d ↦ rw (==_of_ne p.parent cur d) (
              spared c cur i ps
                (λ q h. λ z. d (ap (λ t. t.parent) (some-injective p q (sym e ∙ h)) ∙ z)))
          | yes s ↦ rw ((==_iff p.parent cur).1 s) (elim (Bool-cases (is_in p.state zombie)) [
            | inl z ↦ rw z (then_woken c cur init i ps _ (adopted c cur init i ps p ne e))
            | inr z ↦ rw z (adopted c cur init i ps p ne e)
          ])
        ])
]

pass_children_lem :
    (c cur init n i : ℕ) (ps : List Task)
    → init ≢ cur
    → Passed cur i ps
    → Kept c ps (pass_children n i cur init ps) × Passed cur (i + n) (pass_children n i cur init ps)
unfolding pass_children
pass_children_lem c cur init zero i ps ne h =
    (record { pids = refl; awake = λ a. a }, λ j p lt e. h j p (omega arith) e)
pass_children_lem c cur init (suc n) i ps ne h =
    let s = pass_child_lem c cur init i ps ne in
    let (k, p) =
      pass_children_lem c cur init n (suc i) (pass_child cur init i ps) ne (s.passed h) in
    (Kept-trans c ps _ _ s.kept k, λ j q lt e. p j q (omega arith) e)

All-of-Passed :
    (cur n : ℕ) (ps : List Task) → length ps ≤ n → Passed cur n ps → All (λ p. p.parent ≢ cur) ps
All-of-Passed cur n [] le h = tt
All-of-Passed cur zero (p ∷ ps) le h = absurd (omega arith)
All-of-Passed cur (suc n) (p ∷ ps) le h = (
  h 0 p (omega arith) refl,
  All-of-Passed cur n ps (omega arith) (λ j q lt e. h (suc j) q (omega arith) e),
)

get_elem?-lt : (ps : List Task) (i : ℕ) → i < length ps → (p : Task) × (get_elem? ps i ≡ some p)
get_elem?-lt [] i lt = absurd (omega arith)
get_elem?-lt (p ∷ ps) zero lt = (p, refl)
get_elem?-lt (p ∷ ps) (suc i) lt = get_elem?-lt ps i (omega arith)

length-pids :
    (ps qs : List Task) → map (λ p. p.pid) qs ≡ map (λ p. p.pid) ps → length qs ≡ length ps
length-pids ps qs e = sym (length-map qs (λ p. p.pid)) ∙ ap length e ∙ length-map ps (λ p. p.pid)

-- The table after the process at place `i`, whose parent is `parent`, has ended.
pub record Ended (i parent : ℕ) (ps qs : List Task) : Type 0 where
  pub pids : map (λ p. p.pid) qs ≡ map (λ p. p.pid) ps
  pub no_orphans : All (λ p. p.parent ≢ suc i) qs
  pub parent_awake : All (Awake parent) qs
  pub ended : (p : Task) × (get_elem? qs i ≡ some p) × (p.state ≡ zombie)

end_lem :
    (init i : ℕ) (ps : List Task) (me : Task) (rs : List Task)
    → (Kept me.parent (wakeup1 me.parent ps) rs × Passed (suc i) (0 + length ps) rs)
    → i < length ps
    → (p : Task) × (get_elem? rs i ≡ some p)
      × Ended i me.parent ps (set rs i (record p { state = zombie }))
end_lem init i ps me rs (k, passed) lt =
    let same = k.pids ∙ pids-wakeup1 me.parent ps in
    let long : length rs ≡ length ps = length-pids ps rs same in
    let (p, at) = get_elem?-lt rs i (omega (arith, long)) in
    let others = All-of-Passed (suc i) (0 + length ps) rs (omega (arith, long)) passed in
    let end : Task = record p { state = zombie } in
    (
      p,
      at,
      record {
        pids = pids-set rs i p end at refl ∙ same;
        no_orphans =
            All-set (λ q. q.parent ≢ suc i) rs i end
              (All-get (λ q. q.parent ≢ suc i) rs i p others at) others;
        parent_awake =
            All-set (Awake me.parent) rs i end refl (k.awake (wakeup1_self me.parent ps));
        ended = (end, get_elem?-set_self rs i end (omega (arith, long)), refl);
      },
    )

-- The part of `exit` that runs under the table's lock, up to `sched`, for a process other than init:
-- after it the process is a zombie, no process has it as its parent any more, none sleeps on its
-- parent's address, so a parent in `wait` runs again, and the table has the same pids at the same
-- places. What `exit` does before that, with files, directory and swap file, is not part of this.
pub exit_task_lem :
    (init i : ℕ) (ps : List Task) (me : Task)
    → suc i ≢ init
    → get_elem? ps i ≡ some me
    → (qs : List Task) × (exit_task init i ps ≡ ok qs) × Ended i me.parent ps qs
unfolding exit_task
exit_task_lem init i ps me ne at =
    let start : Passed (suc i) 0 (wakeup1 me.parent ps) = λ j p lt e. absurd (omega arith) in
    let loop =
      pass_children_lem me.parent (suc i) init (length ps) 0 (wakeup1 me.parent ps)
        (λ z. ne (sym z)) start in
    let (p, here, ended) = end_lem init i ps me _ loop (lt_of_get_elem? ps i me at) in
    (
      set (pass_children (length ps) 0 (suc i) init (wakeup1 me.parent ps)) i
          (record p { state = zombie }),
      rw (==_of_ne (suc i) init ne, at, here) refl,
      ended,
    )
