-- ===== src/Jobs/Chain.antt =====
-- The list of jobs as a chain in memory, and what taking a job out of it changes.
use c_cpp_projects.Prelude.{
  ℕ, zero, suc, ◌<◌, ◌≡◌, ◌≢◌, refl, sym, ap, subst, ◌∙◌, arith, true, false, Bool-cases, inl, inr,
  List, [], ◌∷◌, map, length, ◌==◌, ==_of_ne, if◌then◌else◌, ok, update_self, update_ne, ℕ_discrete,
  eq_ℤ, NotIn,
}
use c_cpp_projects.Jobs.{Job, Store, terminated, unlink, print_from}

-- From `p` the links lead through the addresses, which differ, to null.
abbrev pub Chain : (ℕ → ℕ) → ℕ → List ℕ → Type 0
Chain next p [] = p ≡ 0
Chain next p (a ∷ xs) = (p ≡ a) × (a ≢ 0) × NotIn a xs × Chain next (next a) xs

pub Chain-same :
    (next next' : ℕ → ℕ) (p : ℕ) (xs : List ℕ) (x : ℕ)
    → ((a : ℕ) → a ≢ x → next' a ≡ next a)
    → NotIn x xs
    → Chain next p xs
    → Chain next' p xs
Chain-same next next' p [] x same out c = c
Chain-same next next' p (a ∷ xs) x same (far, out) (e, some, apart, c) = (
  e,
  some,
  apart,
  subst (λ q. Chain next' q xs) (sym (same a far)) (Chain-same next next' (next a) xs x same out c),
)

-- The addresses of the jobs that have not ended, and those that are freed besides `old`.
abbrev pub left : (ℕ → Job) → List ℕ → List ℕ
left job [] = []
left job (a ∷ xs) = if eq_ℤ (job a).status terminated then left job xs else a ∷ left job xs

abbrev pub freed_after : (ℕ → Job) → List ℕ → List ℕ → List ℕ
freed_after job [] old = old
freed_after job (a ∷ xs) old =
    if eq_ℤ (job a).status terminated then freed_after job xs (a ∷ old) else freed_after job xs old

NotIn-left : (job : ℕ → Job) (x : ℕ) (xs : List ℕ) → NotIn x xs → NotIn x (left job xs)
NotIn-left job x [] out = tt
NotIn-left job x (a ∷ xs) (far, out) = elim (Bool-cases (eq_ℤ (job a).status terminated)) [
  | inl e ↦ rw (e) (NotIn-left job x xs out)
  | inr e ↦ rw (e) (far, NotIn-left job x xs out)
]

-- The pointer that is before the rest of the list: the head, or the link of `prev`.
abbrev pub entry : ℕ → Store → ℕ
entry prev s = if prev == 0 then s.head else s.next prev

record Unlinked (prev q : ℕ) (s t : Store) : Type 0 where
  at : entry prev t ≡ q
  same_job : t.job ≡ s.job
  same_freed : t.freed ≡ s.freed
  same_head : prev ≢ 0 → t.head ≡ s.head
  others : (a : ℕ) → a ≢ prev → t.next a ≡ s.next a

unlink_lem : (prev q : ℕ) (s : Store) → Unlinked prev q s (unlink prev q s)
unfolding unlink
unlink_lem prev q s = elim (ℕ_discrete prev 0) [
  | yes e ↦ rw (e) (record {
    at = refl;
    same_job = refl;
    same_freed = refl;
    same_head = λ n. absurd (n refl);
    others = λ a n. refl;
  })
  | no e ↦ rw (==_of_ne prev 0 e) (record {
    at = rw (==_of_ne prev 0 e) (update_self s.next prev q);
    same_job = refl;
    same_freed = refl;
    same_head = λ n. refl;
    others = λ a n. update_ne s.next prev a q n;
  })
]

-- How the loop of a listing ends, from the memory `s` and the rest `xs` of the list.
pub record Listed (prev : ℕ) (xs : List ℕ) (s : Store) (t : Store) : Type 0 where
  pub chain : Chain t.next (entry prev t) (left s.job xs)
  pub same_job : t.job ≡ s.job
  pub freed : t.freed ≡ freed_after s.job xs s.freed
  pub same_head : prev ≢ 0 → t.head ≡ s.head
  pub others : (a : ℕ) → a ≢ prev → NotIn a xs → t.next a ≡ s.next a

-- The job at `a` has ended.
Listed-gone :
    (prev a : ℕ) (xs : List ℕ) (s u t : Store)
    → Unlinked prev (s.next a) s u
    → eq_ℤ (s.job a).status terminated ≡ true
    → Listed prev xs (record u { freed = a ∷ u.freed }) t
    → Listed prev (a ∷ xs) s t
Listed-gone prev a xs s u t k e h = record {
  chain =
      rw (e)
        (subst (λ (job : ℕ → Job). Chain t.next (entry prev t) (left job xs)) k.same_job h.chain);
  same_job = h.same_job ∙ k.same_job;
  freed = rw (e) (
      h.freed
      ∙ (ap (λ (job : ℕ → Job). freed_after job xs (a ∷ u.freed)) k.same_job
          ∙ ap (λ old. freed_after s.job xs (a ∷ old)) k.same_freed));
  same_head = λ n. h.same_head n ∙ k.same_head n;
  others = λ x n out. h.others x n out.1 ∙ k.others x n;
}

-- It has not.
Listed-kept :
    (prev a : ℕ) (xs : List ℕ) (s t : Store)
    → entry prev s ≡ a
    → a ≢ 0
    → NotIn a xs
    → NotIn prev (a ∷ xs)
    → eq_ℤ (s.job a).status terminated ≡ false
    → Listed a xs s t
    → Listed prev (a ∷ xs) s t
Listed-kept prev a xs s t at some apart (far, out) e h =
    let here : entry prev t ≡ a = elim (ℕ_discrete prev 0) [
      | yes z ↦ rw (z) (h.same_head some ∙ (rw (z) at at))
      | no z ↦
          rw (==_of_ne prev 0 z)
            (h.others prev (λ q. far (sym q)) out ∙ (rw (==_of_ne prev 0 z) at at))
    ] in
    record {
      chain = rw (e) (
        here,
        some,
        NotIn-left s.job a xs apart,
        subst (λ q. Chain t.next q (left s.job xs)) (after some t) h.chain,
      );
      same_job = h.same_job;
      freed = rw (e) h.freed;
      same_head = λ n. h.same_head some;
      others = λ x n out'. h.others x (λ q. out'.0 (sym q)) out'.1;
    }
  where
    after : a ≢ 0 → (t : Store) → entry a t ≡ t.next a
    after some t = rw (==_of_ne a 0 some) refl

step_gone :
    (fuel prev p a : ℕ) (xs : List ℕ) (s t : Store)
    → p ≡ a
    → a ≢ 0
    → eq_ℤ (s.job a).status terminated ≡ true
    → let u : Store = unlink prev (s.next a) s in
      print_from fuel prev (s.next a) (record u { freed = a ∷ u.freed }) ≡ ok (map s.job xs, t)
      → print_from (suc fuel) prev p s ≡ ok (s.job a ∷ map s.job xs, t)
unfolding print_from
step_gone fuel prev p a xs s t here some e run = rw (here, ==_of_ne a 0 some, e, run) refl

step_kept :
    (fuel prev p a : ℕ) (xs : List ℕ) (s t : Store)
    → p ≡ a
    → a ≢ 0
    → eq_ℤ (s.job a).status terminated ≡ false
    → print_from fuel a (s.next a) s ≡ ok (map s.job xs, t)
    → print_from (suc fuel) prev p s ≡ ok (s.job a ∷ map s.job xs, t)
unfolding print_from
step_kept fuel prev p a xs s t here some e run = rw (here, ==_of_ne a 0 some, e, run) refl

pub print_from_lem :
    (fuel prev p : ℕ) (xs : List ℕ) (s : Store)
    → Chain s.next p xs
    → NotIn prev xs
    → entry prev s ≡ p
    → length xs < fuel
    → (t : Store) × (print_from fuel prev p s ≡ ok (map s.job xs, t)) × Listed prev xs s t
unfolding print_from
print_from_lem zero prev p xs s c out at enough = absurd (omega arith)
print_from_lem (suc fuel) prev p [] s c out at enough = (
  s,
  rw (c) refl,
  record {
    chain = at ∙ c;
    same_job = refl;
    freed = refl;
    same_head = λ n. refl;
    others = λ a n o. refl;
  },
)
print_from_lem (suc fuel) prev p (a ∷ xs) s (here, some, apart, c) (far, out) at enough =
    elim (Bool-cases (eq_ℤ (s.job a).status terminated)) [
      | inl e ↦
          let u : Store = unlink prev (s.next a) s in
          let k = unlink_lem prev (s.next a) s in
          let v : Store = record u { freed = a ∷ u.freed } in
          let (t, run, h) =
            print_from_lem fuel prev (s.next a) xs v
              (Chain-same s.next u.next (s.next a) xs prev k.others out c) out k.at (omega arith) in
          (
            t,
            step_gone fuel prev p a xs s t here some e
                (run ∙ ap (λ (job : ℕ → Job). ok (map job xs, t)) k.same_job),
            Listed-gone prev a xs s u t k e h,
          )
      | inr e ↦
          let (t, run, h) =
            print_from_lem fuel a (s.next a) xs s c apart (rw (==_of_ne a 0 some) refl)
              (omega arith) in
          (
            t,
            step_kept fuel prev p a xs s t here some e run,
            Listed-kept prev a xs s t (at ∙ here) some apart (far, out) e h,
          )
    ]
