-- ===== src/Fs/File/Trunc/Loops.antt =====
-- The loops of `itrunc`, over the direct blocks and over the entries of the indirect block.
use c_cpp_projects.Prelude.{
  ℕ, zero, suc, ◌+◌, ◌<◌, ◌≤◌, ◌≡◌, ◌≢◌, ◌⊎◌, inl, inr, refl, sym, ap, subst, ◌∙◌, arith, ok,
  update, ℕ_discrete, dec_lt, ==_of_ne,
}
use c_cpp_projects.Fs.{Disk, Inode, ndirect, bfree}
use c_cpp_projects.Fs.File.{free_direct, free_entries}
use c_cpp_projects.Fs.File.Map.{block_at, block_at_direct, block_at_entry, Sound}
use c_cpp_projects.Fs.File.Trunc.{Cut, Cut-none, Cut-some, Emptied, Emptied-suc, Emptied-none}

-- The places that the loops have passed.
abbrev pub Direct : ℕ → ℕ → Type 0
Direct i k = k < i

abbrev pub Entries : ℕ → ℕ → Type 0
Entries j k = (k < 12) ⊎ ((13 ≤ k) × (k < 13 + j))

suc_cases : (l i : ℕ) → l < suc i → (l < i) ⊎ (l ≡ i)
suc_cases l i h = elim (dec_lt l i) [ yes c ↦ inl c | no c ↦ inr (omega arith) ]

pub free_direct_lem :
    (n i : ℕ) (ip ip' : Inode) (s t : Disk)
    → n + i ≡ 12
    → Sound ip s
    → Emptied ip ip' i
    → Cut ip s t (Direct i)
    → (ip'' : Inode) × (u : Disk) × (free_direct n i ip' t ≡ ok (ip'', u))
      × Emptied ip ip'' 12
      × Cut ip s u (Direct 12)
unfolding free_direct
free_direct_lem zero i ip ip' s t e w em cut =
    let all : i ≡ 12 = omega (arith, e) in
    (ip', t, refl, subst (Emptied ip ip') all em, subst (λ m. Cut ip s t (Direct m)) all cut)
free_direct_lem (suc n) i ip ip' s t e w em cut =
    let place : block_at ip s i ≡ ip'.addrs i =
      block_at_direct ip s i (omega arith) ∙ sym (em.above i (omega arith)) in
    elim (ℕ_discrete (ip'.addrs i) 0) [
      | yes z ↦
          let rest : (ip'' : Inode) × (u : Disk) × (free_direct n (suc i) ip' t ≡ ok (ip'', u))
              × Emptied ip ip'' 12
              × Cut ip s u (Direct 12) =
            free_direct_lem n (suc i) ip ip' s t (omega arith) w (Emptied-none ip ip' i em z) (
              Cut-none ip s t (Direct i) (Direct (suc i)) i w cut (omega arith) (λ h. omega arith)
                (λ l h. omega arith) (λ l h. suc_cases l i h) (omega arith) (place ∙ z)) in
          rw (z) rest
      | no z ↦
          let (v, freed, cut') =
            Cut-some ip s t (Direct i) (Direct (suc i)) i w cut (omega arith) (λ h. omega arith)
              (λ l h. omega arith) (λ l h. suc_cases l i h) (omega arith)
              (λ q. z (sym place ∙ q)) in
          let freed' : bfree (ip'.addrs i) t ≡ ok v = subst (λ b. bfree b t ≡ ok v) place freed in
          rw (==_of_ne (ip'.addrs i) 0 z, freed')
            (free_direct_lem n (suc i) ip (record ip' { addrs = update ip'.addrs i 0 }) s v
              (omega arith) w (Emptied-suc ip ip' i em) cut')
    ]

Entries-cases : (l j : ℕ) → Entries (suc j) l → Entries j l ⊎ (l ≡ 13 + j)
Entries-cases l j (inl a) = inl (inl a)
Entries-cases l j (inr (a, b)) = elim (dec_lt l (13 + j)) [
  | yes c ↦ inl (inr (a, c))
  | no c ↦ inr (omega arith)
]

Entries-more : (l j : ℕ) → Entries j l → Entries (suc j) l
Entries-more l j (inl a) = inl a
Entries-more l j (inr (a, b)) = inr (a, omega arith)

Entries-new : (j : ℕ) → Entries j (13 + j) → ⊥
Entries-new j (inl a) = omega arith
Entries-new j (inr (a, b)) = omega arith

pub free_entries_lem :
    (n j : ℕ) (ip : Inode) (s t : Disk)
    → n + j ≡ 128
    → Sound ip s
    → ip.addrs ndirect ≢ 0
    → Cut ip s t (Entries j)
    → (u : Disk) × (free_entries n (ip.addrs ndirect) j t ≡ ok u) × Cut ip s u (Entries 128)
unfolding free_entries
free_entries_lem zero j ip s t e w some cut =
    let all : j ≡ 128 = omega (arith, e) in (t, refl, subst (λ m. Cut ip s t (Entries m)) all cut)
free_entries_lem (suc n) j ip s t e w some cut =
    let b : ℕ = t.word (ip.addrs ndirect) j in
    let place : block_at ip s (13 + j) ≡ b =
      block_at_entry ip s j some ∙ ap (λ f. f (ip.addrs ndirect) j) (sym cut.same_words) in
    elim (ℕ_discrete b 0) [
      | yes z ↦ rw (z) (
          free_entries_lem n (suc j) ip s t (omega arith) w some (
            Cut-none ip s t (Entries j) (Entries (suc j)) (13 + j) w cut (omega arith)
              (Entries-new j) (λ l. Entries-more l j) (λ l. Entries-cases l j)
              (inr (omega arith, omega arith)) (place ∙ z)))
      | no z ↦
          let (v, freed, cut') =
            Cut-some ip s t (Entries j) (Entries (suc j)) (13 + j) w cut (omega arith)
              (Entries-new j) (λ l. Entries-more l j) (λ l. Entries-cases l j)
              (inr (omega arith, omega arith)) (λ q. z (sym place ∙ q)) in
          let freed' : bfree b t ≡ ok v = subst (λ c. bfree c t ≡ ok v) place freed in
          rw (==_of_ne b 0 z, freed') (free_entries_lem n (suc j) ip s v (omega arith) w some cut')
    ]
