-- ===== src/Strings/Compare.antt =====
-- `memcmp`: when it finds two ranges equal.
use c_cpp_projects.Prelude.{
  ℕ, zero, suc, ◌+◌, ◌<◌, ◌≡◌, ◌≢◌, ◌↔◌, refl, ap, ◌∙◌, arith, ℕ_discrete, ==_iff, ==_of_ne, pos,
}
use c_cpp_projects.Strings.{Memory, memcmp, difference}

abbrev pub SameBytes : ℕ → ℕ → ℕ → Memory → Type 0
SameBytes s t n m = (i : ℕ) → i < n → m (s + i) ≡ m (t + i)

difference_ne : (a b : ℕ) → a ≢ b → difference a b ≢ pos 0
difference_ne a b ne e = ground arith

head : (s t n : ℕ) (m : Memory) → SameBytes s t (suc n) m → m s ≡ m t
head s t n m h =
    let a : s ≡ s + 0 = omega arith in
    let b : t + 0 ≡ t = omega arith in ap m a ∙ h 0 (omega arith) ∙ ap m b

tail : (s t n : ℕ) (m : Memory) → SameBytes s t (suc n) m → SameBytes (suc s) (suc t) n m
tail s t n m h i lt =
    let a : suc s + i ≡ s + suc i = omega arith in
    let b : t + suc i ≡ suc t + i = omega arith in ap m a ∙ h (suc i) (omega arith) ∙ ap m b

join :
    (s t n : ℕ) (m : Memory) → m s ≡ m t → SameBytes (suc s) (suc t) n m → SameBytes s t (suc n) m
join s t n m e h zero lt =
    let a : s + 0 ≡ s = omega arith in let b : t ≡ t + 0 = omega arith in ap m a ∙ e ∙ ap m b
join s t n m e h (suc i) lt =
    let a : s + suc i ≡ suc s + i = omega arith in
    let b : suc t + i ≡ t + suc i = omega arith in ap m a ∙ h i (omega arith) ∙ ap m b

-- `memcmp` returns 0 just if the two ranges hold the same bytes.
pub memcmp_lem : (s t n : ℕ) (m : Memory) → (memcmp s t n m ≡ pos 0) ↔ SameBytes s t n m
unfolding memcmp
memcmp_lem s t zero m = (λ e i lt. absurd (omega arith), λ h. refl)
memcmp_lem s t (suc n) m = elim (ℕ_discrete (m s) (m t)) [
  | yes e ↦
      let (forth, back) = memcmp_lem (suc s) (suc t) n m in
      rw ((==_iff (m s) (m t)).1 e) (λ z. join s t n m e (forth z), λ h. back (tail s t n m h))
  | no ne ↦
      rw (==_of_ne (m s) (m t) ne)
        (λ z. absurd (difference_ne (m s) (m t) ne z), λ h. absurd (ne (head s t n m h)))
]
