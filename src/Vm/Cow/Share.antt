-- ===== src/Vm/Cow/Share.antt =====
-- A round of `copyuvm`: what becomes of one page of the parent and of the child.
use c_cpp_projects.Prelude.{
  ℕ, zero, suc, ◌+◌, ◌*◌, ◌%◌, ◌<◌, ◌≤◌, ◌≡◌, ◌⊎◌, refl, ◌∙◌, true, false, if◌then◌else◌, List,
  arith, u32_mod, Bool-cases, inl, inr, NotIn, ◌==◌, bit, bit_on, bit_off,
}
use c_cpp_projects.Vm.{Vm, pte_p, pte_w, pte_pg, pte_addr, pte_flags, pte_of}
use c_cpp_projects.Vm.Bits.{pte_of_lem}
use c_cpp_projects.Vm.Shape.{entry}
use c_cpp_projects.Vm.Cow.{shared_pte}
use c_cpp_projects.Kalloc.{refs, p2v}
use c_cpp_projects.Kalloc.Chain.{IsPage}

-- A page that is shared is never writeable, and keeps its frame.
pub shared-pte_w : (e : ℕ) → pte_w (shared_pte e) ≡ false
shared-pte_w e = elim (Bool-cases (pte_w e)) [
  | inl h ↦
      (let clear : bit (bit_off (bit_on e 10) 1) 1 ≡ 0 = omega arith in ground (arith, h, clear))
  | inr h ↦ rw (h) h
]

pub shared-pte_addr : (e : ℕ) → pte_addr (shared_pte e) ≡ pte_addr e
shared-pte_addr e = elim (Bool-cases (pte_w e)) [
  | inl h ↦ rw (h) (omega arith)
  | inr h ↦ rw (h) refl
]

shared-pte_p : (e : ℕ) → bit (shared_pte e) 0 ≡ bit e 0
shared-pte_p e = elim (Bool-cases (pte_w e)) [ inl h ↦ rw (h) (omega arith) | inr h ↦ rw (h) refl ]

-- The child's entry, made of the parent's frame and flags, is the parent's.
pub shared-pte_of :
    (e : ℕ)
    → e < u32_mod
    → pte_p e ≡ true
    → pte_of (pte_addr e) (pte_flags (shared_pte e)) ≡ shared_pte e
shared-pte_of e h p =
    let one : bit e 0 ≡ 1 = ground arith in
    let kept : bit (shared_pte e) 0 ≡ 1 = shared-pte_p e ∙ one in
    let frame_kept : pte_addr (shared_pte e) ≡ pte_addr e = shared-pte_addr e in
    pte_of_lem (pte_addr e) (pte_flags (shared_pte e)) (omega arith) (omega arith) (omega arith)
    ∙ omega (arith, kept, frame_kept)

-- What `copyuvm` relies on in an entry of the parent: it is present or in the swap file, and the
-- frame of a present page is a page of the kernel that is not free.
pub record CanShare (kend : ℕ) (free : List ℕ) (e : ℕ) : Type 0 where
  pub word : e < u32_mod
  pub known : (pte_p e ≡ true) ⊎ (pte_pg e ≡ true)
  pub frame : pte_p e ≡ true → IsPage kend (p2v (pte_addr e)) × NotIn (p2v (pte_addr e)) free

-- The parent's entry afterwards, and the child's, which was `c`.
abbrev pub parent_pte : ℕ → ℕ
parent_pte e = if pte_p e then shared_pte e else e

abbrev pub child_pte : ℕ → ℕ → ℕ
child_pte e c = if pte_p e then shared_pte e else c

-- 1 if the entry refers to the page `v`.
abbrev pub refers : ℕ → ℕ → ℕ
refers v e = if pte_p e then (if p2v (pte_addr e) == v then 1 else 0) else 0

-- From `s` to `t` the `n` pages from `i` on are shared; `shares` is how many of them refer to a page.
unfoldable pub shares : Vm → ℕ → ℕ → ℕ → ℕ → ℕ
shares s pgdir v i zero = 0
shares s pgdir v i (suc n) = refers v (entry s pgdir i) + shares s pgdir v (i + 4096) n

pub record Shared (kend : ℕ) (D : ℕ → Type 0) (free rest : List ℕ) (s t : Vm) (pgdir d i n : ℕ)
    : Type 0 where
  pub parent :
      (vb : ℕ) → i ≤ vb → vb < i + n * 4096 → entry t pgdir vb ≡ parent_pte (entry s pgdir vb)
  pub child :
      (vb : ℕ)
      → i ≤ vb
      → vb < i + n * 4096
      → entry t d vb ≡ child_pte (entry s pgdir vb) (entry s d vb)
  pub others :
      (e vb : ℕ)
      → D e
      → vb < u32_mod
      → ¬ (((e ≡ pgdir) ⊎ (e ≡ d)) × (i ≤ vb) × (vb < i + n * 4096))
      → entry t e vb ≡ entry s e vb
  pub counts :
      (v : ℕ)
      → IsPage kend v
      → NotIn v free
      → refs t.kmem v % u32_mod ≡ (refs s.kmem v + shares s pgdir v i n) % u32_mod
  pub fewer : (v : ℕ) → NotIn v free → NotIn v rest
  pub bytes : (v j : ℕ) → IsPage kend v → j < 4096 → NotIn v free → t.byte (v + j) ≡ s.byte (v + j)
