-- ===== src/Vm/Uvm/Bytes.antt =====
-- The bytes of a range as the page table shows them, and a part of them that lies in one page.
use c_cpp_projects.Prelude.{
  ℕ, ◌+◌, ◌-◌, ◌*◌, ◌/◌, ◌%◌, ◌<◌, ◌≤◌, ◌≡◌, ◌≢◌, inl, inr, refl, sym, ap, ◌∙◌, true, List, arith,
  dec_lt, ==_of_ne, ok,
}
use c_cpp_projects.Vm.{Vm, pdx, ptx, pte_p, pte_u, pte_addr, uva2ka}
use c_cpp_projects.Vm.Shape.{table, HasTable, entry, IsValid}
use c_cpp_projects.Vm.Map.{entry_of_page}
use c_cpp_projects.Vm.Reading.{entry-HasTable, HasTable-of_entry, walkpgdir-found, place-ne}
use c_cpp_projects.Kalloc.{p2v, pground_down}
use c_cpp_projects.Kalloc.Chain.{IsPage}
use c_cpp_projects.Strings.{memmove}
use c_cpp_projects.Strings.Move.{memmove_lem, Moved, Outside}

-- The kernel's address for an address of the user, by the page table.
abbrev pub place : Vm → ℕ → ℕ → ℕ
place s d va = p2v (pte_addr (entry s d va)) + va % 4096

-- The user may reach the page, which is one of the kernel's.
pub record Reachable (kend : ℕ) (e : ℕ) : Type 0 where
  pub present : pte_p e ≡ true
  pub user : pte_u e ≡ true
  pub frame : IsPage kend (p2v (pte_addr e))

-- No two pages of the range share a frame, and the source lies in none of the frames.
pub record Apart (s : Vm) (d va p len : ℕ) : Type 0 where
  pub frames :
      (a b : ℕ)
      → va ≤ a
      → a < va + len
      → va ≤ b
      → b < va + len
      → p2v (pte_addr (entry s d a)) ≡ p2v (pte_addr (entry s d b))
      → a / 4096 ≡ b / 4096
  pub source :
      (a k : ℕ)
      → va ≤ a
      → a < va + len
      → k < len
      → (p + k) / 4096 ≢ p2v (pte_addr (entry s d a)) / 4096

pub uva2ka_lem :
    (kend : ℕ) (D : ℕ → Type 0) (free : List ℕ) (s : Vm) (d va : ℕ)
    → IsValid kend D free s
    → D d
    → Reachable kend (entry s d va)
    → uva2ka d (pground_down va) s ≡ ok (p2v (pte_addr (entry s d va)))
unfolding uva2ka
uva2ka_lem kend D free s d va w x r =
    let low = pground_down va in
    let same : entry s d low ≡ entry s d va = entry_of_page s d low va (omega arith) in
    let present : pte_p (entry s d low) ≡ true = ap pte_p same ∙ r.present in
    let some : entry s d low ≢ 0 = λ z. ground (arith, present, z) in
    let h : HasTable s d (pdx low) = HasTable-of_entry s d low some in
    let at = sym (entry-HasTable s d low h) in
    rw
      (
        walkpgdir-found s d low h,
        ==_of_ne (table s d (pdx low) + 4 * ptx low) 0 (place-ne kend D free s d low w x h),
        at,
        same,
        r.present,
        r.user,
      )
      refl

-- The bytes from `p` on stand where the page table leads, and no other byte has changed.
pub record Written (s t : Vm) (d va p len : ℕ) : Type 0 where
  pub inside : (k : ℕ) → k < len → t.byte (place s d (va + k)) ≡ s.byte (p + k)
  pub outside : (a : ℕ) → ((k : ℕ) → k < len → a ≢ place s d (va + k)) → t.byte a ≡ s.byte a

Outside-page :
    (q off n x : ℕ) → q % 4096 ≡ 0 → off + n ≤ 4096 → x / 4096 ≢ q / 4096 → Outside (q + off) n x
Outside-page q off n x al le ne = elim (dec_lt x (q + off)) [
  | yes c ↦ inl c
  | no c ↦ elim (dec_lt x (q + off + n)) [
    | yes b ↦ absurd (ne (omega (arith, al, b, c)))
    | no b ↦ inr (omega arith)
  ]
]

Outside-all : (dst n x : ℕ) → ((i : ℕ) → i < n → x ≢ dst + i) → Outside dst n x
Outside-all dst n x h = elim (dec_lt x dst) [
  | yes c ↦ inl c
  | no c ↦ elim (dec_lt x (dst + n)) [
    | yes b ↦ absurd (h (x - dst) (omega arith) (omega arith))
    | no b ↦ inr (omega arith)
  ]
]

-- The first `n` bytes, all in one page, and then the others.
module _ (kend : ℕ) (s t : Vm) (d va p len n next : ℕ) (part : va % 4096 + n ≤ 4096) (le : n ≤ len)
    (goes_on : n < len → (next ≡ va + n) × (next % 4096 ≡ 0))
    (reach : (a : ℕ) → va ≤ a → a < va + len → Reachable kend (entry s d a))
    (apart : Apart s d va p len) (some : 0 < n) where
  abbrev q : ℕ
  q = p2v (pte_addr (entry s d va))

  abbrev s1 : Vm
  s1 = record s { byte = memmove (q + va % 4096) p n s.byte }

  -- The places of the first part lie one after the other.
  place_first : (k : ℕ) → k < n → place s d (va + k) ≡ q + va % 4096 + k
  place_first k h =
      let same : entry s d (va + k) ≡ entry s d va = entry_of_page s d (va + k) va (omega arith) in
      rw (same) (omega arith)

  place_ne : (k j : ℕ) → k < n → j < len - n → n < len → place s d (va + k) ≢ place s d (next + j)
  place_ne k j hk hj more e =
      let (far, start) = goes_on more in
      let here = reach (va + k) (omega arith) (omega arith) in
      let there = reach (next + j) (omega arith) (omega arith) in
      let one_frame : p2v (pte_addr (entry s d (va + k))) ≡ p2v (pte_addr (entry s d (next + j))) =
        omega (arith, e, here.frame.aligned, there.frame.aligned) in
      let one_page : (va + k) / 4096 ≡ (next + j) / 4096 =
        apart.frames (va + k) (next + j) (omega arith) (omega arith) (omega arith) (omega arith)
          one_frame in
      omega (arith, one_page, far, start)

  pub Written-append : Written s1 t d next (p + n) (len - n) → Written s t d va p len
  unfolding entry
  Written-append w =
      let m : Moved (q + va % 4096) p n s.byte s1.byte = memmove_lem (q + va % 4096) p n s.byte in
      record {
        inside = λ k h. elim (dec_lt k n) [
          | yes c ↦
              w.outside (place s d (va + k)) (λ j hj. place_ne k j c hj (omega arith))
              ∙ (ap s1.byte (place_first k c) ∙ m.inside k c)
          | no c ↦
              let (far, start) = goes_on (omega arith) in
              let there : next + (k - n) ≡ va + k = omega arith in
              let from : p + n + (k - n) ≡ p + k = omega arith in
              let frame_page = (reach va (omega arith) (omega arith)).frame in
              let away : Outside (q + va % 4096) n (p + k) =
                Outside-page q (va % 4096) n (p + k) frame_page.aligned part
                  (apart.source va k (omega arith) (omega arith) h) in
              ap (λ a. t.byte (place s d a)) (sym there)
              ∙ (w.inside (k - n) (omega arith) ∙ (ap s1.byte from ∙ m.outside (p + k) away))
        ];
        outside = λ a h.
            w.outside a (λ j hj.
              let (far, start) = goes_on (omega arith) in
              let there : next + j ≡ va + (n + j) = omega arith in
              λ e. h (n + j) (omega arith) (e ∙ ap (place s d) there))
            ∙ m.outside a (
                Outside-all (q + va % 4096) n a
                  (λ i hi e. h i (omega arith) (e ∙ sym (place_first i hi))));
      }
