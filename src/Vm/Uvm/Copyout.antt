-- ===== src/Vm/Uvm/Copyout.antt =====
-- `copyout`: the bytes go to where the page table leads, through as many pages as they need.
use c_cpp_projects.Prelude.{
  ℕ, zero, suc, ◌+◌, ◌-◌, ◌/◌, ◌%◌, ◌<◌, ◌≤◌, ◌≡◌, ◌≢◌, inl, inr, refl, subst, ◌∙◌, true, List,
  arith, Bool-cases, ltb, u32_mod, ==_of_ne, add32, ok,
}
use c_cpp_projects.Vm.{Vm, pte_addr}
use c_cpp_projects.Vm.Uvm.{copyout, copyout_loop, copyout_size}
use c_cpp_projects.Vm.Shape.{entry, IsValid}
use c_cpp_projects.Vm.Walk.{IsValid-same}
use c_cpp_projects.Kalloc.{p2v, pgsize, pground_down, kernbase}
use c_cpp_projects.Strings.{memmove}
use c_cpp_projects.Vm.Uvm.Bytes.{Reachable, Apart, Written, Written-append, uva2ka_lem}

-- The size of a round.
copyout_size_lem :
    (va len : ℕ)
    → 0 < len
    → (0 < copyout_size va len)
      × (copyout_size va len ≤ len)
      × (va % 4096 + copyout_size va len ≤ 4096)
      × (copyout_size va len < len
          → (pground_down va + 4096 ≡ va + copyout_size va len)
            × ((pground_down va + 4096) % 4096 ≡ 0))
copyout_size_lem va len h = elim (Bool-cases (ltb len (pgsize - va % pgsize))) [
  | inl e ↦ rw (e) (h, omega arith, ground (arith, e), λ k. absurd (omega arith))
  | inr e ↦ rw (e) (omega arith, ground (arith, e), omega arith, λ k. (omega arith, omega arith))
]

-- The bytes that are left are still reachable, and apart.
Apart-rest :
    (s t : Vm) (d va p len n next : ℕ)
    → (n < len → next ≡ va + n)
    → Apart s d va p len
    → ((a : ℕ) → entry t d a ≡ entry s d a)
    → Apart t d next (p + n) (len - n)
Apart-rest s t d va p len n next on h same = record {
  frames = λ a b la ua lb ub e.
      let far : next ≡ va + n = on (omega arith) in
      h.frames a b (omega arith) (omega arith) (omega arith) (omega arith)
        (rw (same a, same b) at e);
  source = λ a k la ua hk.
      let far : next ≡ va + n = on (omega arith) in
      rw (same a) (
        subst (λ x. x / 4096 ≢ p2v (pte_addr (entry s d a)) / 4096) (omega arith)
          (h.source a (n + k) (omega arith) (omega arith) (omega arith)));
}

-- A round that reaches its page, and goes on after it.
copyout_loop_round :
    (kend : ℕ) (D : ℕ → Type 0) (free : List ℕ) (s : Vm) (d fuel va p len : ℕ)
    → IsValid kend D free s
    → D d
    → 0 < len
    → va + len ≤ kernbase
    → p + len < u32_mod
    → Reachable kend (entry s d va)
    → copyout_loop (suc fuel) d va p len s
      ≡ copyout_loop fuel d
          (pground_down va + 4096)
          (p + copyout_size va len)
          (len - copyout_size va len)
          (record s {
            byte =
                memmove (p2v (pte_addr (entry s d va)) + va % 4096) p (copyout_size va len) s.byte;
          })
unfolding copyout_loop
copyout_loop_round kend D free s d fuel va p len w x some low room first =
    let next_page : add32 (pground_down va) pgsize ≡ pground_down va + 4096 = omega arith in
    let (_, le, _, _) = copyout_size_lem va len some in
    let next_source : add32 p (copyout_size va len) ≡ p + copyout_size va len = omega arith in
    rw
      (
        ==_of_ne len 0 (omega arith),
        uva2ka_lem kend D free s d va w x first,
        ==_of_ne (p2v (pte_addr (entry s d va))) 0
            (omega (arith, first.frame.word, first.frame.below_top)),
        next_page,
        next_source,
      )
      refl

-- The rounds of `copyout`, for any fuel that is enough.
copyout_loop_lem :
    (kend : ℕ) (D : ℕ → Type 0) (free : List ℕ) (s : Vm) (d fuel va p len : ℕ)
    → IsValid kend D free s
    → D d
    → (0 < len → va + len ≤ kernbase)
    → p + len < u32_mod
    → len < fuel
    → ((a : ℕ) → va ≤ a → a < va + len → Reachable kend (entry s d a))
    → Apart s d va p len
    → (t : Vm) × (copyout_loop fuel d va p len s ≡ ok (true, t))
      × Written s t d va p len
      × (t.word ≡ s.word)
      × (t.kmem ≡ s.kmem)
unfolding copyout_loop entry
copyout_loop_lem kend D free s d zero va p len w x low room f reach apart = absurd (omega arith)
copyout_loop_lem kend D free s d (suc fuel) va p zero w x low room f reach apart =
    (s, refl, record { inside = λ k h. absurd (omega arith); outside = λ a h. refl }, refl, refl)
copyout_loop_lem kend D free s d (suc fuel) va p (suc l) w x low room f reach apart =
    let len : ℕ = suc l in
    let n : ℕ = copyout_size va len in
    let next : ℕ = pground_down va + 4096 in
    let (some, le, part, on) = copyout_size_lem va len (omega arith) in
    let first = reach va (omega arith) (omega arith) in
    let q : ℕ = p2v (pte_addr (entry s d va)) in
    let t : Vm = record s { byte = memmove (q + va % 4096) p n s.byte } in
    let (u, run, written, words, alloc) =
      copyout_loop_lem kend D free t d fuel next (p + n) (len - n)
        (IsValid-same kend D free s t w w.chain (λ e i y hi. refl)) x
        (λ h. omega (arith, low (omega arith), (on (omega arith)).0)) (omega arith) (omega arith)
        (λ a la ua.
          reach a (omega (arith, (on (omega arith)).0)) (omega (arith, (on (omega arith)).0)))
        (Apart-rest s t d va p len n next (λ h. (on h).0) apart (λ a. refl)) in
    (
      u,
      copyout_loop_round kend D free s d fuel va p len w x (omega arith) (low (omega arith)) room
            first
          ∙ run,
      Written-append kend s u d va p len n next part le on reach apart some written,
      words,
      alloc,
    )

-- On valid page tables, with every page of the range present, the user's and a page of the kernel,
-- with a frame for each page of its own, and with the source in none of them: `copyout` succeeds,
-- whatever the alignment and the number of pages. Byte `k` of the source then stands where the page
-- table leads for `va + k`; no other byte changes, nor do the page tables and the allocator. The fuel
-- is enough.
pub copyout_lem :
    (kend : ℕ) (D : ℕ → Type 0) (free : List ℕ) (s : Vm) (d va p len : ℕ)
    → IsValid kend D free s
    → D d
    → va + len ≤ kernbase
    → p + len < u32_mod
    → ((a : ℕ) → va ≤ a → a < va + len → Reachable kend (entry s d a))
    → Apart s d va p len
    → (t : Vm) × (copyout d va p len s ≡ ok (true, t))
      × Written s t d va p len
      × (t.word ≡ s.word)
      × (t.kmem ≡ s.kmem)
unfolding copyout
copyout_lem kend D free s d va p len w x low room reach apart =
    copyout_loop_lem kend D free s d (len + 1) va p len w x (λ h. low) room (omega arith) reach
      apart
