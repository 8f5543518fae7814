-- ===== src/Vm/Kernel.antt =====
-- `setupkvm` of vm.c and its table `kmap`. `kdata` is the address that the linker gives `data`.
use c_cpp_projects.Prelude.{
  ℕ, ◌+◌, Bool, true, ◌==◌, ltb, if◌then◌else◌, Outcome, ok, panic, ◌>>=◌, sub32, List, [], ◌∷◌,
}
use c_cpp_projects.Vm.{Vm, mappages, memset_page}
use c_cpp_projects.Vm.Uvm.{freevm}
use c_cpp_projects.Kalloc.{kalloc, kernbase, phystop, v2p, p2v}

-- EXTMEM, DEVSPACE and KERNLINK of memlayout.h
abbrev pub extmem : ℕ
extmem = 0x10_0000

abbrev pub devspace : ℕ
devspace = 0xfe00_0000

abbrev pub kernlink : ℕ
kernlink = kernbase + extmem

pub record Kmap : Type 0 where
  pub virt : ℕ
  pub phys_start : ℕ
  pub phys_end : ℕ
  pub perm : ℕ

abbrev pub kmap : ℕ → List Kmap
kmap kdata =
    record { virt = kernbase; phys_start = 0; phys_end = extmem; perm = 2 }
    ∷ record { virt = kernlink; phys_start = v2p kernlink; phys_end = v2p kdata; perm = 0 }
    ∷ record { virt = kdata; phys_start = v2p kdata; phys_end = phystop; perm = 2 }
    ∷ record { virt = devspace; phys_start = devspace; phys_end = 0; perm = 2 }
    ∷ []

-- The loop over `kmap`; false where `mappages` fails.
pub map_regions : ℕ → List Kmap → Vm → Outcome (Bool × Vm)
map_regions pgdir [] s = ok (true, s)
map_regions pgdir (k ∷ rest) s =
    mappages pgdir k.virt (sub32 k.phys_end k.phys_start) k.phys_start k.perm s >>= λ r.
    let more = map_regions pgdir rest r.1 in if r.0 then more else ok r

-- The page directory is `0` where memory is short.
unfoldable pub setupkvm : ℕ → ℕ → Vm → Outcome (ℕ × Vm)
unfolding map_regions
setupkvm kend kdata s =
    let (pgdir, k) = kalloc s.kmem in
    let t : Vm = record s { kmem = k } in
    if pgdir == 0
    then ok (0, t)
    else if ltb devspace (p2v phystop)
    then panic "PHYSTOP too high"
    else map_regions pgdir (kmap kdata) (memset_page pgdir t) >>= λ r.
        if r.0 then ok (pgdir, r.1) else freevm kend pgdir r.1 >>= λ u. ok (0, u)
