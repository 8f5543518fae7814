-- ===== src/Fs/Inodes/Ialloc.antt =====
-- `ialloc`: the first inode of the disk that is free, and its entry in memory.
use c_cpp_projects.Prelude.{
  pos, ap, ℕ, zero, suc, ◌+◌, ◌<◌, ◌≤◌, ◌≡◌, ◌≢◌, ◌⊎◌, inl, inr, refl, arith, Outcome, ok, panic,
  fault, out_of_fuel, ◌>>=◌, ℕ_discrete, ==_of_ne, leb, leb→le, Bool-cases, update_self, update_ne,
}
use c_cpp_projects.Fs.{Disk, Inode}
use c_cpp_projects.Fs.Inodes.{
  Entry, ninode, fresh_inode, take_inode, iget_entry, ialloc_loop, ialloc,
}
use c_cpp_projects.Fs.Inodes.Table.{Single, Got, iget_entry_lem}

-- From `s` to `u` the inode `i` has been taken, the first that was free.
pub record Allocated (type : ℕ) (s u : Disk) (i : ℕ) : Type 0 where
  pub some : 1 ≤ i
  pub inside : i < s.ninodes
  pub free : (s.dinode i).type ≡ 0
  pub first : (j : ℕ) → 1 ≤ j → j < i → (s.dinode j).type ≢ 0
  pub same_inum : (u.dinode i).inum ≡ i
  pub typed : (u.dinode i).type ≡ type
  pub no_device : ((u.dinode i).major ≡ pos 0) × ((u.dinode i).minor ≡ pos 0)
  pub no_links : (u.dinode i).nlink ≡ 0
  pub empty : (u.dinode i).size ≡ 0
  pub no_blocks : (k : ℕ) → (u.dinode i).addrs k ≡ 0
  pub others : (j : ℕ) → j ≢ i → u.dinode j ≡ s.dinode j
  pub same_bytes : u.byte ≡ s.byte

-- How `ialloc` ends: with an inode and its entry, or in a panic, where no inode of the disk is free or
-- no entry in memory.
abbrev pub IallocEnds : ℕ → ℕ → Disk → (ℕ → Entry) → Outcome (ℕ × Disk × (ℕ → Entry)) → Type 0
IallocEnds dev type s t (ok (k, u, t')) = (i : ℕ) × Allocated type s u i × Got dev i t (ok (k, t'))
IallocEnds dev type s t (panic m) =
    ((m ≡ "ialloc: no inodes") × ((i : ℕ) → 1 ≤ i → i < s.ninodes → (s.dinode i).type ≢ 0))
    ⊎ ((m ≡ "iget: no inodes") × ((l : ℕ) → l < ninode → (t l).ref ≢ 0))
IallocEnds dev type s t fault = ⊥
IallocEnds dev type s t out_of_fuel = ⊥

Allocated-take_inode :
    (type : ℕ) (s : Disk) (i : ℕ)
    → 1 ≤ i
    → i < s.ninodes
    → (s.dinode i).type ≡ 0
    → ((j : ℕ) → 1 ≤ j → j < i → (s.dinode j).type ≢ 0)
    → Allocated type s (take_inode i type s) i
Allocated-take_inode type s i lo hi free first = record {
  some = lo;
  inside = hi;
  free = free;
  first = first;
  same_inum = ap (λ (e : Inode). e.inum) (update_self s.dinode i (fresh_inode i type));
  typed = ap (λ (e : Inode). e.type) (update_self s.dinode i (fresh_inode i type));
  no_device = (
    ap (λ (e : Inode). e.major) (update_self s.dinode i (fresh_inode i type)),
    ap (λ (e : Inode). e.minor) (update_self s.dinode i (fresh_inode i type)),
  );
  no_links = ap (λ (e : Inode). e.nlink) (update_self s.dinode i (fresh_inode i type));
  empty = ap (λ (e : Inode). e.size) (update_self s.dinode i (fresh_inode i type));
  no_blocks = λ k. ap (λ (e : Inode). e.addrs k) (update_self s.dinode i (fresh_inode i type));
  others = λ j n. update_ne s.dinode i j (fresh_inode i type) n;
  same_bytes = refl;
}

-- What `ialloc` does with the outcome of `iget`.
entry-IallocEnds :
    (dev type i : ℕ) (s : Disk) (t : ℕ → Entry) (r : Outcome (ℕ × (ℕ → Entry)))
    → Allocated type s (take_inode i type s) i
    → Got dev i t r
    → IallocEnds dev type s t (r >>= λ (k, t'). ok (k, take_inode i type s, t'))
entry-IallocEnds dev type i s t (ok (k, t')) a g = (i, a, g)
entry-IallocEnds dev type i s t (panic m) a (e, busy) = inr (e, λ l hl. (busy l hl).0)
entry-IallocEnds dev type i s t fault a g = elim g [ ]
entry-IallocEnds dev type i s t out_of_fuel a g = elim g [ ]

ialloc_loop_lem :
    (n i dev type : ℕ) (s : Disk) (t : ℕ → Entry)
    → Single t
    → 1 ≤ i
    → s.ninodes ≤ n + i
    → ((j : ℕ) → 1 ≤ j → j < i → (s.dinode j).type ≢ 0)
    → IallocEnds dev type s t (ialloc_loop n i dev type s t)
unfolding ialloc_loop
ialloc_loop_lem zero i dev type s t w lo enough full = inl (refl, λ j l h. full j l (omega arith))
ialloc_loop_lem (suc n) i dev type s t w lo enough full = elim (Bool-cases (leb s.ninodes i)) [
  | inl e ↦ rw (e) (inl (refl, λ j l h. full j l (omega (arith, leb→le s.ninodes i e))))
  | inr e ↦ elim (ℕ_discrete (s.dinode i).type 0) [
    | yes z ↦
        rw (e, z)
          (entry-IallocEnds dev type i s t (iget_entry dev i t)
            (Allocated-take_inode type s i lo (ground (arith, e)) z full)
            (iget_entry_lem t dev i w))
    | no z ↦
        rw (e, ==_of_ne (s.dinode i).type 0 z)
          (ialloc_loop_lem n (suc i) dev type s t w (omega arith) (omega arith)
            (λ j l h. elim (ℕ_discrete j i) [ yes q ↦ rw (q) z | no q ↦ full j l (omega arith) ]))
  ]
]

-- Where no two entries in memory are for one inode, `ialloc` takes the first inode from 1 on whose type
-- is 0, gives it the type asked for, no links, size 0 and no blocks, changes no other, and gives an entry for it as `iget` does; or it
-- panics, where no inode of the disk is free, or where no entry in memory is.
pub ialloc_lem :
    (s : Disk) (t : ℕ → Entry) (dev type : ℕ)
    → Single t
    → IallocEnds dev type s t (ialloc dev type s t)
unfolding ialloc
ialloc_lem s t dev type w =
    ialloc_loop_lem s.ninodes 1 dev type s t w (omega arith) (omega arith)
      (λ j l h. absurd (omega arith))
