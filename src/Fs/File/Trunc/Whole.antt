-- ===== src/Fs/File/Trunc/Whole.antt =====
-- `itrunc` as a whole: the blocks of a file are given back, the indirect block after its entries.
use c_cpp_projects.Prelude.{
  ℕ, ◌+◌, ◌-◌, ◌<◌, ◌≤◌, ◌≡◌, ◌≢◌, ◌⊎◌, inl, inr, refl, sym, ap, subst, ◌∙◌, arith, ok, update,
  update_self, update_ne, ℕ_discrete, dec_lt, ==_of_ne,
}
use c_cpp_projects.Fs.{Disk, Inode, ndirect, nindirect, bfree}
use c_cpp_projects.Fs.Free.{used}
use c_cpp_projects.Fs.File.{free_entries, free_indirect, itrunc, iupdate}
use c_cpp_projects.Fs.File.Map.{block_at, block_at_direct, block_at_none, Sound}
use c_cpp_projects.Fs.File.Trunc.{Cut, Cut-some, Emptied, Emptied-suc, Emptied-none}
use c_cpp_projects.Fs.File.Trunc.Loops.{Direct, Entries, free_direct_lem, free_entries_lem}

-- The place of the indirect block.
last_place : (ip : Inode) (s : Disk) → block_at ip s 12 ≡ ip.addrs ndirect
last_place ip s = block_at_direct ip s 12 (omega arith)

no_far : (ip : Inode) (s : Disk) → ip.addrs ndirect ≡ 0 → (k : ℕ) → 12 ≤ k → block_at ip s k ≡ 0
no_far ip s z k h = elim (ℕ_discrete k 12) [
  | yes e ↦ rw (e) (last_place ip s ∙ z)
  | no e ↦
      let at : 13 + (k - 13) ≡ k = omega arith in
      ap (block_at ip s) (sym at) ∙ block_at_none ip s (k - 13) z
]

-- All places are passed.
abbrev Every : ℕ → Type 0
Every k = k < 141

Cut-Every :
    (ip : Inode) (s t : Disk) → ip.addrs ndirect ≡ 0 → Cut ip s t (Direct 12) → Cut ip s t Every
Cut-Every ip s t z cut = record {
  freed = λ k hk h some. elim (dec_lt k 12) [
    | yes c ↦ cut.freed k hk c some
    | no c ↦ absurd (some (no_far ip s z k (omega arith)))
  ];
  others = λ c h. cut.others c (λ k hk p. h k hk hk);
  same_words = cut.same_words;
  same_inodes = cut.same_inodes;
}

Every-cases : (l : ℕ) → Every l → Entries 128 l ⊎ (l ≡ 12)
Every-cases l h = elim (dec_lt l 12) [
  | yes c ↦ inl (inl c)
  | no c ↦ elim (ℕ_discrete l 12) [ yes e ↦ inr e | no e ↦ inl (inr (omega arith, omega arith)) ]
]

Entries-Every : (l : ℕ) → Entries 128 l → Every l
Entries-Every l (inl a) = omega arith
Entries-Every l (inr (a, b)) = omega arith

Entries-not_last : Entries 128 12 → ⊥
Entries-not_last (inl a) = omega arith
Entries-not_last (inr (a, b)) = omega arith

Entries-start : (k : ℕ) → Entries 0 k → Direct 12 k
Entries-start k (inl a) = a
Entries-start k (inr (a, b)) = absurd (omega arith)

-- No entry is passed yet.
Cut-start : (ip : Inode) (s t : Disk) → Cut ip s t (Direct 12) → Cut ip s t (Entries 0)
Cut-start ip s t cut = record {
  freed = λ k hk h some. cut.freed k hk (Entries-start k h) some;
  others = λ c h. cut.others c (λ k hk p. h k hk (inl p));
  same_words = cut.same_words;
  same_inodes = cut.same_inodes;
}

free_indirect_run :
    (ip : Inode) (t v u : Disk)
    → ip.addrs ndirect ≢ 0
    → free_entries nindirect (ip.addrs ndirect) 0 t ≡ ok v
    → bfree (ip.addrs ndirect) v ≡ ok u
    → free_indirect ip t ≡ ok (record ip { addrs = update ip.addrs ndirect 0 }, u)
unfolding free_indirect
free_indirect_run ip t v u n e f = rw (==_of_ne (ip.addrs ndirect) 0 n, e, f) refl

free_indirect_lem :
    (ip ip' : Inode) (s t : Disk)
    → Sound ip s
    → Emptied ip ip' 12
    → Cut ip s t (Direct 12)
    → (ip'' : Inode) × (u : Disk) × (free_indirect ip' t ≡ ok (ip'', u))
      × Emptied ip ip'' 13
      × Cut ip s u Every
unfolding free_indirect
free_indirect_lem ip ip' s t w em cut =
    let last : ip'.addrs ndirect ≡ ip.addrs ndirect = em.above 12 (omega arith) in
    elim (ℕ_discrete (ip'.addrs ndirect) 0) [
      | yes z ↦
          rw (z) (ip', t, refl, Emptied-none ip ip' 12 em z, Cut-Every ip s t (sym last ∙ z) cut)
      | no z ↦
          let some : ip.addrs ndirect ≢ 0 = λ q. z (last ∙ q) in
          let (v, entries, cut1) =
            free_entries_lem 128 0 ip s t (omega arith) w some (Cut-start ip s t cut) in
          let (u, itself, cut2) =
            Cut-some ip s v (Entries 128) Every 12 w cut1 (omega arith) Entries-not_last
              Entries-Every Every-cases (omega arith) (λ q. some (sym (last_place ip s) ∙ q)) in
          (
            record ip' { addrs = update ip'.addrs ndirect 0 },
            u,
            free_indirect_run ip' t v u z
                (subst (λ b. free_entries nindirect b 0 t ≡ ok v) (sym last) entries)
                (subst (λ b. bfree b v ≡ ok u) (last_place ip s ∙ sym last) itself),
            Emptied-suc ip ip' 12 em,
            cut2,
          )
    ]

-- From `ip` and `s` to `ip'` and `u` the file has been emptied: its blocks are free, all other blocks
-- are as they were, and the inode on the disk is the new one.
pub record Truncated (ip : Inode) (s : Disk) (ip' : Inode) (u : Disk) : Type 0 where
  pub empty : ip'.size ≡ 0
  pub no_blocks : (k : ℕ) → k < 13 → ip'.addrs k ≡ 0
  pub freed : (k : ℕ) → k < 141 → block_at ip s k ≢ 0 → used u (block_at ip s k) ≡ 0
  pub others :
      (c : ℕ)
      → ((k : ℕ) → k < 141 → block_at ip s k ≢ 0 → c ≢ block_at ip s k)
      → used u c ≡ used s c
  pub saved : u.dinode ip.inum ≡ ip'
  pub other_inodes : (i : ℕ) → i ≢ ip.inum → u.dinode i ≡ s.dinode i
  pub same : (ip'.inum ≡ ip.inum) × (ip'.type ≡ ip.type) × (ip'.nlink ≡ ip.nlink)

Truncated-after :
    (ip ip' : Inode) (s t : Disk)
    → Emptied ip ip' 13
    → Cut ip s t Every
    → let e : Inode = record ip' { size = 0 } in Truncated ip s e (iupdate e t)
unfolding iupdate
Truncated-after ip ip' s t em cut =
    let e : Inode = record ip' { size = 0 } in
    record {
      empty = refl;
      no_blocks = em.below;
      freed = λ k hk. cut.freed k hk hk;
      others = λ c h. cut.others c (λ k hk p. h k hk);
      saved =
          subst (λ i. update t.dinode ip'.inum e i ≡ e) em.same.0 (update_self t.dinode ip'.inum e);
      other_inodes = λ i n.
          update_ne t.dinode ip'.inum i e (λ q. n (q ∙ em.same.0))
          ∙ ap (λ f. f i) cut.same_inodes.1;
      same = em.same;
    }

-- Where the blocks of a file are in use and all different, `itrunc` ends without a panic. The file is
-- empty, each of its blocks is free, the indirect block and those that it lists among them, no other
-- block has changed its state, and the inode on the disk, and no other, is the new one.
pub itrunc_lem :
    (ip : Inode) (s : Disk)
    → Sound ip s
    → (ip' : Inode) × (u : Disk) × (itrunc ip s ≡ ok (ip', u)) × Truncated ip s ip' u
unfolding itrunc
itrunc_lem ip s w =
    let (ip1, t, direct, em1, cut1) =
      free_direct_lem 12 0 ip ip s s (omega arith) w
        (record {
          below = λ k h. absurd (omega arith);
          above = λ k h. refl;
          same = (refl, refl, refl);
        })
        (record {
          freed = λ k hk h. absurd (omega arith);
          others = λ c h. refl;
          same_words = refl;
          same_inodes = (refl, refl);
        }) in
    let (ip2, u, indirect, em2, cut2) = free_indirect_lem ip ip1 s t w em1 cut1 in
    let e : Inode = record ip2 { size = 0 } in
    (e, iupdate e u, rw (direct, indirect) refl, Truncated-after ip ip2 s u em2 cut2)
