-- ===== src/Fs/File/Trunc.antt =====
-- `itrunc`: what it has given back at a point of its loops, and what a further place adds.
pub mod Loops
pub mod Whole
use c_cpp_projects.Prelude.{
  ℕ, zero, suc, ◌+◌, ◌-◌, ◌*◌, ◌/◌, ◌%◌, ◌<◌, ◌≤◌, ◌≡◌, ◌≢◌, ◌⊎◌, inl, inr, refl, sym, ap, subst,
  ◌∙◌, arith, ltb, lt→ltb, Outcome, ok, ◌>>=◌, update, update_self, update_ne, ℕ_discrete, dec_lt,
  ==_of_ne,
}
use c_cpp_projects.Fs.{Disk, Inode, ndirect, nindirect, bfree, log_write}
use c_cpp_projects.Fs.Free.{used}
use c_cpp_projects.Fs.Free.Balloc.{Released, bfree_lem}
use c_cpp_projects.Fs.File.{free_direct, free_entries, free_indirect, itrunc, iupdate}
use c_cpp_projects.Fs.File.Map.{block_at, block_at_direct, block_at_entry, block_at_none, Sound}

-- From `s` to `t` the blocks in the places `P` of the file have been given back, and no others.
pub record Cut (ip : Inode) (s t : Disk) (P : ℕ → Type 0) : Type 1 where
  pub freed : (k : ℕ) → k < 141 → P k → block_at ip s k ≢ 0 → used t (block_at ip s k) ≡ 0
  pub others :
      (c : ℕ)
      → ((k : ℕ) → k < 141 → P k → block_at ip s k ≢ 0 → c ≢ block_at ip s k)
      → used t c ≡ used s c
  pub same_words : t.word ≡ s.word
  pub same_inodes : (t.inodestart ≡ s.inodestart) × (t.dinode ≡ s.dinode)

-- A further place `k`.
module _ (ip : Inode) (s t : Disk) (P Q : ℕ → Type 0) (k : ℕ) (w : Sound ip s) (cut : Cut ip s t P)
    (hk : k < 141) (new : P k → ⊥) (more : (l : ℕ) → P l → Q l)
    (less : (l : ℕ) → Q l → P l ⊎ (l ≡ k)) (has : Q k) where
  pub Cut-none : block_at ip s k ≡ 0 → Cut ip s t Q
  Cut-none z = record {
    freed = λ l hl q some. elim (less l q) [
      | inl p ↦ cut.freed l hl p some
      | inr e ↦ absurd (some (ap (block_at ip s) e ∙ z))
    ];
    others = λ c h. cut.others c (λ l hl p. h l hl (more l p));
    same_words = cut.same_words;
    same_inodes = cut.same_inodes;
  }

  still_used : block_at ip s k ≢ 0 → used t (block_at ip s k) ≢ 0
  still_used some z =
      let old : used t (block_at ip s k) ≡ used s (block_at ip s k) =
        cut.others (block_at ip s k)
          (λ l hl p n. w.distinct k l hk hl (λ e. new (subst P (sym e) p)) some) in
      let one = w.held k hk some in omega (arith, old, one, z)

  pub Cut-some :
      block_at ip s k ≢ 0 → (u : Disk) × (bfree (block_at ip s k) t ≡ ok u) × Cut ip s u Q
  Cut-some some =
      let (u, e, r) = (bfree_lem t (block_at ip s k)).1 (still_used some) in
      (
        u,
        e,
        record {
          freed = λ l hl q n. elim (ℕ_discrete l k) [
            | yes e ↦ rw (e) r.free
            | no d ↦ elim (less l q) [
              | inl p ↦ r.others (block_at ip s l) (w.distinct l k hl hk d n) ∙ cut.freed l hl p n
              | inr e ↦ absurd (d e)
            ]
          ];
          others = λ c h. r.others c (h k hk has some) ∙ cut.others c (λ l hl p. h l hl (more l p));
          same_words = r.words ∙ cut.same_words;
          same_inodes = (r.same_inodes.0 ∙ cut.same_inodes.0, r.same_inodes.1 ∙ cut.same_inodes.1);
        },
      )

-- From `ip` to `ip'` the first `n` places are emptied, and nothing else has changed.
pub record Emptied (ip ip' : Inode) (n : ℕ) : Type 0 where
  pub below : (k : ℕ) → k < n → ip'.addrs k ≡ 0
  pub above : (k : ℕ) → n ≤ k → ip'.addrs k ≡ ip.addrs k
  pub same : (ip'.inum ≡ ip.inum) × (ip'.type ≡ ip.type) × (ip'.nlink ≡ ip.nlink)

pub Emptied-suc :
    (ip ip' : Inode) (n : ℕ)
    → Emptied ip ip' n
    → Emptied ip (record ip' { addrs = update ip'.addrs n 0 }) (suc n)
Emptied-suc ip ip' n h = record {
  below = λ k l. elim (ℕ_discrete k n) [
    | yes e ↦ rw (e) (update_self ip'.addrs n 0)
    | no d ↦ update_ne ip'.addrs n k 0 d ∙ h.below k (omega arith)
  ];
  above = λ k l. update_ne ip'.addrs n k 0 (omega arith) ∙ h.above k (omega arith);
  same = h.same;
}

pub Emptied-none :
    (ip ip' : Inode) (n : ℕ) → Emptied ip ip' n → ip'.addrs n ≡ 0 → Emptied ip ip' (suc n)
Emptied-none ip ip' n h z = record {
  below = λ k l. elim (ℕ_discrete k n) [ yes e ↦ rw (e) z | no d ↦ h.below k (omega arith) ];
  above = λ k l. h.above k (omega arith);
  same = h.same;
}
