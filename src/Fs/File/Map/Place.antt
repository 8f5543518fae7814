-- ===== src/Fs/File/Map/Place.antt =====
-- A new block in a place of a file: in the inode, or in the indirect block.
use c_cpp_projects.Prelude.{
  ℕ, ◌+◌, ◌-◌, ◌*◌, ◌<◌, ◌≡◌, ◌≢◌, refl, sym, ap, subst, ◌∙◌, arith, ℕ_discrete, dec_lt, ◌∷◌,
  Outcome, ok, panic, fault, out_of_fuel, update, update_self, update_ne,
}
use c_cpp_projects.Fs.{Disk, Inode, ndirect, log_write, set_word}
use c_cpp_projects.Fs.Free.{used, Taken}
use c_cpp_projects.Fs.File.Map.{
  block_at, block_at_direct, block_at_entry, block_at_none, content, Sound, gained-Sound,
  content-gained,
}

-- How a search for the block in the place `k` ends: with the block, found or new, and the file
-- otherwise as it was; or in the panic of `balloc`, where the place is empty.
abbrev pub Located : Inode → Disk → ℕ → Outcome (ℕ × Inode × Disk) → Type 0
Located ip s k (ok (b, ip', t)) =
    (b ≢ 0)
    × (block_at ip' t k ≡ b)
    × Sound ip' t
    × ((o : ℕ) → o < 140 * 512 → content ip' t o ≡ content ip s o)
    × ((l : ℕ) → l < 141 → block_at ip s l ≢ 0 → block_at ip' t l ≡ block_at ip s l)
    × (ip'.size ≡ ip.size)
    × (ip'.type ≡ ip.type)
Located ip s k (panic m) = (m ≡ "balloc: out of blocks") × (block_at ip s k ≡ 0)
Located ip s k fault = ⊥
Located ip s k out_of_fuel = ⊥

-- The place is filled already.
pub Located-there :
    (ip : Inode) (s : Disk) (k b : ℕ)
    → Sound ip s
    → b ≢ 0
    → block_at ip s k ≡ b
    → Located ip s k (ok (b, ip, s))
Located-there ip s k b h n at = (n, at, h, λ o ho. refl, λ l hl some. refl, refl, refl)

-- A new block in a place of the inode itself.
module _ (ip : Inode) (s t : Disk) (b k : ℕ) (h : Sound ip s) (new : Taken s t b) (hk : k < 13)
    (empty : ip.addrs k ≡ 0) where
  abbrev pub ip_new : Inode
  ip_new = record ip { addrs = update ip.addrs k b }

  ne_direct : b ≢ 0
  ne_direct e = let old = h.boot in let free = new.free in omega (arith, (rw (e) at free), old)

  gained_direct : block_at ip_new t k ≡ b
  gained_direct = block_at_direct ip_new t k hk ∙ update_self ip.addrs k b

  -- The entries of the indirect block.
  same_entry : (j : ℕ) → 13 + j < 141 → block_at ip_new t (13 + j) ≡ block_at ip s (13 + j)
  same_entry j hj = elim (ℕ_discrete ndirect k) [
    | yes e ↦
        let none : ip.addrs ndirect ≡ 0 = rw (e) empty in
        let here : ip_new.addrs ndirect ≡ b = rw (e) (update_self ip.addrs k b) in
        let some : ip_new.addrs ndirect ≢ 0 = λ z. ne_direct (sym here ∙ z) in
        block_at_entry ip_new t j some
        ∙ (ap (λ x. t.word x j) here ∙ (new.zero_words j ∙ sym (block_at_none ip s j none)))
    | no n ↦
        let here : ip_new.addrs ndirect ≡ ip.addrs ndirect = update_ne ip.addrs k ndirect b n in
        elim (ℕ_discrete (ip.addrs ndirect) 0) [
          | yes z ↦ block_at_none ip_new t j (here ∙ z) ∙ sym (block_at_none ip s j z)
          | no z ↦
              let at = block_at_direct ip s ndirect (omega arith) in
              let held : used s (ip.addrs ndirect) ≡ 1 =
                subst (λ x. used s x ≡ 1) at (h.held ndirect (omega arith) (λ q. z (sym at ∙ q))) in
              let other : ip.addrs ndirect ≢ b =
                λ q. let free = new.free in omega (arith, (rw (q) at held), free) in
              block_at_entry ip_new t j (λ q. z (sym here ∙ q))
              ∙ (ap (λ x. t.word x j) here
                  ∙ (new.words (ip.addrs ndirect) j other ∙ sym (block_at_entry ip s j z)))
        ]
  ]

  same_direct : (l : ℕ) → l < 141 → l ≢ k → block_at ip_new t l ≡ block_at ip s l
  same_direct l hl n = elim (dec_lt l 13) [
    | yes c ↦
        block_at_direct ip_new t l c ∙ (update_ne ip.addrs k l b n ∙ sym (block_at_direct ip s l c))
    | no c ↦
        let at : 13 + (l - 13) ≡ l = omega arith in
        subst (λ x. block_at ip_new t x ≡ block_at ip s x) at (same_entry (l - 13) (omega arith))
  ]

  pub Located-direct : Located ip s k (ok (b, ip_new, t))
  Located-direct =
      let hk' : k < 141 = omega arith in
      let none = block_at_direct ip s k hk ∙ empty in
      (
        ne_direct,
        gained_direct,
        gained-Sound ip ip_new s t b k t.word t.logged h new hk' none gained_direct same_direct,
        content-gained ip ip_new s t b k t.word t.logged h new hk' none gained_direct same_direct,
        λ l hl some. same_direct l hl (λ e. some (rw (e) none)),
        refl,
        refl,
      )

-- A new block in a place of the indirect block.
module _ (ip : Inode) (s t : Disk) (b j : ℕ) (h : Sound ip s) (new : Taken s t b)
    (hj : 13 + j < 141) (there : ip.addrs ndirect ≢ 0)
    (empty : s.word (ip.addrs ndirect) j ≡ 0) where
  abbrev pub b_list : ℕ
  b_list = ip.addrs ndirect

  abbrev pub u_entry : Disk
  u_entry = log_write b_list (set_word b_list j b t)

  ne_entry : b ≢ 0
  ne_entry e = let old = h.boot in let free = new.free in omega (arith, (rw (e) at free), old)

  list_ne : b_list ≢ b
  list_ne q =
      let at = block_at_direct ip s ndirect (omega arith) in
      let held : used s b_list ≡ 1 =
        subst (λ x. used s x ≡ 1) at (h.held ndirect (omega arith) (λ z. there (sym at ∙ z))) in
      let free = new.free in omega (arith, (rw (q) at held), free)

  gained_entry : block_at ip u_entry (13 + j) ≡ b
  gained_entry =
      block_at_entry ip u_entry j there
      ∙ (ap (λ (f : ℕ → ℕ). f j) (update_self t.word b_list (update (t.word b_list) j b))
          ∙ update_self (t.word b_list) j b)

  same_list : (i : ℕ) → i ≢ j → block_at ip u_entry (13 + i) ≡ block_at ip s (13 + i)
  same_list i n =
      block_at_entry ip u_entry i there
      ∙ (ap (λ (f : ℕ → ℕ). f i) (update_self t.word b_list (update (t.word b_list) j b))
          ∙ (update_ne (t.word b_list) j i b n
              ∙ (new.words b_list i list_ne ∙ sym (block_at_entry ip s i there))))

  same_indirect : (l : ℕ) → l < 141 → l ≢ 13 + j → block_at ip u_entry l ≡ block_at ip s l
  same_indirect l hl n = elim (dec_lt l 13) [
    | yes c ↦ block_at_direct ip u_entry l c ∙ sym (block_at_direct ip s l c)
    | no c ↦
        let at : 13 + (l - 13) ≡ l = omega arith in
        subst (λ x. block_at ip u_entry x ≡ block_at ip s x) at (same_list (l - 13) (omega arith))
  ]

  pub Located-entry : Located ip s (13 + j) (ok (b, ip, u_entry))
  Located-entry =
      let none = block_at_entry ip s j there ∙ empty in
      let words = update t.word b_list (update (t.word b_list) j b) in
      (
        ne_entry,
        gained_entry,
        gained-Sound ip ip s t b (13 + j) words (b_list ∷ t.logged) h new hj none gained_entry
            same_indirect,
        content-gained ip ip s t b (13 + j) words (b_list ∷ t.logged) h new hj none gained_entry
            same_indirect,
        λ l hl some. same_indirect l hl (λ e. some (rw (e) none)),
        refl,
        refl,
      )
