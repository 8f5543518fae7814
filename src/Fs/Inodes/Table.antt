-- ===== src/Fs/Inodes/Table.antt =====
-- An inode has one entry in memory at most: `iget` keeps that, and `ialloc` with it.
use c_cpp_projects.Prelude.{
  ℕ, zero, suc, ◌+◌, ◌<◌, ◌≡◌, ◌≢◌, inl, inr, refl, sym, ap, subst, ◌∙◌, arith, Option, none, some,
  Outcome, ok, panic, fault, out_of_fuel, update, update_self, update_ne, ℕ_discrete, ==_of_ne,
  true, false, Bool-cases,
}
use c_cpp_projects.Fs.Inodes.{
  Entry, ninode, is_inode, remember, recycle_entry, add_ref, iget_loop, iget_entry,
}

-- The entry is in use for the inode.
abbrev pub Holds : ℕ → ℕ → Entry → Type 0
Holds dev inum e = (e.ref ≢ 0) × (e.dev ≡ dev) × (e.inum ≡ inum)

-- No two entries are for one inode.
abbrev pub Single : (ℕ → Entry) → Type 0
Single t =
    (dev inum k l : ℕ)
    → k < ninode
    → l < ninode
    → Holds dev inum (t k)
    → Holds dev inum (t l)
    → k ≡ l

-- How `iget` ends: at an entry that holds the inode with one more reference, or at a free one that is
-- filled; or in its panic, where all entries are in use for other inodes.
abbrev pub Got : ℕ → ℕ → (ℕ → Entry) → Outcome (ℕ × (ℕ → Entry)) → Type 0
Got dev inum t (ok (k, u)) =
    (k < ninode)
    × Holds dev inum (u k)
    × ((u k).ref ≡ (t k).ref + 1)
    × ((t k).ref ≢ 0 → u k ≡ add_ref (t k))
    × ((t k).ref ≡ 0 → (l : ℕ) → l < ninode → Holds dev inum (t l) → ⊥)
    × ((l : ℕ) → l ≢ k → u l ≡ t l)
    × Single u
Got dev inum t (panic m) =
    (m ≡ "iget: no inodes") × ((l : ℕ) → l < ninode → ((t l).ref ≢ 0) × (Holds dev inum (t l) → ⊥))
Got dev inum t fault = ⊥
Got dev inum t out_of_fuel = ⊥

is_inode-true : (dev inum : ℕ) (e : Entry) → is_inode dev inum e ≡ true → Holds dev inum e
is_inode-true dev inum e h = (ground (arith, h), ground (arith, h), ground (arith, h))

is_inode-false : (dev inum : ℕ) (e : Entry) → is_inode dev inum e ≡ false → Holds dev inum e → ⊥
is_inode-false dev inum e h (r, d, i) = ground (arith, h, r, d, i)

-- The place that is remembered from the entries before `k`.
abbrev Passed : (ℕ → Entry) → ℕ → Option ℕ → Type 0
Passed t k none = (l : ℕ) → l < k → (t l).ref ≢ 0
Passed t k (some e) = (e < k) × ((t e).ref ≡ 0)

remember_lem :
    (t : ℕ → Entry) (k : ℕ) (r : Option ℕ) → Passed t k r → Passed t (suc k) (remember r k (t k))
remember_lem t k (some e) (lt, free) = (omega arith, free)
remember_lem t k none h = elim (ℕ_discrete (t k).ref 0) [
  | yes z ↦ rw (z) (omega arith, z)
  | no z ↦
      rw (==_of_ne (t k).ref 0 z)
        (λ l hl. elim (ℕ_discrete l k) [ yes e ↦ rw (e) z | no e ↦ h l (omega arith) ])
]

Holds-same :
    (dev inum dev' inum' : ℕ) (e f : Entry)
    → Holds dev inum e
    → Holds dev' inum' e
    → Holds dev' inum' f
    → Holds dev inum f
Holds-same dev inum dev' inum' e f (_, d, i) (_, d', i') (r, d'', i'') =
    (r, d'' ∙ (sym d' ∙ d), i'' ∙ (sym i' ∙ i))

-- One entry is changed, to one for an inode that no other entry is for.
Single-update :
    (t : ℕ → Entry) (dev inum k : ℕ) (e : Entry)
    → Single t
    → Holds dev inum e
    → ((l : ℕ) → l < ninode → l ≢ k → Holds dev inum (t l) → ⊥)
    → Single (update t k e)
Single-update t dev inum k e w new alone dev' inum' a b la lb ha hb = elim (ℕ_discrete a k) [
  | yes p ↦ elim (ℕ_discrete b k) [
    | yes q ↦ p ∙ sym q
    | no q ↦ absurd (
        alone b lb q (
          Holds-same dev inum dev' inum' e (t b) new
            (subst (Holds dev' inum') (ap (update t k e) p ∙ update_self t k e) ha)
            (subst (Holds dev' inum') (update_ne t k b e q) hb)))
  ]
  | no p ↦ elim (ℕ_discrete b k) [
    | yes q ↦ absurd (
        alone a la p (
          Holds-same dev inum dev' inum' e (t a) new
            (subst (Holds dev' inum') (ap (update t k e) q ∙ update_self t k e) hb)
            (subst (Holds dev' inum') (update_ne t k a e p) ha)))
    | no q ↦
        w dev' inum' a b la lb (subst (Holds dev' inum') (update_ne t k a e p) ha)
          (subst (Holds dev' inum') (update_ne t k b e q) hb)
  ]
]

recycle_entry_lem :
    (t : ℕ → Entry) (dev inum : ℕ) (r : Option ℕ)
    → Single t
    → ((l : ℕ) → l < ninode → Holds dev inum (t l) → ⊥)
    → Passed t ninode r
    → Got dev inum t (recycle_entry dev inum r t)
recycle_entry_lem t dev inum none w miss h = (refl, λ l hl. (h l hl, miss l hl))
recycle_entry_lem t dev inum (some k) w miss (hk, free) =
    let e : Entry = record { dev = dev; inum = inum; ref = 1; valid = false } in
    let new : Holds dev inum e = (λ z. omega (arith, z), refl, refl) in
    let at : update t k e k ≡ e = update_self t k e in
    (
      hk,
      subst (Holds dev inum) (sym at) new,
      ap (λ x. x.ref) at ∙ rw (free) refl,
      λ n. absurd (n free),
      λ _. miss,
      λ l n. update_ne t k l e n,
      Single-update t dev inum k e w new (λ l hl n. miss l hl),
    )

found_Got :
    (t : ℕ → Entry) (dev inum k : ℕ)
    → Single t
    → k < ninode
    → Holds dev inum (t k)
    → Got dev inum t (ok (k, update t k (add_ref (t k))))
found_Got t dev inum k w hk h =
    let e : Entry = add_ref (t k) in
    let new : Holds dev inum e = (λ z. omega (arith, z), h.1, h.2) in
    let at : update t k e k ≡ e = update_self t k e in
    (
      hk,
      subst (Holds dev inum) (sym at) new,
      ap (λ x. x.ref) at,
      λ _. at,
      λ z. absurd (h.0 z),
      λ l n. update_ne t k l e n,
      Single-update t dev inum k e w new (λ l hl n g. n (w dev inum l k hl hk g h)),
    )

iget_loop_lem :
    (n k dev inum : ℕ) (r : Option ℕ) (t : ℕ → Entry)
    → n + k ≡ ninode
    → Single t
    → ((l : ℕ) → l < k → Holds dev inum (t l) → ⊥)
    → Passed t k r
    → Got dev inum t (iget_loop n k dev inum r t)
unfolding iget_loop
iget_loop_lem zero k dev inum r t e w miss p =
    let all : k ≡ ninode = omega (arith, e) in
    recycle_entry_lem t dev inum r w (λ l hl. miss l (omega arith))
      (subst (λ m. Passed t m r) all p)
iget_loop_lem (suc n) k dev inum r t e w miss p = elim (Bool-cases (is_inode dev inum (t k))) [
  | inl hit ↦ rw (hit) (found_Got t dev inum k w (omega arith) (is_inode-true dev inum (t k) hit))
  | inr no_hit ↦ rw (no_hit) (
      iget_loop_lem n (suc k) dev inum (remember r k (t k)) t (omega arith) w
        (λ l hl. elim (ℕ_discrete l k) [
          | yes q ↦ rw (q) (is_inode-false dev inum (t k) no_hit)
          | no q ↦ miss l (omega arith)
        ])
        (remember_lem t k r p))
]

-- Where no two entries of the table are for one inode, `iget` gives an entry that is for the inode
-- asked for and has one more reference: the entry that was for it, with nothing else changed in it, or
-- a free one, where there was none; no other entry has changed, and still no two are for one inode. It
-- panics just where all 50 entries are in use, and none for the inode.
pub iget_entry_lem :
    (t : ℕ → Entry) (dev inum : ℕ) → Single t → Got dev inum t (iget_entry dev inum t)
unfolding iget_entry
iget_entry_lem t dev inum w =
    iget_loop_lem ninode 0 dev inum none t refl w (λ l h. absurd (omega arith))
      (λ l h. absurd (omega arith))
