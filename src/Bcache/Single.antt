-- ===== src/Bcache/Single.antt =====
-- A block is in one buffer at most.
use c_cpp_projects.Prelude.{
  ℕ, suc, ◌+◌, ◌≤◌, ◌≡◌, ◌≢◌, refl, sym, ap, ap₂, ◌∙◌, Bool, false, Bool-cases, ◌&&◌, inl, inr,
  List, [], ◌∷◌, Option, none, some, some-injective, Option-cases, arith, ◌==◌, ==_iff, ==_of_ne,
  ℕ_discrete, if◌then◌else◌, ok, panic, add32,
}
use c_cpp_projects.Bcache.{Buf, behind, holds_block, find_block, is_free, recycle, bget}

-- How many buffers hold the block.
abbrev pub copies : ℕ → ℕ → List Buf → ℕ
copies dev blockno [] = 0
copies dev blockno (b ∷ bs) =
    if holds_block dev blockno b then suc (copies dev blockno bs) else copies dev blockno bs

-- No block of the device numbers from 1 on is in two buffers; the device 0 marks unused buffers.
abbrev pub Single : List Buf → Type 0
Single bs = (dev blockno : ℕ) → dev ≢ 0 → copies dev blockno bs ≤ 1

behind-none : (b : Buf) (o : Option (Buf × List Buf)) → behind b o ≡ none → o ≡ none
behind-none b none e = refl
behind-none b (some r) e = cc

behind-some :
    (b c : Buf) (cs : List Buf) (o : Option (Buf × List Buf))
    → behind b o ≡ some (c, cs)
    → (ds : List Buf) × (o ≡ some (c, ds)) × (cs ≡ b ∷ ds)
behind-some b c cs none e = cc
behind-some b c cs (some (d, ds)) e =
    let pair = some-injective (d, b ∷ ds) (c, cs) e in
    (ds, ap (λ r. some (r.0, ds)) pair, sym (ap (λ r. r.1) pair))

find_block-none :
    (dev blockno : ℕ) (bs : List Buf) → find_block dev blockno bs ≡ none → copies dev blockno bs ≡ 0
unfolding find_block
find_block-none dev blockno [] e = refl
find_block-none dev blockno (b ∷ bs) e = elim (Bool-cases (holds_block dev blockno b)) [
  | inl h ↦ (let clash = rw h at e in cc)
  | inr h ↦ rw h (find_block-none dev blockno bs (behind-none b _ (rw h at e)))
]

copies-cons :
    (d n : ℕ) (b : Buf) (bs cs : List Buf)
    → copies d n bs ≡ copies d n cs
    → copies d n (b ∷ bs) ≡ copies d n (b ∷ cs)
copies-cons d n b bs cs e = ap (λ k. if holds_block d n b then suc k else k) e

find_block-copies :
    (dev blockno d n : ℕ) (bs cs : List Buf) (c : Buf)
    → find_block dev blockno bs ≡ some (c, cs)
    → copies d n cs ≡ copies d n bs
unfolding find_block
find_block-copies dev blockno d n [] cs c e = cc
find_block-copies dev blockno d n (b ∷ bs) cs c e = elim (Bool-cases (holds_block dev blockno b)) [
  | inl h ↦
      let taken : Buf = record b { refcnt = add32 b.refcnt 1 } in
      sym (ap (λ r. copies d n r.1) (some-injective (taken, taken ∷ bs) (c, cs) (rw h at e)))
  | inr h ↦
      let (ds, found, shape) = behind-some b c cs _ (rw h at e) in
      ap (copies d n) shape
      ∙ copies-cons d n b ds bs (find_block-copies dev blockno d n bs ds c found)
]

-- One copy more of the block that a recycled buffer is for.
abbrev extra : ℕ → ℕ → ℕ → ℕ → ℕ
extra dev blockno d n = if (dev == d) && (blockno == n) then 1 else 0

fresh_bound :
    (p q : Bool) (k : ℕ)
    → (if p then suc k else k) ≤ (if q then suc k else k) + (if p then 1 else 0)
fresh_bound p q k = ground arith

cons_bound :
    (q : Bool) (k l m : ℕ) → k ≤ l + m → (if q then suc k else k) ≤ (if q then suc l else l) + m
cons_bound q k l m h = ground arith

le-of_eq : (a b c : ℕ) → a ≡ b → b ≤ c → a ≤ c
le-of_eq a b c e h = omega arith

recycle-copies :
    (dev blockno d n : ℕ) (bs cs : List Buf) (c : Buf)
    → recycle dev blockno bs ≡ some (c, cs)
    → copies d n cs ≤ copies d n bs + extra dev blockno d n
unfolding recycle
recycle-copies dev blockno d n [] cs c e = cc
recycle-copies dev blockno d n (b ∷ bs) cs c e = elim (Option-cases (recycle dev blockno bs)) [
  | inl h ↦
      (let e' = rw h at e in
        elim (Bool-cases (is_free b)) [
          | inl f ↦
              let fresh : Buf = record b {
                dev = dev;
                blockno = blockno;
                valid = false;
                dirty = false;
                refcnt = 1;
              } in
              let shape =
                ap (λ r. copies d n r.1)
                  (some-injective (fresh, fresh ∷ bs) (c, cs) (rw f at e')) in
              le-of_eq _ _ _ (sym shape)
                (fresh_bound ((dev == d) && (blockno == n)) (holds_block d n b) (copies d n bs))
          | inr f ↦ (let clash = rw f at e' in cc)
        ])
  | inr ((x, ds), h) ↦
      let shape = ap (λ r. copies d n r.1) (some-injective (x, b ∷ ds) (c, cs) (rw h at e)) in
      le-of_eq _ _ _ (sym shape)
        (cons_bound (holds_block d n b) _ _ _ (recycle-copies dev blockno d n bs ds x h))
]

miss :
    (dev blockno d n k l : ℕ)
    → l ≤ k + extra dev blockno d n
    → k ≤ 1
    → ((dev ≡ d) → (blockno ≡ n) → k ≡ 0)
    → l ≤ 1
miss dev blockno d n k l h small absent = elim (ℕ_discrete dev d) [
  | yes e ↦ elim (ℕ_discrete blockno n) [
    | yes f ↦
        let at : extra dev blockno d n ≤ 1 = extra_le dev blockno d n in
        let z = absent e f in omega arith
    | no g ↦
        (let out : extra dev blockno d n ≡ 0 = rw ((==_iff dev d).1 e, ==_of_ne blockno n g) refl in
          omega arith)
  ]
  | no g ↦ (let out : extra dev blockno d n ≡ 0 = rw (==_of_ne dev d g) refl in omega arith)
]
  where
    extra_le : (a b c e : ℕ) → extra a b c e ≤ 1
    extra_le a b c e = ground arith

bget-hit :
    (dev blockno : ℕ) (bs : List Buf) (r : Buf × List Buf)
    → find_block dev blockno bs ≡ some r
    → bget dev blockno bs ≡ ok r
unfolding bget
bget-hit dev blockno bs r e = rw (e, bget) refl

bget-miss :
    (dev blockno : ℕ) (bs : List Buf) (r : Buf × List Buf)
    → find_block dev blockno bs ≡ none
    → recycle dev blockno bs ≡ some r
    → bget dev blockno bs ≡ ok r
unfolding bget
bget-miss dev blockno bs r e f = rw (e, f, bget) refl

bget-none :
    (dev blockno : ℕ) (bs : List Buf)
    → find_block dev blockno bs ≡ none
    → recycle dev blockno bs ≡ none
    → bget dev blockno bs ≡ panic "bget: no buffers"
unfolding bget
bget-none dev blockno bs e f = rw (e, f, bget) refl

ok-pair : (r s : Buf × List Buf) → ok r ≡ ok s → r ≡ s
ok-pair r s e = cc

-- `bget` never puts a block into a second buffer: if every block is in one buffer at most, so it is
-- after `bget`, whether the block was found or a buffer recycled for it.
pub bget-Single :
    (dev blockno : ℕ) (bs cs : List Buf) (c : Buf)
    → Single bs
    → bget dev blockno bs ≡ ok (c, cs)
    → Single cs
bget-Single dev blockno bs cs c s e d n ne = elim (Option-cases (find_block dev blockno bs)) [
  | inr ((x, ds), f) ↦
      let same =
        ap (λ r. copies d n r.1)
          (ok-pair (x, ds) (c, cs) (sym (bget-hit dev blockno bs (x, ds) f) ∙ e)) in
      le-of_eq _ _ _ (sym same ∙ find_block-copies dev blockno d n bs ds x f) (s d n ne)
  | inl f ↦ elim (Option-cases (recycle dev blockno bs)) [
    | inr ((x, ds), g) ↦
        let same =
          ap (λ r. copies d n r.1)
            (ok-pair (x, ds) (c, cs) (sym (bget-miss dev blockno bs (x, ds) f g) ∙ e)) in
        le-of_eq _ _ _ (sym same) (
          miss dev blockno d n _ _ (recycle-copies dev blockno d n bs ds x g) (s d n ne)
            (λ a b. ap₂ (λ u v. copies u v bs) (sym a) (sym b) ∙ find_block-none dev blockno bs f))
    | inl g ↦ (let clash = sym (bget-none dev blockno bs f g) ∙ e in cc)
  ]
]
