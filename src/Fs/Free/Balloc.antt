-- ===== src/Fs/Free/Balloc.antt =====
-- `balloc` and `bfree`: the first free block is taken, and a block given back is free.
use c_cpp_projects.Prelude.{
  ℕ, zero, suc, ◌+◌, ◌-◌, ◌*◌, ◌/◌, ◌%◌, ◌<◌, ◌≤◌, ◌≡◌, ◌≢◌, inl, inr, refl, sym, ap, ◌∙◌, arith,
  Option, none, some, Outcome, ok, panic, fault, out_of_fuel, update_ne, bit_off, bit-bit_off_self,
  bit-bit_off_ne, ℕ_discrete, dec_lt, ==_of_ne, ◌∷◌, Bool-cases, leb, leb→le, update,
}
use c_cpp_projects.Fs.{
  Disk, bblock, map_bit, bpb, log_write, scan_bits, take_block, balloc_loop, balloc, bfree,
}
use c_cpp_projects.Fs.Free.{
  used, IsValid, mark, used-mark_self, used-mark_ne, Taken, after_lem, Taken-after,
}

-- The outcome of the inner loop from `bi` on, over `n` bits.
abbrev Scanned : Disk → ℕ → ℕ → ℕ → Option ℕ → Type 0
Scanned s b bi n none = (k : ℕ) → bi ≤ k → k < bi + n → b + k < s.size → map_bit s b k ≡ 1
Scanned s b bi n (some j) =
    (bi ≤ j)
    × (j < bi + n)
    × (b + j < s.size)
    × (map_bit s b j ≡ 0)
    × ((k : ℕ) → bi ≤ k → k < j → map_bit s b k ≡ 1)

-- A bit that is set, before those of the rest.
Scanned-suc :
    (s : Disk) (b bi n : ℕ) (r : Option ℕ)
    → map_bit s b bi ≡ 1
    → Scanned s b (suc bi) n r
    → Scanned s b bi (suc n) r
Scanned-suc s b bi n none one h = λ k lo hi room. elim (ℕ_discrete k bi) [
  | yes e ↦ rw (e) one
  | no e ↦ h k (omega arith) (omega arith) room
]
Scanned-suc s b bi n (some j) one (lo, hi, room, free, full) = (
  omega arith,
  omega arith,
  room,
  free,
  λ k l u. elim (ℕ_discrete k bi) [ yes e ↦ rw (e) one | no e ↦ full k (omega arith) u ],
)

scan_bits_lem : (n : ℕ) (s : Disk) (b bi : ℕ) → Scanned s b bi n (scan_bits n b bi s)
unfolding scan_bits
scan_bits_lem zero s b bi = λ k lo hi room. absurd (omega arith)
scan_bits_lem (suc n) s b bi = elim (Bool-cases (leb s.size (b + bi))) [
  | inl e ↦ rw (e) (λ k lo hi room. absurd (omega (arith, leb→le s.size (b + bi) e)))
  | inr e ↦ elim (ℕ_discrete (map_bit s b bi) 0) [
    | yes f ↦
        rw (e, f) (omega arith, omega arith, ground (arith, e), f, λ k lo hi. absurd (omega arith))
    | no f ↦
        rw (e, ==_of_ne (map_bit s b bi) 0 f)
          (Scanned-suc s b bi n (scan_bits n b (suc bi) s) (omega (arith, f))
            (scan_bits_lem n s b (suc bi)))
  ]
]

-- How `balloc` ends: with a block taken, or in its panic, where every block is in use.
abbrev pub Ballocated : Disk → Outcome (ℕ × Disk) → Type 0
Ballocated s (ok (b, t)) = Taken s t b
Ballocated s (panic m) = (m ≡ "balloc: out of blocks") × ((c : ℕ) → c < s.size → used s c ≡ 1)
Ballocated s fault = ⊥
Ballocated s out_of_fuel = ⊥

-- A bit of the map's block for `b` is that of a block of the disk.
used_of_bit : (s : Disk) (b k : ℕ) → b % bpb ≡ 0 → k < bpb → used s (b + k) ≡ map_bit s b k
used_of_bit s b k block h =
    let bi : (b + k) % bpb ≡ k = omega arith in
    let at : bblock s (b + k) ≡ bblock s b = omega arith in rw (bi, at) refl

first :
    (s : Disk) (b bi : ℕ)
    → b + bi < s.size
    → ((c : ℕ) → c < b → c < s.size → used s c ≡ 1)
    → ((k : ℕ) → 0 ≤ k → k < bi → map_bit s b k ≡ 1)
    → b % bpb ≡ 0
    → bi < bpb
    → (c : ℕ) → c < b + bi
    → used s c ≡ 1
first s b bi room below full block small c h = elim (dec_lt c b) [
  | yes e ↦ below c e (omega arith)
  | no e ↦
      let at : b + (c - b) ≡ c = omega arith in
      ap (used s) (sym at)
      ∙ (used_of_bit s b (c - b) block (omega arith) ∙ full (c - b) (omega arith) (omega arith))
]

-- What the outer loop does with the outcome of the inner one.
found-Ballocated :
    (s : Disk) (b : ℕ) (r : Option ℕ) (rest : Outcome (ℕ × Disk))
    → IsValid s
    → b % bpb ≡ 0
    → ((c : ℕ) → c < b → c < s.size → used s c ≡ 1)
    → Scanned s b 0 bpb r
    → (((c : ℕ) → c < b + bpb → c < s.size → used s c ≡ 1) → Ballocated s rest)
    → Ballocated s (elim r [ none ↦ rest | some bi ↦ ok (b + bi, take_block b bi s) ])
found-Ballocated s b none rest w block below h more = more (λ c hi room. elim (dec_lt c b) [
  | yes e ↦ below c e room
  | no e ↦
      let at : b + (c - b) ≡ c = omega arith in
      ap (used s) (sym at)
      ∙ (used_of_bit s b (c - b) block (omega arith)
          ∙ h (c - b) (omega arith) (omega arith) (omega arith))
])
found-Ballocated s b (some bi) rest w block below (lo, hi, room, free, full) more =
    rw
      (after_lem s b bi w block hi room (used_of_bit s b bi block hi ∙ free)
        (first s b bi room below full block hi))
      (Taken-after s b bi w block hi room (used_of_bit s b bi block hi ∙ free)
        (first s b bi room below full block hi))

balloc_loop_lem :
    (fuel b : ℕ) (s : Disk)
    → IsValid s
    → b % bpb ≡ 0
    → b < s.size + bpb
    → s.size + bpb ≤ b + fuel * bpb
    → ((c : ℕ) → c < b → c < s.size → used s c ≡ 1)
    → Ballocated s (balloc_loop fuel b s)
unfolding balloc_loop
balloc_loop_lem zero b s w block near enough below = absurd (omega arith)
balloc_loop_lem (suc fuel) b s w block near enough below = elim (Bool-cases (leb s.size b)) [
  | inl e ↦ rw (e) (refl, λ c h. below c (omega (arith, leb→le s.size b e)) h)
  | inr e ↦ rw (e) (
      found-Ballocated s b (scan_bits bpb b 0 s) (balloc_loop fuel (b + bpb) s) w block below
        (scan_bits_lem bpb s b 0)
        (λ h. balloc_loop_lem fuel (b + bpb) s w (omega arith) (ground (arith, e)) (omega arith) h))
]

-- On a disk whose map marks its own blocks, `balloc` gives the first block that is free and marks it,
-- fills it with zeros, and changes no other block and no other bit of the map; or it panics, where
-- every block is in use. The fuel is enough. Both blocks that it changes are logged.
pub balloc_lem : (s : Disk) → IsValid s → Ballocated s (balloc s)
unfolding balloc
balloc_lem s w =
    balloc_loop_lem (s.size / bpb + 2) 0 s w (omega arith) (omega arith) (omega arith)
      (λ c h k. absurd (omega arith))

-- From `s` to `t` the block `b` has been given back.
pub record Released (s t : Disk) (b : ℕ) : Type 0 where
  pub free : used t b ≡ 0
  pub others : (c : ℕ) → c ≢ b → used t c ≡ used s c
  pub bytes : (c i : ℕ) → c ≢ bblock s b → t.byte c i ≡ s.byte c i
  pub words : t.word ≡ s.word
  pub same_size : t.size ≡ s.size
  pub same_map : t.bmapstart ≡ s.bmapstart
  pub same_inodes : (t.inodestart ≡ s.inodestart) × (t.dinode ≡ s.dinode)
  pub logs : t.logged ≡ bblock s b ∷ s.logged

-- `bfree` panics just where the block is free already. Otherwise the block is free afterwards, and no
-- other bit of the map and no byte of another block has changed; the block of the map is logged.
pub bfree_lem :
    (s : Disk) (b : ℕ)
    → (used s b ≡ 0 → bfree b s ≡ panic "freeing free block")
      × (used s b ≢ 0 → (t : Disk) × (bfree b s ≡ ok t) × Released s t b)
unfolding bfree
bfree_lem s b = (
  λ f. rw (f) refl,
  λ f.
      let v : ℕ = bit_off (s.byte (bblock s b) (b % bpb / 8)) (b % bpb % 8) in
      (
        log_write (bblock s b) (mark s b v),
        rw (==_of_ne (used s b) 0 f) refl,
        record {
          free =
              used-mark_self s b v
              ∙ bit-bit_off_self (s.byte (bblock s b) (b % bpb / 8)) (b % bpb % 8);
          others = λ c n.
              used-mark_ne s b v c n
                (λ j. bit-bit_off_ne (s.byte (bblock s b) (b % bpb / 8)) (b % bpb % 8) j);
          bytes = λ c i n.
              ap (λ (f : ℕ → ℕ). f i)
                (update_ne s.byte (bblock s b) c (update (s.byte (bblock s b)) (b % bpb / 8) v) n);
          words = refl;
          same_size = refl;
          same_map = refl;
          same_inodes = (refl, refl);
          logs = refl;
        },
      ),
)
