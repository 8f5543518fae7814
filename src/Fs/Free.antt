-- ===== src/Fs/Free.antt =====
-- The map of free blocks: what `balloc` and `bfree` make of it, and of the other blocks.
pub mod Balloc
use c_cpp_projects.Prelude.{
  ℕ, zero, suc, ◌+◌, ◌-◌, ◌*◌, ◌/◌, ◌%◌, ◌<◌, ◌≤◌, ◌≡◌, ◌≢◌, ◌⊎◌, inl, inr, refl, sym, ap, ◌∙◌,
  Bool, true, false, arith, Option, none, some, Outcome, ok, panic, fault, out_of_fuel, ◌>>=◌,
  update, update_self, update_ne, bit, bit_on, bit_off, bit-bit_on_self, bit-bit_on_ne,
  bit-bit_off_self, bit-bit_off_ne, ℕ_discrete, dec_lt, ==_of_ne, ==_self, le→leb, lt→leb_false,
  List, ◌∷◌, Bool-cases, Option-cases,
}
use c_cpp_projects.Fs.{
  Disk, bblock, map_bit, bpb, log_write, set_byte, bzero, scan_bits, take_block, balloc_loop,
  balloc, bfree,
}

-- 1 where the map has the block in use, 0 where it is free.
abbrev pub used : Disk → ℕ → ℕ
used s b = map_bit s b (b % bpb)

-- The map's own blocks are blocks of the disk, and in use.
pub record IsValid (s : Disk) : Type 0 where
  pub marked : (c : ℕ) → c < s.size → used s (bblock s c) ≡ 1
  pub room : (c : ℕ) → c < s.size → bblock s c < s.size

-- The byte of the map for `c` is set to `v`.
abbrev pub mark : Disk → ℕ → ℕ → Disk
mark s c v = set_byte (bblock s c) (c % bpb / 8) v s

pub used-mark_self : (s : Disk) (c v : ℕ) → used (mark s c v) c ≡ bit v (c % bpb % 8)
used-mark_self s c v =
    ap (λ (f : ℕ → ℕ). bit (f (c % bpb / 8)) (c % bpb % 8))
      (update_self s.byte (bblock s c) (update (s.byte (bblock s c)) (c % bpb / 8) v))
    ∙ ap (λ x. bit x (c % bpb % 8)) (update_self (s.byte (bblock s c)) (c % bpb / 8) v)

pub used-mark_ne :
    (s : Disk) (c v e : ℕ)
    → e ≢ c
    → ((j : ℕ) → j ≢ c % bpb % 8 → bit v j ≡ bit (s.byte (bblock s c) (c % bpb / 8)) j)
    → used (mark s c v) e ≡ used s e
used-mark_ne s c v e n same = elim (ℕ_discrete (bblock s e) (bblock s c)) [
  | no q ↦
      ap (λ (f : ℕ → ℕ). bit (f (e % bpb / 8)) (e % bpb % 8))
        (update_ne s.byte (bblock s c) (bblock s e) (update (s.byte (bblock s c)) (c % bpb / 8) v)
          q)
  | yes q ↦ elim (ℕ_discrete (e % bpb / 8) (c % bpb / 8)) [
    | no r ↦
        rw (q, update_self s.byte (bblock s c) (update (s.byte (bblock s c)) (c % bpb / 8) v))
          (ap (λ x. bit x (e % bpb % 8))
            (update_ne (s.byte (bblock s c)) (c % bpb / 8) (e % bpb / 8) v r))
    | yes r ↦
        rw
          (
            q,
            update_self s.byte (bblock s c) (update (s.byte (bblock s c)) (c % bpb / 8) v),
            r,
            update_self (s.byte (bblock s c)) (c % bpb / 8) v,
          )
          (same (e % bpb % 8) (λ h. n (omega arith)))
  ]
]

used-bzero : (s : Disk) (b e : ℕ) → bblock s e ≢ b → used (bzero b s) e ≡ used s e
unfolding bzero
used-bzero s b e n =
    ap (λ (f : ℕ → ℕ). bit (f (e % bpb / 8)) (e % bpb % 8))
      (update_ne s.byte b (bblock s e) (λ _. 0) n)

-- From `s` to `t` the block `b` has been taken: it was the first that was free, it is in use and full
-- of zeros, and no other block has changed but the map's, where only the bit of `b` has.
pub record Taken (s t : Disk) (b : ℕ) : Type 0 where
  pub inside : b < s.size
  pub free : used s b ≡ 0
  pub first : (c : ℕ) → c < b → used s c ≡ 1
  pub taken : used t b ≡ 1
  pub others : (c : ℕ) → c < s.size → c ≢ b → used t c ≡ used s c
  pub zero_bytes : (i : ℕ) → t.byte b i ≡ 0
  pub zero_words : (i : ℕ) → t.word b i ≡ 0
  pub bytes : (c i : ℕ) → c ≢ b → c ≢ bblock s b → t.byte c i ≡ s.byte c i
  pub words : (c i : ℕ) → c ≢ b → t.word c i ≡ s.word c i
  pub same_size : t.size ≡ s.size
  pub same_map : t.bmapstart ≡ s.bmapstart
  pub same_inodes : (t.inodestart ≡ s.inodestart) × (t.dinode ≡ s.dinode)
  pub logs : t.logged ≡ b ∷ bblock s b ∷ s.logged
  pub valid : IsValid t

-- The block of the map is in use, so it is not the one that is free.
pub bblock_ne : (s : Disk) (b c : ℕ) → IsValid s → used s b ≡ 0 → c < s.size → bblock s c ≢ b
bblock_ne s b c w f h e = let m = w.marked c h in omega (arith, (rw (e) at m), f)

module _ (s : Disk) (b bi : ℕ) (w : IsValid s) (block : b % bpb ≡ 0) (small : bi < bpb)
    (inside : b + bi < s.size) (free : used s (b + bi) ≡ 0)
    (first : (c : ℕ) → c < b + bi → used s c ≡ 1) where
  abbrev c_new : ℕ
  c_new = b + bi

  same_bit : c_new % bpb ≡ bi
  same_bit = omega arith

  same_bblock : bblock s b ≡ bblock s c_new
  same_bblock = omega arith

  abbrev v : ℕ
  v = bit_on (s.byte (bblock s c_new) (c_new % bpb / 8)) (c_new % bpb % 8)

  abbrev pub after : Disk
  after = bzero c_new (log_write (bblock s c_new) (mark s c_new v))

  pub after_lem : take_block b bi s ≡ after
  after_lem = rw (same_bit, same_bblock) refl

  used-after : (e : ℕ) → e < s.size → used after e ≡ used (mark s c_new v) e
  used-after e h =
      used-bzero (log_write (bblock s c_new) (mark s c_new v)) c_new e
        (bblock_ne s c_new e w free h)

  others_after : (e : ℕ) → e < s.size → e ≢ c_new → used after e ≡ used s e
  others_after e h n =
      used-after e h
      ∙ used-mark_ne s c_new v e n
          (λ j. bit-bit_on_ne (s.byte (bblock s c_new) (c_new % bpb / 8)) (c_new % bpb % 8) j)

  self_after : used after c_new ≡ 1
  self_after =
      used-after c_new inside
      ∙ (used-mark_self s c_new v
          ∙ bit-bit_on_self (s.byte (bblock s c_new) (c_new % bpb / 8)) (c_new % bpb % 8))

  marked_after : (c : ℕ) → c < s.size → used after (bblock s c) ≡ 1
  marked_after c h = elim (ℕ_discrete (bblock s c) c_new) [
    | yes q ↦ absurd (bblock_ne s c_new c w free h q)
    | no q ↦ others_after (bblock s c) (w.room c h) q ∙ w.marked c h
  ]

  pub Taken-after : Taken s after c_new
  unfolding bzero
  Taken-after = record {
    inside = inside;
    free = free;
    first = first;
    taken = self_after;
    others = others_after;
    zero_bytes = λ i. ap (λ (f : ℕ → ℕ). f i) (update_self (mark s c_new v).byte c_new (λ _. 0));
    zero_words = λ i. ap (λ (f : ℕ → ℕ). f i) (update_self s.word c_new (λ _. 0));
    bytes = λ c i n m.
        ap (λ (f : ℕ → ℕ). f i)
          (update_ne (mark s c_new v).byte c_new c (λ _. 0) n
            ∙ update_ne s.byte (bblock s c_new) c
                (update (s.byte (bblock s c_new)) (c_new % bpb / 8) v) m);
    words = λ c i n. ap (λ (f : ℕ → ℕ). f i) (update_ne s.word c_new c (λ _. 0) n);
    same_size = refl;
    same_map = refl;
    same_inodes = (refl, refl);
    logs = refl;
    valid = record { marked = marked_after; room = w.room };
  }
