-- ===== src/Fs/File/Bytes.antt =====
-- The bytes of a file under `readi` and `writei`.
pub mod Logged
pub mod Rounds
pub mod Write
pub mod Read
pub mod Readi
use c_cpp_projects.Prelude.{
  ℕ, zero, suc, ◌+◌, ◌-◌, ◌*◌, ◌/◌, ◌%◌, ◌<◌, ◌≤◌, ◌≡◌, ◌≢◌, ◌⊎◌, inl, inr, refl, sym, ap, subst,
  ◌∙◌, Bool, true, false, arith, ◌==◌, ltb, leb, ◌&&◌, if◌then◌else◌, ℕ_discrete, dec_lt, ==_of_ne,
  update, update_self, update_ne, Bool-cases, bit, le→leb, lt→ltb, lt→leb_false, ge→ltb_false,
}
use c_cpp_projects.Fs.{Disk, Inode, bblock, bpb, log_write}
use c_cpp_projects.Fs.Free.{used, IsValid}
use c_cpp_projects.Fs.File.{to_block, part}
use c_cpp_projects.Fs.File.Map.{block_at, slot, content, Sound, slot_lt}
use c_cpp_projects.Strings.{Memory}

-- A round's bytes lie in one block, and are some of those that are left.
pub part_lem :
    (off left : ℕ)
    → 0 < left
    → (0 < part off left) × (part off left ≤ left) × (off % 512 + part off left ≤ 512)
part_lem off left h = (omega arith, omega arith, omega arith)

pub slot_injective : (a b : ℕ) → slot a ≡ slot b → a ≡ b
slot_injective a b h = elim (dec_lt a 12) [
  | yes c ↦ elim (dec_lt b 12) [ yes d ↦ ground (arith, h) | no d ↦ ground (arith, h) ]
  | no c ↦ elim (dec_lt b 12) [ yes d ↦ ground (arith, h) | no d ↦ ground (arith, h) ]
]

-- The block of the file at `off` is overwritten with `m` bytes of the memory from `src` on.
module _ (ip : Inode) (t : Disk) (b off src m : ℕ) (mem : Memory) (h : Sound ip t)
    (at : block_at ip t (slot (off / 512)) ≡ b) (some : b ≢ 0) (low : off < 140 * 512)
    (fits : off % 512 + m ≤ 512) where
  abbrev pub overwritten : Disk
  overwritten =
      log_write b (record t { byte = update t.byte b (to_block (t.byte b) (off % 512) src m mem) })

  same_blocks : (k : ℕ) → block_at ip overwritten k ≡ block_at ip t k
  unfolding block_at
  same_blocks k = refl

  here : block_at ip t (slot (off / 512)) ≢ 0
  here z = some (sym at ∙ z)

  same_used : (c : ℕ) → c < t.size → used overwritten c ≡ used t c
  same_used c hc =
      let other : bblock t c ≢ b = λ e.
        h.no_map (slot (off / 512)) c (slot_lt (off / 512) (omega arith)) hc here (at ∙ sym e) in
      ap (λ (f : ℕ → ℕ). bit (f (c % bpb / 8)) (c % bpb % 8))
        (update_ne t.byte b (bblock t c) (to_block (t.byte b) (off % 512) src m mem) other)

  pub Sound-overwritten : Sound ip overwritten
  unfolding block_at
  Sound-overwritten = record {
    valid = record {
      marked = λ c hc. same_used (bblock t c) (h.valid.room c hc) ∙ h.valid.marked c hc;
      room = h.valid.room;
    };
    boot =
        same_used 0 (
          let i = h.inside (slot (off / 512)) (slot_lt (off / 512) (omega arith)) here in
          omega (arith, i))
        ∙ h.boot;
    inside = h.inside;
    held = λ k hk s. same_used (block_at ip t k) (h.inside k hk s) ∙ h.held k hk s;
    no_map = h.no_map;
    distinct = h.distinct;
  }

  pub content-inside : (k : ℕ) → k < m → content ip overwritten (off + k) ≡ mem (src + k)
  content-inside k hk =
      let block : (off + k) / 512 ≡ off / 512 = omega arith in
      let place : (off + k) % 512 ≡ off % 512 + k = omega arith in
      let back : off % 512 + k - off % 512 ≡ k = omega arith in
      rw
        (
          block,
          same_blocks (slot (off / 512)),
          at,
          ==_of_ne b 0 some,
          update_self t.byte b (to_block (t.byte b) (off % 512) src m mem),
          place,
          le→leb (off % 512) (off % 512 + k) (omega arith),
          lt→ltb (off % 512 + k) (off % 512 + m) (omega arith),
          back,
        )
        refl

  -- A byte of the same block, outside the part.
  same_byte :
      (q : ℕ)
      → q / 512 ≡ off / 512
      → (q < off) ⊎ (off + m ≤ q)
      → to_block (t.byte b) (off % 512) src m mem (q % 512) ≡ t.byte b (q % 512)
  same_byte q e (inl o) =
      let low : leb (off % 512) (q % 512) ≡ false =
        lt→leb_false (off % 512) (q % 512) (omega arith) in
      rw (low) refl
  same_byte q e (inr o) =
      let high : ltb (q % 512) (off % 512 + m) ≡ false =
        ge→ltb_false (q % 512) (off % 512 + m) (omega arith) in
      elim (Bool-cases (leb (off % 512) (q % 512))) [
        | inl c ↦ rw (c, high) refl
        | inr c ↦ rw (c) refl
      ]

  pub content-outside :
      (q : ℕ)
      → q < 140 * 512
      → (q < off) ⊎ (off + m ≤ q)
      → content ip overwritten q ≡ content ip t q
  content-outside q hq o = elim (ℕ_discrete (q / 512) (off / 512)) [
    | yes e ↦
        rw
          (
            e,
            same_blocks (slot (off / 512)),
            at,
            ==_of_ne b 0 some,
            update_self t.byte b (to_block (t.byte b) (off % 512) src m mem),
          )
          (same_byte q e o)
    | no n ↦
        let a : ℕ = block_at ip t (slot (q / 512)) in
        elim (ℕ_discrete a 0) [
          | yes z ↦ rw (same_blocks (slot (q / 512)), z) refl
          | no z ↦
              let other : a ≢ b = λ e.
                h.distinct (slot (q / 512)) (slot (off / 512)) (slot_lt (q / 512) (omega arith))
                  (slot_lt (off / 512) (omega arith))
                  (λ k. n (slot_injective (q / 512) (off / 512) k)) z (e ∙ sym at) in
              rw
                (
                  same_blocks (slot (q / 512)),
                  ==_of_ne a 0 z,
                  update_ne t.byte b a (to_block (t.byte b) (off % 512) src m mem) other,
                )
                refl
        ]
  ]
