-- ===== src/Fs/File/Bytes/Read.antt =====
-- The rounds of `readi`: the memory gets the bytes of the file.
use c_cpp_projects.Prelude.{
  ℕ, zero, suc, ◌+◌, ◌-◌, ◌*◌, ◌/◌, ◌%◌, ◌<◌, ◌≤◌, ◌≡◌, ◌≢◌, ◌⊎◌, inl, inr, refl, sym, ap, ◌∙◌,
  arith, leb, ℕ_discrete, dec_lt, ==_of_ne, Outcome, ok, panic, fault, out_of_fuel, ◌>>=◌,
  Bool-cases, lt→ltb, ge→ltb_false, le→leb, lt→leb_false,
}
use c_cpp_projects.Fs.{Disk, Inode, bsize}
use c_cpp_projects.Fs.File.{Io, bmap, part, to_memory, read_loop}
use c_cpp_projects.Fs.File.Map.{block_at, slot, content, Sound, slot_lt}
use c_cpp_projects.Fs.File.Map.Bmap.{bmap_lem}
use c_cpp_projects.Fs.File.Map.Place.{Located}
use c_cpp_projects.Fs.File.Bytes.{part_lem}

-- From `s` to `t` the `n` bytes of the file from `off` on have been read to the memory at `dst`.
pub record Fetched (s t : Io) (off dst n : ℕ) : Type 0 where
  pub sound : Sound t.ip t.disk
  pub same : (q : ℕ) → q < 140 * 512 → content t.ip t.disk q ≡ content s.ip s.disk q
  pub inside : (k : ℕ) → k < n → t.mem (dst + k) ≡ content s.ip s.disk (off + k)
  pub outside : (a : ℕ) → (a < dst) ⊎ (dst + n ≤ a) → t.mem a ≡ s.mem a
  pub kept :
      (l : ℕ)
      → l < 141
      → block_at s.ip s.disk l ≢ 0
      → block_at t.ip t.disk l ≡ block_at s.ip s.disk l
  pub same_size : t.ip.size ≡ s.ip.size

Fetched-none : (s : Io) (off dst : ℕ) → Sound s.ip s.disk → Fetched s s off dst 0
Fetched-none s off dst h = record {
  sound = h;
  same = λ q hq. refl;
  inside = λ k lt. absurd (omega arith);
  outside = λ a o. refl;
  kept = λ l hl some. refl;
  same_size = refl;
}

Fetched-append :
    (s t u : Io) (off dst m left : ℕ)
    → m ≤ left
    → off + left ≤ 140 * 512
    → Fetched s t off dst m
    → Fetched t u (off + m) (dst + m) (left - m)
    → Fetched s u off dst left
Fetched-append s t u off dst m left le room f g = record {
  sound = g.sound;
  same = λ q hq. g.same q hq ∙ f.same q hq;
  inside = λ k hk. elim (dec_lt k m) [
    | yes c ↦ g.outside (dst + k) (inl (omega arith)) ∙ f.inside k c
    | no c ↦
        let to : dst + m + (k - m) ≡ dst + k = omega arith in
        let at : off + m + (k - m) ≡ off + k = omega arith in
        ap u.mem (sym to)
        ∙ (g.inside (k - m) (omega arith)
            ∙ (ap (content t.ip t.disk) at ∙ f.same (off + k) (omega arith)))
  ];
  outside = λ a o. g.outside a (beyond a o) ∙ f.outside a (before a o);
  kept =
      λ l hl there. let same = f.kept l hl there in g.kept l hl (λ z. there (sym same ∙ z)) ∙ same;
  same_size = g.same_size ∙ f.same_size;
}
  where
    beyond : (a : ℕ) → (a < dst) ⊎ (dst + left ≤ a) → (a < dst + m) ⊎ (dst + m + (left - m) ≤ a)
    beyond a (inl o) = inl (omega arith)
    beyond a (inr o) = inr (omega arith)

    before : (a : ℕ) → (a < dst) ⊎ (dst + left ≤ a) → (a < dst) ⊎ (dst + m ≤ a)
    before a (inl o) = inl o
    before a (inr o) = inr (omega arith)

-- How the rounds of `readi` end: with the bytes read, or in the panic of `balloc` at a hole.
abbrev pub ReadEnds : Io → ℕ → ℕ → ℕ → Outcome Io → Type 0
ReadEnds s off dst n (ok t) = Fetched s t off dst n
ReadEnds s off dst n (panic m) =
    (m ≡ "balloc: out of blocks")
    × ((bn : ℕ) × (0 < n)
        × (off / 512 ≤ bn)
        × (bn * 512 < off + n)
        × (block_at s.ip s.disk (slot bn) ≡ 0))
ReadEnds s off dst n fault = ⊥
ReadEnds s off dst n out_of_fuel = ⊥

ReadEnds-append :
    (s t : Io) (off dst m left : ℕ) (r : Outcome Io)
    → 0 < m
    → m ≤ left
    → off % 512 + m ≤ 512
    → off + left ≤ 140 * 512
    → Fetched s t off dst m
    → ReadEnds t (off + m) (dst + m) (left - m) r
    → ReadEnds s off dst left r
ReadEnds-append s t off dst m left (ok u) some le fits room f g =
    Fetched-append s t u off dst m left le room f g
ReadEnds-append s t off dst m left (panic p) some le fits room f (e, (bn, more, lo, hi, hole)) = (
  e,
  (
    bn,
    omega arith,
    omega arith,
    omega arith,
    elim (ℕ_discrete (block_at s.ip s.disk (slot bn)) 0) [
      | yes z ↦ z
      | no z ↦ absurd (z (sym (f.kept (slot bn) (slot_lt bn (omega arith)) z) ∙ hole))
    ],
  ),
)
ReadEnds-append s t off dst m left fault some le fits room f g = g
ReadEnds-append s t off dst m left out_of_fuel some le fits room f g = g

abbrev fetch : ℕ → ℕ → ℕ → Io → ℕ × Inode × Disk → Io
fetch off dst m s (b, ip', t) = record {
  ip = ip';
  disk = t;
  mem = to_memory dst (t.byte b) (off % bsize) m s.mem;
}

fetch-Fetched :
    (s : Io) (off dst m b : ℕ) (ip' : Inode) (t : Disk)
    → off + m ≤ 140 * 512
    → off % 512 + m ≤ 512
    → Located s.ip s.disk (slot (off / 512)) (ok (b, ip', t))
    → Fetched s (fetch off dst m s (b, ip', t)) off dst m
fetch-Fetched s off dst m b ip' t low fits (n, at, sound, same, keep, size, type) = record {
  sound = sound;
  same = same;
  inside = λ k hk.
      let block : (off + k) / 512 ≡ off / 512 = omega arith in
      let place : (off + k) % 512 ≡ off % 512 + k = omega arith in
      let back : dst + k - dst ≡ k = omega arith in
      let found : content ip' t (off + k) ≡ t.byte b (off % 512 + k) =
        rw (block, at, ==_of_ne b 0 n, place) refl in
      rw (le→leb dst (dst + k) (omega arith), lt→ltb (dst + k) (dst + m) (omega arith), back)
        (sym found ∙ same (off + k) (omega arith));
  outside = outside;
  kept = keep;
  same_size = size;
}
  where
    outside :
        (a : ℕ)
        → (a < dst) ⊎ (dst + m ≤ a)
        → to_memory dst (t.byte b) (off % bsize) m s.mem a ≡ s.mem a
    outside a (inl o) = let low = lt→leb_false dst a o in rw (low) refl
    outside a (inr o) =
        let high = ge→ltb_false a (dst + m) o in
        elim (Bool-cases (leb dst a)) [ inl c ↦ rw (c, high) refl | inr c ↦ rw (c) refl ]

read-Located :
    (s : Io) (off dst left : ℕ) (r : Outcome (ℕ × Inode × Disk)) (next : Io → Outcome Io)
    → off + left ≤ 140 * 512
    → 0 < left
    → Located s.ip s.disk (slot (off / 512)) r
    → ((t : Io)
        → Sound t.ip t.disk
        → ReadEnds t (off + part off left) (dst + part off left) (left - part off left) (next t))
    → ReadEnds s off dst left (r >>= λ x. next (fetch off dst (part off left) s x))
read-Located s off dst left (ok (b, ip', t)) next room some h more =
    let (pos_part, le, fits) = part_lem off left some in
    let f = fetch-Fetched s off dst (part off left) b ip' t (omega arith) fits h in
    ReadEnds-append s (fetch off dst (part off left) s (b, ip', t)) off dst (part off left) left
      (next (fetch off dst (part off left) s (b, ip', t))) pos_part le fits room f
      (more (fetch off dst (part off left) s (b, ip', t)) f.sound)
read-Located s off dst left (panic m) next room some h more =
    (h.0, (off / 512, some, omega arith, omega arith, h.1))
read-Located s off dst left fault next room some h more = h
read-Located s off dst left out_of_fuel next room some h more = h

pub read_loop_lem :
    (fuel off dst left : ℕ) (s : Io)
    → Sound s.ip s.disk
    → off + left ≤ 140 * 512
    → left < fuel
    → ReadEnds s off dst left (read_loop fuel dst off left s)
unfolding read_loop
read_loop_lem zero off dst left s h room enough = absurd (omega arith)
read_loop_lem (suc fuel) off dst left s h room enough = elim (ℕ_discrete left 0) [
  | yes e ↦ rw (e) (Fetched-none s off dst h)
  | no n ↦
      let (pos_part, le, fits) = part_lem off left (omega arith) in
      rw (==_of_ne left 0 n) (
        read-Located s off dst left (bmap (off / 512) s.ip s.disk)
          (read_loop fuel (dst + part off left) (off + part off left) (left - part off left)) room
          (omega arith) (bmap_lem s.ip s.disk (off / 512) h (omega arith))
          (λ t sound.
            read_loop_lem fuel (off + part off left) (dst + part off left) (left - part off left) t
              sound (omega arith) (omega arith)))
]
