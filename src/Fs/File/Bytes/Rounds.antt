-- ===== src/Fs/File/Bytes/Rounds.antt =====
-- The rounds of `writei`: what they have written, and what a further round adds.
use c_cpp_projects.Prelude.{
  ℕ, zero, suc, ◌+◌, ◌-◌, ◌*◌, ◌/◌, ◌%◌, ◌<◌, ◌≤◌, ◌≡◌, ◌≢◌, ◌⊎◌, inl, inr, refl, sym, ap, ◌∙◌,
  arith, ℕ_discrete, dec_lt, ==_of_ne, Outcome, ok, panic, fault, out_of_fuel, ◌>>=◌, update,
}
use c_cpp_projects.Fs.{Disk, Inode, bsize, log_write}
use c_cpp_projects.Fs.File.{Io, bmap, part, to_block, write_loop}
use c_cpp_projects.Fs.File.Map.{block_at, slot, content, Sound, slot_lt}
use c_cpp_projects.Fs.File.Map.Bmap.{bmap_lem}
use c_cpp_projects.Fs.File.Map.Place.{Located}
use c_cpp_projects.Fs.File.Bytes.{part_lem, Sound-overwritten, content-inside, content-outside}

-- From `s` to `t` the `n` bytes of the file from `off` on have been written from the memory at `src`.
pub record Overwrote (s t : Io) (off src n : ℕ) : Type 0 where
  pub sound : Sound t.ip t.disk
  pub inside : (k : ℕ) → k < n → content t.ip t.disk (off + k) ≡ s.mem (src + k)
  pub outside :
      (q : ℕ)
      → q < 140 * 512
      → (q < off) ⊎ (off + n ≤ q)
      → content t.ip t.disk q ≡ content s.ip s.disk q
  pub filled :
      (bn : ℕ) → 0 < n → off / 512 ≤ bn → bn * 512 < off + n → block_at t.ip t.disk (slot bn) ≢ 0
  pub kept :
      (l : ℕ)
      → l < 141
      → block_at s.ip s.disk l ≢ 0
      → block_at t.ip t.disk l ≡ block_at s.ip s.disk l
  pub same_size : t.ip.size ≡ s.ip.size
  pub same_type : t.ip.type ≡ s.ip.type
  pub same_mem : t.mem ≡ s.mem

Overwrote-none : (s : Io) (off src : ℕ) → Sound s.ip s.disk → Overwrote s s off src 0
Overwrote-none s off src h = record {
  sound = h;
  inside = λ k lt. absurd (omega arith);
  outside = λ q hq o. refl;
  filled = λ bn some lo hi. absurd (omega arith);
  kept = λ l hl some. refl;
  same_size = refl;
  same_type = refl;
  same_mem = refl;
}

-- A part in one block, and then the rest.
Overwrote-append :
    (s t u : Io) (off src m left : ℕ)
    → 0 < m
    → m ≤ left
    → off % 512 + m ≤ 512
    → off + left ≤ 140 * 512
    → Overwrote s t off src m
    → Overwrote t u (off + m) (src + m) (left - m)
    → Overwrote s u off src left
Overwrote-append s t u off src m left some le fits room f g = record {
  sound = g.sound;
  inside = λ k hk. elim (dec_lt k m) [
    | yes c ↦ g.outside (off + k) (omega arith) (inl (omega arith)) ∙ f.inside k c
    | no c ↦
        let at : off + m + (k - m) ≡ off + k = omega arith in
        let from : src + m + (k - m) ≡ src + k = omega arith in
        ap (content u.ip u.disk) (sym at)
        ∙ (g.inside (k - m) (omega arith)
            ∙ (ap t.mem from ∙ ap (λ (h : ℕ → ℕ). h (src + k)) f.same_mem))
  ];
  outside = λ q hq o. g.outside q hq (beyond q o) ∙ f.outside q hq (before q o);
  filled = λ bn some' lo hi. elim (ℕ_discrete bn (off / 512)) [
    | yes e ↦
        let here = f.filled bn some lo (omega arith) in
        λ z. here (sym (g.kept (slot bn) (slot_lt bn (omega arith)) here) ∙ z)
    | no n ↦ g.filled bn (omega arith) (omega arith) (omega arith)
  ];
  kept =
      λ l hl there. let same = f.kept l hl there in g.kept l hl (λ z. there (sym same ∙ z)) ∙ same;
  same_size = g.same_size ∙ f.same_size;
  same_type = g.same_type ∙ f.same_type;
  same_mem = g.same_mem ∙ f.same_mem;
}
  where
    beyond : (q : ℕ) → (q < off) ⊎ (off + left ≤ q) → (q < off + m) ⊎ (off + m + (left - m) ≤ q)
    beyond q (inl o) = inl (omega arith)
    beyond q (inr o) = inr (omega arith)

    before : (q : ℕ) → (q < off) ⊎ (off + left ≤ q) → (q < off) ⊎ (off + m ≤ q)
    before q (inl o) = inl o
    before q (inr o) = inr (omega arith)

-- How the rounds of `writei` end: with the bytes written, or in the panic of `balloc`.
abbrev pub WriteEnds : Io → ℕ → ℕ → ℕ → Outcome Io → Type 0
WriteEnds s off src n (ok t) = Overwrote s t off src n
WriteEnds s off src n (panic m) = m ≡ "balloc: out of blocks"
WriteEnds s off src n fault = ⊥
WriteEnds s off src n out_of_fuel = ⊥

-- A round, and the rest of the rounds.
WriteEnds-append :
    (s t : Io) (off src m left : ℕ) (r : Outcome Io)
    → 0 < m
    → m ≤ left
    → off % 512 + m ≤ 512
    → off + left ≤ 140 * 512
    → Overwrote s t off src m
    → WriteEnds t (off + m) (src + m) (left - m) r
    → WriteEnds s off src left r
WriteEnds-append s t off src m left (ok u) some le fits room f g =
    Overwrote-append s t u off src m left some le fits room f g
WriteEnds-append s t off src m left (panic p) some le fits room f g = g
WriteEnds-append s t off src m left fault some le fits room f g = g
WriteEnds-append s t off src m left out_of_fuel some le fits room f g = g

-- The state after a round that found the block `b`.
abbrev round : ℕ → ℕ → ℕ → Io → ℕ × Inode × Disk → Io
round off src m s (b, ip', t) = record s {
  ip = ip';
  disk =
      log_write b
        (record t { byte = update t.byte b (to_block (t.byte b) (off % bsize) src m s.mem) });
}

round-Overwrote :
    (s : Io) (off src m b : ℕ) (ip' : Inode) (t : Disk)
    → off < 140 * 512
    → off % 512 + m ≤ 512
    → 0 < m
    → Located s.ip s.disk (slot (off / 512)) (ok (b, ip', t))
    → Overwrote s (round off src m s (b, ip', t)) off src m
unfolding block_at
round-Overwrote s off src m b ip' t low fits some (n, at, sound, same, keep, size, type) = record {
  sound = Sound-overwritten ip' t b off src m s.mem sound at n low fits;
  inside = content-inside ip' t b off src m s.mem sound at n low fits;
  outside =
      λ q hq o. content-outside ip' t b off src m s.mem sound at n low fits q hq o ∙ same q hq;
  filled = λ bn _ lo hi. let here : bn ≡ off / 512 = omega arith in rw (here, at) n;
  kept = keep;
  same_size = size;
  same_type = type;
  same_mem = refl;
}

write-Located :
    (s : Io) (off src left : ℕ) (r : Outcome (ℕ × Inode × Disk)) (next : Io → Outcome Io)
    → off + left ≤ 140 * 512
    → 0 < left
    → Located s.ip s.disk (slot (off / 512)) r
    → ((t : Io)
        → Sound t.ip t.disk
        → WriteEnds t (off + part off left) (src + part off left) (left - part off left) (next t))
    → WriteEnds s off src left (r >>= λ x. next (round off src (part off left) s x))
write-Located s off src left (ok (b, ip', t)) next room some h more =
    let (pos_part, le, fits) = part_lem off left some in
    let f = round-Overwrote s off src (part off left) b ip' t (omega arith) fits pos_part h in
    WriteEnds-append s (round off src (part off left) s (b, ip', t)) off src (part off left) left
      (next (round off src (part off left) s (b, ip', t))) pos_part le fits room f
      (more (round off src (part off left) s (b, ip', t)) f.sound)
write-Located s off src left (panic m) next room some h more = h.0
write-Located s off src left fault next room some h more = h
write-Located s off src left out_of_fuel next room some h more = h

pub write_loop_lem :
    (fuel off src left : ℕ) (s : Io)
    → Sound s.ip s.disk
    → off + left ≤ 140 * 512
    → left < fuel
    → WriteEnds s off src left (write_loop fuel src off left s)
unfolding write_loop
write_loop_lem zero off src left s h room enough = absurd (omega arith)
write_loop_lem (suc fuel) off src left s h room enough = elim (ℕ_discrete left 0) [
  | yes e ↦ rw (e) (Overwrote-none s off src h)
  | no n ↦
      let (pos_part, le, fits) = part_lem off left (omega arith) in
      rw (==_of_ne left 0 n) (
        write-Located s off src left (bmap (off / 512) s.ip s.disk)
          (write_loop fuel (src + part off left) (off + part off left) (left - part off left)) room
          (omega arith) (bmap_lem s.ip s.disk (off / 512) h (omega arith))
          (λ t sound.
            write_loop_lem fuel (off + part off left) (src + part off left) (left - part off left) t
              sound (omega arith) (omega arith)))
]
