-- ===== src/Fs/File/Bytes/Readi.antt =====
-- `readi` as a whole, and after a `writei`: what was written comes back.
use c_cpp_projects.Prelude.{
  ℕ, ◌+◌, ◌-◌, ◌*◌, ◌/◌, ◌<◌, ◌≤◌, ◌≡◌, ◌≢◌, ◌⊎◌, inl, inr, refl, sym, ap, subst, ◌∙◌, Bool, true,
  false, arith, ltb, ◌||◌, if◌then◌else◌, ==_of_ne, Outcome, ok, panic, fault, out_of_fuel, ◌>>=◌,
  Option, ℤ, pos, minus_one, add32, u32_mod, lt→ltb, ge→ltb_false, min,
}
use c_cpp_projects.Fs.File.{Io, read_loop, readi, writei, Device}
use c_cpp_projects.Fs.File.Map.{block_at, slot, Sound}
use c_cpp_projects.Fs.File.Bytes.Write.{WriteiEnds, writei-WriteiEnds}
use c_cpp_projects.Fs.File.Bytes.Read.{Fetched, ReadEnds, read_loop_lem}

or_right : (a b : Bool) → b ≡ true → (a || b) ≡ true
or_right true b e = refl
or_right false b e = e

-- How `readi` of a range that starts in the file ends: with the number of bytes there are, and these
-- in the memory; or in the panic of `balloc`, at a hole of the range.
abbrev pub ReadiEnds : Io → ℕ → ℕ → ℕ → Outcome (ℤ × Io) → Type 0
ReadiEnds s off dst n (ok (z, t)) = (z ≡ pos n) × Fetched s t off dst n
ReadiEnds s off dst n (panic m) =
    (m ≡ "balloc: out of blocks")
    × ((bn : ℕ) × (0 < n)
        × (off / 512 ≤ bn)
        × (bn * 512 < off + n)
        × (block_at s.ip s.disk (slot bn) ≡ 0))
ReadiEnds s off dst n fault = ⊥
ReadiEnds s off dst n out_of_fuel = ⊥

fetched-ReadiEnds :
    (s : Io) (off dst n : ℕ) (r : Outcome Io)
    → ReadEnds s off dst n r
    → ReadiEnds s off dst n (r >>= λ t. ok (pos n, t))
fetched-ReadiEnds s off dst n (ok t) f = (refl, f)
fetched-ReadiEnds s off dst n (panic m) f = f
fetched-ReadiEnds s off dst n fault f = f
fetched-ReadiEnds s off dst n out_of_fuel f = f

-- The length that `readi` reads: up to the end of the file.
abbrev pub available : Io → ℕ → ℕ → ℕ
available s off n = min n (s.ip.size - off)

readi-refused :
    (devsw : ℕ → Option Device) (s : Io) (off dst n : ℕ)
    → s.ip.type ≢ 3
    → off < u32_mod
    → n < u32_mod
    → (s.ip.size < off) ⊎ (u32_mod ≤ off + n)
    → readi devsw dst off n s ≡ ok (minus_one, s)
unfolding readi
readi-refused devsw s off dst n file ho hn (inl o) =
    rw (==_of_ne s.ip.type 3 file, lt→ltb s.ip.size off o) refl
readi-refused devsw s off dst n file ho hn (inr o) =
    let wraps : (ltb s.ip.size off || ltb (add32 off n) off) ≡ true =
      or_right (ltb s.ip.size off) (ltb (add32 off n) off)
        (lt→ltb (add32 off n) off (omega arith)) in
    rw (==_of_ne s.ip.type 3 file, wraps) refl

-- `readi` on a file that is no device, whose blocks are as they have to be and which is no larger
-- than the largest file. An offset past the end, or a range that wraps around, gives -1 with nothing
-- changed. Otherwise the number of bytes up to the end of the range or of the file is returned, and
-- these bytes of the file are in the memory, whose other bytes are as before, as are the file's;
-- unless the range has a hole, for which `bmap` finds no free block.
pub readi_lem :
    (devsw : ℕ → Option Device) (s : Io) (off dst n : ℕ)
    → Sound s.ip s.disk
    → s.ip.type ≢ 3
    → s.ip.size ≤ 140 * 512
    → off < u32_mod
    → n < u32_mod
    → ((s.ip.size < off) ⊎ (u32_mod ≤ off + n) → readi devsw dst off n s ≡ ok (minus_one, s))
      × (off ≤ s.ip.size
          → off + n < u32_mod
          → ReadiEnds s off dst (available s off n) (readi devsw dst off n s))
unfolding readi
readi_lem devsw s off dst n h file largest ho hn = (
  readi-refused devsw s off dst n file ho hn,
  λ le fits.
      let range : add32 off n ≡ off + n = omega arith in
      let length : (if ltb s.ip.size (off + n) then s.ip.size - off else n) ≡ available s off n =
        ground arith in
      rw
        (
          ==_of_ne s.ip.type 3 file,
          range,
          ge→ltb_false s.ip.size off le,
          ge→ltb_false (off + n) off (omega arith),
          length,
        )
        (fetched-ReadiEnds s off dst (available s off n)
          (read_loop (available s off n + 1) dst off (available s off n) s)
          (read_loop_lem (available s off n + 1) off dst (available s off n) s h (omega arith)
            (omega arith))),
)

-- Where every block of the range is there, `readi` does not panic.
ReadiEnds-filled :
    (u : Io) (off dst n : ℕ) (r : Outcome (ℤ × Io))
    → ((bn : ℕ) → 0 < n → off / 512 ≤ bn → bn * 512 < off + n → block_at u.ip u.disk (slot bn) ≢ 0)
    → ReadiEnds u off dst n r
    → (v : Io) × (r ≡ ok (pos n, v)) × Fetched u v off dst n
ReadiEnds-filled u off dst n (ok (z, v)) filled (e, f) = (v, ap (λ y. ok (y, v)) e, f)
ReadiEnds-filled u off dst n (panic m) filled (e, (bn, some, lo, hi, hole)) =
    absurd (filled bn some lo hi hole)
ReadiEnds-filled u off dst n fault filled h = absurd h
ReadiEnds-filled u off dst n out_of_fuel filled h = absurd h

-- What `writei` has written, `readi` reads back: after a `writei` of a range that fits has returned
-- with the number of bytes, a `readi` of the same range returns the same number and puts the bytes
-- that were written at `dst`; no block is missing, so it does not panic.
pub readi-writei :
    (devsw : ℕ → Option Device) (s u : Io) (off src dst n : ℕ)
    → Sound s.ip s.disk
    → s.ip.type ≢ 3
    → s.ip.size ≤ 140 * 512
    → off ≤ s.ip.size
    → off + n ≤ 140 * 512
    → writei devsw src off n s ≡ ok (pos n, u)
    → (v : Io) × (readi devsw dst off n u ≡ ok (pos n, v))
      × ((k : ℕ) → k < n → v.mem (dst + k) ≡ s.mem (src + k))
readi-writei devsw s u off src dst n h file largest le fits run =
    let wrote : WriteiEnds s off src n (ok (pos n, u)) =
      subst (WriteiEnds s off src n) run
        ((writei-WriteiEnds devsw s off src n h file (omega arith) (omega arith)).1 le fits) in
    let (_, sound, inside, _, filled, size, type, _) = wrote in
    let covers : off + n ≤ u.ip.size = ground (arith, size) in
    let small : u.ip.size ≤ 140 * 512 = ground (arith, size) in
    let whole : available u off n ≡ n = omega arith in
    let ends =
      (readi_lem devsw u off dst n sound (λ z. file (sym type ∙ z)) small (omega arith)
          (omega arith)).1
        (omega arith) (omega arith) in
    let (v, back, f) =
      ReadiEnds-filled u off dst n (readi devsw dst off n u) filled
        (subst (λ m. ReadiEnds u off dst m (readi devsw dst off n u)) whole ends) in
    (v, back, λ k hk. f.inside k hk ∙ inside k hk)
