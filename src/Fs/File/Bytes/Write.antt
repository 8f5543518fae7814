-- ===== src/Fs/File/Bytes/Write.antt =====
-- `writei`: the bytes of the range are those of the memory, and the others are as before.
use c_cpp_projects.Prelude.{
  length, ℕ, ◌+◌, ◌*◌, ◌/◌, ◌<◌, ◌≤◌, ◌≡◌, ◌≢◌, ◌⊎◌, inl, inr, refl, sym, ap, ◌∙◌, true, false,
  arith, ltb, ◌&&◌, ◌||◌, if◌then◌else◌, ==_of_ne, Outcome, ok, panic, fault, out_of_fuel, ◌>>=◌,
  Option, ℤ, pos, minus_one, Bool-cases, add32, u32_mod, lt→ltb, ge→ltb_false, ltb→lt,
}
use c_cpp_projects.Fs.File.{Io, write_loop, writei, grow_size, Device, iupdate}
use c_cpp_projects.Fs.File.Map.{block_at, slot, content, Sound}
use c_cpp_projects.Fs.File.Bytes.Rounds.{Overwrote, WriteEnds, write_loop_lem}
use c_cpp_projects.Fs.File.Bytes.Logged.{LogHolds, Adds-LogHolds, writei-Adds}

-- How `writei` of a range that fits ends: with the number of bytes, the range written, and a size that
-- covers it; or in the panic of `balloc`.
abbrev pub WriteiEnds : Io → ℕ → ℕ → ℕ → Outcome (ℤ × Io) → Type 0
WriteiEnds s off src n (ok (z, u)) =
    (z ≡ pos n)
    × Sound u.ip u.disk
    × ((k : ℕ) → k < n → content u.ip u.disk (off + k) ≡ s.mem (src + k))
    × ((q : ℕ)
        → q < 140 * 512
        → (q < off) ⊎ (off + n ≤ q)
        → content u.ip u.disk q ≡ content s.ip s.disk q)
    × ((bn : ℕ) → 0 < n → off / 512 ≤ bn → bn * 512 < off + n → block_at u.ip u.disk (slot bn) ≢ 0)
    × (u.ip.size ≡ (if ltb s.ip.size (off + n) then off + n else s.ip.size))
    × (u.ip.type ≡ s.ip.type)
    × (u.mem ≡ s.mem)
WriteiEnds s off src n (panic m) = m ≡ "balloc: out of blocks"
WriteiEnds s off src n fault = ⊥
WriteiEnds s off src n out_of_fuel = ⊥

grown :
    (s t : Io) (off src n : ℕ)
    → off ≤ s.ip.size
    → Overwrote s t off src n
    → WriteiEnds s off src n (ok (pos n, grow_size n (off + n) t))
unfolding block_at iupdate
grown s t off src n le f = elim (Bool-cases (ltb t.ip.size (off + n))) [
  | inl e ↦
      let sound : Sound (record t.ip { size = off + n })
          (iupdate (record t.ip { size = off + n }) t.disk) =
        record {
          valid = record { marked = f.sound.valid.marked; room = f.sound.valid.room };
          boot = f.sound.boot;
          inside = f.sound.inside;
          held = f.sound.held;
          no_map = f.sound.no_map;
          distinct = f.sound.distinct;
        } in
      let some : ltb 0 n ≡ true =
        lt→ltb 0 n (omega (arith, f.same_size, ltb→lt t.ip.size (off + n) e)) in
      rw (some, e, ← f.same_size, e)
        (refl, sound, f.inside, f.outside, f.filled, refl, f.same_type, f.same_mem)
  | inr e ↦
      let stay : (ltb 0 n && ltb t.ip.size (off + n)) ≡ false = ground (arith, e) in
      let fits : ltb s.ip.size (off + n) ≡ false =
        ap (λ z. ltb z (off + n)) (sym f.same_size) ∙ e in
      rw (stay, fits)
        (refl, f.sound, f.inside, f.outside, f.filled, f.same_size, f.same_type, f.same_mem)
]

grown-WriteiEnds :
    (s : Io) (off src n : ℕ) (r : Outcome Io)
    → off ≤ s.ip.size
    → WriteEnds s off src n r
    → WriteiEnds s off src n (r >>= λ t. ok (pos n, grow_size n (off + n) t))
grown-WriteiEnds s off src n (ok t) le f = grown s t off src n le f
grown-WriteiEnds s off src n (panic m) le f = f
grown-WriteiEnds s off src n fault le f = f
grown-WriteiEnds s off src n out_of_fuel le f = f

writei-refused :
    (devsw : ℕ → Option Device) (s : Io) (off src n : ℕ)
    → s.ip.type ≢ 3
    → off < u32_mod
    → n < u32_mod
    → (s.ip.size < off) ⊎ (140 * 512 < off + n)
    → writei devsw src off n s ≡ ok (minus_one, s)
unfolding writei
writei-refused devsw s off src n file ho hn (inl o) =
    rw (==_of_ne s.ip.type 3 file, lt→ltb s.ip.size off o) refl
writei-refused devsw s off src n file ho hn (inr o) =
    elim (Bool-cases (ltb s.ip.size off || ltb (add32 off n) off)) [
      | inl e ↦ rw (==_of_ne s.ip.type 3 file, e) refl
      | inr e ↦
          let straight : off ≤ add32 off n = ground (arith, e) in
          rw
            (
              ==_of_ne s.ip.type 3 file,
              e,
              lt→ltb (140 * 512) (add32 off n) (omega (arith, straight)),
            )
            refl
    ]

-- `writei` where the log has room for all its calls of `log_write`.
pub writei-WriteiEnds :
    (devsw : ℕ → Option Device) (s : Io) (off src n : ℕ)
    → Sound s.ip s.disk
    → s.ip.type ≢ 3
    → off < u32_mod
    → n < u32_mod
    → ((s.ip.size < off) ⊎ (140 * 512 < off + n) → writei devsw src off n s ≡ ok (minus_one, s))
      × (off ≤ s.ip.size → off + n ≤ 140 * 512 → WriteiEnds s off src n (writei devsw src off n s))
unfolding writei
writei-WriteiEnds devsw s off src n h file ho hn = (
  λ o. writei-refused devsw s off src n file ho hn o,
  λ le fits.
      let range : add32 off n ≡ off + n = omega arith in
      rw
        (
          ==_of_ne s.ip.type 3 file,
          range,
          ge→ltb_false s.ip.size off le,
          ge→ltb_false (off + n) off (omega arith),
          ge→ltb_false (140 * 512) (off + n) fits,
        )
        (grown-WriteiEnds s off src n (write_loop (n + 1) src off n s) le
          (write_loop_lem (n + 1) off src n s h fits (omega arith))),
)

-- `writei` on a file that is no device and whose blocks are as they have to be. An offset past the
-- end of the file, a range that wraps around or one past the largest file gives -1, with nothing
-- changed. Any other range of up to 1536 bytes, which is what `filewrite` passes at a time, also one
-- over several blocks, through the indirect block or into blocks not allocated before, and where the
-- log has had up to four calls: if the disk does not run out of blocks, the number of bytes is
-- returned, the bytes of the range are those of the memory, all other bytes of the file are as
-- before, the size is the larger of the old one and the end of the range, and the blocks stay as they
-- have to be; and the log has had up to 29 calls, so that none of them found it full.
pub writei_lem :
    (devsw : ℕ → Option Device) (s : Io) (off src n : ℕ)
    → Sound s.ip s.disk
    → s.ip.type ≢ 3
    → off < u32_mod
    → n < u32_mod
    → ((s.ip.size < off) ⊎ (140 * 512 < off + n) → writei devsw src off n s ≡ ok (minus_one, s))
      × (off ≤ s.ip.size
          → off + n ≤ 140 * 512
          → n ≤ 1536
          → length s.disk.logged ≤ 4
          → WriteiEnds s off src n (writei devsw src off n s) × LogHolds (writei devsw src off n s))
writei_lem devsw s off src n h file ho hn =
    let (refused, done) = writei-WriteiEnds devsw s off src n h file ho hn in
    (
      refused,
      λ le fits small room. (
        done le fits,
        Adds-LogHolds s.disk (writei devsw src off n s) room
            (writei-Adds devsw src off n s file small),
      ),
    )
