-- ===== src/Fs/File/Map/Bmap.antt =====
-- `bmap`: every block of a file up to the largest has a place, and asking for it changes no contents.
use c_cpp_projects.Prelude.{
  ℕ, ◌+◌, ◌-◌, ◌*◌, ◌<◌, ◌≡◌, ◌≢◌, sym, ◌∙◌, true, false, arith, ltb, ℕ_discrete, dec_lt, ==_of_ne,
  lt→ltb, Outcome, ok, panic, fault, out_of_fuel, ◌>>=◌, update,
}
use c_cpp_projects.Fs.{Disk, Inode, ndirect, balloc, log_write, set_word}
use c_cpp_projects.Fs.Free.Balloc.{Ballocated, balloc_lem}
use c_cpp_projects.Fs.File.{bmap, bmap_direct, bmap_entry}
use c_cpp_projects.Fs.File.Map.{
  block_at, block_at_direct, block_at_entry, block_at_none, slot, content, Sound,
}
use c_cpp_projects.Fs.File.Map.Place.{Located, Located-there, Located-direct, Located-entry}

direct-Located :
    (ip : Inode) (s : Disk) (k : ℕ) (r : Outcome (ℕ × Disk))
    → Sound ip s
    → k < 13
    → ip.addrs k ≡ 0
    → Ballocated s r
    → Located ip s k (r >>= λ r. ok (r.0, record ip { addrs = update ip.addrs k r.0 }, r.1))
direct-Located ip s k (ok (b, t)) h hk empty new = Located-direct ip s t b k h new hk empty
direct-Located ip s k (panic m) h hk empty p = (p.0, block_at_direct ip s k hk ∙ empty)
direct-Located ip s k fault h hk empty p = p
direct-Located ip s k out_of_fuel h hk empty p = p

entry-Located :
    (ip : Inode) (s : Disk) (j : ℕ) (r : Outcome (ℕ × Disk))
    → Sound ip s
    → 13 + j < 141
    → ip.addrs ndirect ≢ 0
    → s.word (ip.addrs ndirect) j ≡ 0
    → Ballocated s r
    → Located ip s (13 + j) (
        r >>= λ r.
        ok (r.0, ip, log_write (ip.addrs ndirect) (set_word (ip.addrs ndirect) j r.0 r.1)))
entry-Located ip s j (ok (b, t)) h hj there empty new =
    Located-entry ip s t b j h new hj there empty
entry-Located ip s j (panic m) h hj there empty p = (p.0, block_at_entry ip s j there ∙ empty)
entry-Located ip s j fault h hj there empty p = p
entry-Located ip s j out_of_fuel h hj there empty p = p

bmap_direct_lem :
    (ip : Inode) (s : Disk) (k : ℕ) → Sound ip s → k < 13 → Located ip s k (bmap_direct k ip s)
unfolding bmap_direct
bmap_direct_lem ip s k h hk = elim (ℕ_discrete (ip.addrs k) 0) [
  | yes e ↦ rw (e) (direct-Located ip s k (balloc s) h hk e (balloc_lem s h.valid))
  | no n ↦
      rw (==_of_ne (ip.addrs k) 0 n)
        (Located-there ip s k (ip.addrs k) h n (block_at_direct ip s k hk))
]

bmap_entry_lem :
    (ip : Inode) (s : Disk) (j : ℕ)
    → Sound ip s
    → 13 + j < 141
    → ip.addrs ndirect ≢ 0
    → Located ip s (13 + j) (bmap_entry (ip.addrs ndirect) j ip s)
unfolding bmap_entry
bmap_entry_lem ip s j h hj there = elim (ℕ_discrete (s.word (ip.addrs ndirect) j) 0) [
  | yes e ↦ rw (e) (entry-Located ip s j (balloc s) h hj there e (balloc_lem s h.valid))
  | no n ↦
      rw (==_of_ne (s.word (ip.addrs ndirect) j) 0 n) (
        Located-there ip s (13 + j) (s.word (ip.addrs ndirect) j) h n (block_at_entry ip s j there))
]

-- The search in the indirect block comes after that for the indirect block.
Located-trans :
    (ip ip' : Inode) (s t : Disk) (k : ℕ) (r : Outcome (ℕ × Inode × Disk))
    → ((o : ℕ) → o < 140 * 512 → content ip' t o ≡ content ip s o)
    → ((l : ℕ) → l < 141 → block_at ip s l ≢ 0 → block_at ip' t l ≡ block_at ip s l)
    → ip'.size ≡ ip.size
    → ip'.type ≡ ip.type
    → k < 141
    → Located ip' t k r
    → Located ip s k r
Located-trans ip ip' s t k (ok (b, jp, u)) same keep size type hk
      (n, at, sound, same', keep', size', type') =
    (
      n,
      at,
      sound,
      λ o ho. same' o ho ∙ same o ho,
      λ l hl some. keep' l hl (λ z. some (sym (keep l hl some) ∙ z)) ∙ keep l hl some,
      size' ∙ size,
      type' ∙ type,
    )
Located-trans ip ip' s t k (panic m) same keep size type hk p = (
  p.0,
  elim (ℕ_discrete (block_at ip s k) 0) [ yes z ↦ z | no z ↦ absurd (z (sym (keep k hk z) ∙ p.1)) ],
)
Located-trans ip ip' s t k fault same keep size type hk p = p
Located-trans ip ip' s t k out_of_fuel same keep size type hk p = p

indirect-Located :
    (ip : Inode) (s : Disk) (j : ℕ) (r : Outcome (ℕ × Inode × Disk))
    → 13 + j < 141
    → Located ip s ndirect r
    → Located ip s (13 + j) (r >>= λ (b, ip', t). bmap_entry b j ip' t)
indirect-Located ip s j (ok (b, ip', t)) hj (n, at, sound, same, keep, size, type) =
    let here : ip'.addrs ndirect ≡ b = sym (block_at_direct ip' t ndirect (omega arith)) ∙ at in
    rw (← here) (
      Located-trans ip ip' s t (13 + j) (bmap_entry (ip'.addrs ndirect) j ip' t) same keep size type
        hj (bmap_entry_lem ip' t j sound hj (λ z. n (sym here ∙ z))))
indirect-Located ip s j (panic m) hj p =
    (p.0, block_at_none ip s j (sym (block_at_direct ip s ndirect (omega arith)) ∙ p.1))
indirect-Located ip s j fault hj p = p
indirect-Located ip s j out_of_fuel hj p = p

-- For a file whose blocks are all different, in use and none of the map's: `bmap` of a block number
-- below MAXFILE ends with the block in that place, which is not 0, or in the panic of `balloc`, only
-- where the place was empty. It may allocate the block and the indirect block, but the contents of
-- the file at every offset, the places that were filled, the size and the type are as before, and
-- the file stays as it has to be.
pub bmap_lem :
    (ip : Inode) (s : Disk) (bn : ℕ) → Sound ip s → bn < 140 → Located ip s (slot bn) (bmap bn ip s)
unfolding bmap
bmap_lem ip s bn h hb = elim (dec_lt bn ndirect) [
  | yes c ↦ rw (lt→ltb bn ndirect c) (bmap_direct_lem ip s bn h (omega arith))
  | no c ↦
      let far : ltb bn ndirect ≡ false = ground (arith, c) in
      let within : ltb (bn - ndirect) 128 ≡ true = lt→ltb (bn - ndirect) 128 (omega arith) in
      let at : bn + 1 ≡ 13 + (bn - ndirect) = omega arith in
      rw (far, within, at)
        (indirect-Located ip s (bn - ndirect) (bmap_direct ndirect ip s) (omega arith)
          (bmap_direct_lem ip s ndirect h (omega arith)))
]
