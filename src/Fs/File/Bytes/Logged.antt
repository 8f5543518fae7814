-- ===== src/Fs/File/Bytes/Logged.antt =====
-- How often `writei` calls `log_write`.
use c_cpp_projects.Prelude.{
  ℕ, zero, suc, ◌+◌, ◌-◌, ◌*◌, ◌/◌, ◌%◌, ◌≤◌, ◌≡◌, ◌≢◌, inl, inr, arith, Bool-cases, ltb, leb, ◌==◌,
  ◌&&◌, ◌||◌, if◌then◌else◌, ℕ_discrete, dec_lt, ==_of_ne, Option, none, some, length, Outcome, ok,
  panic, fault, out_of_fuel, ◌>>=◌, update, ℤ, add32,
}
use c_cpp_projects.Fs.{
  Disk, Inode, bsize, bpb, ndirect, nindirect, log_write, bzero, scan_bits, take_block, balloc_loop,
  balloc,
}
use c_cpp_projects.Fs.File.{
  Io, bmap, bmap_direct, bmap_entry, part, to_block, write_loop, writei, grow_size, iupdate, Device,
}

-- If the result is there, `log_write` was called at most `k` times for it; `disk` is the disk in it.
abbrev pub Adds : {X : Type 0} → (X → Disk) → ℕ → Disk → Outcome X → Type 0
Adds disk k s (ok x) = length (disk x).logged ≤ length s.logged + k
Adds disk k s (panic m) = Unit
Adds disk k s fault = Unit
Adds disk k s out_of_fuel = Unit

Adds-more :
    {Y : Type 0} (e : Y → Disk) (k l m : ℕ) (s t : Disk) (r : Outcome Y)
    → k + l ≤ m
    → length t.logged ≤ length s.logged + k
    → Adds e l t r
    → Adds e m s r
Adds-more e k l m s t (ok y) le a b = omega (arith, le, a, b)
Adds-more e k l m s t (panic n) le a b = tt
Adds-more e k l m s t fault le a b = tt
Adds-more e k l m s t out_of_fuel le a b = tt

Adds-bind :
    {X Y : Type 0} (d : X → Disk) (e : Y → Disk) (k l m : ℕ) (s : Disk) (r : Outcome X)
    (h : X → Outcome Y)
    → k + l ≤ m
    → Adds d k s r
    → ((x : X) → Adds e l (d x) (h x))
    → Adds e m s (r >>= h)
Adds-bind d e k l m s (ok x) h le a b = Adds-more e k l m s (d x) (h x) le a (b x)
Adds-bind d e k l m s (panic n) h le a b = tt
Adds-bind d e k l m s fault h le a b = tt
Adds-bind d e k l m s out_of_fuel h le a b = tt

found_Adds :
    (b : ℕ) (s : Disk) (r : Option ℕ) (rest : Outcome (ℕ × Disk))
    → Adds (λ x. x.1) 2 s rest
    → Adds
        (λ (x : ℕ × Disk). x.1)
        2
        s
        (elim r [ none ↦ rest | some bi ↦ ok (b + bi, take_block b bi s) ])
unfolding bzero
found_Adds b s none rest h = h
found_Adds b s (some bi) rest h = omega arith

balloc_loop-Adds : (fuel b : ℕ) (s : Disk) → Adds (λ (x : ℕ × Disk). x.1) 2 s (balloc_loop fuel b s)
unfolding balloc_loop
balloc_loop-Adds zero b s = tt
balloc_loop-Adds (suc fuel) b s = elim (Bool-cases (leb s.size b)) [
  | inl e ↦ rw (e) tt
  | inr e ↦ rw (e) (
      found_Adds b s (scan_bits bpb b 0 s) (balloc_loop fuel (b + bpb) s)
        (balloc_loop-Adds fuel (b + bpb) s))
]

balloc-Adds : (s : Disk) → Adds (λ (x : ℕ × Disk). x.1) 2 s (balloc s)
unfolding balloc
balloc-Adds s = balloc_loop-Adds (s.size / bpb + 2) 0 s

abbrev mapped_disk : ℕ × Inode × Disk → Disk
mapped_disk x = x.2

bmap_direct-Adds : (bn : ℕ) (ip : Inode) (s : Disk) → Adds mapped_disk 2 s (bmap_direct bn ip s)
unfolding bmap_direct
bmap_direct-Adds bn ip s = elim (ℕ_discrete (ip.addrs bn) 0) [
  | yes e ↦ rw (e) (
      Adds-bind (λ x. x.1) mapped_disk 2 0 2 s (balloc s) _ (omega arith) (balloc-Adds s)
        (λ x. omega arith))
  | no n ↦ rw (==_of_ne (ip.addrs bn) 0 n) (omega arith)
]

bmap_entry-Adds : (b bn : ℕ) (ip : Inode) (s : Disk) → Adds mapped_disk 3 s (bmap_entry b bn ip s)
unfolding bmap_entry
bmap_entry-Adds b bn ip s = elim (ℕ_discrete (s.word b bn) 0) [
  | yes e ↦ rw (e) (
      Adds-bind (λ x. x.1) mapped_disk 2 1 3 s (balloc s) _ (omega arith) (balloc-Adds s)
        (λ x. omega arith))
  | no n ↦ rw (==_of_ne (s.word b bn) 0 n) (omega arith)
]

bmap-Adds : (bn : ℕ) (ip : Inode) (s : Disk) → Adds mapped_disk 5 s (bmap bn ip s)
unfolding bmap
bmap-Adds bn ip s = elim (Bool-cases (ltb bn ndirect)) [
  | inl e ↦ rw (e) (
      Adds-more mapped_disk 0 2 5 s s (bmap_direct bn ip s) (omega arith) (omega arith)
        (bmap_direct-Adds bn ip s))
  | inr e ↦ elim (Bool-cases (ltb (bn - ndirect) nindirect)) [
    | inl f ↦
        rw (e, f)
          (Adds-bind mapped_disk mapped_disk 2 3 5 s (bmap_direct ndirect ip s) _ (omega arith)
            (bmap_direct-Adds ndirect ip s) (λ x. bmap_entry-Adds x.0 (bn - ndirect) x.1 x.2))
    | inr f ↦ rw (e, f) tt
  ]
]

-- The rounds of `writei` for `left` bytes from `off` on, at most.
abbrev pub rounds : ℕ → ℕ → ℕ
rounds off left = if left == 0 then 0 else (off % 512 + left + 511) / 512

rounds_next :
    (off left : ℕ)
    → left ≢ 0
    → 6 + 6 * rounds (off + part off left) (left - part off left)
      ≤ 6 * ((off % 512 + left + 511) / 512)
rounds_next off left n = elim (dec_lt (512 - off % 512) left) [
  | yes c ↦
      let whole : part off left ≡ 512 - off % 512 = omega (arith, c) in
      let some : left - (512 - off % 512) ≢ 0 = λ z. omega (arith, c, z) in
      rw (whole, ==_of_ne (left - (512 - off % 512)) 0 some) (omega (arith, c))
  | no c ↦
      let all : part off left ≡ left = omega (arith, c) in
      let none : left - left ≡ 0 = omega arith in rw (all, none) (omega (arith, n))
]

write_loop-Adds :
    (fuel src off left : ℕ) (s : Io)
    → Adds (λ (t : Io). t.disk) (6 * rounds off left) s.disk (write_loop fuel src off left s)
unfolding write_loop
write_loop-Adds zero src off left s = tt
write_loop-Adds (suc fuel) src off left s = elim (ℕ_discrete left 0) [
  | yes e ↦ rw (e) (omega arith)
  | no n ↦
      let m : ℕ = part off left in
      let k : ℕ = 6 * rounds (off + m) (left - m) in
      rw (==_of_ne left 0 n) (
        Adds-bind mapped_disk (λ (t : Io). t.disk) 5 (1 + k) (6 * ((off % 512 + left + 511) / 512))
          s.disk (bmap (off / bsize) s.ip s.disk) _ (omega (arith, rounds_next off left n))
          (bmap-Adds (off / bsize) s.ip s.disk)
          (λ x.
            let u : Disk = log_write x.0 (record x.2 {
              byte = update x.2.byte x.0 (to_block (x.2.byte x.0) (off % bsize) src m s.mem);
            }) in
            Adds-more (λ (t : Io). t.disk) 1 k (1 + k) x.2 u _ (omega arith) (omega arith)
              (write_loop-Adds fuel (src + m) (off + m) (left - m)
                (record s { ip = x.1; disk = u }))))
]

few : (off n : ℕ) → n ≤ 1536 → 0 + 6 * rounds off n ≤ 24
few off n small = elim (ℕ_discrete n 0) [
  | yes e ↦ rw (e) (omega arith)
  | no e ↦ rw (==_of_ne n 0 e) (omega (arith, small))
]

grow_Adds : (n off : ℕ) (t : Io) → length (grow_size n off t).disk.logged ≤ length t.disk.logged + 1
unfolding iupdate
grow_Adds n off t = elim (Bool-cases (ltb 0 n && ltb t.ip.size off)) [
  | inl e ↦ rw (e) (omega arith)
  | inr e ↦ rw (e) (omega arith)
]

-- `writei` calls `log_write` six times at most for each block of the file, and once for the inode: for
-- the blocks that `bmap` takes, the map's blocks, the indirect block and the block of the bytes.
pub writei-Adds :
    (devsw : ℕ → Option Device) (src off n : ℕ) (s : Io)
    → s.ip.type ≢ 3
    → n ≤ 1536
    → Adds (λ (x : ℤ × Io). x.1.disk) 25 s.disk (writei devsw src off n s)
unfolding writei iupdate
writei-Adds devsw src off n s file small =
    elim (Bool-cases (ltb s.ip.size off || ltb (add32 off n) off)) [
      | inl e ↦ rw (==_of_ne s.ip.type 3 file, e) (omega arith)
      | inr e ↦ elim (Bool-cases (ltb (140 * 512) (add32 off n))) [
        | inl f ↦ rw (==_of_ne s.ip.type 3 file, e, f) (omega arith)
        | inr f ↦
            rw (==_of_ne s.ip.type 3 file, e, f)
              (Adds-bind (λ (t : Io). t.disk) (λ (x : ℤ × Io). x.1.disk) 24 1 25 s.disk
                (write_loop (n + 1) src off n s) _ (omega arith)
                (Adds-more (λ (t : Io). t.disk) 0 (6 * rounds off n) 24 s.disk s.disk
                  (write_loop (n + 1) src off n s) (few off n small) (omega arith)
                  (write_loop-Adds (n + 1) src off n s))
                (λ t. grow_Adds n (off + n) t))
      ]
    ]

-- The log has had no more calls than it has room for: in the log of LOGSIZE blocks that mkfs.c makes,
-- `log_write` panics where 29 blocks are logged already.
abbrev pub LogHolds : Outcome (ℤ × Io) → Type 0
LogHolds (ok (z, t)) = length t.disk.logged ≤ 29
LogHolds (panic m) = Unit
LogHolds fault = Unit
LogHolds out_of_fuel = Unit

pub Adds-LogHolds :
    (s : Disk) (r : Outcome (ℤ × Io))
    → length s.logged ≤ 4
    → Adds (λ (x : ℤ × Io). x.1.disk) 25 s r
    → LogHolds r
Adds-LogHolds s (ok (z, t)) h a = omega (arith, h, a)
Adds-LogHolds s (panic m) h a = tt
Adds-LogHolds s fault h a = tt
Adds-LogHolds s out_of_fuel h a = tt
