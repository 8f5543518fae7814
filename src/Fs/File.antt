-- ===== src/Fs/File.antt =====
-- The contents of an inode: `bmap`, `itrunc`, `iupdate`, `readi` and `writei` of c/os-master/fs.c. The
-- memory that is read from or written to is apart from the blocks.
pub mod Map
pub mod Bytes
pub mod Trunc
use c_cpp_projects.Prelude.{
  ℕ, zero, suc, ◌+◌, ◌-◌, ◌*◌, ◌/◌, ◌%◌, Bool, true, false, ◌&&◌, ◌||◌, not, ◌==◌, ltb, leb,
  if◌then◌else◌, Option, none, some, Outcome, ok, panic, out_of_fuel, ◌>>=◌, update, add32, min, ℤ,
  pos, negsuc, minus_one,
}
use c_cpp_projects.Fs.{
  Disk, Inode, bsize, ndirect, nindirect, maxfile, log_write, set_word, balloc, bfree,
}
use c_cpp_projects.Strings.{Memory}

-- A direct block, and a block that the indirect block lists.
unfoldable pub bmap_direct : ℕ → Inode → Disk → Outcome (ℕ × Inode × Disk)
bmap_direct bn ip s =
    if ip.addrs bn == 0
    then (balloc s >>= λ r. ok (r.0, record ip { addrs = update ip.addrs bn r.0 }, r.1))
    else ok (ip.addrs bn, ip, s)

-- The entry `bn` of the indirect block `b`.
pub bmap_entry : ℕ → ℕ → Inode → Disk → Outcome (ℕ × Inode × Disk)
bmap_entry b bn ip s =
    if s.word b bn == 0
    then (balloc s >>= λ r. ok (r.0, ip, log_write b (set_word b bn r.0 r.1)))
    else ok (s.word b bn, ip, s)

unfoldable pub bmap : ℕ → Inode → Disk → Outcome (ℕ × Inode × Disk)
bmap bn ip s =
    if ltb bn ndirect
    then bmap_direct bn ip s
    else if ltb (bn - ndirect) nindirect
    then (bmap_direct ndirect ip s >>= λ (b, ip', t). bmap_entry b (bn - ndirect) ip' t)
    else panic "bmap: out of range"

-- IBLOCK; a block holds 8 inodes.
abbrev pub iblock : Disk → ℕ → ℕ
iblock s i = i / 8 + s.inodestart

pub iupdate : Inode → Disk → Disk
iupdate ip s = log_write (iblock s ip.inum) (record s { dinode = update s.dinode ip.inum ip })

-- The two loops of `itrunc`, from the index `i` on.
unfoldable pub free_direct : ℕ → ℕ → Inode → Disk → Outcome (Inode × Disk)
free_direct zero i ip s = ok (ip, s)
free_direct (suc n) i ip s =
    if ip.addrs i == 0
    then free_direct n (suc i) ip s
    else bfree (ip.addrs i) s >>= λ t.
        free_direct n (suc i) (record ip { addrs = update ip.addrs i 0 }) t

unfoldable pub free_entries : ℕ → ℕ → ℕ → Disk → Outcome Disk
free_entries zero b j s = ok s
free_entries (suc n) b j s =
    if s.word b j == 0
    then free_entries n b (suc j) s
    else bfree (s.word b j) s >>= λ t. free_entries n b (suc j) t

unfoldable pub free_indirect : Inode → Disk → Outcome (Inode × Disk)
free_indirect ip s =
    if ip.addrs ndirect == 0
    then ok (ip, s)
    else free_entries nindirect (ip.addrs ndirect) 0 s >>= λ t.
        bfree (ip.addrs ndirect) t >>= λ u. ok (record ip { addrs = update ip.addrs ndirect 0 }, u)

unfoldable pub itrunc : Inode → Disk → Outcome (Inode × Disk)
itrunc ip s = free_direct ndirect 0 ip s >>= λ (ip', t). free_indirect ip' t >>= λ (ip'', u).
    let empty : Inode = record ip'' { size = 0 } in ok (empty, iupdate empty u)

pub record Io : Type 0 where
  pub ip : Inode
  pub disk : Disk
  pub mem : Memory

-- What `memmove` leaves of `n` bytes, from a block to memory and from memory to a block.
abbrev pub to_memory : ℕ → (ℕ → ℕ) → ℕ → ℕ → Memory → Memory
to_memory dst block o n m a = if leb dst a && ltb a (dst + n) then block (o + (a - dst)) else m a

abbrev pub to_block : (ℕ → ℕ) → ℕ → ℕ → ℕ → Memory → ℕ → ℕ
to_block block o src n m i = if leb o i && ltb i (o + n) then m (src + (i - o)) else block i

-- The bytes of a round: up to the end of the block, or what is left.
abbrev pub part : ℕ → ℕ → ℕ
part off left = min left (bsize - off % bsize)

-- The loop of `readi`, with `left` the bytes that are left, `n - tot`.
pub read_loop : ℕ → ℕ → ℕ → ℕ → Io → Outcome Io
read_loop zero dst off left s = out_of_fuel
read_loop (suc fuel) dst off left s =
    if left == 0
    then ok s
    else bmap (off / bsize) s.ip s.disk >>= λ (b, ip', t).
        let m : ℕ = part off left in
        read_loop fuel (dst + m) (off + m) (left - m)
          (record { ip = ip'; disk = t; mem = to_memory dst (t.byte b) (off % bsize) m s.mem })

unfoldable pub write_loop : ℕ → ℕ → ℕ → ℕ → Io → Outcome Io
write_loop zero src off left s = out_of_fuel
write_loop (suc fuel) src off left s =
    if left == 0
    then ok s
    else bmap (off / bsize) s.ip s.disk >>= λ (b, ip', t).
        let m : ℕ = part off left in
        write_loop fuel (src + m) (off + m) (left - m) (record s {
          ip = ip';
          disk =
              log_write b (record t {
                byte = update t.byte b (to_block (t.byte b) (off % bsize) src m s.mem);
              });
        })

-- `devsw`: the routine of a device, where it has one. NDEV is 10.
abbrev pub Device : Type 0
Device = Inode → ℕ → ℕ → Io → Outcome (ℤ × Io)

abbrev pub use_device : (ℕ → Option Device) → ℤ → Device
use_device devsw (negsuc k) ip a n s = ok (minus_one, s)
use_device devsw (pos k) ip a n s =
    let missing = ok (minus_one, s) in
    if leb 10 k then missing else elim (devsw k) [ none ↦ missing | some d ↦ d ip a n s ]

-- The number of bytes read, or -1. A round reads a byte at least.
pub readi : (ℕ → Option Device) → ℕ → ℕ → ℕ → Io → Outcome (ℤ × Io)
readi devsw dst off n s =
    if s.ip.type == 3
    then use_device devsw s.ip.major s.ip dst n s
    else if ltb s.ip.size off || ltb (add32 off n) off
    then ok (minus_one, s)
    else let len : ℕ = if ltb s.ip.size (add32 off n) then s.ip.size - off else n in
      read_loop (len + 1) dst off len s >>= λ t. ok (pos len, t)

-- The size after `writei` has come to the offset `off`.
abbrev pub grow_size : ℕ → ℕ → Io → Io
grow_size n off s =
    let ip' : Inode = record s.ip { size = off } in
    if ltb 0 n && ltb s.ip.size off then record s { ip = ip'; disk = iupdate ip' s.disk } else s

unfoldable pub writei : (ℕ → Option Device) → ℕ → ℕ → ℕ → Io → Outcome (ℤ × Io)
writei devsw src off n s =
    if s.ip.type == 3
    then use_device devsw s.ip.major s.ip src n s
    else if ltb s.ip.size off || ltb (add32 off n) off
    then ok (minus_one, s)
    else if ltb (maxfile * bsize) (add32 off n)
    then ok (minus_one, s)
    else write_loop (n + 1) src off n s >>= λ t. ok (pos n, grow_size n (off + n) t)
