-- ===== src/Fs/File/Map.antt =====
-- The blocks of a file: which block holds which part, and what a new block changes.
pub mod Place
pub mod Bmap
use c_cpp_projects.Prelude.{
  ℕ, zero, suc, ◌+◌, ◌-◌, ◌*◌, ◌/◌, ◌%◌, ◌<◌, ◌≤◌, ◌≡◌, ◌≢◌, ◌⊎◌, inl, inr, refl, sym, ap, subst,
  ◌∙◌, Bool, true, false, arith, ◌==◌, ltb, if◌then◌else◌, ℕ_discrete, dec_lt, ==_of_ne, ==_self,
  lt→ltb, ◌∷◌, List,
}
use c_cpp_projects.Fs.{Disk, Inode, bblock, ndirect}
use c_cpp_projects.Fs.Free.{used, IsValid, Taken, bblock_ne}

-- The block in each of the 141 places of an inode: the direct blocks, the indirect block at 12, and
-- then the blocks that it lists. 0 where there is none.
unfoldable pub block_at : Inode → Disk → ℕ → ℕ
block_at ip s k =
    if ltb k 13
    then ip.addrs k
    else if ip.addrs ndirect == 0
    then 0
    else s.word (ip.addrs ndirect) (k - 13)

pub block_at_direct : (ip : Inode) (s : Disk) (k : ℕ) → k < 13 → block_at ip s k ≡ ip.addrs k
unfolding block_at
block_at_direct ip s k h = rw (lt→ltb k 13 h) refl

pub block_at_entry :
    (ip : Inode) (s : Disk) (j : ℕ)
    → ip.addrs ndirect ≢ 0
    → block_at ip s (13 + j) ≡ s.word (ip.addrs ndirect) j
unfolding block_at
block_at_entry ip s j n =
    let far : ltb (13 + j) 13 ≡ false = ground arith in
    let at : 13 + j - 13 ≡ j = omega arith in rw (far, ==_of_ne (ip.addrs ndirect) 0 n, at) refl

pub block_at_none :
    (ip : Inode) (s : Disk) (j : ℕ) → ip.addrs ndirect ≡ 0 → block_at ip s (13 + j) ≡ 0
unfolding block_at
block_at_none ip s j n = let far : ltb (13 + j) 13 ≡ false = ground arith in rw (far, n) refl

-- The place of the `bn`-th block of the file.
abbrev pub slot : ℕ → ℕ
slot bn = if ltb bn ndirect then bn else bn + 1

-- The byte of the file at an offset, 0 in a hole.
abbrev pub content : Inode → Disk → ℕ → ℕ
content ip s o =
    let b : ℕ = block_at ip s (slot (o / 512)) in if b == 0 then 0 else s.byte b (o % 512)

pub slot_lt : (bn : ℕ) → bn < 140 → slot bn < 141
slot_lt bn h = elim (dec_lt bn ndirect) [
  | yes c ↦ rw (lt→ltb bn ndirect c) (omega arith)
  | no c ↦ let f : ltb bn ndirect ≡ false = ground (arith, c) in rw (f) (omega arith)
]

-- The blocks of the file are blocks of the disk, in use, none of the map's, and all different; block 0
-- is none of them, since it is in use.
pub record Sound (ip : Inode) (s : Disk) : Type 0 where
  pub valid : IsValid s
  pub boot : used s 0 ≡ 1
  pub inside : (k : ℕ) → k < 141 → block_at ip s k ≢ 0 → block_at ip s k < s.size
  pub held : (k : ℕ) → k < 141 → block_at ip s k ≢ 0 → used s (block_at ip s k) ≡ 1
  pub no_map : (k c : ℕ) → k < 141 → c < s.size → block_at ip s k ≢ 0 → block_at ip s k ≢ bblock s c
  pub distinct :
      (k l : ℕ)
      → k < 141
      → l < 141
      → k ≢ l
      → block_at ip s k ≢ 0
      → block_at ip s k ≢ block_at ip s l

-- The place `k`, so far empty, has got the new block `b`; `words` and `logged` are what is written
-- after that.
module _ (ip ip' : Inode) (s t : Disk) (b k : ℕ) (words : ℕ → ℕ → ℕ) (logged : List ℕ)
    (h : Sound ip s) (new : Taken s t b) (hk : k < 141) (empty : block_at ip s k ≡ 0)
    (gained : block_at ip' (record t { word = words; logged = logged }) k ≡ b)
    (same : (l : ℕ)
      → l < 141
      → l ≢ k
      → block_at ip' (record t { word = words; logged = logged }) l ≡ block_at ip s l) where
  abbrev u : Disk
  u = record t { word = words; logged = logged }

  new_ne : b ≢ 0
  new_ne e = let old = h.boot in let free = new.free in omega (arith, (rw (e) at free), old)

  -- A block that is in use is not the new one.
  old_ne : (c : ℕ) → used s c ≡ 1 → c ≢ b
  old_ne c m e = let free = new.free in omega (arith, (rw (e) at m), free)

  kept : (l : ℕ) → l < 141 → l ≢ k → block_at ip s l ≢ 0 → used u (block_at ip s l) ≡ 1
  kept l hl n some =
      new.others (block_at ip s l) (h.inside l hl some)
        (old_ne (block_at ip s l) (h.held l hl some))
      ∙ h.held l hl some

  -- The new block is none of the file's.
  new_apart : (l : ℕ) → l < 141 → b ≢ block_at ip s l
  new_apart l hl e =
      let some : block_at ip s l ≢ 0 = λ z. new_ne (e ∙ z) in
      old_ne (block_at ip s l) (h.held l hl some) (sym e)

  gained_distinct :
      (l m : ℕ)
      → l < 141
      → m < 141
      → l ≢ m
      → block_at ip' u l ≢ 0
      → block_at ip' u l ≢ block_at ip' u m
  gained_distinct l m hl hm n some = elim (ℕ_discrete l k) [
    | yes e ↦
        let other : m ≢ k = λ q. n (e ∙ sym q) in rw (e, gained, same m hm other) (new_apart m hm)
    | no e ↦ elim (ℕ_discrete m k) [
      | yes q ↦ rw (same l hl e, q, gained) (λ z. new_apart l hl (sym z))
      | no q ↦ rw (same l hl e, same m hm q) (h.distinct l m hl hm n (rw (same l hl e) at some))
    ]
  ]

  pub gained-Sound : Sound ip' u
  gained-Sound = record {
    valid = record { marked = new.valid.marked; room = new.valid.room };
    boot = new.others 0 (omega (arith, new.inside)) (old_ne 0 h.boot) ∙ h.boot;
    inside = λ l hl some. elim (ℕ_discrete l k) [
      | yes e ↦ rw (e, gained, new.same_size) new.inside
      | no n ↦ rw (same l hl n, new.same_size) (h.inside l hl (rw (same l hl n) at some))
    ];
    held = λ l hl some. elim (ℕ_discrete l k) [
      | yes e ↦ rw (e, gained) new.taken
      | no n ↦ rw (same l hl n) (kept l hl n (rw (same l hl n) at some))
    ];
    no_map = λ l c hl hc some.
        let hc' : c < s.size = rw (new.same_size) at hc in
        elim (ℕ_discrete l k) [
          | yes e ↦ rw (e, gained, new.same_map) (λ q. bblock_ne s b c h.valid new.free hc' (sym q))
          | no n ↦ rw (same l hl n, new.same_map) (h.no_map l c hl hc' (rw (same l hl n) at some))
        ];
    distinct = gained_distinct;
  }

  -- A new block reads like the hole that it fills.
  pub content-gained : (o : ℕ) → o < 140 * 512 → content ip' u o ≡ content ip s o
  content-gained o ho = elim (ℕ_discrete (slot (o / 512)) k) [
    | yes e ↦ rw (e, gained, empty, ==_of_ne b 0 new_ne) (new.zero_bytes (o % 512))
    | no n ↦
        let hl : slot (o / 512) < 141 = slot_lt (o / 512) (omega arith) in
        elim (ℕ_discrete (block_at ip s (slot (o / 512))) 0) [
          | yes z ↦ rw (same (slot (o / 512)) hl n, z) refl
          | no z ↦
              rw (same (slot (o / 512)) hl n, ==_of_ne (block_at ip s (slot (o / 512))) 0 z)
                (new.bytes (block_at ip s (slot (o / 512))) (o % 512)
                  (old_ne (block_at ip s (slot (o / 512))) (h.held (slot (o / 512)) hl z))
                  (h.no_map (slot (o / 512)) b hl new.inside z))
        ]
  ]
