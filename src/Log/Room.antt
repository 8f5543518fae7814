-- ===== src/Log/Room.antt =====
-- The room in the log that `begin_op` reserves.
use c_cpp_projects.Prelude.{
  ℕ, zero, suc, ◌+◌, ◌-◌, ◌*◌, ◌≤◌, ◌<◌, ◌≡◌, refl, sym, ◌∙◌, true, false, ◌||◌, Bool-cases, inl,
  inr, List, [], ◌∷◌, ◌++◌, length, length-append, get_elem?, set, some, some-injective, arith,
  ◌==◌, ==_self, lt_of_get_elem?, length-set, ltb, leb, if◌then◌else◌, ok, panic,
}
use c_cpp_projects.Log.{Log, begin_op, log_write, holds, logsize, maxopblocks}

-- The writes that each running operation has left, of the ten that it may make.
abbrev pub sum : List ℕ → ℕ
sum [] = 0
sum (n ∷ ns) = n + sum ns

-- Each running operation can still make all the writes it has left.
pub record Reserved (left : List ℕ) (g : Log) : Type 0 where
  pub running : g.outstanding ≡ length left
  pub room : length g.lh + sum left ≤ logsize
  pub limit : sum left ≤ length left * maxopblocks

-- `begin_op` lets an operation start just if no commit is on its way and ten more blocks for it, and
-- for each operation that runs, fit in the log. Then its ten writes are reserved with those of the
-- others.
pub begin_op_lem :
    (g : Log) (left : List ℕ)
    → Reserved left g
    → ltb logsize (length g.lh + (g.outstanding + 1) * maxopblocks) ≡ false
    → g.committing ≡ false
    → (begin_op g ≡ (true, record g { outstanding = g.outstanding + 1 }))
      × Reserved (maxopblocks ∷ left) (record g { outstanding = g.outstanding + 1 })
unfolding begin_op
begin_op_lem g left r fits idle = (
  rw (idle, fits) refl,
  record {
    running = omega (arith, r.running);
    room = fit (length g.lh) g.outstanding (length left) (sum left) r.running r.limit fits;
    limit = omega (arith, r.limit);
  },
)
  where
    fit : (n o l s : ℕ) → o ≡ l → s ≤ l * 10 → ltb 30 (n + (o + 1) * 10) ≡ false → n + (10 + s) ≤ 30
    fit n o l s e le f = ground arith

sum-set :
    (left : List ℕ) (i m : ℕ)
    → get_elem? left i ≡ some (suc m)
    → suc (sum (set left i m)) ≡ sum left
sum-set [] i m e = cc
sum-set (n ∷ left) zero m e = omega (arith, some-injective n (suc m) e)
sum-set (n ∷ left) (suc i) m e = omega (arith, sum-set left i m e)

absorbed :
    (g : Log) (b : ℕ) (left : List ℕ)
    → holds g.lh b ≡ true
    → leb logsize (length g.lh) || leb (g.size - 1) (length g.lh) ≡ false
    → ltb g.outstanding 1 ≡ false
    → log_write b g ≡ ok g
unfolding log_write
absorbed g b left h p q = rw (p, q, h) refl

appended :
    (g : Log) (b : ℕ) (left : List ℕ)
    → holds g.lh b ≡ false
    → leb logsize (length g.lh) || leb (g.size - 1) (length g.lh) ≡ false
    → ltb g.outstanding 1 ≡ false
    → log_write b g ≡ ok (record g { lh = g.lh ++ b ∷ [] })
unfolding log_write
appended g b left h p q = rw (p, q, h) refl

-- The block is in the log's list.
holds-snoc : (xs : List ℕ) (b : ℕ) → holds (xs ++ b ∷ []) b ≡ true
holds-snoc [] b = rw (==_self b) refl
holds-snoc (x ∷ xs) b = elim (Bool-cases (x == b)) [
  | inl e ↦ rw e refl
  | inr e ↦ rw (e, holds-snoc xs b) refl
]

log_write-room :
    (g : Log) (left : List ℕ) (b i m : ℕ)
    → Reserved left g
    → length g.lh + 1 < g.size
    → get_elem? left i ≡ some (suc m)
    → (h : Log) × (log_write b g ≡ ok h)
      × (holds h.lh b ≡ true)
      × (h.lh ≡ (if holds g.lh b then g.lh else g.lh ++ b ∷ []))
      × Reserved (set left i m) h
log_write-room g left b i m r big at =
    let s = sum-set left i m at in
    let lt : length g.lh < 30 = omega (arith, r.room, s) in
    let full : leb logsize (length g.lh) || leb (g.size - 1) (length g.lh) ≡ false =
      no_panic (length g.lh) g.size lt big in
    let some_left = lt_of_get_elem? left i (suc m) at in
    let outside : ltb g.outstanding 1 ≡ false =
      busy g.outstanding (omega (arith, r.running, some_left)) in
    elim (Bool-cases (holds g.lh b)) [
      | inl h ↦ (
        g,
        absorbed g b left h full outside,
        h,
        rw h refl,
        record {
          running = r.running ∙ sym (length-set left i m);
          room = omega (arith, r.room, s);
          limit = omega (arith, r.limit, s, length-set left i m);
        },
      )
      | inr h ↦ (
        record g { lh = g.lh ++ b ∷ [] },
        appended g b left h full outside,
        holds-snoc g.lh b,
        rw h refl,
        record {
          running = r.running ∙ sym (length-set left i m);
          room = omega (arith, r.room, s, length-append g.lh (b ∷ []));
          limit = omega (arith, r.limit, s, length-set left i m);
        },
      )
    ]
  where
    no_panic : (n z : ℕ) → n < 30 → n + 1 < z → leb 30 n || leb (z - 1) n ≡ false
    no_panic n z lt gt = ground arith

    busy : (o : ℕ) → 0 < o → ltb o 1 ≡ false
    busy o lt = ground arith

-- An operation that has reserved room and still has writes left. If fewer than `log.size - 1` blocks
-- are logged, `log_write` does not panic: the block is in the log's list after it, once, and the
-- writes left to all operations are still reserved. Otherwise `log_write` panics, in spite of the
-- reservation: `begin_op` counts with LOGSIZE blocks, and mkfs.c makes a log of LOGSIZE blocks with
-- the header, so the last of them does not fit.
pub log_write_lem :
    (g : Log) (left : List ℕ) (b i m : ℕ)
    → Reserved left g
    → get_elem? left i ≡ some (suc m)
    → (length g.lh + 1 < g.size
        → (h : Log) × (log_write b g ≡ ok h)
          × (holds h.lh b ≡ true)
          × (h.lh ≡ (if holds g.lh b then g.lh else g.lh ++ b ∷ []))
          × Reserved (set left i m) h)
      × (g.size ≤ length g.lh + 1 → log_write b g ≡ panic "too big a transaction")
unfolding log_write
log_write_lem g left b i m r at = (
  λ big. log_write-room g left b i m r big at,
  λ full.
      let over : leb logsize (length g.lh) || leb (g.size - 1) (length g.lh) ≡ true =
        no_room (length g.lh) g.size full in
      rw (over) refl,
)
  where
    no_room : (n z : ℕ) → z ≤ n + 1 → leb 30 n || leb (z - 1) n ≡ true
    no_room n z h = ground arith
