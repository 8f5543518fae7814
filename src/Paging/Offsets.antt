-- ===== src/Paging/Offsets.antt =====
-- The offsets of the swap file: `updateOffsetQueue`, `removeOffsetQueue`, `insertOffsetQueue` and
-- `getFreeFileOffset` of proc.c.
use c_cpp_projects.Prelude.{
  ◌*◌, ◌%◌, subst, length-append, append_assoc, ℕ, ◌+◌, ◌≤◌, ◌<◌, ◌^◌, ◌≡◌, ◌≢◌, refl, sym, ap, ap₂,
  ◌∙◌, List, [], ◌∷◌, ◌++◌, length, get_or, arith, ℤ, pos, minus_one, eq_ℤ, signed32, lt→ltb,
  if◌then◌else◌, Outcome, ok, add32, All, All-mono, NotIn, Distinct,
}
use c_cpp_projects.Paging.{Proc, shift, put_from}
use c_cpp_projects.Paging.Shift.{shift_lem, pad, length-pad, remove_at-pad}
use c_cpp_projects.Paging.Queue.{put_from_lem}

pub update_offset_queue : List ℤ → List ℤ
update_offset_queue q = shift 15 15 0 q

pub remove_offset_queue : Proc → ℤ × Proc
unfolding update_offset_queue
remove_offset_queue p =
    let index = get_or p.offset_queue 0 minus_one in
    if eq_ℤ index minus_one
    then (index, p)
    else (index, record p { offset_queue = update_offset_queue p.offset_queue })

pub insert_offset_queue : ℤ → List ℤ → Outcome (List ℤ)
insert_offset_queue index q = put_from "overflow - insertOffsetQueue" 0 index q

pub get_free_file_offset : Proc → ℤ × Proc
unfolding remove_offset_queue
get_free_file_offset p =
    let (result, q) = remove_offset_queue p in
    if eq_ℤ result minus_one
    then (signed32 q.file_offset, record q { file_offset = add32 q.file_offset 4096 })
    else (result, q)

-- The slots of the swap file, a page each: those that pages hold, and those that wait in the queue.
-- They begin at multiples of the page size, no slot is in both lists, or twice in one, and together
-- they are all the slots below `file_offset`.
pub record Slots (held : List ℕ) (p : Proc) : Type 0 where
  pub free : List ℕ
  pub queue : p.offset_queue ≡ pad 16 free
  pub room : length free ≤ 16
  pub distinct : Distinct (free ++ held)
  pub below : All (λ v. v < p.file_offset) (free ++ held)
  pub aligned : All (λ v. v % 4096 ≡ 0) (free ++ held)
  pub all : length (free ++ held) * 4096 ≡ p.file_offset

NotIn-below : (n : ℕ) (xs : List ℕ) → All (λ v. v < n) xs → NotIn n xs
NotIn-below n [] h = tt
NotIn-below n (x ∷ xs) h = ((λ e. absurd (omega arith)), NotIn-below n xs h.1)

NotIn-append : (x : ℕ) (xs ys : List ℕ) → NotIn x (xs ++ ys) → NotIn x ys
NotIn-append x [] ys h = h
NotIn-append x (z ∷ xs) ys h = NotIn-append x xs ys h.1

NotIn-swap :
    (x : ℕ) (xs : List ℕ) (y : ℕ) (ys : List ℕ)
    → y ≢ x
    → NotIn x (xs ++ ys)
    → NotIn x (xs ++ y ∷ ys)
NotIn-swap x [] y ys ne h = (ne, h)
NotIn-swap x (z ∷ xs) y ys ne h = (h.0, NotIn-swap x xs y ys ne h.1)

NotIn-swap_back :
    (x : ℕ) (xs : List ℕ) (y : ℕ) (ys : List ℕ)
    → NotIn x (xs ++ y ∷ ys)
    → (y ≢ x) × NotIn x (xs ++ ys)
NotIn-swap_back x [] y ys h = h
NotIn-swap_back x (z ∷ xs) y ys h = let r = NotIn-swap_back x xs y ys h.1 in (r.0, (h.0, r.1))

-- An element may stand in front of a list or in the middle of it.
Distinct-move :
    (x : ℕ) (xs ys : List ℕ) → NotIn x (xs ++ ys) → Distinct (xs ++ ys) → Distinct (xs ++ x ∷ ys)
Distinct-move x [] ys out d = (out, d)
Distinct-move x (z ∷ xs) ys out d =
    (NotIn-swap z xs x ys (λ e. out.0 (sym e)) d.0, Distinct-move x xs ys out.1 d.1)

Distinct-move_back :
    (x : ℕ) (xs ys : List ℕ) → Distinct (xs ++ x ∷ ys) → NotIn x (xs ++ ys) × Distinct (xs ++ ys)
Distinct-move_back x [] ys d = d
Distinct-move_back x (z ∷ xs) ys d =
    let r = Distinct-move_back x xs ys d.1 in
    let s = NotIn-swap_back z xs x ys d.0 in (((λ e. s.0 (sym e)), r.0), (s.1, r.1))

All-move {ℓ} :
    (P : ℕ → Type ℓ) (x : ℕ) (xs ys : List ℕ) → P x → All P (xs ++ ys) → All P (xs ++ x ∷ ys)
All-move P x [] ys p h = (p, h)
All-move P x (z ∷ xs) ys p h = (h.0, All-move P x xs ys p h.1)

All-move_back {ℓ} :
    (P : ℕ → Type ℓ) (x : ℕ) (xs ys : List ℕ) → All P (xs ++ x ∷ ys) → P x × All P (xs ++ ys)
All-move_back P x [] ys h = h
All-move_back P x (z ∷ xs) ys h = let r = All-move_back P x xs ys h.1 in (r.0, (h.0, r.1))

signed32_pos : (w : ℕ) → w < 2 ^ 31 → signed32 w ≡ pos w
signed32_pos w h = rw (lt→ltb w (2 ^ 31) h) refl

next_lem :
    (p : Proc) (held : List ℕ) (free : List ℕ)
    → p.offset_queue ≡ pad 16 free
    → length free ≤ 16
    → Distinct (free ++ held)
    → All (λ v. v < p.file_offset) (free ++ held)
    → All (λ v. v % 4096 ≡ 0) (free ++ held)
    → length (free ++ held) * 4096 ≡ p.file_offset
    → length held ≤ 32
    → (v : ℕ) × (q : Proc) × (get_free_file_offset p ≡ (pos v, q))
      × NotIn v held
      × Slots (v ∷ held) q
unfolding get_free_file_offset
next_lem p held [] q l d b a c h = (
  p.file_offset,
  record p { offset_queue = pad 16 []; file_offset = p.file_offset + 4096 },
  ap (λ t. get_free_file_offset (record p { offset_queue = t })) q
      ∙ ap₂ (λ f c. (f, record p { offset_queue = pad 16 []; file_offset = c }))
          (signed32_pos p.file_offset (omega arith)) (omega arith),
  NotIn-below p.file_offset held b,
  record {
    free = [];
    queue = refl;
    room = l;
    distinct = (NotIn-below p.file_offset held b, d);
    below = (omega arith, All-mono held (λ v lt. omega arith) b);
    aligned = (omega (arith, c), a);
    all = omega (arith, c);
  },
)
next_lem p held (v ∷ free) q l d b a c h = (
  v,
  record p { offset_queue = pad 16 free },
  ap (λ t. get_free_file_offset (record p { offset_queue = t })) q
      ∙ ap (λ t. (pos v, record p { offset_queue = t }))
          (shift_lem 15 15 0 (pad 16 (v ∷ free)) (length-pad 16 (v ∷ free)) refl
            ∙ remove_at-pad 15 0 (v ∷ free) l (omega arith)),
  NotIn-append v free held d.0,
  record {
    free = free;
    queue = refl;
    room = omega arith;
    distinct = Distinct-move v free held d.0 d.1;
    below = All-move (λ w. w < p.file_offset) v free held b.0 b.1;
    aligned = All-move (λ w. w % 4096 ≡ 0) v free held a.0 a.1;
    all = omega (arith, c, length-append free (v ∷ held), length-append free held);
  },
)

-- A process with up to MAX_TOTAL_PAGES pages in the swap file: `getFreeFileOffset` hands out a slot
-- that no page holds, whether it was used before or is new at the end of the file, and after it the
-- slots are still whole pages of the file, none shared and none lost. It never gives -1, and the end
-- of the file stays in the range of an `int`.
pub get_free_file_offset_lem :
    (p : Proc) (held : List ℕ)
    → Slots held p
    → length held ≤ 32
    → (v : ℕ) × (q : Proc) × (get_free_file_offset p ≡ (pos v, q))
      × NotIn v held
      × Slots (v ∷ held) q
get_free_file_offset_lem p held s h =
    next_lem p held s.free s.queue s.room s.distinct s.below s.aligned s.all h

-- `insertOffsetQueue` gives a slot back: with fewer than 16 slots in the queue it does not fail, and
-- the slot is a free one from then on.
pub insert_offset_queue_lem :
    (p : Proc) (v : ℕ) (held : List ℕ) (s : Slots (v ∷ held) p)
    → length s.free < 16
    → (q : List ℤ) × (insert_offset_queue (pos v) p.offset_queue ≡ ok q)
      × Slots held (record p { offset_queue = q })
unfolding insert_offset_queue
insert_offset_queue_lem p v held s lt = (
  pad 16 (s.free ++ v ∷ []),
  ap (insert_offset_queue (pos v)) s.queue
      ∙ put_from_lem "overflow - insertOffsetQueue" v 16 0 s.free s.room refl
      ∙ rw (lt→ltb (length s.free) 16 lt) refl,
  record {
    free = s.free ++ v ∷ [];
    queue = refl;
    room = omega (arith, length-append s.free (v ∷ []));
    distinct = subst Distinct (sym (append_assoc s.free (v ∷ []) held)) s.distinct;
    below = subst (All (λ w. w < p.file_offset)) (sym (append_assoc s.free (v ∷ []) held)) s.below;
    aligned = subst (All (λ w. w % 4096 ≡ 0)) (sym (append_assoc s.free (v ∷ []) held)) s.aligned;
    all = ap (λ xs. length xs * 4096) (append_assoc s.free (v ∷ []) held) ∙ s.all;
  },
)
