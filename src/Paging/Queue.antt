-- ===== src/Paging/Queue.antt =====
-- `updateQueue`, `insert` and `removeAQ` of proc.c on a queue of page numbers.
use c_cpp_projects.Prelude.{
  ℕ, zero, suc, ◌+◌, ◌-◌, ◌≤◌, ◌<◌, ◌≡◌, ◌≢◌, refl, ap, ◌∙◌, List, [], ◌∷◌, ◌++◌, length, arith, ℤ,
  pos, ltb, lt→ltb, length-append, if◌then◌else◌, ok, panic, fault, String,
}
use c_cpp_projects.Paging.{update_queue, put_from, insert, remove_aq}
use c_cpp_projects.Paging.Shift.{remove_at, shift_lem, pad, length-pad, remove_at-pad}

-- `updateQueue(i)` takes the page at place `i` of the queue out of it, and keeps the others in order.
pub update_queue_lem :
    (xs : List ℕ) (i : ℕ)
    → length xs ≤ 16
    → i < length xs
    → update_queue i (pad 16 xs) ≡ pad 16 (remove_at xs i)
unfolding update_queue
update_queue_lem xs i h lt =
    shift_lem 15 (15 - i) i (pad 16 xs) (length-pad 16 xs) (omega arith)
    ∙ remove_at-pad 15 i xs h lt

pub put_from_lem :
    (message : String) (x n i : ℕ) (xs : List ℕ)
    → length xs ≤ n
    → i + n ≡ 16
    → put_from message i (pos x) (pad n xs)
      ≡ (if ltb (length xs) n then ok (pad n (xs ++ x ∷ [])) else fault)
unfolding put_from
put_from_lem message x zero i [] h e = refl
put_from_lem message x zero i (y ∷ xs) h e = absurd (omega arith)
put_from_lem message x (suc n) i [] h e = ground arith
put_from_lem message x (suc n) i (y ∷ xs) h e = ground (arith, put_from_lem message x n (i + 1) xs)

-- `insert` puts a page at the end of a queue of fewer than 16. On a full queue it reads past the end
-- of the array: its own test for the end never comes to panic.
pub insert_lem :
    (x : ℕ) (xs : List ℕ)
    → length xs ≤ 16
    → insert (pos x) (pad 16 xs)
      ≡ (if ltb (length xs) 16 then ok (pad 16 (xs ++ x ∷ [])) else fault)
unfolding insert
insert_lem x xs h = put_from_lem "insert" x 16 0 xs h refl

put_from-ne-panic :
    (message m : String) (index : ℤ) (i : ℕ) (q : List ℤ)
    → i + length q ≤ 16
    → put_from message i index q ≢ panic m
unfolding put_from
put_from-ne-panic message m index i [] h = λ e. cc
put_from-ne-panic message m index i (x ∷ q) h =
    ground (arith, put_from-ne-panic message m index (i + 1) q)

-- The overflow check of `insert` is dead code: whatever the sixteen elements of the queue, and
-- whatever is inserted, `insert` never panics.
pub insert-ne-panic :
    (m : String) (index : ℤ) (q : List ℤ) → length q ≡ 16 → insert index q ≢ panic m
unfolding insert
insert-ne-panic m index q e = put_from-ne-panic "insert" m index 0 q (omega arith)

-- `removeAQ` takes the first page of a queue, so with `insert` it serves pages in the order in which
-- they came: after one more page has come, the first is still the one to go.
pub remove_aq-insert :
    (x y : ℕ) (xs : List ℕ)
    → length xs < 15
    → (insert (pos y) (pad 16 (x ∷ xs)) ≡ ok (pad 16 (x ∷ (xs ++ y ∷ []))))
      × (remove_aq (pad 16 (x ∷ (xs ++ y ∷ []))) ≡ (pos x, pad 16 (xs ++ y ∷ [])))
unfolding remove_aq
remove_aq-insert x y xs h = (
  insert_lem y (x ∷ xs) (omega arith) ∙ rw (lt→ltb (length (x ∷ xs)) 16 (omega arith)) refl,
  ap (λ q. (pos x, q))
      (update_queue_lem (x ∷ (xs ++ y ∷ [])) 0 (omega (arith, length-append xs (y ∷ [])))
        (omega arith)),
)
