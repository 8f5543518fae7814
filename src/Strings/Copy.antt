-- ===== src/Strings/Copy.antt =====
-- `safestrcpy`, `memset` and `strlen`.
use c_cpp_projects.Prelude.{
  ℕ, zero, suc, ◌+◌, ◌^◌, ◌≤◌, ◌<◌, ◌≡◌, ◌≢◌, inl, inr, refl, sym, ap, ◌∙◌, arith, ℕ_discrete,
  ==_iff, ==_of_ne, ok, update, update_self, update_ne,
}
use c_cpp_projects.Strings.{Memory, copy_from, safestrcpy, strlen_from, strlen}
use c_cpp_projects.Strings.Move.{Outside}

-- A string that ends with a zero stands at `s`, in at most `n` bytes.
pub record Ends (s n : ℕ) (m : Memory) : Type 0 where
  pub len : ℕ
  pub short : len < n
  pub zero_there : m (s + len) ≡ 0
  pub before : (i : ℕ) → i < len → m (s + i) ≢ 0

-- What a copy to `s` of at most `n` bytes and a zero leaves.
pub record Copied (s t n : ℕ) (before after : Memory) : Type 0 where
  pub ends : Ends s (suc n) after
  pub same : (i : ℕ) → i < ends.len → after (s + i) ≡ before (t + i)
  pub others : (x : ℕ) → Outside s (suc n) x → after x ≡ before x

-- The source is out of the way of the copy.
abbrev pub Apart : ℕ → ℕ → ℕ → Type 0
Apart s t n = (i j : ℕ) → i ≤ n → j ≤ n → s + i ≢ t + j

update_at : (m : Memory) (x y v : ℕ) → y ≡ x → update m x v y ≡ v
update_at m x y v e = ap (update m x v) e ∙ update_self m x v

Outside-head : (s n x : ℕ) → Outside s (suc n) x → x ≢ s
Outside-head s n x (inl l) e = absurd (omega arith)
Outside-head s n x (inr l) e = absurd (omega arith)

Outside-next : (s n x : ℕ) → Outside s (suc n) x → Outside (suc s) n x
Outside-next s n x (inl l) = inl (omega arith)
Outside-next s n x (inr l) = inr (omega arith)

at_end :
    (s t n : ℕ) (m : Memory) → m t ≡ 0 → Copied s t (suc n) m (update (update m s (m t)) (suc s) 0)
at_end s t n m e = record {
  ends = record {
    len = 0;
    short = omega arith;
    zero_there =
        update_ne (update m s (m t)) (suc s) (s + 0) 0 (λ z. absurd (omega arith))
        ∙ update_at m s (s + 0) (m t) (omega arith)
        ∙ e;
    before = λ i lt. absurd (omega arith);
  };
  same = λ i lt. absurd (omega arith);
  others = λ x o.
      update_ne (update m s (m t)) (suc s) x 0
        (Outside-head (suc s) n x (Outside-next s (suc n) x o))
      ∙ update_ne m s x (m t) (Outside-head s (suc n) x o);
}

-- One more byte, which is not zero, in front of what the rest of the loop copies.
module _ (s t n : ℕ) (m after : Memory) (ne : m t ≢ 0) (a : Apart s t (suc n))
    (r : Copied (suc s) (suc t) n (update m s (m t)) after) where
  first : (i : ℕ) → i ≡ 0 → after (s + i) ≡ m (t + i)
  first i z =
      let here : s + i ≡ s = omega arith in
      let there : t ≡ t + i = omega arith in
      ap after here ∙ r.others s (inl (omega arith)) ∙ update_self m s (m t) ∙ ap m there

  copied : (i : ℕ) → i < suc r.ends.len → after (s + i) ≡ m (t + i)
  copied zero lt = first zero refl
  copied (suc j) lt =
      let here : s + suc j ≡ suc s + j = omega arith in
      let there : suc t + j ≡ t + suc j = omega arith in
      let short = r.ends.short in
      ap after here
      ∙ r.same j (omega arith)
      ∙ update_ne m s (suc t + j) (m t) (λ e. a 0 (suc j) (omega arith) (omega arith) (omega arith))
      ∙ ap m there

  nonzero : (i : ℕ) → i < suc r.ends.len → after (s + i) ≢ 0
  nonzero zero lt e =
      let there : t + 0 ≡ t = omega arith in
      absurd (ne (ap m (sym there) ∙ sym (first zero refl) ∙ e))
  nonzero (suc j) lt e =
      let here : s + suc j ≡ suc s + j = omega arith in
      absurd (r.ends.before j (omega arith) (ap after (sym here) ∙ e))

  extended : Copied s t (suc n) m after
  extended =
      let end : s + suc r.ends.len ≡ suc s + r.ends.len = omega arith in
      record {
        ends = record {
          len = suc r.ends.len;
          short = omega (arith, r.ends.short);
          zero_there = ap after end ∙ r.ends.zero_there;
          before = nonzero;
        };
        same = copied;
        others = λ x o.
            r.others x (Outside-next s (suc n) x o)
            ∙ update_ne m s x (m t) (Outside-head s (suc n) x o);
      }

Apart-next : (s t n : ℕ) → Apart s t (suc n) → Apart (suc s) (suc t) n
Apart-next s t n a i j li lj e = a (suc i) (suc j) (omega arith) (omega arith) (omega arith)

copy_from_lem : (s t n : ℕ) (m : Memory) → Apart s t n → Copied s t n m (copy_from s t n m)
unfolding copy_from
copy_from_lem s t zero m a = record {
  ends = record {
    len = 0;
    short = omega arith;
    zero_there = update_at m s (s + 0) 0 (omega arith);
    before = λ i lt. absurd (omega arith);
  };
  same = λ i lt. absurd (omega arith);
  others = λ x o. update_ne m s x 0 (Outside-head s 0 x o);
}
copy_from_lem s t (suc n) m a = elim (ℕ_discrete (m t) 0) [
  | yes e ↦ rw ((==_iff (m t) 0).1 e) (at_end s t n m e)
  | no ne ↦ rw (==_of_ne (m t) 0 ne) (
      extended s t n m _ ne a
        (copy_from_lem (suc s) (suc t) n (update m s (m t)) (Apart-next s t n a)))
]

-- With room for `n + 1` bytes that the source is out of the way of, `safestrcpy` leaves a string that
-- ends within them, whatever the source: its bytes are the first of the source, none of them zero,
-- and no byte outside of the room changes.
pub safestrcpy_lem :
    (s t n : ℕ) (m : Memory) → Apart s t n → Copied s t n m (safestrcpy s t (suc n) m)
unfolding safestrcpy
safestrcpy_lem s t n m a = copy_from_lem s t n m a

strlen_from_lem :
    (fuel s n k : ℕ) (m : Memory)
    → k < fuel
    → m (s + (n + k)) ≡ 0
    → ((i : ℕ) → i < k → m (s + (n + i)) ≢ 0)
    → strlen_from fuel s n m ≡ ok (n + k)
unfolding strlen_from
strlen_from_lem zero s n k m lt z h = absurd (omega arith)
strlen_from_lem (suc fuel) s n zero m lt z h =
    let here : n + 0 ≡ n = omega arith in
    rw ((==_iff (m (s + n)) 0).1 (ap (λ j. m (s + j)) (sym here) ∙ z)) (ap ok (sym here))
strlen_from_lem (suc fuel) s n (suc k) m lt z h =
    let here : n + 0 ≡ n = omega arith in
    let next : (i : ℕ) → suc n + i ≡ n + suc i = λ i. omega arith in
    rw (==_of_ne (m (s + n)) 0 (λ e. h 0 (omega arith) (ap (λ j. m (s + j)) here ∙ e))) (
      strlen_from_lem fuel s (suc n) k m (omega arith) (ap (λ j. m (s + j)) (next k) ∙ z)
        (λ i li e. h (suc i) (omega arith) (ap (λ j. m (s + j)) (sym (next i)) ∙ e))
      ∙ ap ok (next k))

-- `strlen` of a string that ends before 2 ^ 32 bytes returns the place of the first zero.
pub strlen_lem :
    (s k : ℕ) (m : Memory)
    → k < 2 ^ 32
    → m (s + k) ≡ 0
    → ((i : ℕ) → i < k → m (s + i) ≢ 0)
    → strlen s m ≡ ok k
unfolding strlen
strlen_lem s k m lt z h =
    let here : (i : ℕ) → 0 + i ≡ i = λ i. omega arith in
    strlen_from_lem 4294967296 s 0 k m lt (ap (λ j. m (s + j)) (here k) ∙ z)
      (λ i li e. h i li (ap (λ j. m (s + j)) (sym (here i)) ∙ e))
    ∙ ap ok (here k)
