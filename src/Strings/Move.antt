-- ===== src/Strings/Move.antt =====
-- `memmove` and `memset`, also where the ranges overlap.
use c_cpp_projects.Prelude.{
  ℕ, zero, suc, ◌+◌, ◌≤◌, ◌<◌, ◌≡◌, ◌≢◌, ◌⊎◌, inl, inr, refl, sym, ap, ◌∙◌, ◌&&◌, true, false,
  Bool-cases, arith, ℕ_discrete, ltb, update, update_self, update_ne,
}
use c_cpp_projects.Strings.{Memory, memmove, move_back, move_forward}

-- The address is not one of the `n` from `dst` on.
abbrev pub Outside : ℕ → ℕ → ℕ → Type 0
Outside dst n x = (x < dst) ⊎ (dst + n ≤ x)

-- The `n` bytes from `dst` on are those that stood from `src` on before, and the others are as before.
pub record Moved (dst src n : ℕ) (before after : Memory) : Type 0 where
  pub inside : (i : ℕ) → i < n → after (dst + i) ≡ before (src + i)
  pub outside : (x : ℕ) → Outside dst n x → after x ≡ before x

pub Outside-ne : (dst n i x : ℕ) → i < n → Outside dst n x → x ≢ dst + i
Outside-ne dst n i x lt o e = absurd (omega arith)

move_back_lem : (dst src n : ℕ) (m : Memory) → src ≤ dst → Moved dst src n m (move_back dst src n m)
unfolding move_back
move_back_lem dst src zero m le = record {
  inside = λ i lt. absurd (omega arith);
  outside = λ x o. refl;
}
move_back_lem dst src (suc n) m le =
    let v = m (src + n) in
    let r = move_back_lem dst src n (update m (dst + n) v) le in
    record {
      inside = λ i lt. elim (ℕ_discrete i n) [
        | yes e ↦
            r.outside (dst + i) (inr (omega arith))
            ∙ ap (update m (dst + n) v) (ap (◌+◌ dst) e)
            ∙ update_self m (dst + n) v
            ∙ ap (λ k. m (src + k)) (sym e)
        | no ne ↦
            r.inside i (omega (arith, ne))
            ∙ update_ne m (dst + n) (src + i) v (λ e. absurd (omega arith))
      ];
      outside = λ x o.
          r.outside x (elim o [ inl l ↦ inl l | inr l ↦ inr (omega arith) ])
          ∙ update_ne m (dst + n) x v (Outside-ne dst (suc n) n x (omega arith) o);
    }

forward_ne :
    (dst src n j : ℕ) → (dst ≤ src) ⊎ (src + suc n ≤ dst) → suc j < suc n → suc src + j ≢ dst
forward_ne dst src n j (inl l) lt e = absurd (omega arith)
forward_ne dst src n j (inr l) lt e = absurd (omega arith)

forward_inside :
    (dst src n i : ℕ) (m after : Memory)
    → (dst ≤ src) ⊎ (src + suc n ≤ dst)
    → Moved (suc dst) (suc src) n (update m dst (m src)) after
    → i < suc n
    → after (dst + i) ≡ m (src + i)
forward_inside dst src n zero m after h r lt =
    let d : dst + 0 ≡ dst = omega arith in
    let s : src ≡ src + 0 = omega arith in
    ap after d ∙ r.outside dst (inl (omega arith)) ∙ update_self m dst (m src) ∙ ap m s
forward_inside dst src n (suc j) m after h r lt =
    let d : dst + suc j ≡ suc dst + j = omega arith in
    let s : suc src + j ≡ src + suc j = omega arith in
    ap after d
    ∙ r.inside j (omega arith)
    ∙ update_ne m dst (suc src + j) (m src) (forward_ne dst src n j h lt)
    ∙ ap m s

move_forward_lem :
    (dst src n : ℕ) (m : Memory)
    → (dst ≤ src) ⊎ (src + n ≤ dst)
    → Moved dst src n m (move_forward dst src n m)
unfolding move_forward
move_forward_lem dst src zero m h = record {
  inside = λ i lt. absurd (omega arith);
  outside = λ x o. refl;
}
move_forward_lem dst src (suc n) m h =
    let r = move_forward_lem (suc dst) (suc src) n (update m dst (m src)) (next h) in
    record {
      inside = λ i lt. forward_inside dst src n i m _ h r lt;
      outside = λ x o.
          r.outside x (elim o [ inl l ↦ inl (omega arith) | inr l ↦ inr (omega arith) ])
          ∙ update_ne m dst x (m src)
              (λ e. absurd (Outside-ne dst (suc n) 0 x (omega arith) o (omega arith)));
    }
  where
    next : (dst ≤ src) ⊎ (src + suc n ≤ dst) → (suc dst ≤ suc src) ⊎ (suc src + n ≤ suc dst)
    next (inl l) = inl (omega arith)
    next (inr l) = inr (omega arith)

-- `memmove` copies `n` bytes as if through a buffer, however the two ranges overlap: the destination
-- holds what the source held before, and no other byte changes.
pub memmove_lem : (dst src n : ℕ) (m : Memory) → Moved dst src n m (memmove dst src n m)
unfolding memmove
memmove_lem dst src n m = elim (Bool-cases (ltb src dst && ltb dst (src + n))) [
  | inl e ↦ rw e (move_back_lem dst src n m (behind e))
  | inr e ↦ rw e (move_forward_lem dst src n m (apart e))
]
  where
    behind : ltb src dst && ltb dst (src + n) ≡ true → src ≤ dst
    behind e = ground arith

    apart : ltb src dst && ltb dst (src + n) ≡ false → (dst ≤ src) ⊎ (src + n ≤ dst)
    apart e = ground arith
