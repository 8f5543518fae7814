-- ===== src/Fs/Path/Names.antt =====
-- `skipelem` against the list of the names in a path.
use c_cpp_projects.Prelude.{
  ℕ, ◌<◌, ◌≤◌, ◌≡◌, ◌≢◌, ◌⊎◌, inl, inr, refl, sym, ap, ap₂, ◌∙◌, arith, ◌==◌, if◌then◌else◌, Option,
  none, some, List, [], ◌∷◌, length, ℕ_discrete, ==_of_ne, All,
}
use c_cpp_projects.Fs.Path.{skip_slashes, split_elem, skipelem, set_name}

-- The pieces of a path between slashes: the first one, and the others.
unfoldable pub cut : List ℕ → List ℕ × List (List ℕ)
cut [] = ([], [])
cut (c ∷ cs) =
    let rest = cut cs in if c == b'/' then ([], rest.0 ∷ rest.1) else (c ∷ rest.0, rest.1)

abbrev pub nonempty : List (List ℕ) → List (List ℕ)
nonempty [] = []
nonempty ([] ∷ ws) = nonempty ws
nonempty ((c ∷ cs) ∷ ws) = (c ∷ cs) ∷ nonempty ws

-- The names in a path: the pieces that are not empty.
unfoldable pub elements : List ℕ → List (List ℕ)
elements p = nonempty ((cut p).0 ∷ (cut p).1)

skip_slashes-other : (c : ℕ) (cs : List ℕ) → c ≢ b'/' → skip_slashes (c ∷ cs) ≡ c ∷ cs
unfolding skip_slashes
skip_slashes-other c cs n = rw (==_of_ne c b'/' n) refl

elements-skip_slashes : (p : List ℕ) → elements (skip_slashes p) ≡ elements p
unfolding elements cut skip_slashes
elements-skip_slashes [] = refl
elements-skip_slashes (c ∷ cs) = elim (ℕ_discrete c b'/') [
  | yes e ↦ rw (e) (elements-skip_slashes cs)
  | no n ↦ ap elements (skip_slashes-other c cs n)
]

cut-split_elem :
    (p : List ℕ) → ((cut p).0 ≡ (split_elem p).0) × (nonempty (cut p).1 ≡ elements (split_elem p).1)
unfolding elements cut split_elem
cut-split_elem [] = (refl, refl)
cut-split_elem (c ∷ cs) = elim (ℕ_discrete c b'/') [
  | yes e ↦ rw (e) (refl, refl)
  | no n ↦ let (first, rest) = cut-split_elem cs in rw (==_of_ne c b'/' n) (ap (◌∷◌ c) first, rest)
]

skip_slashes_le : (p : List ℕ) → length (skip_slashes p) ≤ length p
unfolding skip_slashes
skip_slashes_le [] = omega arith
skip_slashes_le (c ∷ cs) = elim (ℕ_discrete c b'/') [
  | yes e ↦ rw (e) (omega (arith, skip_slashes_le cs))
  | no n ↦ rw (==_of_ne c b'/' n) (omega arith)
]

split_elem_le : (p : List ℕ) → length (split_elem p).1 ≤ length p
unfolding split_elem
split_elem_le [] = omega arith
split_elem_le (c ∷ cs) = elim (ℕ_discrete c b'/') [
  | yes e ↦ rw (e) (omega arith)
  | no n ↦ rw (==_of_ne c b'/' n) (omega (arith, split_elem_le cs))
]

-- A predicate of the bytes of a path holds of the parts.
skip_slashes-All : (P : ℕ → Type 0) (p : List ℕ) → All P p → All P (skip_slashes p)
unfolding skip_slashes
skip_slashes-All P [] h = tt
skip_slashes-All P (c ∷ cs) h = elim (ℕ_discrete c b'/') [
  | yes e ↦ rw (e) (skip_slashes-All P cs h.1)
  | no n ↦ rw (==_of_ne c b'/' n) h
]

split_elem-All :
    (P : ℕ → Type 0) (p : List ℕ) → All P p → All P (split_elem p).0 × All P (split_elem p).1
unfolding split_elem
split_elem-All P [] h = (tt, tt)
split_elem-All P (c ∷ cs) h = elim (ℕ_discrete c b'/') [
  | yes e ↦ rw (e) (tt, rw (e) at h)
  | no n ↦ let (a, b) = split_elem-All P cs h.1 in rw (==_of_ne c b'/' n) ((h.0, a), b)
]

-- What is left of slashes starts with a name, if it is not empty.
pub skip_slashes-cases :
    (p : List ℕ)
    → (skip_slashes p ≡ []) ⊎ ((c : ℕ) × (cs : List ℕ) × (skip_slashes p ≡ c ∷ cs) × (c ≢ b'/'))
unfolding skip_slashes
skip_slashes-cases [] = inl refl
skip_slashes-cases (c ∷ cs) = elim (ℕ_discrete c b'/') [
  | yes e ↦ rw (e) (skip_slashes-cases cs)
  | no n ↦ rw (==_of_ne c b'/' n) (inr (c, cs, refl, n))
]

pub elements-cons :
    (c : ℕ) (cs : List ℕ)
    → c ≢ b'/'
    → elements (c ∷ cs) ≡ (c ∷ (split_elem cs).0) ∷ elements (split_elem cs).1
unfolding elements cut
elements-cons c cs n =
    let (first, rest) = cut-split_elem cs in
    rw (==_of_ne c b'/' n) (ap₂ (λ w ws. (c ∷ w) ∷ ws) first rest)

split_elem-other :
    (c : ℕ) (cs : List ℕ)
    → c ≢ b'/'
    → split_elem (c ∷ cs) ≡ (c ∷ (split_elem cs).0, (split_elem cs).1)
unfolding split_elem
split_elem-other c cs n = rw (==_of_ne c b'/' n) refl

-- How `skipelem` ends: nothing is left, or the first name is in the array and the rest of the path
-- holds the other names, without slashes in front.
abbrev pub Skipped : List ℕ → List ℕ → Option (List ℕ × List ℕ) → Type 0
Skipped path name none = elements path ≡ []
Skipped path name (some (rest, name')) =
    (s : List ℕ) × (elements path ≡ s ∷ elements rest)
    × (name' ≡ set_name s name)
    × (length rest < length path)
    × (skip_slashes rest ≡ rest)
    × (All (λ c. c ≢ 0) path → All (λ c. c ≢ 0) s × All (λ c. c ≢ 0) rest)

pub skip_slashes_nil : skip_slashes [] ≡ []
unfolding skip_slashes
skip_slashes_nil = refl

pub elements_nil : elements [] ≡ []
unfolding elements cut
elements_nil = refl

skip_slashes-twice : (p : List ℕ) → skip_slashes (skip_slashes p) ≡ skip_slashes p
skip_slashes-twice p = elim (skip_slashes-cases p) [
  | inl e ↦ rw (e) skip_slashes_nil
  | inr (c, cs, e, n) ↦ rw (e) (skip_slashes-other c cs n)
]

pub skipelem_lem : (path name : List ℕ) → Skipped path name (skipelem path name)
unfolding skipelem
skipelem_lem path name = elim (skip_slashes-cases path) [
  | inl e ↦ rw (e) (sym (elements-skip_slashes path) ∙ (ap elements e ∙ elements_nil))
  | inr (c, cs, e, n) ↦
      let parts = split_elem-other c cs n in
      let same = elements-skip_slashes path in
      let shorter = skip_slashes_le path in
      rw (e, parts)
        (
          c ∷ (split_elem cs).0,
          sym same
              ∙ (ap elements e
                  ∙ (elements-cons c cs n
                      ∙ ap (λ ws. (c ∷ (split_elem cs).0) ∷ ws)
                          (sym (elements-skip_slashes (split_elem cs).1)))),
          refl,
          omega (
            arith,
            ap length e,
            skip_slashes_le path,
            skip_slashes_le (split_elem cs).1,
            split_elem_le cs,
          ),
          skip_slashes-twice (split_elem cs).1,
          λ h.
              let left = skip_slashes-All (λ c. c ≢ 0) path h in
              let first : All (λ c. c ≢ 0) (c ∷ cs) = rw (e) at left in
              let (a, b) = split_elem-All (λ c. c ≢ 0) cs first.1 in
              ((first.0, a), skip_slashes-All (λ c. c ≢ 0) (split_elem cs).1 b),
        )
]
