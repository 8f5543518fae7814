-- ===== src/Prelude/Slices.antt =====
-- `take` and `drop` of an array under reads and writes.
use Prim.Native.Nat.{ℕ, zero, suc, ◌≤◌, ◌<◌}
use mathlib.Core.Path.{◌≡◌, refl, ap}
use mathlib.Core.List.{List, [], ◌∷◌, ◌++◌, map}
use native.Mathlib.Omega.{arith}
use mathlib.Core.Option.{some, some-injective}
use c_cpp_projects.Prelude.Lists.{length, get_elem?, get_or, set, take, drop}

module _ {ℓ} {A : Type ℓ} where
  pub take_all : (n : ℕ) (xs : List A) → length xs ≤ n → take n xs ≡ xs
  take_all zero [] h = refl
  take_all zero (x ∷ xs) h = absurd (omega arith)
  take_all (suc n) [] h = refl
  take_all (suc n) (x ∷ xs) h = ap (◌∷◌ x) (take_all n xs (omega arith))

  -- A write just behind a prefix makes it one longer.
  pub take-set_snoc :
      (xs : List A) (i : ℕ) (v : A)
      → i < length xs
      → take (suc i) (set xs i v) ≡ take i xs ++ v ∷ []
  take-set_snoc [] i v h = absurd (omega arith)
  take-set_snoc (x ∷ xs) zero v h = refl
  take-set_snoc (x ∷ xs) (suc i) v h = ap (◌∷◌ x) (take-set_snoc xs i v (omega arith))

  pub drop-set : (xs : List A) (i k : ℕ) (v : A) → k < i → drop i (set xs k v) ≡ drop i xs
  drop-set [] i k v h = refl
  drop-set (x ∷ xs) zero k v h = absurd (omega arith)
  drop-set (x ∷ xs) (suc i) zero v h = refl
  drop-set (x ∷ xs) (suc i) (suc k) v h = drop-set xs i k v (omega arith)

  -- What a suffix with a first element says of the array.
  pub get_or-drop :
      (xs : List A) (i : ℕ) (d y : A) (ys : List A) → drop i xs ≡ y ∷ ys → get_or xs i d ≡ y
  get_or-drop [] zero d y ys e = cc
  get_or-drop [] (suc i) d y ys e = cc
  get_or-drop (x ∷ xs) zero d y ys e = cc
  get_or-drop (x ∷ xs) (suc i) d y ys e = get_or-drop xs i d y ys e

  pub drop-suc :
      (xs : List A) (i : ℕ) (y : A) (ys : List A) → drop i xs ≡ y ∷ ys → drop (suc i) xs ≡ ys
  drop-suc [] zero y ys e = cc
  drop-suc [] (suc i) y ys e = cc
  drop-suc (x ∷ xs) zero y ys e = cc
  drop-suc (x ∷ xs) (suc i) y ys e = drop-suc xs i y ys e

  pub lt_of_drop : (xs : List A) (i : ℕ) (y : A) (ys : List A) → drop i xs ≡ y ∷ ys → i < length xs
  lt_of_drop [] zero y ys e = cc
  lt_of_drop [] (suc i) y ys e = cc
  lt_of_drop (x ∷ xs) zero y ys e = omega arith
  lt_of_drop (x ∷ xs) (suc i) y ys e = omega (arith, lt_of_drop xs i y ys e)

  pub take-suc :
      (xs : List A) (i : ℕ) (y : A) (ys : List A)
      → drop i xs ≡ y ∷ ys
      → take (suc i) xs ≡ take i xs ++ y ∷ []
  take-suc [] zero y ys e = cc
  take-suc [] (suc i) y ys e = cc
  take-suc (x ∷ xs) zero y ys e = cc
  take-suc (x ∷ xs) (suc i) y ys e = ap (◌∷◌ x) (take-suc xs i y ys e)

  pub get_elem?-drop :
      (xs : List A) (i : ℕ) (y : A) (ys : List A) → drop i xs ≡ y ∷ ys → get_elem? xs i ≡ some y
  get_elem?-drop [] zero y ys e = cc
  get_elem?-drop [] (suc i) y ys e = cc
  get_elem?-drop (x ∷ xs) zero y ys e = cc
  get_elem?-drop (x ∷ xs) (suc i) y ys e = get_elem?-drop xs i y ys e

  pub take-of-drop_nil : (xs : List A) (i : ℕ) → drop i xs ≡ [] → take i xs ≡ xs
  take-of-drop_nil [] zero e = refl
  take-of-drop_nil [] (suc i) e = refl
  take-of-drop_nil (x ∷ xs) zero e = cc
  take-of-drop_nil (x ∷ xs) (suc i) e = ap (◌∷◌ x) (take-of-drop_nil xs i e)

  pub lt_of_get_elem? : (xs : List A) (i : ℕ) (y : A) → get_elem? xs i ≡ some y → i < length xs
  lt_of_get_elem? [] i y e = cc
  lt_of_get_elem? (x ∷ xs) zero y e = omega arith
  lt_of_get_elem? (x ∷ xs) (suc i) y e = omega (arith, lt_of_get_elem? xs i y e)

  pub get_or-map {κ} :
      {B : Type κ} (f : A → B) (xs : List A) (i : ℕ) (d : B) (y : A)
      → get_elem? xs i ≡ some y
      → get_or (map f xs) i d ≡ f y
  get_or-map f [] i d y e = cc
  get_or-map f (x ∷ xs) zero d y e = ap f (some-injective x y e)
  get_or-map f (x ∷ xs) (suc i) d y e = get_or-map f xs i d y e
