-- ===== src/Files/Counts.antt =====
-- The reference counts of the open files.
use c_cpp_projects.Prelude.{
  ℕ, suc, ◌+◌, ◌<◌, ◌≡◌, ◌≢◌, false, refl, sym, ap, ◌∙◌, List, [], ◌∷◌, length, get_elem?,
  get_elem?-set_self, get_elem?-set_ne, lt_of_get_elem?, set, some, some-injective, arith,
  ℕ_discrete, ◌==◌, ==_iff, ==_of_ne, ==_self, ltb, if◌then◌else◌, ok,
}
use c_cpp_projects.Files.{File, find_free, set_ref, filealloc, filedup}

-- How many of the descriptors refer to the file at a place of the table.
abbrev pub count : ℕ → List ℕ → ℕ
count i [] = 0
count i (h ∷ hs) = if h == i then suc (count i hs) else count i hs

-- The count of each file is the number of descriptors that refer to it.
abbrev pub Counted : List ℕ → List File → Type 0
Counted hs fs = (i : ℕ) (f : File) → get_elem? fs i ≡ some f → f.ref ≡ count i hs

-- A write to one place.
Counted-set :
    (hs ks : List ℕ) (fs : List File) (i : ℕ) (g : File)
    → i < length fs
    → Counted hs fs
    → g.ref ≡ count i ks
    → ((j : ℕ) → i ≢ j → count j hs ≡ count j ks)
    → Counted ks (set fs i g)
Counted-set hs ks fs i g lt c e others j f at = elim (ℕ_discrete i j) [
  | yes s ↦
      let is : g ≡ f =
        some-injective g f
          (sym (get_elem?-set_self fs i g lt) ∙ ap (get_elem? (set fs i g)) s ∙ at) in
      sym (ap (λ h. h.ref) is) ∙ e ∙ ap (λ k. count k ks) s
  | no ne ↦ c j f (sym (get_elem?-set_ne fs g ne) ∙ at) ∙ others j ne
]

count-cons_ne : (i j : ℕ) (hs : List ℕ) → i ≢ j → count j hs ≡ count j (i ∷ hs)
count-cons_ne i j hs ne = sym (rw (==_of_ne i j ne) refl)

count-cons_self : (i : ℕ) (hs : List ℕ) → count i (i ∷ hs) ≡ suc (count i hs)
count-cons_self i hs = rw (==_self i) refl

find_free_lem :
    (fs : List File) (n i : ℕ)
    → find_free fs n ≡ some i
    → (k : ℕ) × (f : File) × (i ≡ n + k) × (get_elem? fs k ≡ some f) × (f.ref ≡ 0)
unfolding find_free
find_free_lem [] n i e = cc
find_free_lem (f ∷ fs) n i e = elim (ℕ_discrete f.ref 0) [
  | yes z ↦ (
    0,
    f,
    (let s : n ≡ i = some-injective n i (rw ((==_iff f.ref 0).1 z) at e) in omega arith),
    refl,
    z,
  )
  | no ne ↦
      let (k, g, at, here, z) = find_free_lem fs (suc n) i (rw (==_of_ne f.ref 0 ne) at e) in
      (suc k, g, omega arith, here, z)
]

filealloc-at :
    (fs : List File) (i : ℕ) (f : File)
    → find_free fs 0 ≡ some i
    → get_elem? fs i ≡ some f
    → filealloc fs ≡ (some i, set_ref fs i f 1)
unfolding filealloc
filealloc-at fs i f e at = rw (e, at, filealloc) refl

-- `filealloc` returns a place that no descriptor refers to, and counts one reference for it, if there
-- is a free one.
pub filealloc_lem :
    (hs : List ℕ) (fs : List File) (i : ℕ)
    → Counted hs fs
    → find_free fs 0 ≡ some i
    → (gs : List File) × (filealloc fs ≡ (some i, gs)) × (count i hs ≡ 0) × Counted (i ∷ hs) gs
filealloc_lem hs fs i c e =
    let (k, f, s, here, z) = find_free_lem fs 0 i e in
    let same : k ≡ i = omega arith in
    let at : get_elem? fs i ≡ some f = ap (get_elem? fs) (sym same) ∙ here in
    let none_held : count i hs ≡ 0 = sym (c i f at) ∙ z in
    (
      set_ref fs i f 1,
      filealloc-at fs i f e at,
      none_held,
      Counted-set hs (i ∷ hs) fs i (record f { ref = 1 }) (lt_of_get_elem? fs i f at) c
          (sym (count-cons_self i hs ∙ ap suc none_held)) (λ j ne. count-cons_ne i j hs ne),
    )

-- `filedup` of a file that a descriptor refers to does not panic, and counts one reference more.
pub filedup_lem :
    (hs : List ℕ) (fs : List File) (i : ℕ) (f : File)
    → Counted (i ∷ hs) fs
    → get_elem? fs i ≡ some f
    → (gs : List File) × (filedup i fs ≡ ok gs) × Counted (i ∷ i ∷ hs) gs
unfolding filedup
filedup_lem hs fs i f c at =
    let held : f.ref ≡ suc (count i hs) = c i f at ∙ count-cons_self i hs in
    let live : ltb f.ref 1 ≡ false = busy f.ref (count i hs) held in
    (
      set_ref fs i f (f.ref + 1),
      rw (at, live, filedup) refl,
      Counted-set (i ∷ hs) (i ∷ i ∷ hs) fs i (record f { ref = f.ref + 1 })
          (lt_of_get_elem? fs i f at) c
          (plus_one f.ref ∙ ap suc (c i f at) ∙ sym (count-cons_self i (i ∷ hs)))
          (λ j ne. count-cons_ne i j (i ∷ hs) ne),
    )
  where
    busy : (r n : ℕ) → r ≡ suc n → ltb r 1 ≡ false
    busy r n e = ground arith

    plus_one : (r : ℕ) → r + 1 ≡ suc r
    plus_one r = omega arith
