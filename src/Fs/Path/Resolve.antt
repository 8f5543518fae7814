-- ===== src/Fs/Path/Resolve.antt =====
-- `namex` against the walk through the names of a path, and its references.
use c_cpp_projects.Prelude.{
  ℕ, zero, suc, ◌+◌, ◌-◌, ◌≡◌, ◌≢◌, inl, inr, refl, sym, ap, ◌∙◌, Bool, true, false, arith, ◌&&◌,
  ◌==◌, leb, if◌then◌else◌, Option, none, some, List, [], ◌∷◌, ◌++◌, length, take, drop, map,
  ℕ_discrete, ==_of_ne, ==_self, All, Bool-cases, take_all, Outcome, ok, update,
}
use c_cpp_projects.Fs.Path.{
  skip_slashes, c_string, set_name, dirsiz, Icache, iget, ilock, iput, ended, descend,
}
use c_cpp_projects.Fs.Path.Names.{elements, skip_slashes-cases, elements-cons, elements_nil}

c_string_all : (s : List ℕ) → All (λ c. c ≢ 0) s → c_string s ≡ s
unfolding c_string
c_string_all [] h = refl
c_string_all (c ∷ cs) h = rw (==_of_ne c 0 h.0) (ap (◌∷◌ c) (c_string_all cs h.1))

c_string-append : (s r : List ℕ) → All (λ c. c ≢ 0) s → c_string (s ++ (0 ∷ r)) ≡ s
unfolding c_string
c_string-append [] r h = refl
c_string-append (c ∷ cs) r h = rw (==_of_ne c 0 h.0) (ap (◌∷◌ c) (c_string-append cs r h.1))

take-All : (n : ℕ) (s : List ℕ) → All (λ c. c ≢ 0) s → All (λ c. c ≢ 0) (take n s)
take-All zero s h = tt
take-All (suc n) [] h = tt
take-All (suc n) (c ∷ cs) h = (h.0, take-All n cs h.1)

-- The array holds the name, cut off at 14 bytes.
pub c_string-set_name :
    (s name : List ℕ) → All (λ c. c ≢ 0) s → c_string (set_name s name) ≡ take dirsiz s
c_string-set_name s name h = elim (Bool-cases (leb dirsiz (length s))) [
  | inl e ↦ rw (e) (c_string_all (take 14 s) (take-All 14 s h))
  | inr e ↦
      rw (e)
        (c_string-append s (drop (length s + 1) name) h ∙ sym (take_all 14 s (ground (arith, e))))
]

-- The inode to which the names lead from `ip` on; with `parent`, the directory of the last name. All
-- on the way but the last are directories.
unfoldable pub walk : (ℕ → List ℕ → Option ℕ) → (ℕ → ℕ) → Bool → List (List ℕ) → ℕ → Option ℕ
walk lookup type parent [] ip = if parent then none else some ip
walk lookup type parent (n ∷ ns) ip =
    if type ip == 1
    then (if parent && (length ns == 0)
        then some ip
        else elim (lookup ip n) [ none ↦ none | some next ↦ walk lookup type parent ns next ])
    else none

-- One reference to the inode, if there is one.
abbrev pub one : Option ℕ → ℕ → ℕ
one none i = 0
one (some j) i = if i == j then 1 else 0

-- How `namex` ends from `ip` on: with the inode of the walk, to which the reference has moved.
abbrev pub Resolved :
    (ℕ → List ℕ → Option ℕ)
    → Bool
    → List ℕ
    → ℕ
    → Icache
    → Outcome (Option ℕ × List ℕ × Icache)
    → Type 0
Resolved lookup parent path ip s r =
    (o : Option ℕ) × (name : List ℕ) × (t : Icache) × (r ≡ ok (o, name, t))
    × (o ≡ walk lookup s.type parent (map (take dirsiz) (elements path)) ip)
    × ((i : ℕ) → t.ref i + one (some ip) i ≡ s.ref i + one o i)
    × (t.truncated ≡ s.truncated)
    × (t.type ≡ s.type)

-- An inode with links is only given back.
pub iput-linked :
    (i : ℕ) (s : Icache)
    → s.nlink i ≢ 0
    → iput i s ≡ record s { ref = update s.ref i (s.ref i - 1) }
unfolding iput
iput-linked i s h =
    let kept : (s.valid i && ((s.nlink i == 0) && (s.ref i == 1))) ≡ false =
      and_false (s.valid i) (s.nlink i == 0) (s.ref i == 1) (==_of_ne (s.nlink i) 0 h) in
    rw (kept) refl
  where
    and_false : (a b c : Bool) → b ≡ false → (a && (b && c)) ≡ false
    and_false true true c e = let clash : true ≡ false = e in cc
    and_false true false c e = refl
    and_false false b c e = refl

pub put_one :
    (f : ℕ → ℕ) (ip i : ℕ) → f ip ≢ 0 → update f ip (f ip - 1) i + one (some ip) i ≡ f i + 0
put_one f ip i h = elim (ℕ_discrete i ip) [
  | yes e ↦ rw (e, ==_self ip) (omega arith)
  | no n ↦ rw (==_of_ne i ip n) (omega arith)
]

-- The step to the next inode: it gains a reference, and the old one loses its own.
pub pass_one :
    (f : ℕ → ℕ) (ip next i k l : ℕ)
    → f ip ≢ 0
    → k + one (some next) i
      ≡ update (update f next (f next + 1)) ip (update f next (f next + 1) ip - 1) i + l
    → k + one (some ip) i ≡ f i + l
pass_one f ip next i k l h e = elim (ℕ_discrete i ip) [
  | yes a ↦ elim (ℕ_discrete ip next) [ yes b ↦ ground (arith, a, b) | no b ↦ ground (arith, a, b) ]
  | no a ↦ elim (ℕ_discrete i next) [ yes b ↦ ground (arith, a, b) | no b ↦ ground (arith, a, b) ]
]

still_held :
    (f : ℕ → ℕ) (ip next : ℕ)
    → f ip ≢ 0
    → update (update f next (f next + 1)) ip (update f next (f next + 1) ip - 1) next ≢ 0
still_held f ip next h = elim (ℕ_discrete next ip) [
  | yes a ↦ ground (arith, a)
  | no a ↦ ground (arith, a)
]

pub elements-empty :
    (rest : List ℕ) → skip_slashes rest ≡ rest → leb (length rest) 0 ≡ (length (elements rest) == 0)
elements-empty rest h = elim (skip_slashes-cases rest) [
  | inl e ↦ rw (sym h ∙ e, elements_nil) refl
  | inr (c, cs, e, n) ↦ rw (sym h ∙ e, elements-cons c cs n) (ground arith)
]

abbrev pub Ends : (Option ℕ) → ℕ → Icache → Outcome (Option ℕ × List ℕ × Icache) → Type 0
Ends found ip s r =
    (o : Option ℕ) × (name : List ℕ) × (t : Icache) × (r ≡ ok (o, name, t))
    × (o ≡ found)
    × ((i : ℕ) → t.ref i + one (some ip) i ≡ s.ref i + one o i)
    × (t.truncated ≡ s.truncated)
    × (t.type ≡ s.type)

-- The reference is given back.
pub gives_back :
    (name : List ℕ) (ip : ℕ) (s : Icache)
    → s.nlink ip ≢ 0
    → s.ref ip ≢ 0
    → Ends none ip s (ok (none, name, iput ip s))
gives_back name ip s linked held = (
  none,
  name,
  iput ip s,
  refl,
  refl,
  λ i. rw (iput-linked ip s linked) (put_one s.ref ip i held),
  ap (λ (u : Icache). u.truncated) (iput-linked ip s linked),
  ap (λ (u : Icache). u.type) (iput-linked ip s linked),
)

pub ended-Ends :
    (lookup : ℕ → List ℕ → Option ℕ) (parent : Bool) (name : List ℕ) (ip : ℕ) (s : Icache)
    → s.nlink ip ≢ 0
    → s.ref ip ≢ 0
    → Ends (walk lookup s.type parent [] ip) ip s (ok (ended parent name ip s))
unfolding walk
ended-Ends lookup true name ip s linked held = gives_back name ip s linked held
ended-Ends lookup false name ip s linked held =
    (some ip, name, s, refl, refl, λ i. refl, refl, refl)

-- The inode is allocated, and so is each that a directory lists.
abbrev pub Typed : (ℕ → List ℕ → Option ℕ) → (ℕ → ℕ) → ℕ → Type 0
Typed lookup type ip =
    (type ip ≢ 0)
    × ((dir : ℕ) (name : List ℕ) (next : ℕ) → lookup dir name ≡ some next → type next ≢ 0)

-- An inode that is referred to and allocated can be locked.
pub ilock_lem :
    (ip : ℕ) (s : Icache)
    → s.ref ip ≢ 0
    → s.type ip ≢ 0
    → (v : ℕ → Bool) × (ilock ip s ≡ ok (record s { valid = v }))
unfolding ilock
ilock_lem ip s held typed = elim (Bool-cases (s.valid ip)) [
  | inl e ↦ (s.valid, rw (==_of_ne (s.ref ip) 0 held, e) refl)
  | inr e ↦ (
    update s.valid ip true,
    rw (==_of_ne (s.ref ip) 0 held, e, ==_of_ne (s.type ip) 0 typed) refl,
  )
]

-- The walk goes on from the inode that the directory lists.
pub descend-Ends :
    (more : ℕ → Icache → Outcome (Option ℕ × List ℕ × Icache)) (goal : ℕ → Option ℕ) (name : List ℕ)
    (ip : ℕ) (s : Icache) (v : ℕ → Bool) (r : Option ℕ)
    → ((i : ℕ) → s.nlink i ≢ 0)
    → s.ref ip ≢ 0
    → ((next : ℕ) (u : Icache)
        → r ≡ some next
        → ((i : ℕ) → u.nlink i ≢ 0)
        → u.ref next ≢ 0
        → u.type ≡ s.type
        → Ends (goal next) next u (more next u))
    → Ends
        (elim r [ none ↦ none | some next ↦ goal next ])
        ip
        s
        (descend more name ip (record s { valid = v }) r)
unfolding iget
descend-Ends more goal name ip s v none linked held ih =
    gives_back name ip (record s { valid = v }) (linked ip) held
descend-Ends more goal name ip s v (some next) linked held ih =
    let w : Icache = iget next (record s { valid = v }) in
    let u : Icache = record w { ref = update w.ref ip (w.ref ip - 1) } in
    let given : iput ip w ≡ u = iput-linked ip w (linked ip) in
    rw (given) (
      let (o, n, t, run, found, refs, truncated, type) =
        ih next u refl linked (still_held s.ref ip next held) refl in
      (
        o,
        n,
        t,
        run,
        found,
        λ i. pass_one s.ref ip next i (t.ref i) (one o i) held (refs i),
        truncated,
        type,
      ))
