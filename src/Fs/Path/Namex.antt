-- ===== src/Fs/Path/Namex.antt =====
-- `namex`: the inode that a path names, and the references on the way.
use c_cpp_projects.Prelude.{
  ℕ, ◌+◌, ◌≡◌, Bool, ◌==◌, if◌then◌else◌, Option, List, [], ◌∷◌, take, map, Outcome, ok,
}
use c_cpp_projects.Fs.Path.{dirsiz, Icache}
use c_cpp_projects.Fs.Path.Resolve.{walk, one}
use c_cpp_projects.Fs.Path.Names.{elements}

-- The inode at which a path starts.
abbrev pub start : ℕ → ℕ → List ℕ → ℕ
start root cwd [] = cwd
start root cwd (c ∷ cs) = if c == b'/' then root else cwd

-- How `namex` ends: with the inode of the walk, which has one reference more than before.
abbrev pub NamexEnds :
    (ℕ → List ℕ → Option ℕ)
    → ℕ
    → Bool
    → List ℕ
    → Icache
    → Outcome (Option ℕ × List ℕ × Icache)
    → Type 0
NamexEnds lookup from parent path s r =
    (o : Option ℕ) × (name : List ℕ) × (t : Icache) × (r ≡ ok (o, name, t))
    × (o ≡ walk lookup s.type parent (map (take dirsiz) (elements path)) from)
    × ((i : ℕ) → t.ref i ≡ s.ref i + one o i)
    × (t.truncated ≡ s.truncated)
