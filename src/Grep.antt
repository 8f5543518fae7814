-- ===== src/Grep.antt =====
-- The matcher of c/os-master/grep.c. A string is the list of its characters in front of the zero.
pub mod Search
mod Tests
use c_cpp_projects.Prelude.{ℕ, Bool, true, false, ◌&&◌, ◌||◌, List, [], ◌∷◌, ◌==◌, if◌then◌else◌}

-- A character of the text against one of the pattern, where '.' is 46.
abbrev pub fits : ℕ → ℕ → Bool
fits c t = (c == 46) || (c == t)

-- `matchstar(c, re, text)`, where `here` is `matchhere` for `re`.
pub matchstar : ℕ → (List ℕ → Bool) → List ℕ → Bool
matchstar c here [] = here []
matchstar c here (t ∷ ts) = here (t ∷ ts) || (fits c t && matchstar c here ts)

abbrev pub is_nil : List ℕ → Bool
is_nil [] = true
is_nil (t ∷ ts) = false

-- One character, and then the rest of the pattern by `here`.
abbrev pub one : ℕ → (List ℕ → Bool) → List ℕ → Bool
one c here [] = false
one c here (t ∷ ts) = fits c t && here ts

-- '*' is 42 and '$' is 36.
pub matchhere : List ℕ → List ℕ → Bool
matchhere [] text = true
matchhere (c ∷ []) text = if c == 36 then is_nil text else one c (λ ts. true) text
matchhere (c ∷ d ∷ re) text =
    if d == 42 then matchstar c (matchhere re) text else one c (matchhere (d ∷ re)) text

-- The loop of `match`.
pub search : List ℕ → List ℕ → Bool
search re [] = matchhere re []
search re (t ∷ ts) = matchhere re (t ∷ ts) || search re ts

-- '^' is 94.
pub match_text : List ℕ → List ℕ → Bool
match_text [] text = search [] text
match_text (c ∷ re) text = if c == 94 then matchhere re text else search (c ∷ re) text
