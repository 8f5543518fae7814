-- ===== src/Grep/Search.antt =====
-- What the matcher finds.
use c_cpp_projects.Prelude.{
  ℕ, zero, suc, ◌≤◌, ◌≡◌, ◌≢◌, ◌↔◌, refl, sym, ◌∙◌, Bool, true, ◌&&◌, ◌||◌, Bool-cases, inl, inr,
  List, [], ◌∷◌, length, take, drop, arith, ==_of_ne, All,
}
use c_cpp_projects.Grep.{fits, matchstar, matchhere, search, match_text}

-- The pattern matches at a place of the text.
pub record Occurs (here : List ℕ → Bool) (text : List ℕ) : Type 0 where
  pub place : ℕ
  pub inside : place ≤ length text
  pub matches : here (drop place text) ≡ true

or-left : (a b : Bool) → a ≡ true → a || b ≡ true
or-left a b e = ground arith

or-right : (a b : Bool) → b ≡ true → a || b ≡ true
or-right a b e = ground arith

and-both : (a b : Bool) → a && b ≡ true → (a ≡ true) × (b ≡ true)
and-both a b e = ground arith

search-finds : (re text : List ℕ) → search re text ≡ true → Occurs (matchhere re) text
unfolding search
search-finds re [] e = record { place = 0; inside = omega arith; matches = e }
search-finds re (t ∷ ts) e = elim (Bool-cases (matchhere re (t ∷ ts))) [
  | inl h ↦ record { place = 0; inside = omega arith; matches = h }
  | inr h ↦
      let r = search-finds re ts (rw h at e) in
      record { place = suc r.place; inside = omega (arith, r.inside); matches = r.matches }
]

search-found :
    (re text : List ℕ) (n : ℕ)
    → n ≤ length text
    → matchhere re (drop n text) ≡ true
    → search re text ≡ true
unfolding search
search-found re [] zero le e = e
search-found re [] (suc n) le e = absurd (omega arith)
search-found re (t ∷ ts) zero le e = or-left _ (search re ts) e
search-found re (t ∷ ts) (suc n) le e =
    or-right (matchhere re (t ∷ ts)) _ (search-found re ts n (omega arith) e)

not_anchored : (c : ℕ) (re text : List ℕ) → c ≢ 94 → match_text (c ∷ re) text ≡ search (c ∷ re) text
unfolding match_text
not_anchored c re text ne = rw (==_of_ne c 94 ne) refl

-- A pattern that does not begin with '^' is found just if it matches at some place of the text, the
-- end included.
pub match_text_lem :
    (c : ℕ) (re text : List ℕ)
    → c ≢ 94
    → (match_text (c ∷ re) text ≡ true) ↔ Occurs (matchhere (c ∷ re)) text
match_text_lem c re text ne = (
  (λ e. search-finds (c ∷ re) text (sym (not_anchored c re text ne) ∙ e)),
  (λ o. not_anchored c re text ne ∙ search-found (c ∷ re) text o.place o.inside o.matches),
)

-- The first `place` characters fit, and the rest of the pattern matches behind them.
pub record Repeats (c : ℕ) (here : List ℕ → Bool) (text : List ℕ) : Type 0 where
  pub place : ℕ
  pub inside : place ≤ length text
  pub fit : All (λ t. fits c t ≡ true) (take place text)
  pub matches : here (drop place text) ≡ true

star-finds :
    (c : ℕ) (here : List ℕ → Bool) (text : List ℕ)
    → matchstar c here text ≡ true
    → Repeats c here text
unfolding matchstar
star-finds c here [] e = record { place = 0; inside = omega arith; fit = tt; matches = e }
star-finds c here (t ∷ ts) e = elim (Bool-cases (here (t ∷ ts))) [
  | inl h ↦ record { place = 0; inside = omega arith; fit = tt; matches = h }
  | inr h ↦
      let (f, m) = and-both (fits c t) (matchstar c here ts) (rw h at e) in
      let r = star-finds c here ts m in
      record {
        place = suc r.place;
        inside = omega (arith, r.inside);
        fit = (f, r.fit);
        matches = r.matches;
      }
]

star-found :
    (c : ℕ) (here : List ℕ → Bool) (text : List ℕ) (n : ℕ)
    → n ≤ length text
    → All (λ t. fits c t ≡ true) (take n text)
    → here (drop n text) ≡ true
    → matchstar c here text ≡ true
unfolding matchstar
star-found c here [] zero le f e = e
star-found c here [] (suc n) le f e = absurd (omega arith)
star-found c here (t ∷ ts) zero le f e = or-left _ _ e
star-found c here (t ∷ ts) (suc n) le (f, fs) e =
    or-right (here (t ∷ ts)) _ (rw (f, star-found c here ts n (omega arith) fs e) refl)

-- The star of a character matches just if some number of characters of the text fit it, none
-- included, and the rest of the pattern matches behind them.
pub matchstar_lem :
    (c : ℕ) (here : List ℕ → Bool) (text : List ℕ)
    → (matchstar c here text ≡ true) ↔ Repeats c here text
matchstar_lem c here text =
    (star-finds c here text, λ r. star-found c here text r.place r.inside r.fit r.matches)
