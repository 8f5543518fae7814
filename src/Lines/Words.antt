-- ===== src/Lines/Words.antt =====
-- A command without redirections is parsed into its words.
use c_cpp_projects.Prelude.{
  ℕ, ◌≤◌, ◌≡◌, ◌≢◌, refl, sym, ap, ◌∙◌, false, List, [], ◌∷◌, ◌++◌, length, take, take_all,
  append-nil, All-mono, All-append, Option, none, some, arith, ◌==◌, All,
}
use c_cpp_projects.Lines.{
  is_space_char, isspace, is_empty, extract_redirections, before_redirect, put_word, split, tokens,
  parse_single_cmd_line,
}

-- A character that the parser does not treat apart.
abbrev pub IsPlain : ℕ → Type 0
IsPlain c = ((c == 60) ≡ false) × ((c == 62) ≡ false) × (isspace c ≡ false)

-- A word: some plain characters, at least one.
abbrev pub IsWord : List ℕ → Type 0
IsWord w = (w ≢ []) × All IsPlain w

-- The words with a space between each two.
abbrev pub unwords : List (List ℕ) → List ℕ
unwords [] = []
unwords (w ∷ []) = w
unwords (w ∷ v ∷ ws) = w ++ 32 ∷ unwords (v ∷ ws)

plain_space : (c : ℕ) → isspace c ≡ false → is_space_char c ≡ false
plain_space c h = ground arith

split-word : (w cs : List ℕ) → All IsPlain w → split (w ++ cs) ≡ (w ++ (split cs).0, (split cs).1)
unfolding split
split-word [] cs h = refl
split-word (c ∷ w) cs ((l, g, s), h) = rw (plain_space c s, split-word w cs h) refl

put_word-word : (w : List ℕ) (ws : List (List ℕ)) → w ≢ [] → put_word (w, ws) ≡ w ∷ ws
put_word-word [] ws ne = absurd (ne refl)
put_word-word (c ∷ w) ws ne = refl

split-last : (w : List ℕ) → All IsPlain w → split w ≡ (w, [])
unfolding split
split-last w p =
    ap split (sym (append-nil w)) ∙ split-word w [] p ∙ ap (λ u. (u, [])) (append-nil w)

tokens-unwords : (ws : List (List ℕ)) → All IsWord ws → tokens (unwords ws) ≡ ws
unfolding tokens split
tokens-unwords [] h = refl
tokens-unwords (w ∷ []) ((ne, p), h) = ap put_word (split-last w p) ∙ put_word-word w [] ne
tokens-unwords (w ∷ v ∷ ws) ((ne, p), h) =
    ap put_word (split-word w (32 ∷ unwords (v ∷ ws)) p)
    ∙ ap (λ u. put_word (u, tokens (unwords (v ∷ ws)))) (append-nil w)
    ∙ put_word-word w _ ne
    ∙ ap (◌∷◌ w) (tokens-unwords (v ∷ ws) h)

-- The character starts no redirection.
abbrev NoRedirect : ℕ → Type 0
NoRedirect c = ((c == 60) ≡ false) × ((c == 62) ≡ false)

unwords-NoRedirect : (ws : List (List ℕ)) → All IsWord ws → All NoRedirect (unwords ws)
unwords-NoRedirect [] h = tt
unwords-NoRedirect (w ∷ []) ((ne, p), h) = All-mono w (λ c q. (q.0, q.1)) p
unwords-NoRedirect (w ∷ v ∷ ws) ((ne, p), h) =
    All-append NoRedirect w (32 ∷ unwords (v ∷ ws)) (All-mono w (λ c q. (q.0, q.1)) p)
      ((refl, refl), unwords-NoRedirect (v ∷ ws) h)

before_redirect-All : (line : List ℕ) → All NoRedirect line → before_redirect line ≡ line
unfolding before_redirect
before_redirect-All [] h = refl
before_redirect-All (c ∷ line) ((l, g), h) = rw (l, g) (ap (◌∷◌ c) (before_redirect-All line h))

extract_redirections-none :
    (line : List ℕ) (r : Option (List ℕ) × Option (List ℕ))
    → All NoRedirect line
    → extract_redirections line r ≡ r
unfolding extract_redirections
extract_redirections-none [] r h = refl
extract_redirections-none (c ∷ line) r ((l, g), h) = rw (l, g) (extract_redirections-none line r h)

is_empty-unwords :
    (w : List ℕ) (ws : List (List ℕ)) → IsWord w → is_empty (unwords (w ∷ ws)) ≡ false
unfolding is_empty
is_empty-unwords [] ws (ne, p) = absurd (ne refl)
is_empty-unwords (c ∷ w) [] (ne, p) = rw p.0.2 refl
is_empty-unwords (c ∷ w) (v ∷ ws) (ne, p) = rw p.0.2 refl

single :
    (line : List ℕ) (r : Option (List ℕ) × Option (List ℕ)) (args : List (List ℕ))
    → is_empty line ≡ false
    → extract_redirections line (none, none) ≡ r
    → take 255 (tokens (before_redirect line)) ≡ args
    → parse_single_cmd_line line
      ≡ some (record {
        arguments = args;
        input_redirect = r.0;
        output_redirect = r.1;
        blocking = false;
        idx = 0;
      })
unfolding parse_single_cmd_line
single line r args e x t = rw (e, x, t) refl

-- The parser undoes the printing of a command: up to 255 words, none of them empty and without white
-- space or redirections, written with a space between each two, are parsed into just these
-- arguments, in their order, without redirections.
pub parse-unwords :
    (w : List ℕ) (ws : List (List ℕ))
    → All IsWord (w ∷ ws)
    → length (w ∷ ws) ≤ 255
    → parse_single_cmd_line (unwords (w ∷ ws))
      ≡ some (record {
        arguments = w ∷ ws;
        input_redirect = none;
        output_redirect = none;
        blocking = false;
        idx = 0;
      })
parse-unwords w ws h few =
    let plain = unwords-NoRedirect (w ∷ ws) h in
    single (unwords (w ∷ ws)) (none, none) (w ∷ ws) (is_empty-unwords w ws h.0)
      (extract_redirections-none (unwords (w ∷ ws)) (none, none) plain)
      (ap (λ l. take 255 (tokens l)) (before_redirect-All (unwords (w ∷ ws)) plain)
        ∙ ap (take 255) (tokens-unwords (w ∷ ws) h)
        ∙ take_all 255 (w ∷ ws) few)
