-- ===== src/Grep/Tests.antt =====
-- The pattern `b*` in the text `ab`: the theorem at this text.
use c_cpp_projects.Prelude.{◌≡◌, ◌↔◌, refl, true, [], ◌∷◌, arith}
use c_cpp_projects.Grep.{matchstar, matchhere, match_text, search}
use c_cpp_projects.Grep.Search.{Occurs, match_text_lem}

match_text_lem_example :
    (match_text (98 ∷ 42 ∷ []) (97 ∷ 98 ∷ []) ≡ true)
    ↔ Occurs (matchhere (98 ∷ 42 ∷ [])) (97 ∷ 98 ∷ [])
match_text_lem_example = match_text_lem 98 (42 ∷ []) (97 ∷ 98 ∷ []) (λ e. absurd (omega arith))

found : match_text (98 ∷ 98 ∷ 42 ∷ 36 ∷ []) (97 ∷ 98 ∷ []) ≡ true
unfolding match_text search matchhere matchstar
found = refl
