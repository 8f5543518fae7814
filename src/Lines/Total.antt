-- ===== src/Lines/Total.antt =====
-- The parser ends on every line.
use c_cpp_projects.Prelude.{
  ℕ, zero, suc, ◌<◌, ◌≡◌, refl, ap, true, false, Bool-cases, inl, inr, List, [], ◌∷◌, length, none,
  some, some-injective, Option-cases, arith, ==_iff, ==_of_ne, ℕ_discrete, ok,
}
use c_cpp_projects.Lines.{
  CmdLine, is_empty, parse_single_cmd_line, cut, chomp, parse_pipeline, parse_cmd_lines,
  set_blocking, number,
}

-- What is behind the character found is shorter than the line.
cut-shorter : (d : ℕ) (line rest : List ℕ) → (cut d line).1 ≡ some rest → length rest < length line
unfolding cut
cut-shorter d [] rest e = cc
cut-shorter d (c ∷ cs) rest e = elim (ℕ_discrete c d) [
  | yes s ↦
      (let same = some-injective cs rest (rw ((==_iff c d).1 s) at e) in
        omega (arith, ap length same))
  | no ne ↦ (let behind = rw (==_of_ne c d ne) at e in omega (arith, cut-shorter d cs rest behind))
]

parse_pipeline_total :
    (fuel : ℕ) (line : List ℕ)
    → length line < fuel
    → (cs : List CmdLine) × (parse_pipeline fuel line ≡ ok cs)
unfolding parse_pipeline
parse_pipeline_total zero line lt = absurd (omega arith)
parse_pipeline_total (suc fuel) line lt = elim (Bool-cases (is_empty line)) [
  | inl e ↦ ([], rw e refl)
  | inr e ↦ elim (Option-cases (parse_single_cmd_line (cut 124 line).0)) [
    | inl s ↦ ([], rw (e, s) refl)
    | inr (c, s) ↦ elim (Option-cases (cut 124 line).1) [
      | inl b ↦ (c ∷ [], rw (e, s, b) refl)
      | inr (rest, b) ↦
          let short = cut-shorter 124 line rest b in
          let (cs, run) = parse_pipeline_total fuel rest (omega arith) in
          (c ∷ cs, rw (e, s, b, run) refl)
    ]
  ]
]

-- `parseCmdLines` ends with a list of commands on every line, an empty one included.
pub parse_cmd_lines-total : (str : List ℕ) → (cs : List CmdLine) × (parse_cmd_lines str ≡ ok cs)
unfolding parse_cmd_lines
parse_cmd_lines-total str = elim (Bool-cases (is_empty str)) [
  | inl e ↦ ([], rw e refl)
  | inr e ↦
      let line = (cut 38 (chomp str)).0 in
      let (cs, run) = parse_pipeline_total (suc (length line)) line (omega arith) in
      (
        number 0 (set_blocking (elim (cut 38 (chomp str)).1 [ none ↦ true | some r ↦ false ]) cs),
        rw (e, run) refl,
      )
]
