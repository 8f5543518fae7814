-- ===== src/Lines/Tests.antt =====
-- The line `ls -l`: the theorem at this line, and a run of the whole parser.
use c_cpp_projects.Prelude.{List, ◌≡◌, refl, false, [], ◌∷◌, none, some, arith, ok}
use c_cpp_projects.Lines.{
  CmdLine, parse_single_cmd_line, parse_cmd_lines, parse_pipeline, cut, chomp, is_empty, split,
  tokens, set_blocking, number, extract_redirections, before_redirect, clone_first_word, word_end,
}
use c_cpp_projects.Lines.Total.{parse_cmd_lines-total}
use c_cpp_projects.Lines.Words.{parse-unwords}

parse-unwords_example :
    parse_single_cmd_line (108 ∷ 115 ∷ 32 ∷ 45 ∷ 108 ∷ [])
    ≡ some (record {
      arguments = (108 ∷ 115 ∷ []) ∷ (45 ∷ 108 ∷ []) ∷ [];
      input_redirect = none;
      output_redirect = none;
      blocking = false;
      idx = 0;
    })
parse-unwords_example =
    parse-unwords (108 ∷ 115 ∷ []) ((45 ∷ 108 ∷ []) ∷ [])
      (
        ((λ e. cc), ((refl, refl, refl), ((refl, refl, refl), tt))),
        (((λ e. cc), ((refl, refl, refl), ((refl, refl, refl), tt))), tt),
      )
      (omega arith)

-- `a|b>c&` is two commands, of which the second writes to `c`, in the background.
two_commands :
    parse_cmd_lines (97 ∷ 124 ∷ 98 ∷ 62 ∷ 99 ∷ 38 ∷ 10 ∷ [])
    ≡ ok (
        record {
          arguments = (97 ∷ []) ∷ [];
          input_redirect = none;
          output_redirect = none;
          blocking = false;
          idx = 0;
        }
        ∷ record {
          arguments = (98 ∷ []) ∷ [];
          input_redirect = none;
          output_redirect = some (99 ∷ []);
          blocking = false;
          idx = 1;
        }
        ∷ [])
unfolding parse_cmd_lines parse_pipeline parse_single_cmd_line cut chomp is_empty split tokens
    set_blocking number extract_redirections before_redirect clone_first_word word_end
two_commands = refl

parse_cmd_lines-total_example : (cs : List CmdLine) × (parse_cmd_lines (32 ∷ 124 ∷ 98 ∷ []) ≡ ok cs)
parse_cmd_lines-total_example = parse_cmd_lines-total (32 ∷ 124 ∷ 98 ∷ [])
