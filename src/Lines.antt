-- ===== src/Lines.antt =====
-- The parser of command lines: c/Computer Architecture labs/lab6/task4/LineParser.c. A string is the
-- list of its characters in front of the zero; the heap is left out.
pub mod Words
pub mod Total
mod Tests
use c_cpp_projects.Prelude.{
  ℕ, zero, suc, ◌+◌, Bool, true, false, ◌&&◌, ◌||◌, not, List, [], ◌∷◌, ◌++◌, length, take, set,
  Option, none, some, ◌==◌, ltb, leb, if◌then◌else◌, Outcome, ok, out_of_fuel, ◌>>=◌,
}

abbrev pub max_arguments : ℕ
max_arguments = 256

-- `cmdLine`; `next` is the tail of the list that the commands are in, and `argCount` the length of
-- `arguments`.
pub record CmdLine : Type 0 where
  pub arguments : List (List ℕ)
  pub input_redirect : Option (List ℕ)
  pub output_redirect : Option (List ℕ)
  pub blocking : Bool
  pub idx : ℕ

-- The characters ' ', '<', '>', '|', '&' and newline.
abbrev pub is_space_char : ℕ → Bool
is_space_char c = c == 32

abbrev pub is_redirect : ℕ → Bool
is_redirect c = (c == 60) || (c == 62)

-- `isspace`
abbrev pub isspace : ℕ → Bool
isspace c = (c == 32) || (leb 9 c && leb c 13)

pub is_empty : List ℕ → Bool
is_empty [] = true
is_empty (c ∷ cs) = isspace c && is_empty cs

-- `cloneFirstWord` once a word has begun, and before.
pub word_end : List ℕ → List ℕ
word_end [] = []
word_end (c ∷ cs) = if is_redirect c || is_space_char c then [] else c ∷ word_end cs

pub clone_first_word : List ℕ → Option (List ℕ)
clone_first_word [] = none
clone_first_word (c ∷ cs) =
    if is_redirect c
    then none
    else if is_space_char c
    then clone_first_word cs
    else some (c ∷ word_end cs)

-- The redirections that `extractRedirections` leaves, of which the last of each kind counts, and the
-- line up to the first.
pub extract_redirections :
    List ℕ → Option (List ℕ) × Option (List ℕ) → Option (List ℕ) × Option (List ℕ)
extract_redirections [] r = r
extract_redirections (c ∷ cs) r =
    let next =
      (if c == 60
        then (clone_first_word cs, r.1)
        else if c == 62
        then (r.0, clone_first_word cs)
        else r) in
    extract_redirections cs next

pub before_redirect : List ℕ → List ℕ
before_redirect [] = []
before_redirect (c ∷ cs) = if is_redirect c then [] else c ∷ before_redirect cs

-- The words that `strtok` finds with the delimiter ' ': the one at hand, and those behind it.
abbrev pub put_word : List ℕ × List (List ℕ) → List (List ℕ)
put_word ([], ws) = ws
put_word (c ∷ cs, ws) = (c ∷ cs) ∷ ws

pub split : List ℕ → List ℕ × List (List ℕ)
split [] = ([], [])
split (c ∷ cs) = let r = split cs in if is_space_char c then ([], put_word r) else (c ∷ r.0, r.1)

pub tokens : List ℕ → List (List ℕ)
tokens line = put_word (split line)

pub parse_single_cmd_line : List ℕ → Option CmdLine
parse_single_cmd_line line =
    let (input, output) = extract_redirections line (none, none) in
    if is_empty line
    then none
    else some (record {
      arguments = take 255 (tokens (before_redirect line));
      input_redirect = input;
      output_redirect = output;
      blocking = false;
      idx = 0;
    })

-- The line in front of the first character `d`, and what is behind it, by `strchr`.
pub cut : ℕ → List ℕ → List ℕ × Option (List ℕ)
cut d [] = ([], none)
cut d (c ∷ cs) = let (a, b) = cut d cs in if c == d then ([], some cs) else (c ∷ a, b)

-- `_parseCmdLines`, on fuel.
pub parse_pipeline : ℕ → List ℕ → Outcome (List CmdLine)
parse_pipeline zero line = out_of_fuel
parse_pipeline (suc fuel) line =
    let (first, behind) = cut 124 line in
    if is_empty line then ok [] else elim (parse_single_cmd_line first) [
      | none ↦ ok []
      | some c ↦ elim behind [
        | none ↦ ok (c ∷ [])
        | some rest ↦ parse_pipeline fuel rest >>= λ cs. ok (c ∷ cs)
      ]
    ]

-- A newline at the end of the line is taken off.
pub chomp : List ℕ → List ℕ
chomp [] = []
chomp (c ∷ []) = if c == 10 then [] else c ∷ []
chomp (c ∷ d ∷ cs) = c ∷ chomp (d ∷ cs)

pub set_blocking : Bool → List CmdLine → List CmdLine
set_blocking b [] = []
set_blocking b (c ∷ []) = record c { blocking = b } ∷ []
set_blocking b (c ∷ d ∷ cs) = c ∷ set_blocking b (d ∷ cs)

pub number : ℕ → List CmdLine → List CmdLine
number i [] = []
number i (c ∷ cs) = record c { idx = i } ∷ number (suc i) cs

-- A command takes a character of the line at least, so a round for each and one more are enough.
pub parse_cmd_lines : List ℕ → Outcome (List CmdLine)
parse_cmd_lines str =
    let (line, ampersand) = cut 38 (chomp str) in
    if is_empty str
    then ok []
    else (parse_pipeline (suc (length line)) line >>= λ cs.
        ok (number 0 (set_blocking (elim ampersand [ none ↦ true | some r ↦ false ]) cs)))

-- `replaceCmdArg`: the result, and the command.
pub replace_cmd_arg : CmdLine → ℕ → List ℕ → ℕ × CmdLine
replace_cmd_arg c num new_string =
    if leb (length c.arguments) num
    then (0, c)
    else (1, record c { arguments = set c.arguments num new_string })
