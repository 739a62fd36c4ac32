-- ===== src/Results/Csv.antt =====
-- be/src/results/csv.ts: the cells of a line and what they say. A text is its UTF-16 code units.
use sterun.Common.{
  Text, text_eq, codes, ℕ, ◌+◌, ◌-◌, ◌*◌, String, Bool, true, false, not, ◌&&◌, ◌||◌, List, [], ◌∷◌,
  ◌++◌, Option, none, some, ◌==◌, leb, ltb, if◌then◌else◌, any,
}
use sterun.Results.Row.{ResultKind, timed, untimed, dnf}

-- JavaScript's white space and line ends, which `trim` and `\s` know.
abbrev pub js_white_space : List ℕ
js_white_space =
    0x9 ∷ 0xa ∷ 0xb ∷ 0xc ∷ 0xd ∷ 0x20 ∷ 0xa0 ∷ 0x1680 ∷ 0x2000 ∷ 0x2001 ∷ 0x2002 ∷ 0x2003 ∷ 0x2004
    ∷ 0x2005 ∷ 0x2006 ∷ 0x2007 ∷ 0x2008 ∷ 0x2009 ∷ 0x200a ∷ 0x2028 ∷ 0x2029 ∷ 0x202f ∷ 0x205f
    ∷ 0x3000 ∷ 0xfeff ∷ []

unfoldable pub is_js_space : ℕ → Bool
is_js_space c = any (λ w. w == c) js_white_space

unfoldable pub trim_left : Text → Text
trim_left [] = []
trim_left (c ∷ s) = if is_js_space c then trim_left s else c ∷ s

abbrev pub is_blank : Text → Bool
is_blank [] = true
is_blank (c ∷ s) = false

unfoldable pub trim_right : Text → Text
trim_right [] = []
trim_right (c ∷ s) =
    let rest = trim_right s in if is_blank rest && is_js_space c then [] else c ∷ rest

unfoldable pub trim : Text → Text
trim s = trim_right (trim_left s)

-- `toLowerCase` as far as the next steps can see: the capitals, and the two other characters that
-- become ASCII letters. Every other one is not ASCII after it, and is taken out.
unfoldable pub lower : Text → Text
lower [] = []
lower (c ∷ s) =
    let rest = lower s in
    if leb 0x41 c && leb c 0x5a
    then (c + 32) ∷ rest
    else if c == 0x212a
    then 0x6b ∷ rest
    else if c == 0x130
    then 0x69 ∷ 0x307 ∷ rest
    else c ∷ rest

unfoldable pub drop_bom : Text → Text
drop_bom [] = []
drop_bom (c ∷ s) = if c == 0xfeff then s else c ∷ s

-- `/[\s-]+/g` to one underscore; the flag says whether the last character was in such a run.
unfoldable pub underscores : Bool → Text → Text
underscores in_run [] = []
underscores in_run (c ∷ s) =
    if is_js_space c || c == 0x2d
    then (if in_run then underscores true s else 0x5f ∷ underscores true s)
    else c ∷ underscores false s

abbrev pub is_ascii_digit : ℕ → Bool
is_ascii_digit c = leb 0x30 c && leb c 0x39

unfoldable pub only_names : Text → Text
only_names [] = []
only_names (c ∷ s) =
    if leb 0x61 c && leb c 0x7a || (is_ascii_digit c || c == 0x5f)
    then c ∷ only_names s
    else only_names s

unfoldable pub normalise_header : Text → Text
normalise_header cell = only_names (underscores false (drop_bom (lower (trim cell))))

-- A read of a record literal: one of its keys, a name that every object inherits, or neither.
pub data Lookup {ℓ} (A : Type ℓ) : Type ℓ where
  own : A → Lookup A
  inherited : Lookup A
  absent : Lookup A

-- The names of `Object.prototype` without a capital.
abbrev pub inherited_names : List String
inherited_names = "constructor" ∷ "__proto__" ∷ []

unfoldable pub lookup {ℓ} : {A : Type ℓ} → List (String × A) → Text → Lookup A
lookup [] key = if any (λ name. text_eq (codes name) key) inherited_names then inherited else absent
lookup ((name, a) ∷ rest) key = if text_eq (codes name) key then own a else lookup rest key

pub data Column : Type 0 where
  bib_no category_id finish_time_s status : Column

abbrev pub header_aliases : List (String × Column)
header_aliases =
    ("bib", bib_no)
    ∷ ("bib_no", bib_no)
    ∷ ("bibno", bib_no)
    ∷ ("bib_number", bib_no)
    ∷ ("number", bib_no)
    ∷ ("category", category_id)
    ∷ ("category_id", category_id)
    ∷ ("categoryid", category_id)
    ∷ ("cat", category_id)
    ∷ ("finish", finish_time_s)
    ∷ ("finish_time", finish_time_s)
    ∷ ("finish_time_s", finish_time_s)
    ∷ ("finishtime", finish_time_s)
    ∷ ("time", finish_time_s)
    ∷ ("net_time", finish_time_s)
    ∷ ("chip_time", finish_time_s)
    ∷ ("duration", finish_time_s)
    ∷ ("status", status)
    ∷ ("result", status)
    ∷ ("outcome", status)
    ∷ ("finish_status", status)
    ∷ []

abbrev pub status_aliases : List (String × ResultKind)
status_aliases =
    ("finished", timed)
    ∷ ("finish", timed)
    ∷ ("timed", timed)
    ∷ ("untimed", untimed)
    ∷ ("finished_untimed", untimed)
    ∷ ("no_time", untimed)
    ∷ ("notime", untimed)
    ∷ ("no_official_time", untimed)
    ∷ ("dnf", dnf)
    ∷ ("did_not_finish", dnf)
    ∷ ("dns", dnf)
    ∷ ("did_not_start", dnf)
    ∷ ("no_show", dnf)
    ∷ ("noshow", dnf)
    ∷ []

abbrev pub max_safe_integer : ℕ
max_safe_integer = 9_007_199_254_740_991

-- `Number.isSafeInteger(n) ? n : null`.
unfoldable pub if_safe : ℕ → Option ℕ
if_safe n = if leb n max_safe_integer then some n else none

-- The digits that a text starts with, and what follows them.
unfoldable pub digits : Text → Text × Text
digits [] = ([], [])
digits (c ∷ s) =
    let rest = digits s in if is_ascii_digit c then (c ∷ rest.0, rest.1) else ([], c ∷ s)

unfoldable pub number_from : ℕ → Text → ℕ
number_from n [] = n
number_from n (c ∷ s) = number_from (10 * n + (c - 0x30)) s

-- `Number` of a run of digits; past the safe integers it is rounded, and refused by `if_safe` as the
-- exact number is.
unfoldable pub number : Text → ℕ
number s = number_from 0 s

-- `/^\d+$/`.
unfoldable pub whole_number : Text → Option ℕ
whole_number s =
    let (ds, rest) = digits s in
    if not (is_blank ds) && is_blank rest then if_safe (number ds) else none

unfoldable pub parse_index : Text → Option ℕ
parse_index input = whole_number (trim input)

-- The loop of `splitLine`: the cells so far, the cell and whether it is in quotes. A quote inside
-- quotes that another follows stands for itself.
abbrev pub starts_with : ℕ → Text → Bool
starts_with c [] = false
starts_with c (d ∷ s) = c == d

pub data Quoting : Type 0 where
  plain quoted escaped : Quoting

unfoldable pub split_from : ℕ → List Text → Text → Quoting → Text → List Text
split_from delimiter cells cell q [] = cells ++ cell ∷ []
split_from delimiter cells cell escaped (c ∷ s) = split_from delimiter cells cell quoted s
split_from delimiter cells cell quoted (c ∷ s) =
    if c == 0x22
    then (if starts_with 0x22 s
        then split_from delimiter cells (cell ++ 0x22 ∷ []) escaped s
        else split_from delimiter cells cell plain s)
    else split_from delimiter cells (cell ++ c ∷ []) quoted s
split_from delimiter cells cell plain (c ∷ s) =
    if c == 0x22
    then split_from delimiter cells cell quoted s
    else if c == delimiter
    then split_from delimiter (cells ++ cell ∷ []) [] plain s
    else split_from delimiter cells (cell ++ c ∷ []) plain s

unfoldable pub split_line : Text → ℕ → List Text
split_line line delimiter = split_from delimiter [] [] plain line

unfoldable pub count_of : ℕ → Text → ℕ
count_of c [] = 0
count_of c (d ∷ s) = if c == d then 1 + count_of c s else count_of c s

unfoldable pub detect_delimiter : Text → ℕ
detect_delimiter line = if ltb (count_of 0x2c line) (count_of 0x3b line) then 0x3b else 0x2c
