-- ===== src/Rules/Dates.antt =====
-- packages/rule-engine/src/transforms.ts, parseWithFormat: a text in a date format as ISO 8601. `trim`
-- is String.prototype.trim, and texts are read by their code points.
pub mod Spelled
use Prim.Native.String.{◌++◌ as append}
use task_schedular.Prelude.{
  ℕ, zero, suc, ◌+◌, ◌-◌, ◌*◌, String, Bool, true, false, ◌&&◌, ◌||◌, Option, none, some, List, [],
  ◌∷◌, ◌==◌, leb, any, if◌then◌else◌,
}
use task_schedular.Prelude.Show.{show, pad2}
use task_schedular.Enqueue.Schema.{codes}

-- yyyy, MM, dd, HH, mm, ss
pub data DatePart : Type 0 where
  year month day hour minute second : DatePart

-- What a place of the format matches: a part of the date, or one character
pub data Piece : Type 0 where
  part : DatePart → Piece
  character : ℕ → Piece

abbrev pub part_number : DatePart → ℕ
part_number year = 0
part_number month = 1
part_number day = 2
part_number hour = 3
part_number minute = 4
part_number second = 5

-- The parts as keys of `parts`
abbrev pub same_part : DatePart → DatePart → Bool
same_part p q = part_number p == part_number q

-- The token that two letters make
abbrev pub two_letters : ℕ → ℕ → Option DatePart
two_letters a b =
    if a == b'M' && b == b'M'
    then some month
    else if a == b'd' && b == b'd'
    then some day
    else if a == b'H' && b == b'H'
    then some hour
    else if a == b'm' && b == b'm'
    then some minute
    else if a == b's' && b == b's'
    then some second
    else none

abbrev pub is_year : ℕ → ℕ → ℕ → ℕ → Bool
is_year a b c d = (a == b'y' && b == b'y') && (c == b'y' && d == b'y')

-- One token or character in front
abbrev pub in_front : Option DatePart → ℕ → List Piece → List Piece → List Piece
in_front none a short single = character a ∷ single
in_front (some p) a short single = part p ∷ short

-- /yyyy|MM|dd|HH|mm|ss|[^a-zA-Z]/g on the format; a letter of no token stands for itself too.
unfoldable pub pieces : List ℕ → List Piece
pieces [] = []
pieces (a ∷ []) = character a ∷ []
pieces (a ∷ (b ∷ [])) = in_front (two_letters a b) a [] (character b ∷ [])
pieces (a ∷ (b ∷ (c ∷ []))) =
    in_front (two_letters a b) a (character c ∷ []) (pieces (b ∷ (c ∷ [])))
pieces (a ∷ (b ∷ (c ∷ (d ∷ s)))) = elim (is_year a b c d) [
  | true ↦ part year ∷ pieces s
  | false ↦ elim (two_letters a b) [
    | some p ↦ part p ∷ pieces (c ∷ (d ∷ s))
    | none ↦ character a ∷ pieces (b ∷ (c ∷ (d ∷ s)))
  ]
]

-- What was matched, in order
abbrev pub Matched : Type 0
Matched = List (DatePart × ℕ)

abbrev pub is_digit : ℕ → Bool
is_digit c = leb b'0' c && leb c b'9'

abbrev pub digit_value : ℕ → ℕ
digit_value c = c - b'0'

abbrev pub with_part : DatePart → ℕ → Option Matched → Option Matched
with_part p n none = none
with_part p n (some found) = some ((p, n) ∷ found)

abbrev pub or_try : Option Matched → Option Matched → Option Matched
or_try (some found) other = some found
or_try none other = other

-- \d{4} in front of what `rest` matches
unfoldable pub match_year : (List ℕ → Option Matched) → List ℕ → Option Matched
match_year rest (a ∷ (b ∷ (c ∷ (d ∷ s)))) =
    if (is_digit a && is_digit b) && (is_digit c && is_digit d)
    then with_part year
        (digit_value a * 1000 + digit_value b * 100 + digit_value c * 10 + digit_value d) (rest s)
    else none
match_year rest _ = none

-- \d{1,2}: two digits are tried before one.
unfoldable pub match_short : DatePart → (List ℕ → Option Matched) → List ℕ → Option Matched
match_short p rest [] = none
match_short p rest (a ∷ []) = if is_digit a then with_part p (digit_value a) (rest []) else none
match_short p rest (a ∷ (b ∷ s)) =
    if is_digit a
    then or_try
        (if is_digit b then with_part p (digit_value a * 10 + digit_value b) (rest s) else none)
        (with_part p (digit_value a) (rest (b ∷ s)))
    else none

unfoldable pub match_character : ℕ → (List ℕ → Option Matched) → List ℕ → Option Matched
match_character c rest [] = none
match_character c rest (a ∷ s) = if a == c then rest s else none

abbrev pub match_end : List ℕ → Option Matched
match_end [] = some []
match_end (c ∷ s) = none

abbrev pub match_part : DatePart → (List ℕ → Option Matched) → List ℕ → Option Matched
match_part year rest = match_year rest
match_part p rest = match_short p rest

unfoldable pub match_pieces : List Piece → List ℕ → Option Matched
unfolding match_year match_short match_character
match_pieces [] = match_end
match_pieces (part p ∷ ps) = match_part p (match_pieces ps)
match_pieces (character c ∷ ps) = match_character c (match_pieces ps)

-- `parts[tok] ?? default`; a token that stands twice has its last value.
unfoldable pub value_of : DatePart → ℕ → Matched → ℕ
value_of p n [] = n
value_of p n ((q, m) ∷ found) = value_of p (if same_part q p then m else n) found

abbrev pub has_part : DatePart → Matched → Bool
has_part p found = any (λ (q, m). same_part q p) found

abbrev pub has_time : Matched → Bool
has_time found = (has_part hour found || has_part minute found) || has_part second found

unfoldable pub iso_date : Matched → String
unfolding value_of
iso_date found =
    append (show (value_of year 1970 found)) (
      append "-"
        (append (pad2 (value_of month 1 found)) (append "-" (pad2 (value_of day 1 found)))))

unfoldable pub iso : Matched → String
unfolding iso_date
iso found =
    if has_time found
    then append (iso_date found) (
        append "T" (
          append (pad2 (value_of hour 0 found)) (
            append ":" (
              append (pad2 (value_of minute 0 found))
                (append ":" (append (pad2 (value_of second 0 found)) "Z"))))))
    else iso_date found

abbrev pub is_part : Piece → Bool
is_part (part p) = true
is_part (character c) = false

abbrev pub iso_of : Option Matched → Option String
iso_of none = none
iso_of (some found) = some (iso found)

-- A format without a token gives nothing.
unfoldable pub parse_with_format : (String → String) → String → String → Option String
unfolding pieces match_pieces iso
parse_with_format trim value format =
    let ps = pieces (codes format) in
    if any is_part ps then iso_of (match_pieces ps (codes (trim value))) else none
