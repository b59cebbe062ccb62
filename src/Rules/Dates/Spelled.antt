-- ===== src/Rules/Dates/Spelled.antt =====
-- A date that is written in a format.
use Prim.Native.String.{◌++◌ as append}
use task_schedular.Prelude.{
  ◌≤◌, Bool, false, not, ◌==◌, ◌||◌, ◌&&◌, if◌then◌else◌, sym, ap, ◌∙◌, ℕ, ◌+◌, ◌/◌, ◌%◌, ◌<◌,
  String, true, Option, some, List, [], ◌∷◌, any, ◌≡◌, refl, arith, ==_iff,
}
use task_schedular.Enqueue.Schema.{codes}
use task_schedular.Prelude.Show.{show, pad2}
use task_schedular.Rules.Dates.{
  part_number, same_part, has_part, value_of, iso_date, DatePart, year, month, day, hour, minute,
  second, Piece, part, character, pieces, Matched, match_year, match_short, match_character,
  match_part, match_pieces, iso, is_part, parse_with_format,
}

-- A moment, part by part
abbrev pub Moment : Type 0
Moment = DatePart → ℕ

abbrev pub bound : DatePart → ℕ
bound year = 10000
bound p = 100

abbrev pub is_leap : ℕ → Bool
is_leap y = y % 4 == 0 && (not (y % 100 == 0) || y % 400 == 0)

abbrev pub month_days : ℕ → ℕ → ℕ
month_days y mo =
    if mo == 2
    then (if is_leap y then 29 else 28)
    else if (mo == 4 || mo == 6) || (mo == 9 || mo == 11)
    then 30
    else 31

-- A moment of the calendar, in a year of four digits
pub record IsMoment (m : Moment) : Type 0 where
  pub years : (1000 ≤ m year) × (m year < 10000)
  pub months : (1 ≤ m month) × (m month ≤ 12)
  pub days : (1 ≤ m day) × (m day ≤ month_days (m year) (m month))
  pub hours : m hour < 24
  pub minutes : m minute < 60
  pub seconds : m second < 60

month_days_le : (y mo : ℕ) → month_days y mo ≤ 31
month_days_le y mo = ground arith

moment-bound : (m : Moment) → IsMoment m → (p : DatePart) → m p < bound p
moment-bound m h year = h.years.1
moment-bound m h month = omega (arith, h.months.1)
moment-bound m h day = omega (arith, h.days.1, month_days_le (m year) (m month))
moment-bound m h hour = omega (arith, h.hours)
moment-bound m h minute = omega (arith, h.minutes)
moment-bound m h second = omega (arith, h.seconds)

abbrev pub spell_year : ℕ → List ℕ → List ℕ
spell_year n s =
    (b'0' + n / 1000) ∷ ((b'0' + n / 100 % 10) ∷ ((b'0' + n / 10 % 10) ∷ ((b'0' + n % 10) ∷ s)))

abbrev pub spell_short : ℕ → List ℕ → List ℕ
spell_short n s = (b'0' + n / 10) ∷ ((b'0' + n % 10) ∷ s)

abbrev pub spell_part : DatePart → ℕ → List ℕ → List ℕ
spell_part year = spell_year
spell_part p = spell_short

-- The moment in a format, with leading zeros
abbrev pub spell : Moment → List Piece → List ℕ
spell m [] = []
spell m (part p ∷ ps) = spell_part p (m p) (spell m ps)
spell m (character c ∷ ps) = c ∷ spell m ps

-- The parts of a format with their values
abbrev pub parts_of : Moment → List Piece → Matched
parts_of m [] = []
parts_of m (part p ∷ ps) = (p, m p) ∷ parts_of m ps
parts_of m (character c ∷ ps) = parts_of m ps

match_year-spell_year :
    (rest : List ℕ → Option Matched) (n : ℕ) (s : List ℕ) (found : Matched)
    → n < 10000
    → rest s ≡ some found
    → match_year rest (spell_year n s) ≡ some ((year, n) ∷ found)
unfolding match_year
match_year-spell_year rest n s found h e = ground (arith, e)

match_short-spell_short :
    (p : DatePart) (rest : List ℕ → Option Matched) (n : ℕ) (s : List ℕ) (found : Matched)
    → n < 100
    → rest s ≡ some found
    → match_short p rest (spell_short n s) ≡ some ((p, n) ∷ found)
unfolding match_short
match_short-spell_short p rest n s found h e = ground (arith, e)

match_part-spell_part :
    (p : DatePart) (rest : List ℕ → Option Matched) (n : ℕ) (s : List ℕ) (found : Matched)
    → n < bound p
    → rest s ≡ some found
    → match_part p rest (spell_part p n s) ≡ some ((p, n) ∷ found)
match_part-spell_part year = match_year-spell_year
match_part-spell_part month = match_short-spell_short month
match_part-spell_part day = match_short-spell_short day
match_part-spell_part hour = match_short-spell_short hour
match_part-spell_part minute = match_short-spell_short minute
match_part-spell_part second = match_short-spell_short second

match_pieces-spell :
    (m : Moment)
    → ((p : DatePart) → m p < bound p)
    → (ps : List Piece) → match_pieces ps (spell m ps) ≡ some (parts_of m ps)
unfolding match_pieces match_character
match_pieces-spell m h [] = refl
match_pieces-spell m h (part p ∷ ps) =
    match_part-spell_part p (match_pieces ps) (m p) (spell m ps) (parts_of m ps) (h p)
      (match_pieces-spell m h ps)
match_pieces-spell m h (character c ∷ ps) = rw ((==_iff c c).1 refl) (match_pieces-spell m h ps)

abbrev number_part : ℕ → DatePart
number_part n =
    if n == 0
    then year
    else if n == 1
    then month
    else if n == 2
    then day
    else if n == 3
    then hour
    else if n == 4
    then minute
    else second

number_part-part_number : (p : DatePart) → number_part (part_number p) ≡ p
number_part-part_number year = refl
number_part-part_number month = refl
number_part-part_number day = refl
number_part-part_number hour = refl
number_part-part_number minute = refl
number_part-part_number second = refl

same_part_sound : (p q : DatePart) → same_part p q ≡ true → p ≡ q
same_part_sound p q h =
    sym (number_part-part_number p)
    ∙ ap number_part ((==_iff (part_number p) (part_number q)).0 h)
    ∙ number_part-part_number q

-- The part stands in the format.
abbrev pub stands : DatePart → List Piece → Bool
stands p [] = false
stands p (part q ∷ ps) = same_part q p || stands p ps
stands p (character c ∷ ps) = stands p ps

-- The value of a part of the moment as far as the format shows it, and the default else
abbrev pub shown : Moment → List Piece → DatePart → ℕ → ℕ
shown m ps p n = if stands p ps then m p else n

-- The moment in ISO 8601, with a time if the format has a part of one
abbrev pub date_text : Moment → List Piece → String
date_text m ps =
    append (show (shown m ps year 1970))
      (append "-" (append (pad2 (shown m ps month 1)) (append "-" (pad2 (shown m ps day 1)))))

abbrev pub time_text : Moment → List Piece → String
time_text m ps = append (pad2 (shown m ps hour 0)) (
    append ":"
      (append (pad2 (shown m ps minute 0)) (append ":" (append (pad2 (shown m ps second 0)) "Z"))))

abbrev pub iso_text : Moment → List Piece → String
iso_text m ps =
    if (stands hour ps || stands minute ps) || stands second ps
    then append (date_text m ps) (append "T" (time_text m ps))
    else date_text m ps

has_part-parts_of :
    (m : Moment) (p : DatePart) (ps : List Piece) → has_part p (parts_of m ps) ≡ stands p ps
has_part-parts_of m p [] = refl
has_part-parts_of m p (part q ∷ ps) = ap (λ b. same_part q p || b) (has_part-parts_of m p ps)
has_part-parts_of m p (character c ∷ ps) = has_part-parts_of m p ps

last_one :
    (v w n : ℕ) (same later : Bool)
    → (same ≡ true → w ≡ v)
    → (if later then v else (if same then w else n)) ≡ (if same || later then v else n)
last_one v w n true true h = refl
last_one v w n true false h = h refl
last_one v w n false later h = refl

value_of-parts_of :
    (m : Moment) (p : DatePart) (n : ℕ) (ps : List Piece)
    → value_of p n (parts_of m ps) ≡ shown m ps p n
unfolding value_of
value_of-parts_of m p n [] = refl
value_of-parts_of m p n (part q ∷ ps) =
    value_of-parts_of m p (if same_part q p then m q else n) ps
    ∙ last_one (m p) (m q) n (same_part q p) (stands p ps) (λ same. ap m (same_part_sound q p same))
value_of-parts_of m p n (character c ∷ ps) = value_of-parts_of m p n ps

iso-parts_of : (m : Moment) (ps : List Piece) → iso (parts_of m ps) ≡ iso_text m ps
unfolding iso iso_date
iso-parts_of m ps =
    rw
      (
        has_part-parts_of m hour ps,
        has_part-parts_of m minute ps,
        has_part-parts_of m second ps,
        value_of-parts_of m year 1970 ps,
        value_of-parts_of m month 1 ps,
        value_of-parts_of m day 1 ps,
        value_of-parts_of m hour 0 ps,
        value_of-parts_of m minute 0 ps,
        value_of-parts_of m second 0 ps,
      )
      refl

-- A moment of the calendar in a year of four digits, written in a format with leading zeros, is read back
-- in that format as the moment in ISO 8601: year, month and day, and behind them hour, minute and second
-- if the format has one of these. A part that the format does not have is 1970, 01 or 00.
pub parse_with_format-spell :
    (trim : String → String) (m : Moment) (value format : String)
    → IsMoment m
    → any is_part (pieces (codes format)) ≡ true
    → codes (trim value) ≡ spell m (pieces (codes format))
    → parse_with_format trim value format ≡ some (iso_text m (pieces (codes format)))
unfolding parse_with_format
parse_with_format-spell trim m value format h some_part spelled =
    let ps = pieces (codes format) in
    rw (some_part, spelled, match_pieces-spell m (moment-bound m h) ps, iso-parts_of m ps) refl
