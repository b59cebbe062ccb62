-- ===== src/Csv/Reader.antt =====
-- A reader of CSV texts, and what it reads of the texts that the services write.
use Prim.Native.Char.{Char, code}
use Prim.Native.String.{String, [] as empty, ◌∷◌ as ◌before◌, ◌++◌ as append}
use text.Mathlib.TextLemmas.{cons-append, nil-append, append-nil, append_assoc}
use text.Mathlib.TextEquality.{Char-path}
use task_schedular.Prelude.{
  ℕ, Bool, true, false, ◌||◌, List, [], ◌∷◌, ◌++◌, ◌==◌, ◌≡◌, refl, sym, ap, ◌∙◌, inl, inr, arith,
  Bool-cases, ==_iff, All, if◌then◌else◌,
}
use task_schedular.Csv.{quote, is_special, has, doubled, escape, joined, render, lines_text}

-- Where the reader is in a cell: before it, in one without quotes, in quotes, or behind a quote there
pub data Mode : Type 0 where
  fresh plain inside behind : Mode

pub data Action : Type 0 where
  ignore add_char end_cell end_line : Action

-- The rest of a text: the rest of the cell, of the line, and the lines below
abbrev pub Rest : Type 0
Rest = String × List String × List (List String)

abbrev pub delimit : ℕ → Action × Mode
delimit c =
    if c == b','
    then (end_cell, fresh)
    else if c == b'\n' || c == b'\r'
    then (end_line, fresh)
    else (add_char, plain)

unfoldable pub step : Mode → ℕ → Action × Mode
step fresh c = if c == b'"' then (ignore, inside) else delimit c
step plain c = delimit c
step inside c = if c == b'"' then (ignore, behind) else (add_char, inside)
step behind c = if c == b'"' then (add_char, inside) else delimit c

abbrev pub perform : Action → Char → Rest → Rest
perform ignore c r = r
perform add_char c (x, cells, lines) = (c before x, cells, lines)
perform end_cell c (x, cells, lines) = ("", x ∷ cells, lines)
perform end_line c (x, cells, lines) = ("", [], (x ∷ cells) ∷ lines)

unfoldable pub read : Mode → String → Rest
unfolding step
read m empty = ("", [], [])
read m (c before s) = let (a, n) = step m (code c) in perform a c (read n s)

abbrev pub lines_of : Rest → List (List String)
lines_of (x, cells, lines) = (x ∷ cells) ∷ lines

-- The lines of a text; the last one is what stands behind the last line feed.
unfoldable pub read_csv : String → List (List String)
unfolding read
read_csv s = lines_of (read fresh s)

-- A text before the rest of a cell
abbrev put : String → Rest → Rest
put s (x, cells, lines) = (append s x, cells, lines)

put-char : (c : Char) (s : String) (r : Rest) → perform add_char c (put s r) ≡ put (c before s) r
put-char c s (x, cells, lines) = rw (cons-append c s x) refl

delimit-plain : (c : Char) → is_special c ≡ false → delimit (code c) ≡ (add_char, plain)
delimit-plain c h = ground arith

-- A text without special characters is read as it is.
read-plain :
    (s t : String) → has is_special s ≡ false → read plain (append s t) ≡ put s (read plain t)
unfolding read step
read-plain empty t h = rw (nil-append t, nil-append (read plain t).0) refl
read-plain (c before s) t h =
    let d : is_special c ≡ false = ground arith in
    let e : has is_special s ≡ false = ground arith in
    rw (cons-append c s t, delimit-plain c d, read-plain s t e) (put-char c s (read plain t))

-- A text with its quotation marks doubled is read as it was, inside quotation marks.
read-inside : (s t : String) → read inside (append (doubled s) t) ≡ put s (read inside t)
unfolding read step doubled
read-inside empty t = rw (nil-append t, nil-append (read inside t).0) refl
read-inside (c before s) t = elim (Bool-cases (code c == b'"')) [
  | inr e ↦ rw (e, cons-append c (doubled s) t, e, read-inside s t) (put-char c s (read inside t))
  | inl e ↦
      let same : c ≡ quote = Char-path c quote ((==_iff (code c) b'"').0 e) in
      rw
        (
          e,
          cons-append quote (quote before doubled s) t,
          cons-append quote (doubled s) t,
          read-inside s t,
          same,
        )
        (put-char quote s (read inside t))
]

read-open : (t : String) → read fresh (quote before t) ≡ read inside t
unfolding read step
read-open t = refl

read-close : (t : String) → read inside (quote before t) ≡ read behind t
unfolding read step
read-close t = refl

module _ (d : Char) (r : String) (closes : read behind (d before r) ≡ read plain (d before r))
    (opens : read fresh (d before r) ≡ read plain (d before r)) where
  read-bare :
      (s : String)
      → has is_special s ≡ false
      → read fresh (append s (d before r)) ≡ put s (read plain (d before r))
  unfolding read step
  read-bare empty h =
      rw (nil-append (d before r), opens, nil-append (read plain (d before r)).0) refl
  read-bare (c before s) h =
      let n : (code c == b'"') ≡ false = ground arith in
      let e : is_special c ≡ false = ground arith in
      let f : has is_special s ≡ false = ground arith in
      rw (cons-append c s (d before r), n, delimit-plain c e, read-plain s (d before r) f)
        (put-char c s (read plain (d before r)))

  read-escape :
      (s : String)
      → read fresh (append (escape is_special s) (d before r)) ≡ put s (read plain (d before r))
  unfolding escape
  read-escape s = elim (Bool-cases (has is_special s)) [
    | inr e ↦ rw e (read-bare s e)
    | inl e ↦
        rw
          (
            e,
            cons-append quote (append (doubled s) (quote before empty)) (d before r),
            append_assoc (doubled s) (quote before empty) (d before r),
            cons-append quote empty (d before r),
            nil-append (d before r),
          )
          (read-open (append (doubled s) (quote before (d before r)))
            ∙ read-inside s (quote before (d before r))
            ∙ ap (put s) (read-close (d before r) ∙ closes))
  ]

-- A cell before a comma, and one before a line feed
read-comma :
    (s t : String)
    → read fresh (append (escape is_special s) ("," before t))
      ≡ (s, (read fresh t).0 ∷ (read fresh t).1, (read fresh t).2)
unfolding read step
read-comma s t = read-escape "," t refl refl s ∙ rw (append-nil s) refl

read-feed :
    (s t : String)
    → read fresh (append (escape is_special s) ("\n" before t)) ≡ (s, [], lines_of (read fresh t))
unfolding read step
read-feed s t = read-escape "\n" t refl refl s ∙ rw (append-nil s) refl

read-joined :
    (s : String) (more : List String) (t : String)
    → read fresh (append (joined is_special (s ∷ more)) ("\n" before t))
      ≡ (s, more, lines_of (read fresh t))
read-joined s [] t = read-feed s t
read-joined s (u ∷ more) t =
    let line = joined is_special (u ∷ more) in
    rw
      (
        append_assoc (escape is_special s) ("," before line) ("\n" before t),
        cons-append "," line ("\n" before t),
      )
      (read-comma s (append line ("\n" before t)) ∙ rw (read-joined u more t) refl)

abbrev pub is_line : List String → Bool
is_line [] = false
is_line (s ∷ more) = true

-- What is written of lines that have cells is read as those lines, and an empty one behind the last
-- line feed.
pub read_csv-render :
    (lines : List (List String))
    → All (λ l. is_line l ≡ true) lines
    → read_csv (render is_special lines) ≡ lines ++ (("" ∷ []) ∷ [])
unfolding read_csv render read
read_csv-render [] h = refl
read_csv-render ([] ∷ lines) h = ground arith
read_csv-render ((s ∷ more) ∷ lines) h =
    rw (read-joined s more (render is_special lines))
      (ap (λ ls. (s ∷ more) ∷ ls) (read_csv-render lines h.1))

read-whole : (s : String) → has is_special s ≡ false → read fresh s ≡ (s, [], [])
unfolding read step
read-whole empty h = refl
read-whole (c before s) h =
    let n : (code c == b'"') ≡ false = ground arith in
    let e : is_special c ≡ false = ground arith in
    let f : has is_special s ≡ false = ground arith in
    rw (n, delimit-plain c e)
      (ap (perform add_char c) (ap (read plain) (sym (append-nil s)) ∙ read-plain s "" f)
        ∙ rw (append-nil s) refl)

-- A cell at the end of a text, and a line there
read-end : (s : String) → read fresh (escape is_special s) ≡ (s, [], [])
unfolding escape read step
read-end s = elim (Bool-cases (has is_special s)) [
  | inl e ↦ rw e (
      read-open (append (doubled s) (quote before empty))
      ∙ read-inside s (quote before empty)
      ∙ rw (append-nil s) refl)
  | inr e ↦ rw e (read-whole s e)
]

read-last :
    (s : String) (more : List String) → read fresh (joined is_special (s ∷ more)) ≡ (s, more, [])
read-last s [] = read-end s
read-last s (u ∷ more) = read-comma s (joined is_special (u ∷ more)) ∙ rw (read-last u more) refl

pub read_csv-lines_text :
    (l : List String) (lines : List (List String))
    → All (λ l. is_line l ≡ true) (l ∷ lines)
    → read_csv (lines_text (l ∷ lines)) ≡ l ∷ lines
unfolding read_csv
read_csv-lines_text [] lines h = ground arith
read_csv-lines_text (s ∷ more) [] h = rw (read-last s more)
read_csv-lines_text (s ∷ more) (m ∷ lines) h =
    rw (read-joined s more (lines_text (m ∷ lines)))
      (ap (λ ls. (s ∷ more) ∷ ls) (read_csv-lines_text m lines h.1))
