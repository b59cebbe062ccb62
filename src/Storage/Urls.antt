-- ===== src/Storage/Urls.antt =====
-- What an accepted object URL is.
use Prim.Native.Char.{Char, code}
use Prim.Native.String.{[] as empty, ◌∷◌ as ◌before◌, ◌++◌ as append}
use text.Mathlib.TextLemmas.{cons-append, nil-append}
use text.Mathlib.TextEquality.{Char-path}
use task_schedular.Prelude.{
  String, Bool, true, false, ◌&&◌, not, Option, none, some, ◌≡◌, ◌↔◌, refl, ap, ◌∙◌, arith, inl,
  inr, List, eq_refl, ◌==◌, ==_iff, Bool-cases,
}
use task_schedular.Prelude.Act.{ok}
use task_schedular.Storage.{
  is_one_line, is_some_text, behind, at_slash, longer, s3_path, checked_url, checked_parts,
  parse_s3_url, s3_url, Object, put_object, get_object_text,
}

-- No slash in the text
abbrev pub has_no_slash : String → Bool
has_no_slash empty = true
has_no_slash (c before s) = not (code c == b'/') && has_no_slash s

pub behind-append : (p s : String) → behind p (append p s) ≡ some s
unfolding behind
behind-append empty s = ap some (nil-append s)
behind-append (c before p) s =
    rw (cons-append c p s) (rw ((==_iff (code c) (code c)).1 refl, behind) (behind-append p s))

append-behind : (p s t : String) → behind p s ≡ some t → s ≡ append p t
unfolding behind
append-behind empty s t h = cc (nil-append t)
append-behind (c before p) empty t h = cc
append-behind (c before p) (d before s) t h = elim (Bool-cases (code c == code d)) [
  | inr other ↦ cc (rw (other, behind) at h)
  | inl same_code ↦
      let e : c ≡ d = Char-path c d ((==_iff (code c) (code d)).0 same_code) in
      let ih = append-behind p s t (rw (same_code, behind) at h) in cc (e, ih, cons-append c p t)
]

at_slash-append : (b k : String) → has_no_slash b ≡ true → at_slash (s3_path b k) ≡ some (b, k)
unfolding at_slash
at_slash-append empty k h = rw (nil-append ("/" before k))
at_slash-append (c before b) k h =
    rw (cons-append c b ("/" before k)) (ground (arith, at_slash-append b k))

longer_parts :
    (c : Char) (s : String) (o : Option (String × String)) (b k : String)
    → (code c == b'/') ≡ false
    → ((b' k' : String) → o ≡ some (b', k') → (s ≡ s3_path b' k') × (has_no_slash b' ≡ true))
    → longer c o ≡ some (b, k)
    → (c before s ≡ s3_path b k) × (has_no_slash b ≡ true)
longer_parts c s none b k other ih h = cc
longer_parts c s (some (b', k')) b k other ih h =
    let (e, free) = ih b' k' refl in
    let eb : c before b' ≡ b = cc in
    let ek : k' ≡ k = cc in
    (cc (e, ek, eb, cons-append c b' ("/" before k')), rw (← eb) (rw other free))

append-at_slash :
    (s b k : String) → at_slash s ≡ some (b, k) → (s ≡ s3_path b k) × (has_no_slash b ≡ true)
unfolding at_slash
append-at_slash empty b k h = cc
append-at_slash (c before s) b k h = elim (Bool-cases (code c == b'/')) [
  | inr other ↦
      longer_parts c s (at_slash s) b k other (append-at_slash s) (rw (other, at_slash) at h)
  | inl slash ↦
      let parts : ◌≡◌ {A = Option (String × String)} (some (empty, s)) (some (b, k)) =
        rw (slash, at_slash) at h in
      let eb : empty ≡ b = cc in
      let ek : s ≡ k = cc in
      let e : c ≡ "/" = Char-path c "/" ((==_iff (code c) b'/').0 slash) in
      (rw (e, ek, ← eb, nil-append ("/" before k)), rw (← eb))
]

checked_parts-cases :
    (url : String) (o : Option (String × String)) (b k : String)
    → checked_parts url o ≡ ok (b, k)
    → (o ≡ some (b, k)) × (is_some_text b ≡ true) × (is_some_text k ≡ true) × (is_one_line k ≡ true)
checked_parts-cases url none b k h = cc
checked_parts-cases url (some (b', k')) b k h = ground arith

checked_url-cases :
    (url : String) (o : Option String) (b k : String)
    → checked_url url o ≡ ok (b, k)
    → (path : String) × (o ≡ some path)
      × (at_slash path ≡ some (b, k))
      × (is_some_text b ≡ true)
      × (is_some_text k ≡ true)
      × (is_one_line k ≡ true)
checked_url-cases url none b k h = cc
checked_url-cases url (some s) b k h =
    let (e, some_b, some_k, line) = checked_parts-cases url (at_slash s) b k h in
    (s, refl, e, some_b, some_k, line)

-- A URL is accepted with this bucket and this key exactly if it is s3://bucket/key, the bucket is not
-- empty and has no slash, and the key is not empty and has no line end.
pub parse_s3_url_iff :
    (url b k : String)
    → (parse_s3_url url ≡ ok (b, k)) ↔ (
        (url ≡ s3_url b k)
        × (is_some_text b ≡ true)
        × (has_no_slash b ≡ true)
        × (is_some_text k ≡ true)
        × (is_one_line k ≡ true))
unfolding parse_s3_url
parse_s3_url_iff url b k = (
  λ h.
      let (path, found, parts, some_b, some_k, line) =
        checked_url-cases url (behind "s3://" url) b k h in
      let (e, free) = append-at_slash path b k parts in
      (
        append-behind "s3://" url path found ∙ ap (λ t. append "s3://" t) e,
        some_b,
        free,
        some_k,
        line,
      ),
  λ (e, some_b, free, some_k, line).
      rw (e, behind-append "s3://" (s3_path b k), at_slash-append b k free, some_b, some_k, line),
)

-- What is put under an accepted URL is what is read under it.
pub get_object_text-put_object :
    (b k text : String) (objects : List Object)
    → get_object_text b k (put_object b k text objects) ≡ ok text
unfolding get_object_text put_object
get_object_text-put_object b k text objects = ground (arith, eq_refl b, eq_refl k)
