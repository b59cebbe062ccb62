-- ===== src/Storage.antt =====
-- packages/storage/src/index.ts: object storage. A store is the objects that were put, the latest
-- first; the client of the service only carries the calls.
pub mod Urls
use Prim.Native.Char.{Char, code}
use Prim.Native.String.{[] as empty, ◌∷◌ as ◌before◌, ◌++◌ as append}
use task_schedular.Prelude.{
  ℕ, String, Bool, true, false, ◌&&◌, ◌||◌, not, Option, none, some, List, ◌∷◌, str_eq, find, ◌==◌,
  if◌then◌else◌,
}
use task_schedular.Prelude.Act.{Result, ok, err, error}

pub record Object : Type 0 where
  pub bucket : String
  pub key : String
  pub text : String

-- What `.` of a regular expression does not match
abbrev pub is_line_end : Char → Bool
is_line_end c = ((code c == 10 || code c == 13) || code c == 8232) || code c == 8233

-- `.+`
abbrev pub is_one_line : String → Bool
is_one_line empty = true
is_one_line (c before s) = not (is_line_end c) && is_one_line s

abbrev pub is_some_text : String → Bool
is_some_text empty = false
is_some_text (c before s) = true

-- The text behind a prefix
unfoldable pub behind : String → String → Option String
behind empty s = some s
behind (p before ps) empty = none
behind (p before ps) (c before s) = elim (code p == code c) [ true ↦ behind ps s | false ↦ none ]

abbrev pub longer : Char → Option (String × String) → Option (String × String)
longer c none = none
longer c (some (s, t)) = some (c before s, t)

-- The texts before and behind the first slash
unfoldable pub at_slash : String → Option (String × String)
at_slash empty = none
at_slash (c before s) =
    let rest = at_slash s in if code c == b'/' then some (empty, s) else longer c rest

abbrev pub bad_url : String → Result (String × String)
bad_url url = err (error (append "not an s3:// url: " url))

abbrev pub checked_parts : String → Option (String × String) → Result (String × String)
checked_parts url none = bad_url url
checked_parts url (some (bucket, key)) =
    if is_some_text bucket && (is_some_text key && is_one_line key)
    then ok (bucket, key)
    else bad_url url

abbrev pub checked_url : String → Option String → Result (String × String)
checked_url url none = bad_url url
checked_url url (some s) = checked_parts url (at_slash s)

-- /^s3:\/\/([^/]+)\/(.+)$/
unfoldable pub parse_s3_url : String → Result (String × String)
unfolding behind at_slash
parse_s3_url url = checked_url url (behind "s3://" url)

-- `s3://${bucket}/${key}`
abbrev pub s3_path : String → String → String
s3_path bucket key = append bucket ("/" before key)

abbrev pub s3_url : String → String → String
s3_url bucket key = append "s3://" (s3_path bucket key)

unfoldable pub put_object : String → String → String → List Object → List Object
put_object bucket key text objects = record { bucket = bucket; key = key; text = text } ∷ objects

abbrev pub is_object : String → String → Object → Bool
is_object bucket key o = str_eq o.bucket bucket && str_eq o.key key

unfoldable pub get_object_text : String → String → List Object → Result String
get_object_text bucket key objects = elim (find (is_object bucket key) objects) [
  | none ↦ err (error "NoSuchKey")
  | some o ↦ ok o.text
]
