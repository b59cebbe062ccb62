-- ===== src/Enqueue/Schema.antt =====
-- packages/db/src/projectSchema.ts: the name of a dedicated project's schema.
use Prim.Native.Char.{code}
use mathlib.Core.Option.{none-ne-some}
use task_schedular.Prelude.{
  ℕ, ◌+◌, String, ◌≡◌, Bool, true, false, ◌&&◌, ◌||◌, Option, none, some, ◌==◌, leb, if◌then◌else◌,
  List, [], ◌∷◌, length, Bool-cases, inl, inr,
}

-- [0-9a-f]
abbrev is_hex : ℕ → Bool
is_hex c = (leb b'0' c && leb c b'9') || (leb b'a' c && leb c b'f')

abbrev pub codes : String → List ℕ
codes String.[] = []
codes (String.◌∷◌ c s) = code c ∷ codes s

abbrev all_hex : List ℕ → Bool
all_hex [] = true
all_hex (c ∷ s) = is_hex c && all_hex s

-- /^[0-9a-f]{32}$/
abbrev is_hex32 : List ℕ → Bool
is_hex32 s = length s == 32 && all_hex s

-- /^proj_[0-9a-f]{32}$/; `assertSchemaName` throws where this fails.
abbrev pub is_schema_codes : List ℕ → Bool
is_schema_codes (p ∷ r ∷ o ∷ j ∷ u ∷ s) =
    p == b'p' && r == b'r' && o == b'o' && j == b'j' && u == b'_' && is_hex32 s
is_schema_codes _ = false

unfoldable pub is_schema_name : String → Bool
is_schema_name s = is_schema_codes (codes s)

-- projectId.replace(/-/g, '').toLowerCase(), over ASCII
abbrev strip : List ℕ → List ℕ
strip [] = []
strip (c ∷ s) =
    if c == b'-' then strip s else (if leb b'A' c && leb c b'Z' then c + 32 else c) ∷ strip s

-- schemaForProject, over the codes of the id; `none` is its exception.
unfoldable pub schema_for_project : List ℕ → Option (List ℕ)
schema_for_project id =
    if is_hex32 (strip id) then some (b'p' ∷ b'r' ∷ b'o' ∷ b'j' ∷ b'_' ∷ strip id) else none

-- A generated schema name always passes the check that guards its use.
pub schema_for_project-is_schema :
    (id name : List ℕ) → schema_for_project id ≡ some name → is_schema_codes name ≡ true
unfolding schema_for_project
schema_for_project-is_schema id name h = elim (Bool-cases (is_hex32 (strip id))) [
  | inl hex ↦
      let e : (b'p' ∷ b'r' ∷ b'o' ∷ b'j' ∷ b'_' ∷ strip id) ≡ name = cc (rw hex at h) in
      rw (← e) hex
  | inr other ↦ absurd (none-ne-some _ (rw other at h))
]
