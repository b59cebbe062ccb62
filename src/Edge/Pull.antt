-- ===== src/Edge/Pull.antt =====
-- services/worker-edge/src/handlers/restPull.ts: the records of a paginated API, staged for a
-- bulk_insert.
pub mod Complete
pub mod Staged
use Prim.Native.Char.{Char, code}
use Prim.Native.String.{[] as empty, ◌∷◌ as ◌before◌, ◌++◌ as append}
use task_schedular.Prelude.{
  ℕ, zero, suc, String, Bool, true, false, ◌||◌, Option, none, some, List, [], ◌∷◌, ◌++◌, length,
  ◌==◌, if◌then◌else◌,
}
use task_schedular.Prelude.Show.{show}
use task_schedular.Prelude.Act.{Result, ok, err, error, Act, pure, throw, and_then, ◌>>=◌, ◌>>◌}
use task_schedular.Contracts.Common.{bulk_insert}
use task_schedular.Contracts.Json.{
  Json, null, num, str, obj, arr, Items, nil, cons, Fields, end, field, get_field, or_default,
}
use task_schedular.Enqueue.{EnqueueResult}
use task_schedular.Storage.{s3_url}
use task_schedular.Worker.{JobContext}
use task_schedular.Edge.Http.{fetch_json}
use task_schedular.Edge.{
  World, Outside, started, progress_log, as_fields, text_field, location_of, of_list, to_list,
  id_text, log, on_wire, put, enqueue_next, start, complete, next_input,
}

-- A JavaScript number, by its text and by the numbers it exceeds
pub record PageSize : Type 0 where
  pub text : String
  pub exceeds : ℕ → Bool

-- The characters of a text, as the spread of it has them
abbrev pub characters : String → List Json
characters empty = []
characters (c before s) = str (c before empty) ∷ characters s

abbrev pub is_zero_length : Option Json → Bool
is_zero_length (some (num zero)) = true
is_zero_length _ = false

-- `all.push(...items)` for what is no list: a text is spread, an object whose `length` is 0 counts as
-- an empty page, and all else throws.
abbrev pub spread_of : Json → Option (List Json)
spread_of (arr xs) = some (to_list xs)
spread_of (str s) = some (characters s)
spread_of (obj o) = if is_zero_length (get_field "length" o) then some [] else none
spread_of _ = none

-- The items of a page; reading a field of null throws.
unfoldable pub items_of : Json → Option (List Json)
items_of (arr xs) = some (to_list xs)
items_of (obj o) =
    spread_of (or_default (get_field "items" o) (or_default (get_field "rows" o) (arr nil)))
items_of null = none
items_of _ = some []

abbrev pub has_query : String → Bool
has_query empty = false
has_query (c before s) = code c == b'?' || has_query s

unfoldable pub page_url : String → PageSize → ℕ → String
page_url base size page = append base (
    append (if has_query base then "&" else "?")
      (append "page=" (append (show page) (append "&pageSize=" size.text))))

-- What a page does to the loop: an empty one ends it, and a short one is the last.
abbrev pub with_page :
    Outside
    → PageSize
    → ℕ
    → List Json
    → (List Json → Act World (List Json × ℕ))
    → Option (List Json)
    → Act World (List Json × ℕ)
with_page o size page all next none = throw (error "items is not iterable")
with_page o size page all next (some []) = pure (all, page)
with_page o size page all next (some (x ∷ xs)) =
    log o progress_log
    >> (if size.exceeds (length (x ∷ xs)) then pure (all ++ x ∷ xs, page) else next (all ++ x ∷ xs))

module _ (o : Outside) (base : String) (token : Option String) (allowlist : List String)
    (size : PageSize) where
  -- The loop from a page on, with `left` pages to go, over the records so far
  unfoldable pub pull_pages : ℕ → ℕ → List Json → Act World (List Json × ℕ)
  unfolding items_of page_url
  pull_pages zero page all = pure (all, page)
  pull_pages (suc left) page all =
      let next = pull_pages left (suc page) in
      on_wire o (fetch_json o.net (page_url base size page) token allowlist) >>= λ j.
      with_page o size page all next (items_of j)

-- `number` is Number(…) of the option.
module _ {RuleSet : Type 0} (o : Outside) (number : Json → PageSize) (c : JobContext RuleSet) where
  abbrev pub pull_options : Fields
  pull_options = as_fields (get_field "options" c.envelope.source)

  abbrev pub page_size : PageSize
  page_size = number (or_default (get_field "pageSize" pull_options) (num 100))

  abbrev pub staged_key : String
  staged_key = append "rest-pull/" (append c.job.id ".json")

  abbrev pub staged_location : String
  staged_location = s3_url o.default_bucket staged_key

  abbrev pub pull_summary : List Json → ℕ → EnqueueResult → String
  pull_summary all page res = append "pulled " (
      append (show (length all)) (
        append " records over "
          (append (show page) (append " page(s); enqueued bulk_insert " (id_text res)))))

  -- Staging, the job that takes over, and the end
  unfoldable pub hand_over : List Json → ℕ → Act World (Unit {0})
  hand_over all page = do
    put o o.default_bucket staged_key (o.stringify (arr (of_list all)))
    res ← enqueue_next o (next_input o c bulk_insert "json" staged_location)
    complete o c (pull_summary all page res)

  abbrev pub pull_from : Option String → Act World (Unit {0})
  pull_from none = throw (error "rest_pull: no source.location (API base URL)")
  pull_from (some base) = do
    start o c (append "rest_pull from " base)
    (all, page) ←
        pull_pages o base (text_field "token" pull_options) c.project.allowlist_hosts page_size 1000
          1 []
    hand_over all page

  unfoldable pub rest_pull : Act World (Unit {0})
  unfolding pull_pages hand_over location_of
  rest_pull = pull_from (location_of c.envelope.source c.job.source)
