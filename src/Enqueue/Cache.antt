-- ===== src/Enqueue/Cache.antt =====
-- packages/core/src/enqueue.ts, projectIsolation: the project's tier, read through a cache whose
-- entries live for thirty seconds, and enqueueJob with that read in front.
use task_schedular.Prelude.{
  ℕ, ◌+◌, String, ◌≡◌, ◌⊎◌, arith, false, Bool, Option, none, some, List, [], ◌∷◌, str_eq, find,
  ltb, if◌then◌else◌,
}
use task_schedular.Prelude.Act.{error, ok, err, is_ok, Act, ◌>>=◌}
use task_schedular.Contracts.Common.{shared}
use task_schedular.Store.{Project, Db}
use task_schedular.Enqueue.{EnqueueInput, EnqueueResult, Fresh, Statement, Isolation, enqueue_job}

pub record CacheEntry : Type 0 where
  pub value : Isolation
  pub at : ℕ

-- A process: its cache, and the database that it talks to.
pub record Process : Type 0 where
  pub cache : List (String × CacheEntry)
  pub db : Db

abbrev pub isolation_ttl_ms : ℕ
isolation_ttl_ms = 30000

abbrev pub cached : String → List (String × CacheEntry) → Option CacheEntry
cached p [] = none
cached p ((q, e) ∷ m) = if str_eq q p then some e else cached p m

abbrev pub put : String → CacheEntry → List (String × CacheEntry) → List (String × CacheEntry)
put p e [] = (p, e) ∷ []
put p e ((q, d) ∷ m) = if str_eq q p then (p, e) ∷ m else (q, d) ∷ put p e m

-- rows[0]?.isolation_mode ?? 'shared', rows[0]?.db_schema ?? null
abbrev pub tier_of : Option Project → Isolation
tier_of none = record { mode = shared; schema = none }
tier_of (some p) = record { mode = p.isolation_mode; schema = p.db_schema }

abbrev pub stored_tier : String → Db → Isolation
stored_tier id db = tier_of (find (λ p. str_eq p.id id) db.projects)

-- The query and the write to the cache; `fails` is a failure of the query.
unfoldable pub read_tier : Bool → ℕ → String → Act Process Isolation
read_tier fails now id s = if fails then (err (error "database"), s) else (
  ok (stored_tier id s.db),
  record s { cache = put id (record { value = stored_tier id s.db; at = now }) s.cache },
)

unfoldable pub project_isolation : Bool → ℕ → String → Act Process Isolation
unfolding read_tier
project_isolation fails now id s = elim (cached id s.cache) [
  | none ↦ read_tier fails now id s
  | some e ↦ if ltb now (e.at + isolation_ttl_ms) then (ok e.value, s) else read_tier fails now id s
]

-- enqueueJob, whole.
unfoldable pub enqueue :
    EnqueueInput → Fresh → Bool → (Statement → Bool) → Act Process EnqueueResult
unfolding project_isolation
enqueue input f read_fails fails = do
  tier ← project_isolation read_fails f.now input.project_id
  λ s. let (r, db') = enqueue_job input tier f fails s.db in (r, record s { db = db' })

-- The tier that a run goes by: a cached one that is young enough, or the stored one.
abbrev pub tier_used : ℕ → String → Process → Isolation
tier_used now id s = elim (cached id s.cache) [
  | none ↦ stored_tier id s.db
  | some e ↦ if ltb now (e.at + isolation_ttl_ms) then e.value else stored_tier id s.db
]

-- Reading the tier leaves the database alone.
pub enqueue-cases :
    (input : EnqueueInput) (f : Fresh) (read_fails : Bool) (fails : Statement → Bool) (s : Process)
    → let direct = enqueue_job input (tier_used f.now input.project_id s) f fails s.db in
      ((enqueue input f read_fails fails s).0 ≡ direct.0)
        × ((enqueue input f read_fails fails s).1.db ≡ direct.1)
      ⊎ (is_ok (enqueue input f read_fails fails s).0 ≡ false)
        × ((enqueue input f read_fails fails s).1.db ≡ s.db)
unfolding enqueue
enqueue-cases input f read_fails fails s = ground arith
