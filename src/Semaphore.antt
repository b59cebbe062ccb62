-- ===== src/Semaphore.antt =====
-- packages/realtime/src/index.ts, the per-project concurrency semaphore: a counter in Redis.
use task_schedular.Prelude.{ℕ, ◌+◌, ◌-◌, Bool, true, false, ltb, ◌==◌, if◌then◌else◌}

-- The Lua script: INCR, and DECR back above the limit; true if a slot was taken. An absent key is 0.
unfoldable pub acquire_project_slot : ℕ → ℕ → Bool × ℕ
acquire_project_slot limit count =
    let n = count + 1 in if ltb limit n then (false, n - 1) else (true, n)

-- DECR, and back to 0 where that is negative, with no other command in between.
unfoldable pub release_project_slot : ℕ → ℕ
release_project_slot count = if count == 0 then 0 else count - 1
