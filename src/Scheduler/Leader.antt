-- ===== src/Scheduler/Leader.antt =====
-- services/scheduler/src/leader.ts: election by a session-level advisory lock. Instances are named
-- by numbers. The lock itself is Postgres': a session gets it only if no session holds it, and a
-- session that ends gives it up.
use task_schedular.Prelude.{
  ℕ, ◌≡◌, refl, Bool, true, false, Option, none, some, arith, ◌==◌, if◌then◌else◌,
}

-- The fields of one elector: whether it has a client, and whether it believes to lead.
pub record Elector : Type 0 where
  pub connected : Bool
  pub holding : Bool

-- All electors, the sessions that are alive on the server, and the holder of the lock.
pub record Cluster : Type 0 where
  pub electors : ℕ → Elector
  pub alive : ℕ → Bool
  pub holder : Option ℕ

abbrev at {ℓ} : {A : Type ℓ} → ℕ → A → (ℕ → A) → ℕ → A
at i a f j = if i == j then a else f j

abbrev pub reset_elector : Elector
reset_elector = record { connected = false; holding = false }

-- What a tick meets outside: whether connecting and the query succeed.
pub record Try : Type 0 where
  pub connects : Bool
  pub queries : Bool

-- The server ends a session: its lock is free again.
abbrev pub end_session : ℕ → Cluster → Cluster
end_session i c = record c {
  alive = at i false c.alive;
  holder = elim c.holder [ none ↦ none | some h ↦ if h == i then none else some h ];
}

-- `reset`, which closes the client's session
unfoldable pub reset : ℕ → Cluster → Cluster
reset i c = let c' = end_session i c in record c' { electors = at i reset_elector c.electors }

-- SELECT pg_try_advisory_lock: a live session takes a free lock, or its own again.
abbrev try_lock : ℕ → Cluster → Cluster
try_lock i c = elim c.holder [
  | none ↦ record c {
    holder = some i;
    electors = at i (record { connected = true; holding = true }) c.electors;
  }
  | some h ↦
      if h == i
      then record c { electors = at i (record { connected = true; holding = true }) c.electors }
      else c
]

-- Behind a connection: nothing if it leads already, else the lock is tried.
abbrev campaign : Bool → Bool → ℕ → Cluster → Cluster
campaign true queries i c = c
campaign false true i c = if c.alive i then try_lock i c else reset i c
campaign false false i c = reset i c

-- A new client, whose session begins
abbrev connect : ℕ → Cluster → Cluster
connect i c = record c {
  electors = at i (record { connected = true; holding = false }) c.electors;
  alive = at i true c.alive;
}

-- `tick`: connects if there is no client, and campaigns.
unfoldable pub tick : Try → ℕ → Cluster → Cluster
unfolding reset
tick t i c =
    if (c.electors i).connected
    then campaign (c.electors i).holding t.queries i c
    else if t.connects
    then campaign false t.queries i (connect i c)
    else reset i c

-- Steps of the cluster. A session may end without the client's knowledge; the `error` event comes
-- later, as a `reset`. `release` unlocks and resets.
pub data Step : Cluster → Cluster → Type 0 where
  ticks : (t : Try) (i : ℕ) (c : Cluster) → Step c (tick t i c)
  drops : (i : ℕ) (c : Cluster) → Step c (end_session i c)
  resets : (i : ℕ) (c : Cluster) → Step c (reset i c)

pub data Reach (s : Cluster) : Cluster → Type 0 where
  here : Reach s s
  next : {c c' : Cluster} → Reach s c → Step c c' → Reach s c'

abbrev pub start : Cluster
start = record { electors = λ i. reset_elector; alive = λ i. false; holder = none }

-- An elector that believes to lead and whose session is alive holds the lock; one without a client
-- does not lead and has no session.
pub record IsSound (c : Cluster) : Type 0 where
  pub leads : (i : ℕ) → (c.electors i).holding ≡ true → c.alive i ≡ true → c.holder ≡ some i
  pub idle : (i : ℕ) → (c.electors i).connected ≡ false → (c.electors i).holding ≡ false

end_session-IsSound : (i : ℕ) (c : Cluster) → IsSound c → IsSound (end_session i c)
end_session-IsSound i c v = record { leads = λ j h a. ground (arith, v.leads j h); idle = v.idle }

reset-IsSound : (i : ℕ) (c : Cluster) → IsSound c → IsSound (reset i c)
unfolding reset
reset-IsSound i c v = record {
  leads = λ j h a. ground (arith, v.leads j);
  idle = λ j e. ground (arith, v.idle j);
}

try_lock-IsSound : (i : ℕ) (c : Cluster) → c.alive i ≡ true → IsSound c → IsSound (try_lock i c)
try_lock-IsSound i c e v = record {
  leads = λ j h a. ground (arith, v.leads j, v.leads i);
  idle = λ j h. ground (arith, v.idle j);
}

-- With the answer of the lock's query given.
campaign_if-IsSound :
    {b : Bool} (i : ℕ) (c : Cluster)
    → c.alive i ≡ b
    → IsSound c
    → IsSound (if b then try_lock i c else reset i c)
campaign_if-IsSound {b = true} i c e v = try_lock-IsSound i c e v
campaign_if-IsSound {b = false} i c e v = reset-IsSound i c v

campaign-IsSound : (b q : Bool) (i : ℕ) (c : Cluster) → IsSound c → IsSound (campaign b q i c)
campaign-IsSound true q i c v = v
campaign-IsSound false true i c v = campaign_if-IsSound i c refl v
campaign-IsSound false false i c v = reset-IsSound i c v

connect-IsSound :
    (i : ℕ) (c : Cluster) → (c.electors i).connected ≡ false → IsSound c → IsSound (connect i c)
connect-IsSound i c e v = record {
  leads = λ j h a. ground (arith, v.leads j);
  idle = λ j h. ground (arith, v.idle j);
}

tick_if-IsSound :
    {b n : Bool} (t : Try) (i : ℕ) (c : Cluster)
    → (c.electors i).connected ≡ b
    → t.connects ≡ n
    → IsSound c
    → IsSound (
        if b
        then campaign (c.electors i).holding t.queries i c
        else if n
        then campaign false t.queries i (connect i c)
        else reset i c)
tick_if-IsSound {b = true} t i c e f v = campaign-IsSound _ _ i c v
tick_if-IsSound {b = false} {n = true} t i c e f v =
    campaign-IsSound false _ i (connect i c) (connect-IsSound i c e v)
tick_if-IsSound {b = false} {n = false} t i c e f v = reset-IsSound i c v

Step-IsSound : {c c' : Cluster} → Step c c' → IsSound c → IsSound c'
unfolding tick
Step-IsSound (ticks t i c) v = tick_if-IsSound t i c refl refl v
Step-IsSound (drops i c) v = end_session-IsSound i c v
Step-IsSound (resets i c) v = reset-IsSound i c v

pub Reach-IsSound : {c : Cluster} → Reach start c → IsSound c
Reach-IsSound here = record { leads = λ i h a. ground arith; idle = λ i e. refl }
Reach-IsSound (next r s) = Step-IsSound s (Reach-IsSound r)

-- In every cluster reached by ticks of electors, sessions that end and resets, two electors that
-- believe to lead and whose sessions are alive are the same elector.
pub leader_unique :
    {c : Cluster} (i j : ℕ)
    → Reach start c
    → (c.electors i).holding ≡ true
    → c.alive i ≡ true
    → (c.electors j).holding ≡ true
    → c.alive j ≡ true
    → i ≡ j
leader_unique i j r h a h' a' =
    let e = (Reach-IsSound r).leads i h a in
    let e' = (Reach-IsSound r).leads j h' a' in ground (arith, e, e')

-- When the session of a live leader ends, the next tick of an elector without a client that connects
-- and queries successfully makes it the leader.
pub leader_replaced :
    {c : Cluster} (i j : ℕ)
    → Reach start c
    → (c.electors i).holding ≡ true
    → c.alive i ≡ true
    → (c.electors j).connected ≡ false
    → ((tick (record { connects = true; queries = true }) j (end_session i c)).electors j).holding
      ≡ true
unfolding tick
leader_replaced i j r h a e = let l = (Reach-IsSound r).leads i h a in ground (arith, l)
