-- ===== src/Messaging/Topology.antt =====
-- packages/messaging/src/topology.ts: exchanges, queues and bindings, as the calls declare them, and
-- what a direct exchange does with a message.
pub mod Routing
use task_schedular.Prelude.{
  String, Bool, ◌&&◌, Option, none, some, List, [], ◌∷◌, ◌++◌, str_eq, keep, map,
}
use task_schedular.Contracts.Common.{
  JobType, job_types, jobs_exchange, delayed_exchange, dlx_exchange, dlq_name, routing_key_for_type,
  queue_for_type,
}

pub data ExchangeKind : Type 0 where
  direct delayed_direct fanout : ExchangeKind

pub record Binding : Type 0 where
  pub queue : String
  pub exchange : String
  pub key : String

pub record QueueDecl : Type 0 where
  pub name : String
  pub dead_letter : Option String

-- Every exchange and queue is declared durable.
pub record Topology : Type 0 where
  pub exchanges : List (String × ExchangeKind)
  pub queues : List QueueDecl
  pub bindings : List Binding

-- The body of both loops: one queue with a dead-letter exchange, bound to the two job exchanges.
abbrev declare_type : Option String → Topology → JobType → Topology
declare_type p top t = record top {
  queues = top.queues ++ record { name = queue_for_type t p; dead_letter = some dlx_exchange } ∷ [];
  bindings =
      top.bindings
      ++ record {
        queue = queue_for_type t p;
        exchange = jobs_exchange;
        key = routing_key_for_type t p;
      }
        ∷ record {
          queue = queue_for_type t p;
          exchange = delayed_exchange;
          key = routing_key_for_type t p;
        }
        ∷ [];
}

abbrev declare_types : Option String → List JobType → Topology → Topology
declare_types p [] top = top
declare_types p (t ∷ ts) top = declare_types p ts (declare_type p top t)

abbrev pub no_topology : Topology
no_topology = record { exchanges = []; queues = []; bindings = [] }

unfoldable pub assert_topology : Topology → Topology
assert_topology top = declare_types none job_types (record top {
  exchanges =
      top.exchanges
      ++ (jobs_exchange, direct) ∷ (delayed_exchange, delayed_direct) ∷ (dlx_exchange, fanout) ∷ [];
  queues = top.queues ++ record { name = dlq_name; dead_letter = none } ∷ [];
  bindings = top.bindings ++ record { queue = dlq_name; exchange = dlx_exchange; key = "" } ∷ [];
})

unfoldable pub assert_project_topology : String → Topology → Topology
assert_project_topology project top = declare_types (some project) job_types top

-- The queues that a direct exchange hands a message to.
unfoldable pub deliver : List Binding → String → String → List String
deliver bindings exchange key =
    map (λ b. b.queue) (keep (λ b. str_eq b.exchange exchange && str_eq b.key key) bindings)
