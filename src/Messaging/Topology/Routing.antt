-- ===== src/Messaging/Topology/Routing.antt =====
-- The routing keys of common.ts against the bindings of topology.ts.
use Prim.Native.String.{◌++◌}
use text.Mathlib.TextLemmas.{append_cancel_right}
use task_schedular.Prelude.{String, ◌≡◌, refl, ◌≢◌, ap, none, some, [], ◌∷◌, str_eq, arith, eq_iff}
use task_schedular.Contracts.Common.{
  JobType, jobs_exchange, delayed_exchange, routing_key_for_type, queue_for_type,
}
use task_schedular.Messaging.Topology.{
  no_topology, assert_topology, assert_project_topology, deliver,
}

-- On both job exchanges the pooled topology hands a message to the queue of its type and to no other.
pub deliver-assert_topology :
    (t : JobType)
    → (deliver (assert_topology no_topology).bindings jobs_exchange (routing_key_for_type t none)
        ≡ queue_for_type t none ∷ [])
      × (deliver
            (assert_topology no_topology).bindings
            delayed_exchange
            (routing_key_for_type t none)
          ≡ queue_for_type t none ∷ [])
unfolding deliver assert_topology routing_key_for_type queue_for_type
deliver-assert_topology JobType.bulk_import = (refl, refl)
deliver-assert_topology _ = (refl, refl)

str_eq-append_right : (a b s : String) → str_eq (a ++ s) (b ++ s) ≡ str_eq a b
str_eq-append_right a b s = ground (
  arith,
  eq_iff (a ++ s) (b ++ s),
  eq_iff a b,
  append_cancel_right a b s,
  ap (λ t. t ++ s) {x = a} {y = b},
)

-- On both job exchanges the topology of a dedicated project, whose id is not the empty text, hands a
-- message to that project's queue of the message's type and to no other.
pub deliver-assert_project_topology :
    (t : JobType) (p : String)
    → p ≢ ""
    → let top = assert_project_topology p no_topology in
      (deliver top.bindings jobs_exchange (routing_key_for_type t (some p))
        ≡ queue_for_type t (some p) ∷ [])
      × (deliver top.bindings delayed_exchange (routing_key_for_type t (some p))
          ≡ queue_for_type t (some p) ∷ [])
unfolding deliver assert_project_topology routing_key_for_type queue_for_type
deliver-assert_project_topology t String.[] h = absurd (h refl)
deliver-assert_project_topology JobType.bulk_import (String.◌∷◌ c p) h =
    (simp str_eq-append_right, simp str_eq-append_right)
deliver-assert_project_topology _ (String.◌∷◌ c p) h =
    (simp str_eq-append_right, simp str_eq-append_right)
