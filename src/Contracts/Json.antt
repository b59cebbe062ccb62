-- ===== src/Contracts/Json.antt =====
-- JSON documents, as the jsonb columns and the queue messages hold them. A number is a natural
-- number or, for all others, its literal. The fields of an object keep their order.
use task_schedular.Prelude.{ℕ, String, Bool, Option, none, some, str_eq, if◌then◌else◌}

mutual
  pub data Json : Type 0 where
    null : Json
    bool : Bool → Json
    num : ℕ → Json
    literal : String → Json
    str : String → Json
    arr : Items → Json
    obj : Fields → Json

  pub data Items : Type 0 where
    nil : Items
    cons : Json → Items → Items

  pub data Fields : Type 0 where
    end : Fields
    field : String → Json → Fields → Fields

-- `o.key`; an absent field is `undefined`, here `none`.
unfoldable pub get_field : String → Fields → Option Json
get_field k end = none
get_field k (field j v fs) = if str_eq j k then some v else get_field k fs

-- `o.key = v`
unfoldable pub set_field : String → Json → Fields → Fields
set_field k v end = field k v end
set_field k v (field j w fs) = if str_eq j k then field k v fs else field j w (set_field k v fs)

-- `{ ...a, ...b }`
unfoldable pub spread : Fields → Fields → Fields
unfolding set_field
spread a end = a
spread a (field k v b) = spread (set_field k v a) b

-- `e ?? d`: null and undefined give the default.
abbrev pub or_default : Option Json → Json → Json
or_default none d = d
or_default (some null) d = d
or_default (some v) d = v
