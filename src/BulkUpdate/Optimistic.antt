-- ===== src/BulkUpdate/Optimistic.antt =====
-- Optimistic concurrency of a row's update.
use task_schedular.Prelude.{
  String, true, Option, none, some, List, [], ◌∷◌, any, update_where, ◌≡◌, ◌⊎◌, refl, sym, arith,
  inl, inr, Bool-cases, eq_iff,
}
use task_schedular.BulkUpdate.{
  VersionedRow, Change, equals, has_key, has_version, selects, update_target_row,
}

-- Row by row, what an UPDATE may have done: nothing, or written a row with this key and version.
abbrev pub Touched : Change → String → List VersionedRow → List VersionedRow → Type 0
Touched c v [] [] = Unit
Touched c v (r ∷ rs) (s ∷ ss) =
    ((s ≡ r) ⊎ (s ≡ c.write r) × (c.key ≡ some r.key) × (r.version ≡ some v)) × Touched c v rs ss
Touched c v _ _ = ⊥

untouched : (c : Change) (v : String) (rs : List VersionedRow) → Touched c v rs rs
untouched c v [] = tt
untouched c v (r ∷ rs) = (inl refl, untouched c v rs)

equals_eq : (o w : Option String) → equals o w ≡ true → o ≡ w
equals_eq none none h = refl
equals_eq none (some t) h = ground arith
equals_eq (some s) none h = ground arith
equals_eq (some s) (some t) h = ground (arith, eq_iff s t)

has_version_eq :
    (w : Option (Option String)) (v : String) (r : VersionedRow)
    → w ≡ some (some v)
    → has_version w r ≡ true
    → r.version ≡ some v
has_version_eq none v r e h = ground arith
has_version_eq (some u) v r e h = ground (arith, equals_eq r.version u)

selects-values :
    (c : Change) (v : String) (r : VersionedRow)
    → c.seen_version ≡ some (some v)
    → selects c r ≡ true
    → (c.key ≡ some r.key) × (r.version ≡ some v)
selects-values c v r e h = elim (Bool-cases (has_key c r)) [
  | inl k ↦ (sym (equals_eq (some r.key) c.key k), has_version_eq c.seen_version v r e (rw k at h))
  | inr n ↦ absurd (cc (rw n at h))
]

update_where-Touched :
    (c : Change) (v : String) (rs : List VersionedRow)
    → c.seen_version ≡ some (some v)
    → Touched c v rs (update_where (selects c) c.write rs)
update_where-Touched c v [] e = tt
update_where-Touched c v (r ∷ rs) e = elim (Bool-cases (selects c r)) [
  | inl h ↦
      let (k, w) = selects-values c v r e h in
      rw h (inr (refl, k, w), update_where-Touched c v rs e)
  | inr h ↦ rw h (inl refl, update_where-Touched c v rs e)
]

-- Where the version read before is given, an update writes only rows with the asked key that still
-- have that version, and leaves all other rows as they are.
pub update_target_row-Touched :
    (c : Change) (v : String) (table : List VersionedRow)
    → c.seen_version ≡ some (some v)
    → Touched c v table (update_target_row c table).1
unfolding update_target_row
update_target_row-Touched c v table e = elim (Bool-cases (any (selects c) table)) [
  | inl h ↦ rw h (update_where-Touched c v table e)
  | inr h ↦ rw h (untouched c v table)
]
