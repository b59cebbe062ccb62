-- ===== src/Migrations/Resumed.antt =====
-- Migrations that are run again.
use task_schedular.Prelude.{
  String, true, false, Option, none, some, List, [], ◌∷◌, eq_iff, eq_refl, All, listed, Distinct,
  ◌≡◌, refl, ◌∙◌, arith, Bool-cases, Option-cases, inl, inr,
}
use task_schedular.Prelude.Act.{Result, ok, err, and_then}
use task_schedular.Migrations.{Base, apply_file, apply_files, migrate}

-- Both lists hold the same of these files.
abbrev Agree : List String → List String → List String → Type 0
Agree ms ns fs = All (λ f. listed f ms ≡ listed f ns) fs

one_more-Agree :
    (f : String) (ms ns fs : List String)
    → listed f fs ≡ false
    → Agree ms ns fs
    → Agree (f ∷ ms) ns fs
one_more-Agree f ms ns [] free h = tt
one_more-Agree f ms ns (g ∷ gs) free (e, h) =
    (ground (arith, eq_iff f g, eq_iff g f, e), one_more-Agree f ms ns gs (ground arith) h)

self-Agree : (ms fs : List String) → Agree ms ms fs
self-Agree ms [] = tt
self-Agree ms (f ∷ fs) = (refl, self-Agree ms fs)

module _ {S : Type 0} where
  and_then_same :
      (r : Result (Unit {0})) (m n : Base S → Result (Unit {0}) × Base S) (b : Base S)
      → m b ≡ n b
      → and_then r (λ u. m) b ≡ and_then r (λ u. n) b
  and_then_same (ok u) m n b e = e
  and_then_same (err x) m n b e = refl

  and_then-has :
      (r : Result (Unit {0})) (m : Base S → Result (Unit {0}) × Base S) (b : Base S) (g : String)
      → listed g b.migrations ≡ true
      → listed g (m b).1.migrations ≡ true
      → listed g (and_then r (λ u. m) b).1.migrations ≡ true
  and_then-has (ok u) m b g h k = k
  and_then-has (err x) m b g h k = h

  module _ (run : String → S → Option S) where
    apply_files-Agree :
        (ms ns fs : List String) (b : Base S)
        → Agree ms ns fs
        → apply_files run ms fs b ≡ apply_files run ns fs b
    unfolding apply_files
    apply_files-Agree ms ns [] b h = refl
    apply_files-Agree ms ns (f ∷ fs) b (e, h) = elim (Bool-cases (listed f ns)) [
      | inl old ↦ rw (e, old) (apply_files-Agree ms ns fs b h)
      | inr new ↦
          let (r, b') = apply_file run f b in
          rw (e, new)
            (and_then_same r (apply_files run ms fs) (apply_files run ns fs) b'
              (apply_files-Agree ms ns fs b' h))
    ]

    apply_file-has :
        (g f : String) (b : Base S)
        → listed g b.migrations ≡ true
        → listed g (apply_file run f b).1.migrations ≡ true
    unfolding apply_file
    apply_file-has g f b h = ground (arith, h)

    -- What is applied stays.
    apply_files-has :
        (g : String) (ns fs : List String) (b : Base S)
        → listed g b.migrations ≡ true
        → listed g (apply_files run ns fs b).1.migrations ≡ true
    unfolding apply_files
    apply_files-has g ns [] b h = h
    apply_files-has g ns (f ∷ fs) b h = elim (Bool-cases (listed f ns)) [
      | inl old ↦ rw old (apply_files-has g ns fs b h)
      | inr new ↦
          let (r, b') = apply_file run f b in
          let kept = apply_file-has g f b h in
          rw new
            (and_then-has r (apply_files run ns fs) b' g kept (apply_files-has g ns fs b' kept))
    ]

    nothing_left : (ns : List String) (b : Base S) → apply_files run ns [] b ≡ (ok tt, b)
    unfolding apply_files
    nothing_left ns b = refl

    skipped :
        (f : String) (ns fs : List String) (b : Base S)
        → listed f ns ≡ true
        → apply_files run ns (f ∷ fs) b ≡ apply_files run ns fs b
    unfolding apply_files
    skipped f ns fs b old = rw old

    stopped :
        (f : String) (ns fs : List String) (b : Base S)
        → listed f b.migrations ≡ false
        → listed f ns ≡ false
        → run f b.contents ≡ none
        → (apply_files run ns (f ∷ fs) b).1 ≡ b
    unfolding apply_files apply_file
    stopped f ns fs b free new failed = rw (new, free, failed)

    applied :
        (f : String) (ns fs : List String) (b : Base S) (c : S)
        → listed f b.migrations ≡ false
        → listed f ns ≡ false
        → run f b.contents ≡ some c
        → apply_files run ns (f ∷ fs) b
          ≡ apply_files run ns fs (record { contents = c; migrations = f ∷ b.migrations })
    unfolding apply_files apply_file
    applied f ns fs b c free new done = rw (new, free, done)

  module _ (run run' : String → S → Option S)
      (extends : (f : String) (c d : S) → run f c ≡ some d → run' f c ≡ some d) where
    resumed :
        (ns fs : List String) (b : Base S)
        → Distinct fs
        → Agree b.migrations ns fs
        → apply_files run' (apply_files run ns fs b).1.migrations fs (apply_files run ns fs b).1
          ≡ apply_files run' ns fs b
    resumed ns [] b d h =
        rw (nothing_left run ns b, nothing_left run' b.migrations b, nothing_left run' ns b)
    resumed ns (f ∷ fs) b (once, d) (e, h) = elim (Bool-cases (listed f ns)) [
      | inl old ↦
          let s = (apply_files run ns fs b).1 in
          rw (skipped run f ns fs b old, skipped run' f ns fs b old)
            (skipped run' f s.migrations fs s (apply_files-has run f ns fs b (e ∙ old))
              ∙ resumed ns fs b d h)
      | inr new ↦ elim (Option-cases (run f b.contents)) [
        | inl failed ↦
            rw (stopped run f ns fs b (e ∙ new) new failed)
              (apply_files-Agree run' b.migrations ns (f ∷ fs) b (e, h))
        | inr (c, done) ↦
            let b' : Base S = record { contents = c; migrations = f ∷ b.migrations } in
            let s = (apply_files run ns fs b').1 in
            rw
              (
                applied run f ns fs b c (e ∙ new) new done,
                applied run' f ns fs b c (e ∙ new) new (extends f b.contents c done),
              )
              (skipped run' f s.migrations fs s
                  (apply_files-has run f ns fs b' (ground (arith, eq_refl f)))
                ∙ resumed ns fs b' d (one_more-Agree f b.migrations ns fs once h))
      ]
    ]

-- Migrations that stopped at a file, or not, and are run again with scripts that do what the first ones
-- did where these went through, end as if the scripts of the second run had been run alone: with the
-- same result, the same database and the same recorded files. No file stands twice in the list.
pub migrate-migrate :
    {S : Type 0} (run run' : String → S → Option S) (files : List String) (b : Base S)
    → ((f : String) (c d : S) → run f c ≡ some d → run' f c ≡ some d)
    → Distinct files
    → migrate run' files (migrate run files b).1 ≡ migrate run' files b
unfolding migrate
migrate-migrate run run' files b extends once =
    resumed run run' extends b.migrations files b once (self-Agree b.migrations files)
