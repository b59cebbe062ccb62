-- ===== src/Edge/Pull/Complete.antt =====
-- What a pull from an API with pages gathers.
use native.Mathlib.Nat.{add-zero, suc-add}
use task_schedular.Prelude.{
  ℕ, zero, suc, ◌+◌, ◌*◌, ◌≤◌, ◌<◌, String, false, Option, some, List, [], ◌∷◌, ◌++◌, append_assoc,
  append-nil, take, length, length-append, ltb, ◌≡◌, refl, sym, ap, ◌∙◌, subst, arith, Bool-cases,
  inl, inr, ltb→lt,
}
use task_schedular.Prelude.Act.{Result, ok, Act}
use task_schedular.Contracts.Json.{Json, arr}
use task_schedular.Targets.Batches.{drop, take-drop}
use task_schedular.Edge.Http.{
  Net, Wire, Request, response, get_request, guard, fetch_json, call, with_backoff, send, judge,
  as_json, Attempt, done, label,
}
use task_schedular.Edge.{World, Outside, progress_log, log, of_list, to_list}
use task_schedular.Edge.Pull.{PageSize, items_of, with_page, page_url, pull_pages}

to_list-of_list : (xs : List Json) → to_list (of_list xs) ≡ xs
to_list-of_list [] = refl
to_list-of_list (x ∷ xs) = ap (λ ys. x ∷ ys) (to_list-of_list xs)

-- The page `k + 1` of the items
abbrev pub page_of : ℕ → ℕ → List Json → List Json
page_of size k xs = take size (drop (k * size) xs)

-- The API is let through, and answers at all times each page up to the first that is not full with the
-- items on it, as an array.
pub record Serves (net : Net) (base : String) (token : Option String) (allowlist : List String)
    (number : PageSize) (size : ℕ) (xs : List Json) : Type 0 where
  pub admitted : (k : ℕ) → guard net (page_url base number (suc k)) allowlist ≡ ok tt
  pub answers :
      (n k : ℕ)
      → k * size ≤ length xs
      → net.answer n (get_request net (page_url base number (suc k)) token)
        ≡ response 200 (some (arr (of_list (page_of size k xs))))

with_backoff-done {ℓ} :
    {A : Type ℓ} (net : Net) (left k : ℕ) (name : String) (run : Wire → Attempt A × Wire) (a : A)
    (w w' : Wire)
    → run w ≡ (done a, w')
    → with_backoff net left k name run w ≡ (ok a, w')
unfolding with_backoff
with_backoff-done net zero k name run a w w' h = rw h
with_backoff-done net (suc left) k name run a w w' h = rw h

send-answered :
    (net : Net) (r : Request) (j : Json) (w : Wire)
    → net.answer (length w.requests) r ≡ response 200 (some j)
    → send net r as_json w ≡ (done j, record w { requests = r ∷ w.requests })
unfolding send judge
send-answered net r j w answered = rw answered

-- A call that is answered at once
fetch_json_answered :
    (net : Net) (url : String) (token : Option String) (allowlist : List String) (j : Json)
    (w : Wire)
    → guard net url allowlist ≡ ok tt
    → net.answer (length w.requests) (get_request net url token) ≡ response 200 (some j)
    → (w' : Wire) × (fetch_json net url token allowlist w ≡ (ok j, w'))
unfolding fetch_json call
fetch_json_answered net url token allowlist j w passed answered =
    let r = get_request net url token in
    (
      record w { requests = r ∷ w.requests },
      rw passed (
          with_backoff-done net net.retries 0 (label r) (send net r as_json) j w
            (record w { requests = r ∷ w.requests }) (send-answered net r j w answered)),
    )

drop_more {ℓ} : {A : Type ℓ} (m n : ℕ) (xs : List A) → drop m (drop n xs) ≡ drop (n + m) xs
drop_more m zero xs = ap (λ k. drop k xs) (omega arith)
drop_more zero (suc n) [] = rw (add-zero (suc n))
drop_more (suc m) (suc n) [] = rw (suc-add n (suc m))
drop_more m (suc n) (x ∷ xs) = rw (suc-add n m) (drop_more m n xs)

length-drop {ℓ} :
    {A : Type ℓ} (n : ℕ) (xs : List A) → n ≤ length xs → length (drop n xs) + n ≡ length xs
length-drop zero xs h = omega arith
length-drop (suc n) [] h = absurd (omega arith)
length-drop (suc n) (x ∷ xs) h = omega (arith, length-drop n xs)

length-take-le {ℓ} : {A : Type ℓ} (n : ℕ) (xs : List A) → length (take n xs) ≤ length xs
length-take-le zero xs = omega arith
length-take-le (suc n) [] = omega arith
length-take-le (suc n) (x ∷ xs) = omega (arith, length-take-le n xs)

take_short {ℓ} : {A : Type ℓ} (n : ℕ) (xs : List A) → length (take n xs) < n → take n xs ≡ xs
take_short zero xs h = absurd (omega arith)
take_short (suc n) [] h = refl
take_short (suc n) (x ∷ xs) h = ap (λ ys. x ∷ ys) (take_short n xs (omega arith))

module _ (o : Outside) (base : String) (token : Option String) (allowlist : List String)
    (number : PageSize) (size : ℕ) (xs : List Json) (positive : 0 < size)
    (counts : (n : ℕ) → number.exceeds n ≡ ltb n size)
    (logged : o.report_fails progress_log ≡ false) where
  -- The loop ends with these records, and has used the wire only.
  abbrev pub Ends : World → List Json → Result (List Json × ℕ) × World → Type 0
  Ends w all r = (last : ℕ) × (wire : Wire) × (r ≡ (ok (all, last), record w { wire = wire }))

  with_page-Ends :
      (page : ℕ) (all p r : List Json) (next : List Json → Act World (List Json × ℕ)) (w : World)
      → take size r ≡ p
      → (size ≤ length p → Ends w (all ++ r) (next (all ++ p) w))
      → Ends w (all ++ r) (with_page o number page all next (some p) w)
  unfolding log
  with_page-Ends page all [] r next w e more =
      let none_left : r ≡ [] = sym (take_short size r (rw e positive)) ∙ e in
      (page, w.wire, rw (none_left, append-nil all))
  with_page-Ends page all (x ∷ p) r next w e more = elim (Bool-cases (ltb (length (x ∷ p)) size)) [
    | inl short ↦
        let all_left : x ∷ p ≡ r = sym e ∙ take_short size r (rw e (ltb→lt _ _ short)) in
        (page, w.wire, rw (logged, counts (length (x ∷ p)), short, all_left))
    | inr full ↦ rw (logged, counts (length (x ∷ p)), full) (more (ground arith))
  ]

  page_and_rest : (k : ℕ) → page_of size k xs ++ drop (suc k * size) xs ≡ drop (k * size) xs
  page_and_rest k =
      let e : suc k * size ≡ k * size + size = grind arith in
      rw (e, ← (drop_more size (k * size) xs)) (take-drop size (drop (k * size) xs))

  -- A full page leaves one page less.
  fewer :
      (left k : ℕ)
      → length (drop (k * size) xs) < suc left * size
      → size ≤ length (page_of size k xs)
      → length (drop (suc k * size) xs) < left * size
  fewer left k short full =
      let e : suc left * size ≡ left * size + size = grind arith in
      omega (
        arith,
        e,
        ap length (page_and_rest k),
        length-append (page_of size k xs) (drop (suc k * size) xs),
      )

  -- Behind a full page there is a page to come.
  reached :
      (k : ℕ) → k * size ≤ length xs → size ≤ length (page_of size k xs) → suc k * size ≤ length xs
  reached k within full =
      let e : suc k * size ≡ k * size + size = grind arith in
      omega (arith, e, length-drop (k * size) xs within, length-take-le size (drop (k * size) xs))

  pub pull_pages-Ends :
      Serves o.net base token allowlist number size xs
      → (left k : ℕ) (all : List Json) (w : World) → length (drop (k * size) xs) < left * size
      → k * size ≤ length xs
      → Ends w
          (all ++ drop (k * size) xs)
          (pull_pages o base token allowlist number left (suc k) all w)
  unfolding pull_pages items_of
  pull_pages-Ends serves zero k all w short within = absurd (omega arith)
  pull_pages-Ends serves (suc left) k all w short within =
      let p = page_of size k xs in
      let r = drop (k * size) xs in
      let (wire, answered) =
        fetch_json_answered o.net (page_url base number (suc k)) token allowlist (arr (of_list p))
          w.wire (serves.admitted k) (serves.answers (length w.wire.requests) k within) in
      rw (answered, to_list-of_list p)
        (with_page-Ends (suc k) all p r
          (pull_pages o base token allowlist number left (suc (suc k))) (record w { wire = wire })
          refl
          λ full.
            subst
              (λ ys. Ends w ys (
                pull_pages o base token allowlist number left (suc (suc k)) (all ++ p)
                  (record w { wire = wire })))
              (append_assoc all p (drop (suc k * size) xs) ∙ ap (λ ys. all ++ ys) (page_and_rest k))
              (pull_pages-Ends serves left (suc k) (all ++ p) (record w { wire = wire })
                (fewer left k short full) (reached k within full)))
