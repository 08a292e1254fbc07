-- ===== src/Core/Concurrency/Gathering.antt =====
-- Every run of a gather ends with the results in order, within the limit.
use web_search_api.Prelude.{
  ℕ, zero, suc, ◌+◌, ◌≤◌, ◌<◌, ◌≡◌, refl, sym, ap, ◌∙◌, ◌⊎◌, inl, inr, some, List, [], ◌∷◌, ◌++◌,
  map, length, arith,
}
use web_search_api.Core.Concurrency.{
  Slot, queued, running, done, Gather, init, Step, acquire, release, Runs, start, then, results,
}

zero_or_suc : (n : ℕ) → (n ≡ 0) ⊎ ((m : ℕ) × (n ≡ suc m))
zero_or_suc zero = inl refl
zero_or_suc (suc m) = inr (m, refl)

module _ {A : Type 0} where
  -- How many tasks are in the semaphore.
  unfoldable pub in_flight : List (Slot A) → ℕ
  in_flight [] = 0
  in_flight (queued a ∷ ss) = in_flight ss
  in_flight (running a ∷ ss) = suc (in_flight ss)
  in_flight (done a ∷ ss) = in_flight ss

  -- How many steps are left to the tasks.
  left : List (Slot A) → ℕ
  left [] = 0
  left (queued a ∷ ss) = suc (suc (left ss))
  left (running a ∷ ss) = suc (left ss)
  left (done a ∷ ss) = left ss

  abbrev value : Slot A → A
  value (queued a) = a
  value (running a) = a
  value (done a) = a

  in_flight-append : (xs ys : List (Slot A)) → in_flight (xs ++ ys) ≡ in_flight xs + in_flight ys
  unfolding in_flight
  in_flight-append [] ys = omega arith
  in_flight-append (queued a ∷ xs) ys = in_flight-append xs ys
  in_flight-append (running a ∷ xs) ys = omega (arith, in_flight-append xs ys)
  in_flight-append (done a ∷ xs) ys = in_flight-append xs ys

  left-append : (xs ys : List (Slot A)) → left (xs ++ ys) ≡ left xs + left ys
  unfolding left
  left-append [] ys = omega arith
  left-append (queued a ∷ xs) ys = omega (arith, left-append xs ys)
  left-append (running a ∷ xs) ys = omega (arith, left-append xs ys)
  left-append (done a ∷ xs) ys = left-append xs ys

  values-append : (xs ys : List (Slot A)) → map value (xs ++ ys) ≡ map value xs ++ map value ys
  values-append [] ys = refl
  values-append (x ∷ xs) ys = rw (values-append xs ys) refl

  -- What every run from the start keeps.
  abbrev IsKept : ℕ → List A → ℕ → Gather A → Type 0
  IsKept limit factories k g =
      (map value g.slots ≡ factories)
      × (in_flight g.slots + g.free ≡ limit)
      × (k + left g.slots ≡ length factories + length factories)

  step-IsKept :
      (limit : ℕ) (factories : List A) (k : ℕ) (g h : Gather A)
      → Step g h
      → IsKept limit factories k g
      → IsKept limit factories (suc k) h
  unfolding in_flight left
  step-IsKept limit factories k g h (acquire before after a n) (v, f, l) =
      let p = in_flight-append before (queued a ∷ after) in
      let q = in_flight-append before (running a ∷ after) in
      let r = left-append before (queued a ∷ after) in
      let s = left-append before (running a ∷ after) in
      (
        values-append before (running a ∷ after)
            ∙ sym (values-append before (queued a ∷ after))
            ∙ v,
        omega (arith, p, q, f),
        omega (arith, r, s, l),
      )
  step-IsKept limit factories k g h (release before after a n) (v, f, l) =
      let p = in_flight-append before (running a ∷ after) in
      let q = in_flight-append before (done a ∷ after) in
      let r = left-append before (running a ∷ after) in
      let s = left-append before (done a ∷ after) in
      (
        values-append before (done a ∷ after) ∙ sym (values-append before (running a ∷ after)) ∙ v,
        omega (arith, p, q, f),
        omega (arith, r, s, l),
      )

  values-queued : (as_ : List A) → map value (map queued as_) ≡ as_
  values-queued [] = refl
  values-queued (a ∷ as_) = ap (λ x. a ∷ x) (values-queued as_)

  in_flight-queued : (as_ : List A) → in_flight (map queued as_) ≡ 0
  unfolding in_flight
  in_flight-queued [] = refl
  in_flight-queued (a ∷ as_) = in_flight-queued as_

  left-queued : (as_ : List A) → left (map queued as_) ≡ length as_ + length as_
  unfolding left
  left-queued [] = omega arith
  left-queued (a ∷ as_) = omega (arith, left-queued as_)

  init-IsKept : (limit : ℕ) (factories : List A) → IsKept limit factories 0 (init limit factories)
  unfolding init
  init-IsKept limit factories = (
    values-queued factories,
    omega (arith, in_flight-queued factories),
    omega (arith, left-queued factories),
  )

  Runs-IsKept :
      (limit : ℕ) (factories : List A) (k : ℕ) (g h : Gather A)
      → Runs k g h
      → IsKept limit factories 0 g
      → IsKept limit factories k h
  Runs-IsKept limit factories _ _ _ (start g) kept = kept
  Runs-IsKept limit factories _ _ _ (then k g m h runs step) kept =
      step-IsKept limit factories k m h step (Runs-IsKept limit factories k g m runs kept)

  results-values : (ss : List (Slot A)) → left ss ≡ 0 → results ss ≡ some (map value ss)
  unfolding results left
  results-values [] h = refl
  results-values (queued a ∷ ss) h = absurd (omega (arith, h))
  results-values (running a ∷ ss) h = absurd (omega (arith, h))
  results-values (done a ∷ ss) h = rw (results-values ss h) refl

  -- A task at a place among the others.
  abbrev Place : (A → Slot A) → List (Slot A) → Type 0
  Place at_ ss =
      (before : List (Slot A)) × (a : A) × (after : List (Slot A)) × (ss
        ≡ before ++ (at_ a ∷ after))

  Place-later :
      (at_ : A → Slot A) (s : Slot A) (ss : List (Slot A)) → Place at_ ss → Place at_ (s ∷ ss)
  Place-later at_ s ss (before, a, after, e) = (s ∷ before, a, after, ap (λ x. s ∷ x) e)

  running-Place : (ss : List (Slot A)) → 0 < in_flight ss → Place running ss
  unfolding in_flight
  running-Place [] h = absurd (omega (arith, h))
  running-Place (queued a ∷ ss) h = Place-later running (queued a) ss (running-Place ss h)
  running-Place (running a ∷ ss) h = ([], a, ss, refl)
  running-Place (done a ∷ ss) h = Place-later running (done a) ss (running-Place ss h)

  queued-Place : (ss : List (Slot A)) → in_flight ss ≡ 0 → 0 < left ss → Place queued ss
  unfolding in_flight left
  queued-Place [] h k = absurd (omega (arith, k))
  queued-Place (queued a ∷ ss) h k = ([], a, ss, refl)
  queued-Place (running a ∷ ss) h k = absurd (omega (arith, h))
  queued-Place (done a ∷ ss) h k = Place-later queued (done a) ss (queued-Place ss h k)

  progress :
      (ss : List (Slot A)) (free : ℕ)
      → 0 < in_flight ss + free
      → (left ss ≡ 0) ⊎ ((h : Gather A) × Step (record { slots = ss; free = free }) h)
  progress ss free p = elim (zero_or_suc (left ss)) [
    | inl e ↦ inl e
    | inr (m, e) ↦ elim (zero_or_suc (in_flight ss)) [
      | inl f ↦
          let (before, a, after, q) = queued-Place ss f (omega (arith, e)) in
          elim (zero_or_suc free) [
            | inl n ↦ absurd (omega (arith, p, f, n))
            | inr (n, r) ↦ rw (q, r) (inr (_, acquire before after a n))
          ]
      | inr (n, f) ↦
          let (before, a, after, q) = running-Place ss (omega (arith, f)) in
          rw q (inr (_, release before after a free))
    ]
  ]

  -- Whatever the order in which tasks go on, a gather whose limit is at least 1 has at most that many
  -- tasks in flight, makes at most two steps for each factory, and goes on until it has the results of
  -- all factories, in their order.
  pub gather_results :
      (limit : ℕ) (factories : List A) (k : ℕ) (g : Gather A)
      → 0 < limit
      → Runs k (init limit factories) g
      → (in_flight g.slots ≤ limit)
        × (k ≤ length factories + length factories)
        × ((results g.slots ≡ some factories) ⊎ ((h : Gather A) × Step g h))
  gather_results limit factories k g p runs =
      let (v, f, l) =
        Runs-IsKept limit factories k (init limit factories) g runs (init-IsKept limit factories) in
      (
        omega (arith, f),
        omega (arith, l),
        elim (progress g.slots g.free (omega (arith, f, p))) [
          | inl e ↦ inl (results-values g.slots e ∙ ap some v)
          | inr h ↦ inr h
        ],
      )
