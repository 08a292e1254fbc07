-- ===== src/Jobs/Store/Reads.antt =====
-- What `get` and `list` of `InMemoryJobStore` return.
use web_search_api.Prelude.{
  ℕ, zero, suc, ◌≤◌, String, ◌≡◌, refl, sym, ap, ◌∙◌, ◌⊎◌, inl, inr, true, false, Option, some,
  List, [], ◌∷◌, arith, length, take, filter, leb, leb→le, length-take-le, Bool-cases, Has, All,
  filter-Has, Has-filter, All-Has, ◌↔◌,
}
use web_search_api.Jobs.Base.{JobStatus, Job, is_terminal}
use web_search_api.Jobs.Store.{
  Store, find_job, purge, put, expired, get, wanted, insert_newest, sort_newest, list,
}
use web_search_api.Jobs.Store.Jobs.{
  IsUnique, IsUnique-purge, find_job-Has, Has-find_job, Has-purge, purge-Has,
}
use web_search_api.Jobs.Store.Capacity.{Has-put_self, IsUnique-put}

module _ {R : Type 0} where
  -- In a store with one job per id, `get` returns exactly the job that the store holds under the
  -- id, unless it has expired.
  pub get_exact :
      (now : ℕ) (k : String) (s : Store R) (j : Job R)
      → IsUnique s.jobs
      → ((get now k s).1 ≡ some j) ↔ (Has j s.jobs × (j.id ≡ k) × (expired now s j ≡ false))
  unfolding get
  get_exact now k s j u = (
    λ h.
        let (m, p) = find_job-Has k (purge now s).jobs j h in
        let (m', e) = purge-Has now s j m in (m', p, e),
    λ (m, p, e).
        ap (λ x. find_job x (purge now s).jobs) (sym p)
        ∙ Has-find_job (purge now s).jobs j (IsUnique-purge now s u) (Has-purge now s j u m e),
  )

  -- A job that was put unfinished is read back whenever it is asked for.
  pub get-put :
      (now later : ℕ) (j : Job R) (s : Store R)
      → IsUnique s.jobs
      → is_terminal j.status ≡ false
      → (get later j.id (put now j s)).1 ≡ some j
  get-put now later j s u n =
      (get_exact later j.id (put now j s) j (IsUnique-put now j s u)).1
        (Has-put_self now j s u n, refl, unfold expired in rw n)

  -- Newest first.
  abbrev pub IsNewest : List (Job R) → Type 0
  IsNewest [] = Unit
  IsNewest (j ∷ js) = All (λ i. i.created_at ≤ j.created_at) js × IsNewest js

  All-insert_newest :
      (n : ℕ) (j : Job R) (js : List (Job R))
      → j.created_at ≤ n
      → All (λ i. i.created_at ≤ n) js
      → All (λ i. i.created_at ≤ n) (insert_newest j js)
  unfolding insert_newest
  All-insert_newest n j [] p h = (p, tt)
  All-insert_newest n j (k ∷ js) p h = elim (Bool-cases (leb k.created_at j.created_at)) [
    | inl t ↦ rw t (p, h)
    | inr f ↦ rw f (h.0, All-insert_newest n j js p h.1)
  ]

  All-ge :
      (m n : ℕ) (js : List (Job R))
      → m ≤ n
      → All (λ i. i.created_at ≤ m) js
      → All (λ i. i.created_at ≤ n) js
  All-ge m n [] p h = tt
  All-ge m n (k ∷ js) p h = (omega arith, All-ge m n js p h.1)

  IsNewest-insert_newest :
      (j : Job R) (js : List (Job R)) → IsNewest js → IsNewest (insert_newest j js)
  unfolding insert_newest
  IsNewest-insert_newest j [] h = (tt, tt)
  IsNewest-insert_newest j (k ∷ js) h = elim (Bool-cases (leb k.created_at j.created_at)) [
    | inl t ↦ rw t (
        let p : k.created_at ≤ j.created_at = leb→le _ _ t in
        ((p, All-ge k.created_at j.created_at js p h.0), h))
    | inr f ↦
        rw f
          (All-insert_newest k.created_at j js (ground arith) h.0, IsNewest-insert_newest j js h.1)
  ]

  IsNewest-sort_newest : (js : List (Job R)) → IsNewest (sort_newest js)
  unfolding sort_newest
  IsNewest-sort_newest [] = tt
  IsNewest-sort_newest (j ∷ js) =
      IsNewest-insert_newest j (sort_newest js) (IsNewest-sort_newest js)

  insert_newest-Has :
      (j i : Job R) (js : List (Job R)) → Has i (insert_newest j js) → (j ≡ i) ⊎ Has i js
  unfolding insert_newest
  insert_newest-Has j i [] h = h
  insert_newest-Has j i (k ∷ js) h = elim (Bool-cases (leb k.created_at j.created_at)) [
    | inl t ↦ rw t at h
    | inr f ↦ elim (rw f at h) [
      | inl q ↦ inr (inl q)
      | inr m ↦ elim (insert_newest-Has j i js m) [ inl q ↦ inl q | inr n ↦ inr (inr n) ]
    ]
  ]

  Has-insert_newest :
      (j i : Job R) (js : List (Job R)) → (j ≡ i) ⊎ Has i js → Has i (insert_newest j js)
  unfolding insert_newest
  Has-insert_newest j i [] h = h
  Has-insert_newest j i (k ∷ js) h = elim (Bool-cases (leb k.created_at j.created_at)) [
    | inl t ↦ rw t h
    | inr f ↦ rw f (elim h [
      | inl q ↦ inr (Has-insert_newest j i js (inl q))
      | inr m ↦ elim m [ inl q ↦ inl q | inr n ↦ inr (Has-insert_newest j i js (inr n)) ]
    ])
  ]

  sort_newest-Has : (i : Job R) (js : List (Job R)) → Has i (sort_newest js) → Has i js
  unfolding sort_newest
  sort_newest-Has i [] h = h
  sort_newest-Has i (j ∷ js) h = elim (insert_newest-Has j i (sort_newest js) h) [
    | inl q ↦ inl q
    | inr m ↦ inr (sort_newest-Has i js m)
  ]

  Has-sort_newest : (i : Job R) (js : List (Job R)) → Has i js → Has i (sort_newest js)
  unfolding sort_newest
  Has-sort_newest i [] h = h
  Has-sort_newest i (j ∷ js) (inl q) = Has-insert_newest j i (sort_newest js) (inl q)
  Has-sort_newest i (j ∷ js) (inr m) =
      Has-insert_newest j i (sort_newest js) (inr (Has-sort_newest i js m))

  take-Has : (n : ℕ) (i : Job R) (js : List (Job R)) → Has i (take n js) → Has i js
  take-Has zero i js h = elim h [ ]
  take-Has (suc n) i [] h = h
  take-Has (suc n) i (j ∷ js) (inl q) = inl q
  take-Has (suc n) i (j ∷ js) (inr m) = inr (take-Has n i js m)

  IsNewest-take : (n : ℕ) (js : List (Job R)) → IsNewest js → IsNewest (take n js)
  IsNewest-take zero js h = tt
  IsNewest-take (suc n) [] h = tt
  IsNewest-take (suc n) (j ∷ js) h =
      (sub n js (λ i. i.created_at ≤ j.created_at) h.0, IsNewest-take n js h.1)
    where
      sub : (n : ℕ) (js : List (Job R)) (P : Job R → Type 0) → All P js → All P (take n js)
      sub zero js P h = tt
      sub (suc n) [] P h = tt
      sub (suc n) (j ∷ js) P h = (h.0, sub n js P h.1)

  -- What the limit cuts off is not newer than what it leaves.
  cut_off :
      (n : ℕ) (js : List (Job R)) (a b : Job R)
      → IsNewest js
      → Has a js
      → (Has a (take n js) → ⊥)
      → Has b (take n js)
      → a.created_at ≤ b.created_at
  cut_off zero js a b o ha na hb = elim hb [ ]
  cut_off (suc n) [] a b o ha na hb = elim hb [ ]
  cut_off (suc n) (j ∷ js) a b o (inl q) na hb = absurd (na (inl q))
  cut_off (suc n) (j ∷ js) a b o (inr m) na (inl q) =
      let p = All-Has (λ (i : Job R). i.created_at ≤ j.created_at) js o.0 m in
      let e : j.created_at ≡ b.created_at = ap (λ (x : Job R). x.created_at) q in omega arith
  cut_off (suc n) (j ∷ js) a b o (inr m) na (inr k) = cut_off n js a b o.1 m (λ h. na (inr h)) k

  cut_off_full :
      (n : ℕ) (js : List (Job R)) (a : Job R)
      → Has a js
      → (Has a (take n js) → ⊥)
      → length (take n js) ≡ n
  cut_off_full zero js a ha na = refl
  cut_off_full (suc n) [] a ha na = elim ha [ ]
  cut_off_full (suc n) (j ∷ js) a (inl q) na = absurd (na (inl q))
  cut_off_full (suc n) (j ∷ js) a (inr m) na = ap suc (cut_off_full n js a m (λ h. na (inr h)))

  -- The jobs that a listing is about.
  abbrev pub IsListable : ℕ → Option JobStatus → Store R → Job R → Type 0
  IsListable now st s j = Has j s.jobs × (expired now s j ≡ false) × (wanted st j ≡ true)

  eligible :
      (now : ℕ) (st : Option JobStatus) (s : Store R) (j : Job R)
      → Has j (sort_newest (filter (wanted st) (purge now s).jobs))
      → IsListable now st s j
  eligible now st s j h =
      let (m, w) = filter-Has (wanted st) j (purge now s).jobs (sort_newest-Has j _ h) in
      let (m', e) = purge-Has now s j m in (m', e, w)

  -- In a store with one job per id, a listing is at most `limit` long and newest first. It holds
  -- only jobs of the store that have not expired and have the status asked for. Where it leaves
  -- such a job out, it is `limit` long, and that job is no newer than any that it holds.
  pub list-IsNewest :
      (now : ℕ) (st : Option JobStatus) (limit : ℕ) (s : Store R)
      → IsUnique s.jobs
      → (length (list now st limit s).1 ≤ limit)
        × IsNewest (list now st limit s).1
        × ((j : Job R) → Has j (list now st limit s).1 → IsListable now st s j)
        × ((a b : Job R)
            → IsListable now st s a
            → (Has a (list now st limit s).1 → ⊥)
            → (length (list now st limit s).1 ≡ limit)
              × (Has b (list now st limit s).1 → a.created_at ≤ b.created_at))
  unfolding list
  list-IsNewest now st limit s u = (
    length-take-le limit _,
    IsNewest-take limit _ (IsNewest-sort_newest _),
    λ j h. eligible now st s j (take-Has limit j _ h),
    λ a b (m, e, w) na.
        let held =
          Has-sort_newest a _
            (Has-filter (wanted st) a (purge now s).jobs (Has-purge now s a u m e) w) in
        (cut_off_full limit _ a held na, cut_off limit _ a b (IsNewest-sort_newest _) held na),
  )
