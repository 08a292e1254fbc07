-- ===== src/Jobs/Store/Links.antt =====
-- The link between the jobs of `InMemoryJobStore` and their completion events.
use web_search_api.Prelude.{
  ℕ, String, ◌≡◌, ◌≢◌, refl, sym, ap, ◌∙◌, ◌⊎◌, inl, inr, true, none, some, List, [], ◌∷◌, ◌++◌,
  arith, if◌then◌else◌, str_eq, eq_iff, str_eq_of_ne, ne_of_str_eq, Bool-cases, Option-cases, Has,
}
use web_search_api.Jobs.Base.{Job, is_terminal}
use web_search_api.Jobs.Store.{Store, drop_job, find_event, drop_event, release, discard, event_for}
use web_search_api.Jobs.Store.Jobs.{
  IsUnique, IsUnique-discard, Has-drop_job, drop_job-Has, jobs-discard,
}

find_event-drop_event :
    (k j : String) (es : List (String × ℕ))
    → find_event j (drop_event k es) ≡ (if str_eq k j then none else find_event j es)
unfolding find_event drop_event
find_event-drop_event k j [] = ground arith
find_event-drop_event k j ((i, e) ∷ es) =
    ground (arith, find_event-drop_event k j es, eq_iff i k, eq_iff i j, eq_iff k j)

find_event-append :
    (k j : String) (e : ℕ) (es : List (String × ℕ))
    → find_event k es ≡ none
    → find_event j (es ++ (k, e) ∷ []) ≡ (if str_eq k j then some e else find_event j es)
unfolding find_event
find_event-append k j e [] h = refl
find_event-append k j e ((i, d) ∷ es) h =
    ground (arith, find_event-append k j e es, eq_iff i k, eq_iff i j, eq_iff k j)

module _ {R : Type 0} where
  find_event-release :
      (k j : String) (s : Store R)
      → find_event j (release k s).settled ≡ (if str_eq k j then none else find_event j s.settled)
  unfolding release
  find_event-release k j s = ground (arith, find_event-drop_event k j s.settled, eq_iff k j)

  pub release-none : (k : String) (s : Store R) → find_event k s.settled ≡ none → release k s ≡ s
  unfolding release
  release-none k s n = ground arith

  release-some :
      (k : String) (s : Store R) (e : ℕ)
      → find_event k s.settled ≡ some e
      → release k s ≡ record s { settled = drop_event k s.settled; fired = e ∷ s.fired }
  unfolding release
  release-some k s e q = ground arith

  fired-release : (k : String) (s : Store R) (e : ℕ) → Has e s.fired → Has e (release k s).fired
  unfolding release
  fired-release k s e h = elim (Option-cases (find_event k s.settled)) [
    | inl n ↦ rw (ap (λ (x : Store R). x.fired) (release-none k s n)) h
    | inr (d, q) ↦ rw (ap (λ (x : Store R). x.fired) (release-some k s d q)) (inr h)
  ]

  release-fired :
      (k : String) (s : Store R) (e : ℕ)
      → find_event k s.settled ≡ some e
      → Has e (release k s).fired
  unfolding release
  release-fired k s e q = rw (ap (λ (x : Store R). x.fired) (release-some k s e q)) (inl refl)

  pub find_event-event_for :
      (k j : String) (s : Store R)
      → find_event j (event_for k s).0.settled
        ≡ (if str_eq k j then some (event_for k s).1 else find_event j s.settled)
  unfolding event_for
  find_event-event_for k j s =
      ground (arith, find_event-append k j s.next_event s.settled, eq_iff k j)

  pub event_for-some :
      (k : String) (s : Store R) (e : ℕ) → find_event k s.settled ≡ some e → (event_for k s).1 ≡ e
  unfolding event_for
  event_for-some k s e q = ground arith

  pub fired-event_for : (k : String) (s : Store R) → (event_for k s).0.fired ≡ s.fired
  unfolding event_for
  fired-event_for k s = ground arith

  pub record IsLinked (s : Store R) : Type 0 where
    pub unique : IsUnique s.jobs
    -- The event of a finished job is set.
    pub finished :
        (j : Job R) (e : ℕ)
        → Has j s.jobs
        → is_terminal j.status ≡ true
        → find_event j.id s.settled ≡ some e
        → Has e s.fired
    -- Every job that is held has an event.
    pub tracked : (j : Job R) → Has j s.jobs → (e : ℕ) × (find_event j.id s.settled ≡ some e)
    -- Every event stands under the id of a job that is held.
    pub keyed :
        (k : String) (e : ℕ)
        → find_event k s.settled ≡ some e
        → (j : Job R) × Has j s.jobs × (j.id ≡ k)

  -- A waiter for the job `k` holds the event `e`.
  abbrev pub Watches : String → ℕ → Store R → Type 0
  Watches k e s = (find_event k s.settled ≡ some e) ⊎ Has e s.fired

  find_event_other :
      (k j : String) (s : Store R) (e : ℕ)
      → find_event j (release k s).settled ≡ some e
      → (j ≢ k) × (find_event j s.settled ≡ some e)
  find_event_other k j s e h = elim (Bool-cases (str_eq k j)) [
    | inl t ↦ let n : none ≡ some e = ground (arith, find_event-release k j s) in absurd (cc n)
    | inr f ↦ (λ p. ne_of_str_eq k j f (sym p), ground (arith, find_event-release k j s))
  ]

  find_event_kept :
      (k j : String) (s : Store R) (e : ℕ)
      → j ≢ k
      → find_event j s.settled ≡ some e
      → find_event j (release k s).settled ≡ some e
  find_event_kept k j s e n q = find_event-release k j s ∙ rw (str_eq_of_ne k j (λ p. n (sym p))) q

  pub IsLinked-discard : (k : String) (s : Store R) → IsLinked s → IsLinked (discard k s)
  unfolding discard
  IsLinked-discard k s l = record {
    unique = IsUnique-discard k s l.unique;
    finished = λ j e h done q.
        let (m, n) = drop_job-Has k j s.jobs (rw jobs-discard at h) in
        fired-release k _ e (l.finished j e m done (find_event_other k j.id _ e q).1);
    tracked = λ j h.
        let (m, n) = drop_job-Has k j s.jobs (rw jobs-discard at h) in
        let (e, q) = l.tracked j m in (e, find_event_kept k j.id _ e n q);
    keyed = λ i e q.
        let (n, q') = find_event_other k i _ e q in
        let (j, m, p) = l.keyed i e q' in
        (j, rw jobs-discard (Has-drop_job k j s.jobs m (λ r. n (sym p ∙ r))), p);
  }

  pub Watches-discard :
      (k j : String) (e : ℕ) (s : Store R) → Watches j e s → Watches j e (discard k s)
  unfolding discard
  Watches-discard k j e s (inr h) = inr (fired-release k _ e h)
  Watches-discard k j e s (inl q) = elim (Bool-cases (str_eq k j)) [
    | inl t ↦ inr (release-fired k _ e (ap (λ x. find_event x s.settled) ((eq_iff k j).0 t) ∙ q))
    | inr f ↦ inl (ground (arith, find_event-release k j (record s { jobs = drop_job k s.jobs })))
  ]
