-- ===== src/Jobs/Store/Events.antt =====
-- `_settled` and `wait_for_terminal`: no waiter sleeps past the end of its job.
use web_search_api.Prelude.{
  ℕ, String, ◌≡◌, refl, sym, ap, ◌∙◌, inl, inr, true, none, some, List, [], ◌∷◌, arith,
  if◌then◌else◌, str_eq, eq_iff, eq_refl, ne_of_str_eq, Bool-cases, Option-cases, Has, length, leb,
}
use web_search_api.Jobs.Base.{Job, is_terminal}
use web_search_api.Jobs.Store.{
  Store, init, find_job, set_job, find_event, release, discard, discard_all, event_for, purge,
  evict_loop, evict, fire, enter, put,
}
use web_search_api.Jobs.Store.Jobs.{
  IsUnique-set_job, Has-set_job, Has-set_job_self, set_job-Has, job_of_id, Has-find_job,
}
use web_search_api.Jobs.Store.Capacity.{jobs-enter}
use web_search_api.Jobs.Store.Links.{
  release-none, find_event-event_for, event_for-some, fired-event_for, IsLinked, Watches,
  IsLinked-discard, Watches-discard,
}

module _ {R : Type 0} where
  abbrev entering : Job R → Store R → Store R × ℕ
  entering j s = event_for j.id (record s { jobs = set_job j s.jobs })

  find_event-enter :
      (j : Job R) (k : String) (s : Store R)
      → find_event k (enter j s).settled
        ≡ (if str_eq j.id k then some (entering j s).1 else find_event k s.settled)
  unfolding enter fire
  find_event-enter j k s =
      ground (arith, find_event-event_for j.id k (record s { jobs = set_job j s.jobs }))

  fired-enter : (j : Job R) (s : Store R) (e : ℕ) → Has e s.fired → Has e (enter j s).fired
  unfolding enter fire
  fired-enter j s e h = elim (Bool-cases (is_terminal j.status)) [
    | inl t ↦ rw (t, fired-event_for) (inr h)
    | inr f ↦ rw (f, fired-event_for) h
  ]

  entered_fired :
      (j : Job R) (s : Store R) (e : ℕ)
      → is_terminal j.status ≡ true
      → find_event j.id (enter j s).settled ≡ some e
      → Has e (enter j s).fired
  unfolding enter fire
  entered_fired j s e done q =
      let same : (entering j s).1 ≡ e = ground (arith, find_event-enter j j.id s, eq_refl j.id) in
      rw done (inl same)

  Watches-enter :
      (j : Job R) (k : String) (e : ℕ) (s : Store R) → Watches k e s → Watches k e (enter j s)
  Watches-enter j k e s (inr h) = inr (fired-enter j s e h)
  Watches-enter j k e s (inl q) = elim (Bool-cases (str_eq j.id k)) [
    | inl t ↦ inl (find_event-enter j k s ∙ rw t (ap some (held t)))
    | inr f ↦ inl (ground (arith, find_event-enter j k s))
  ]
    where
      held : str_eq j.id k ≡ true → (entering j s).1 ≡ e
      held t = event_for-some j.id _ e (ap (λ x. find_event x s.settled) ((eq_iff j.id k).0 t) ∙ q)

  IsLinked-enter : (j : Job R) (s : Store R) → IsLinked s → IsLinked (enter j s)
  IsLinked-enter j s l = record {
    unique = rw jobs-enter (IsUnique-set_job j s.jobs l.unique);
    finished = λ i e h done q.
        let h' : Has i (set_job j s.jobs) = rw jobs-enter at h in
        elim (Bool-cases (str_eq j.id i.id)) [
          | inl t ↦
              let p : i ≡ j =
                job_of_id (set_job j s.jobs) i j (IsUnique-set_job j s.jobs l.unique) h'
                  (Has-set_job_self j s.jobs) (sym ((eq_iff j.id i.id).0 t)) in
              entered_fired j s e (ap (λ (x : Job R). is_terminal x.status) (sym p) ∙ done)
                (ap (λ (x : Job R). find_event x.id (enter j s).settled) (sym p) ∙ q)
          | inr f ↦
              let m : Has i s.jobs = elim (set_job-Has j i s.jobs h') [
                | inl p ↦ absurd (ne_of_str_eq j.id i.id f (ap (λ (x : Job R). x.id) p))
                | inr m ↦ m
              ] in
              fired-enter j s e (l.finished i e m done (ground (arith, find_event-enter j i.id s)))
        ];
    tracked = λ i h. elim (Bool-cases (str_eq j.id i.id)) [
      | inl t ↦ ((entering j s).1, find_event-enter j i.id s ∙ rw t refl)
      | inr f ↦
          let m : Has i s.jobs = elim (set_job-Has j i s.jobs (rw jobs-enter at h)) [
            | inl p ↦ absurd (ne_of_str_eq j.id i.id f (ap (λ (x : Job R). x.id) p))
            | inr m ↦ m
          ] in
          let (e, q) = l.tracked i m in (e, find_event-enter j i.id s ∙ rw f q)
    ];
    keyed = λ k e q. elim (Bool-cases (str_eq j.id k)) [
      | inl t ↦ (j, rw jobs-enter (Has-set_job_self j s.jobs), (eq_iff j.id k).0 t)
      | inr f ↦
          let (i, m, p) = l.keyed k e (ground (arith, find_event-enter j k s)) in
          (i, rw jobs-enter (Has-set_job j i s.jobs m (λ r. ne_of_str_eq j.id k f (sym r ∙ p))), p)
    ];
  }

  IsLinked-discard_all : (ks : List String) (s : Store R) → IsLinked s → IsLinked (discard_all ks s)
  unfolding discard_all
  IsLinked-discard_all [] s l = l
  IsLinked-discard_all (k ∷ ks) s l = IsLinked-discard_all ks (discard k s) (IsLinked-discard k s l)

  Watches-discard_all :
      (ks : List String) (k : String) (e : ℕ) (s : Store R)
      → Watches k e s
      → Watches k e (discard_all ks s)
  unfolding discard_all
  Watches-discard_all [] k e s w = w
  Watches-discard_all (i ∷ ks) k e s w =
      Watches-discard_all ks k e (discard i s) (Watches-discard i k e s w)

  IsLinked-evict_loop : (ts : List (Job R)) (s : Store R) → IsLinked s → IsLinked (evict_loop ts s)
  unfolding evict_loop
  IsLinked-evict_loop [] s l = l
  IsLinked-evict_loop (t ∷ ts) s l = elim (Bool-cases (leb (length s.jobs) s.max_jobs)) [
    | inl fits ↦ rw fits l
    | inr over ↦ rw over (IsLinked-evict_loop ts (discard t.id s) (IsLinked-discard t.id s l))
  ]

  Watches-evict_loop :
      (ts : List (Job R)) (k : String) (e : ℕ) (s : Store R)
      → Watches k e s
      → Watches k e (evict_loop ts s)
  unfolding evict_loop
  Watches-evict_loop [] k e s w = w
  Watches-evict_loop (t ∷ ts) k e s w = elim (Bool-cases (leb (length s.jobs) s.max_jobs)) [
    | inl fits ↦ rw fits w
    | inr over ↦ rw over (Watches-evict_loop ts k e (discard t.id s) (Watches-discard t.id k e s w))
  ]

  pub IsLinked-purge : (now : ℕ) (s : Store R) → IsLinked s → IsLinked (purge now s)
  unfolding purge
  IsLinked-purge now s l = IsLinked-discard_all _ s l

  pub IsLinked-put : (now : ℕ) (j : Job R) (s : Store R) → IsLinked s → IsLinked (put now j s)
  unfolding put evict
  IsLinked-put now j s l =
      IsLinked-evict_loop _ _ (IsLinked-enter j (purge now s) (IsLinked-purge now s l))

  pub Watches-purge :
      (now : ℕ) (k : String) (e : ℕ) (s : Store R) → Watches k e s → Watches k e (purge now s)
  unfolding purge
  Watches-purge now k e s w = Watches-discard_all _ k e s w

  pub Watches-put :
      (now : ℕ) (j : Job R) (k : String) (e : ℕ) (s : Store R)
      → Watches k e s
      → Watches k e (put now j s)
  unfolding put evict
  Watches-put now j k e s w =
      Watches-evict_loop _ k e _ (Watches-enter j k e (purge now s) (Watches-purge now k e s w))

  pub IsLinked-init : (retention max_jobs : ℕ) → IsLinked (init {R = R} retention max_jobs)
  unfolding init find_event
  IsLinked-init retention max_jobs = record {
    unique = tt;
    finished = λ j e h. elim h [ ];
    tracked = λ j h. elim h [ ];
    keyed = λ k e q. cc;
  }

  event_for_present :
      (k : String) (s : Store R) (e : ℕ) → find_event k s.settled ≡ some e → event_for k s ≡ (s, e)
  unfolding event_for
  event_for_present k s e q = ground arith

  -- The event of a job that is held is there already.
  pub event_for_held :
      (k : String) (s : Store R) (j : Job R)
      → IsLinked s
      → Has j s.jobs
      → j.id ≡ k
      → (e : ℕ) × (event_for k s ≡ (s, e)) × (find_event k s.settled ≡ some e)
  event_for_held k s j l m p =
      let (e, q) = l.tracked j m in
      let q' : find_event k s.settled ≡ some e = ap (λ x. find_event x s.settled) (sym p) ∙ q in
      (e, event_for_present k s e q', q')

  -- No event stands under the id of a job that is not held.
  pub release_missing :
      (k : String) (s : Store R) → IsLinked s → find_job k s.jobs ≡ none → release k s ≡ s
  release_missing k s l n = elim (Option-cases (find_event k s.settled)) [
    | inl e ↦ release-none k s e
    | inr (e, q) ↦
        let (j, m, p) = l.keyed k e q in
        let found : find_job k s.jobs ≡ some j =
          ap (λ x. find_job x s.jobs) (sym p) ∙ Has-find_job s.jobs j l.unique m in
        absurd (cc)
  ]
