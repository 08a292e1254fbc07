-- ===== src/Jobs/Runner/Slots.antt =====
-- The tasks of a `JobRunner` by id, and the semaphore's slots that they hold.
use web_search_api.Prelude.{
  ℕ, ◌+◌, String, ◌≡◌, ◌≢◌, refl, sym, ap, ◌∙◌, Bool, not, List, [], ◌∷◌, ◌++◌, map, filter, arith,
  All, All-Has, All-filter, Has, Bool-cases, inl, inr, str_eq, eq_iff, str_eq_of_ne, eq_refl,
}
use web_search_api.Jobs.Runner.{Task, Phase, waiting, working, ended, move_task}

abbrev pub slot : Phase → ℕ
slot waiting = 0
slot working = 1
slot ended = 0

module _ {R : Type 0} where
  -- The tasks inside the semaphore.
  unfoldable pub busy : List (Task R) → ℕ
  busy [] = 0
  busy (t ∷ ts) = slot t.phase + busy ts

  -- `self._tasks` is a dictionary.
  abbrev pub IsDistinct : List (Task R) → Type 0
  IsDistinct [] = Unit
  IsDistinct (t ∷ ts) = All (λ u. u.job.id ≢ t.job.id) ts × IsDistinct ts

  pub task_of_id :
      (ts : List (Task R)) (t u : Task R)
      → IsDistinct ts
      → Has t ts
      → Has u ts
      → t.job.id ≡ u.job.id
      → t ≡ u
  task_of_id [] t u d ht hu e = elim ht [ ]
  task_of_id (v ∷ ts) t u d (inl p) (inl q) e = sym p ∙ q
  task_of_id (v ∷ ts) t u d (inl p) (inr m) e =
      absurd (All-Has _ ts d.0 m (sym e ∙ ap (λ (x : Task R). x.job.id) (sym p)))
  task_of_id (v ∷ ts) t u d (inr m) (inl q) e =
      absurd (All-Has _ ts d.0 m (e ∙ ap (λ (x : Task R). x.job.id) (sym q)))
  task_of_id (v ∷ ts) t u d (inr m) (inr n) e = task_of_id ts t u d.1 m n e

  abbrev pub KeepsId : (Task R → Task R) → Type 0
  KeepsId f = (t : Task R) → (f t).job.id ≡ t.job.id

  All-ids :
      (f : Task R → Task R) (k : String) (ts : List (Task R))
      → KeepsId f
      → All (λ u. u.job.id ≢ k) ts
      → All (λ u. u.job.id ≢ k) (map f ts)
  All-ids f k [] keeps a = tt
  All-ids f k (t ∷ ts) keeps a = (λ e. a.0 (sym (keeps t) ∙ e), All-ids f k ts keeps a.1)

  pub IsDistinct-map :
      (f : Task R → Task R) (ts : List (Task R)) → KeepsId f → IsDistinct ts → IsDistinct (map f ts)
  IsDistinct-map f [] keeps d = tt
  IsDistinct-map f (t ∷ ts) keeps d =
      (rw (keeps t) (All-ids f t.job.id ts keeps d.0), IsDistinct-map f ts keeps d.1)

  pub IsDistinct-filter :
      (p : Task R → Bool) (ts : List (Task R)) → IsDistinct ts → IsDistinct (filter p ts)
  IsDistinct-filter p [] d = tt
  IsDistinct-filter p (t ∷ ts) d = elim (Bool-cases (p t)) [
    | inl e ↦ rw e (All-filter _ p ts d.0, IsDistinct-filter p ts d.1)
    | inr e ↦ rw e (IsDistinct-filter p ts d.1)
  ]

  pub IsDistinct-add :
      (t : Task R) (ts : List (Task R))
      → All (λ u. u.job.id ≢ t.job.id) ts
      → IsDistinct ts
      → IsDistinct (ts ++ t ∷ [])
  IsDistinct-add t [] fresh d = (tt, tt)
  IsDistinct-add t (u ∷ ts) fresh d =
      (add ts d.0 (λ e. fresh.0 (sym e)), IsDistinct-add t ts fresh.1 d.1)
    where
      add :
          (us : List (Task R))
          → All (λ v. v.job.id ≢ u.job.id) us
          → t.job.id ≢ u.job.id
          → All (λ v. v.job.id ≢ u.job.id) (us ++ t ∷ [])
      add [] a n = (n, tt)
      add (v ∷ us) a n = (a.0, add us a.1 n)

  pub busy-map :
      (f : Task R → Task R) (ts : List (Task R))
      → ((t : Task R) → (f t).phase ≡ t.phase)
      → busy (map f ts) ≡ busy ts
  unfolding busy
  busy-map f [] keeps = refl
  busy-map f (t ∷ ts) keeps = rw (keeps t, busy-map f ts keeps)

  pub busy-append : (ts us : List (Task R)) → busy (ts ++ us) ≡ busy ts + busy us
  unfolding busy
  busy-append [] us = omega arith
  busy-append (t ∷ ts) us = omega (arith, busy-append ts us)

  busy-others :
      (k : String) (p : Phase) (ts : List (Task R))
      → All (λ u. u.job.id ≢ k) ts
      → busy (map (move_task k p) ts) ≡ busy ts
  unfolding busy move_task
  busy-others k p [] a = refl
  busy-others k p (t ∷ ts) a = rw (str_eq_of_ne t.job.id k a.0, busy-others k p ts a.1)

  -- One task's move changes the slots in use by its own.
  busy-move :
      (t : Task R) (p : Phase) (ts : List (Task R))
      → IsDistinct ts
      → Has t ts
      → busy (map (move_task t.job.id p) ts) + slot t.phase ≡ busy ts + slot p
  unfolding busy move_task
  busy-move t p [] d h = elim h [ ]
  busy-move t p (u ∷ ts) d (inl q) =
      rw (q, eq_refl) (let rest = busy-others t.job.id p ts (rw (← q) d.0) in omega (arith, rest))
  busy-move t p (u ∷ ts) d (inr m) =
      rw (str_eq_of_ne u.job.id t.job.id (λ e. All-Has _ ts d.0 m (sym e)))
        (omega (arith, busy-move t p ts d.1 m))

  pub busy-move_at :
      (t : Task R) (k : String) (p : Phase) (ts : List (Task R))
      → IsDistinct ts
      → Has t ts
      → t.job.id ≡ k
      → busy (map (move_task k p) ts) + slot t.phase ≡ busy ts + slot p
  busy-move_at t k p ts d h e = rw (← e) (busy-move t p ts d h)

  -- Tasks that have ended hold no slot.
  pub busy-reap :
      (k : String) (ts : List (Task R))
      → ((u : Task R) → Has u ts → u.job.id ≡ k → u.phase ≡ ended)
      → busy (filter (λ u. not (str_eq u.job.id k)) ts) ≡ busy ts
  unfolding busy
  busy-reap k [] over = refl
  busy-reap k (u ∷ ts) over =
      let rest = busy-reap k ts (λ v m. over v (inr m)) in
      elim (Bool-cases (str_eq u.job.id k)) [
        | inl t ↦ rw (t, over u (inl refl) ((eq_iff u.job.id k).0 t)) (omega (arith, rest))
        | inr f ↦ rw f (omega (arith, rest))
      ]
