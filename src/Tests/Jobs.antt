-- ===== src/Tests/Jobs.antt =====
-- A store that holds one job at most, and a long poll on a running job.
use web_search_api.Prelude.{
  ℕ, ◌≤◌, String, ◌≡◌, refl, sym, ap, ◌⊎◌, inl, inr, ◌↔◌, false, none, some, List, [], ◌∷◌, length,
  Has, eq_iff, false≢true,
}
use web_search_api.Jobs.Base.{Job, running, succeeded, create, is_terminal}
use web_search_api.Jobs.Store.{
  Store, init, put, get, list, start_wait, wait_on, evict, expired, purge, discard_all, discard,
  release, find_job, set_job, drop_job, find_event, drop_event, event_for, enter, fire, evict_loop,
  sort_oldest, insert_oldest, sort_newest, insert_newest, retention_of,
}
use web_search_api.Jobs.Store.Capacity.{Has-put, put_cap, evict_oldest}
use web_search_api.Jobs.Store.Reads.{get_exact, list-IsNewest, IsNewest, IsListable}
use web_search_api.Jobs.Store.Links.{IsLinked}
use web_search_api.Jobs.Store.Waiting.{
  Call, put_call, apply, apply_all, IsLinked-apply_all, start_wait_wakes,
}

program : Unit {0}
unfolding create put get list start_wait evict expired purge discard_all discard release find_job
    set_job drop_job find_event drop_event event_for enter fire evict_loop sort_oldest insert_oldest
    sort_newest insert_newest retention_of init apply apply_all
program = tt

abbrev base : Job ℕ
base = record {
  id = "a";
  kind = "scrape";
  status = running;
  created_at = 5;
  started_at = some 6;
  finished_at = none;
  result = none;
  error = none;
  retention_seconds = none;
}

abbrev done : Job ℕ
done = record base { status = succeeded; finished_at = some 9; result = some 1 }

abbrev older : Job ℕ
older = record done { id = "b"; created_at = 3; finished_at = some 4 }

abbrev newer : Job ℕ
newer = record done { id = "c"; created_at = 8; finished_at = some 9 }

abbrev calls : List (Call ℕ)
calls = put_call 6 base ∷ []

abbrev store : Store ℕ
store = record {
  retention = 100;
  max_jobs = 1;
  jobs = base ∷ [];
  settled = ("a", 0) ∷ [];
  fired = [];
  next_event = 1;
}

abbrev crowded : Store ℕ
crowded = record {
  retention = 100;
  max_jobs = 1;
  jobs = newer ∷ older ∷ [];
  settled = [];
  fired = [];
  next_event = 0;
}

b-ne-a : (◌≡◌ {A = String} "b" "a") → ⊥
b-ne-a p = false≢true ((eq_iff "b" "a").1 p)

b-ne-c : (◌≡◌ {A = String} "b" "c") → ⊥
b-ne-c p = false≢true ((eq_iff "b" "c").1 p)

a-ne-b : (◌≡◌ {A = String} "a" "b") → ⊥
a-ne-b p = false≢true ((eq_iff "a" "b").1 p)

store_runs : apply_all calls (init 100 1) ≡ store
unfolding program
store_runs = refl

-- a finished job makes room for a running one
evict_runs : (evict crowded).jobs ≡ newer ∷ []
unfolding program
evict_runs = refl

poll_runs : start_wait 7 "a" store ≡ (store, wait_on 0)
unfolding program
poll_runs = refl

Has-put_example : Has base (put 10 older store).jobs
Has-put_example = Has-put 10 older base store (tt, tt) (inl refl) refl a-ne-b

put_cap_example :
    (length (put 10 older store).jobs ≤ 1)
    ⊎ ((i : Job ℕ) → Has i (put 10 older store).jobs → is_terminal i.status ≡ false)
put_cap_example = put_cap 10 older store

evict_oldest_example : older.created_at ≤ newer.created_at
unfolding program
evict_oldest_example =
    evict_oldest crowded older newer ((b-ne-c, tt), (tt, tt)) (inr (inl refl))
      (λ h. elim h [ inl q ↦ b-ne-c (ap (λ (x : Job ℕ). x.id) (sym q)) | inr m ↦ elim m [ ] ])
      (inl refl) refl

IsLinked-apply_all_example : IsLinked (apply_all calls (init 100 1))
IsLinked-apply_all_example = IsLinked-apply_all calls 100 1

get_exact_example :
    ((get 7 "a" store).1 ≡ some base)
    ↔ (Has base store.jobs × (base.id ≡ "a") × (expired 7 store base ≡ false))
get_exact_example = get_exact 7 "a" store base (tt, tt)

list-IsNewest_example :
    (length (list 7 (some running) 5 store).1 ≤ 5)
    × IsNewest (list 7 (some running) 5 store).1
    × ((j : Job ℕ) → Has j (list 7 (some running) 5 store).1 → IsListable 7 (some running) store j)
    × ((a b : Job ℕ)
        → IsListable 7 (some running) store a
        → (Has a (list 7 (some running) 5 store).1 → ⊥)
        → (length (list 7 (some running) 5 store).1 ≡ 5)
          × (Has b (list 7 (some running) 5 store).1 → a.created_at ≤ b.created_at))
list-IsNewest_example = list-IsNewest 7 (some running) 5 store (tt, tt)

linked : IsLinked store
linked = rw (← store_runs) (IsLinked-apply_all calls 100 1)

start_wait_wakes_example : Has 0 (apply_all (put_call 9 done ∷ []) (start_wait 7 "a" store).0).fired
unfolding program
start_wait_wakes_example =
    start_wait_wakes 7 "a" 0 store (put_call 9 done ∷ []) linked refl
      (λ (j, q, n). let e : some done ≡ some j = q in cc)
