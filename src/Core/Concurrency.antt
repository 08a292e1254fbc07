-- ===== src/Core/Concurrency.antt =====
-- app/core/concurrency.py: `bounded_gather`. A factory is given by the value that it returns, and
-- one that raises, which ends the gathering, is left out; the
-- semaphore's permits are a number, and whichever task may go on may be the next.
pub mod Gathering
use web_search_api.Prelude.{ℕ, suc, Option, none, some, List, [], ◌∷◌, ◌++◌, map}

-- The task of one factory: before the semaphore, in it, and after.
pub data Slot (A : Type 0) : Type 0 where
  queued running done : A → Slot A

pub record Gather (A : Type 0) : Type 0 where
  pub slots : List (Slot A)
  pub free : ℕ

module _ {A : Type 0} where
  -- The tasks as `gather` makes them, behind `Semaphore(limit)`.
  unfoldable pub init : ℕ → List A → Gather A
  init limit factories = record { slots = map queued factories; free = limit }

  -- One task enters the semaphore, or returns and leaves it.
  pub data Step : Gather A → Gather A → Type 0 where
    acquire :
        (before after : List (Slot A)) (a : A) (n : ℕ)
        → Step
            (record { slots = before ++ (queued a ∷ after); free = suc n })
            (record { slots = before ++ (running a ∷ after); free = n })
    release :
        (before after : List (Slot A)) (a : A) (n : ℕ)
        → Step
            (record { slots = before ++ (running a ∷ after); free = n })
            (record { slots = before ++ (done a ∷ after); free = suc n })

  -- What happens in this many steps.
  pub data Runs : ℕ → Gather A → Gather A → Type 0 where
    start : (g : Gather A) → Runs 0 g g
    then : (k : ℕ) (g h i : Gather A) → Runs k g h → Step h i → Runs (suc k) g i

  -- The results, once every task has one.
  unfoldable pub results : List (Slot A) → Option (List A)
  results [] = some []
  results (queued a ∷ ss) = none
  results (running a ∷ ss) = none
  results (done a ∷ ss) = elim (results ss) [ none ↦ none | some as_ ↦ some (a ∷ as_) ]
