-- ===== src/Text/Truncate.antt =====
-- app/services/text/truncate.py, over the code points of a text. A limit below 0 acts like 0. The
-- float product `int(limit * (1 - 0.2))` is `limit * 4 / 5`, as it is for every limit below 2^50.
-- `str.rstrip` is over the test `is_space` of Python's library.
pub mod Bounds
use web_search_api.Prelude.{
  ℕ, zero, suc, ◌+◌, ◌-◌, ◌*◌, ◌/◌, ◌≤◌, ◌<◌, min, max, ◌≡◌, refl, sym, ap, ◌∙◌, Bool, true, false,
  ◌&&◌, Option, none, some, List, [], ◌∷◌, ◌++◌, length, take, leb, ltb, ◌==◌, if◌then◌else◌, arith,
  ◌⊎◌, inl, inr, leb→le, leb→lt, Bool-cases, Option-cases, length-take-le, All, length-append,
}

pub record Truncation : Type 0 where
  pub text : List ℕ
  pub truncated : Bool
  pub original_chars : ℕ

pub chars_submitted : Truncation → ℕ
chars_submitted t = length t.text

-- What a character in front does to the position found behind it.
unfoldable pub rfind_step : ℕ → ℕ → Option ℕ → Option ℕ
rfind_step c x (some i) = some (suc i)
rfind_step c x none = if x == c then some 0 else none

-- `text.rfind(c)`, `none` for -1.
unfoldable pub rfind : ℕ → List ℕ → Option ℕ
rfind c [] = none
rfind c (x ∷ xs) = rfind_step c x (rfind c xs)

-- `max` of two results of `rfind`.
unfoldable pub later : Option ℕ → Option ℕ → Option ℕ
later none b = b
later (some a) none = some a
later (some a) (some b) = some (max a b)

abbrev pub minimum_keep : ℕ → ℕ
minimum_keep limit = limit * 4 / 5

-- `window[:boundary] if boundary >= minimum_keep else window`
unfoldable pub cut_at : ℕ → List ℕ → List ℕ
cut_at limit window = elim (later (rfind b' ' window) (rfind 10 window)) [
  | none ↦ window
  | some boundary ↦ if leb (minimum_keep limit) boundary then take boundary window else window
]

module _ (is_space : ℕ → Bool) where
  -- A character in front of what is left of the rest.
  unfoldable pub keep_char : ℕ → List ℕ → List ℕ
  keep_char c [] = if is_space c then [] else c ∷ []
  keep_char c (d ∷ ds) = c ∷ d ∷ ds

  unfoldable pub rstrip : List ℕ → List ℕ
  rstrip [] = []
  rstrip (c ∷ cs) = keep_char c (rstrip cs)

  unfoldable pub truncate : List ℕ → ℕ → Truncation
  truncate text limit =
      if leb limit 0
      then record { text = []; truncated = true; original_chars = length text }
      else if leb (length text) limit
      then record { text = text; truncated = false; original_chars = length text }
      else record {
        text = rstrip (cut_at limit (take limit text));
        truncated = true;
        original_chars = length text;
      }

-- app/constants.py
abbrev pub chars_per_token : ℕ
chars_per_token = 4

abbrev pub reserved_output_tokens : ℕ
reserved_output_tokens = 4_000

abbrev pub prompt_overhead_tokens : ℕ
prompt_overhead_tokens = 1_500

-- The subtraction stops at 0, where the source returns 0.
unfoldable pub char_budget_for_context : Option ℕ → ℕ → ℕ
char_budget_for_context none hard_limit = hard_limit
char_budget_for_context (some window) hard_limit =
    let usable = window - reserved_output_tokens - prompt_overhead_tokens in
    if leb usable 0 then 0 else min hard_limit (usable * chars_per_token)
