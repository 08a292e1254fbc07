-- ===== src/Llm/Models.antt =====
-- app/services/llm/base.py: the types of models and providers; `split_model_id` of
-- app/services/llm/registry.py.
pub mod Ids
use Prim.Native.Char.{Char, code as code_point}
use Prim.Native.String
use text.Mathlib.TextLemmas.{cons-append, nil-append, cons≢nil}
use web_search_api.Prelude.{
  ℕ, String, ◌≡◌, ◌≢◌, refl, sym, ap, ◌∙◌, ◌↔◌, Bool, true, false, ◌||◌, Option, none, some, [],
  ◌∷◌, ◌==◌, if◌then◌else◌, str_eq, format, arith, Bool-cases, Option-cases, inl, inr, eq_iff,
}
use web_search_api.Core.Errors.{make_error, validation_problem}
use web_search_api.Core.Result.{Result, ok, err}

pub data ProviderStatus : Type 0 where
  available unauthorized unreachable not_configured : ProviderStatus

pub record ModelInfo : Type 0 where
  pub id : String
  pub provider : String
  pub model : String
  pub display_name : Option String
  pub context_window : Option ℕ
  pub max_output_tokens : Option ℕ

-- `f"{provider}:{model}"`
unfoldable pub model_id_of : String → String → String
model_id_of provider model = String.◌++◌ provider (String.◌++◌ ":" model)

-- `ModelInfo.build`
unfoldable pub build : String → String → Option String → Option ℕ → Option ℕ → ModelInfo
build provider model display_name context_window max_output_tokens = record {
  id = model_id_of provider model;
  provider = provider;
  model = model;
  display_name = display_name;
  context_window = context_window;
  max_output_tokens = max_output_tokens;
}

pub record ProviderHealth : Type 0 where
  pub name : String
  pub status : ProviderStatus
  pub detail : String
  pub model_count : ℕ

abbrev pub is_available : ProviderHealth → Bool
is_available h = elim h.status [ available ↦ true | _ ↦ false ]

-- A character in front of what is partitioned behind it.
unfoldable pub partition_step : Char → Option (String × String) → Option (String × String)
partition_step c none = none
partition_step c (some (before, after)) = some (String.◌∷◌ c before, after)

-- `text.partition(":")`, `none` where there is no colon.
unfoldable pub partition : String → Option (String × String)
partition String.[] = none
partition (String.◌∷◌ c s) =
    if code_point c == b':' then some ("", s) else partition_step c (partition s)

unfoldable pub split_model_id : String → Result (String × String)
split_model_id id =
    let malformed =
      make_error validation_problem "Malformed model id"
        (some (format ("'" ∷ id ∷ "' must be namespaced as 'provider:model'." ∷ []))) none in
    elim (partition id) [
      | none ↦ err malformed
      | some (provider, model) ↦
          if str_eq provider "" || str_eq model "" then err malformed else ok (provider, model)
    ]
