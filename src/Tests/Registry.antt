-- ===== src/Tests/Registry.antt =====
-- The registry of models at a small deployment: one provider on this machine, one that needs a key.
use web_search_api.Prelude.{
  String, ◌≡◌, refl, true, false, none, some, List, [], ◌∷◌, All, Has, inl, inr, ◌++◌, ◌≢◌, ◌↔◌,
  length, ◌≤◌, arith, join, join,
}
use web_search_api.Core.Result.{ok}
use web_search_api.Core.Cache.{init, get, refresh, peek, invalidate}
use web_search_api.Fetch.UrlSafety.{is_member}
use web_search_api.Keyring.Caller.{Caller}
use web_search_api.Keyring.Client.{ResolvedAuth}
use web_search_api.Llm.Capabilities.{Intent}
use web_search_api.Llm.Chat.{ChatResponse}
use web_search_api.Llm.Models.{
  ModelInfo, build, model_id_of, split_model_id, partition, partition_step,
}
use web_search_api.Llm.Models.Ids.{LacksColon, split_model_id-build}
use web_search_api.Llm.Registry.{
  chatted, ModelCatalog, Provider, offered, ModelRegistry, Clock, RegistryTools,
}
use web_search_api.Llm.Registry.{find, find_provider, sort_by, insert_by, find_cache, put_cache}
use web_search_api.Llm.Registry.Probing.{
  with_keyring, credential_for, probe_one, probe_with, listing_probe, models_of, allowed, probe_all,
}
use web_search_api.Llm.Registry.Catalog.{
  cache_for, insert_name, sorted_set, disabled_cache_token, key_of, catalog,
}
use web_search_api.Llm.Registry.Completion.{
  needs_profile, text_or_else, requested_id, found_or_first, pick_of, provider_for, auth_for,
  send_to, resolve, complete,
}
use web_search_api.Llm.Registry.Isolation.{
  Visit, visit, caches_after, IsProbedFor, catalog_isolates,
}
use web_search_api.Llm.Registry.Bounds.{IsKeyed, caches_after-IsKept}
use web_search_api.Llm.Registry.Listed.{IsOffered, probe_all-Has}
use web_search_api.Llm.Registry.Chosen.{IsChosen, pick_of_listed}
use web_search_api.Llm.Registry.Contacts.{IsAllowed, IsHonest}
use web_search_api.Llm.Registry.Completed.{
  IsTold, completed, own_visit, complete-IsAllowed, complete_answers,
}

abbrev pub tools : RegistryTools
tools = record { digest = λ s. s; lower = λ s. s; str = λ n. "n"; from_iso = λ s. none }

abbrev llama : ModelInfo
llama = build "ollama" "llama3" none none none

abbrev gpt : ModelInfo
gpt = build "openai" "gpt" none none none

abbrev reply : ChatResponse
reply = record {
  text = "hello";
  model = "llama3";
  provider = "ollama";
  input_tokens = none;
  output_tokens = none;
  param_adjustments = [];
  finish_reason = none;
}

abbrev ollama : Provider
ollama = record {
  name = "ollama";
  requires_credential = false;
  has_endpoint = true;
  list_models = λ auth. offered (llama ∷ []);
  chat = λ i auth. ok reply;
}

abbrev openai : Provider
openai = record {
  name = "openai";
  requires_credential = true;
  has_endpoint = true;
  list_models = λ auth. offered (gpt ∷ []);
  chat = λ i auth. ok reply;
}

abbrev pub registry : ModelRegistry
registry = record {
  providers = ollama ∷ openai ∷ [];
  default_model = "openai:gpt";
  keyring = none;
  probe_timeout = "5.0";
  cache_ttl = 300;
  max_cached_callers = 1;
}

abbrev pub ada : Caller
ada = record { account_id = "ada"; profile = some "work"; user_token = "t" }

abbrev pub clock : Clock
clock = record { now = 10; looked_at = 10; done_at = 11 }

-- An earlier call, without a filter.
abbrev pub open_visit : Visit tools
open_visit = record {
  registry = registry;
  clock = record { now = 1; looked_at = 1; done_at = 2 };
  refresh = false;
  caller = some ada;
  disabled = [];
}

abbrev pub request : Intent
request = record {
  model = "";
  messages = [];
  system = none;
  max_output_tokens = 100;
  temperature = none;
  effort = none;
  json_mode = false;
}

abbrev filter_names : List String
filter_names = "openai" ∷ []

pub registry-IsHonest : IsHonest registry
unfolding build
registry-IsHonest p auth ms (inl q) h =
    let e : offered (llama ∷ []) ≡ offered ms = rw (← q) at h in
    let f : llama ∷ [] ≡ ms = cc in rw (← f, ← q) (refl, tt)
registry-IsHonest p auth ms (inr (inl q)) h =
    let e : offered (gpt ∷ []) ≡ offered ms = rw (← q) at h in
    let f : gpt ∷ [] ≡ ms = cc in rw (← f, ← q) (refl, tt)
registry-IsHonest p auth ms (inr (inr k)) h = elim k [ ]

told : IsTold tools registry clock request none (some ada) none filter_names none (
    own_visit tools registry clock request none (some ada) none filter_names none ∷ open_visit ∷ [])
unfolding disabled_cache_token sorted_set insert_name join
told u (inl q) e name = rw (← q) refl
told u (inr (inl q)) e name = absurd (let f : ◌≡◌ {A = String} "" "openai" = rw (← q) at e in cc)
told u (inr (inr k)) e name = elim k [ ]

complete-IsAllowed_example :
    All
      (IsAllowed filter_names)
      (completed tools registry clock request none
        (some ada)
        none
        filter_names
        none
        (caches_after tools (open_visit ∷ []))).1
complete-IsAllowed_example =
    complete-IsAllowed tools registry clock request none (some ada) none filter_names none
      (open_visit ∷ []) (registry-IsHonest, (registry-IsHonest, tt)) told

answered :
    (completed tools registry clock request
      (some "ollama:llama3")
      (some ada)
      none
      []
      none
      (caches_after tools (open_visit ∷ []))).2
    ≡ ok reply
unfolding build model_id_of needs_profile find_provider split_model_id partition partition_step find
    requested_id text_or_else key_of disabled_cache_token sorted_set complete resolve catalog get
    refresh peek init cache_for find_cache put_cache probe_all probe_one probe_with listing_probe
    models_of allowed credential_for sort_by insert_by found_or_first pick_of provider_for auth_for
    send_to invalidate is_member with_keyring
answered = refl

complete_answers_example :
    (c : ModelCatalog) × IsProbedFor tools
      (own_visit tools registry clock request (some "ollama:llama3") (some ada) none [] none
        ∷ open_visit
        ∷ [])
      ("ada", "work", "")
      c
    × (m : ModelInfo) × IsChosen (some "ollama:llama3") "ollama:llama3" c.models m
    × (p : Provider) × (a : ResolvedAuth) × Has p (ollama ∷ openai ∷ [])
    × (p.name ≡ m.provider)
    × (auth_for tools registry none (some ada) m p ≡ ok a)
    × (p.chat (record request { model = m.model }) a ≡ ok reply)
    × ((completed tools registry clock request
          (some "ollama:llama3")
          (some ada)
          none
          []
          none
          (caches_after tools (open_visit ∷ []))).1
        ≡ (visit tools
            (own_visit tools registry clock request (some "ollama:llama3") (some ada) none [] none)
            (caches_after tools (open_visit ∷ []))).1
          ++ (chatted p.name (record request { model = m.model }) a ∷ []))
unfolding requested_id text_or_else key_of disabled_cache_token sorted_set complete
complete_answers_example =
    complete_answers tools registry clock request (some "ollama:llama3") (some ada) none [] none
      (open_visit ∷ []) reply answered

catalog_isolates_example :
    (m : ModelCatalog) × ((visit tools open_visit (caches_after tools (open_visit ∷ []))).2 ≡ ok m)
    × IsProbedFor tools (open_visit ∷ open_visit ∷ []) (key_of tools (some ada) []) m
catalog_isolates_example = catalog_isolates tools (open_visit ∷ []) open_visit

caches_after-IsKept_example :
    IsKeyed (caches_after tools (open_visit ∷ open_visit ∷ []))
    × (length (caches_after tools (open_visit ∷ open_visit ∷ [])) ≤ 1)
caches_after-IsKept_example =
    caches_after-IsKept tools 1 (open_visit ∷ open_visit ∷ []) (omega arith) (refl, (refl, tt))

probe_all-Has_example : Has llama (probe_all tools registry (some ada) filter_names).models ↔ (
    (p : Provider) × Has p (ollama ∷ openai ∷ [])
    × (is_member p.name filter_names ≡ false)
    × IsOffered tools registry (some ada) llama p)
probe_all-Has_example = probe_all-Has tools registry (some ada) filter_names llama

pick_of_listed_example :
    (n : ModelInfo) × (pick_of registry
        (some "ollama:llama3")
        "ollama:llama3"
        (some ada)
        (gpt ∷ llama ∷ [])
      ≡ ok n)
    × Has n (gpt ∷ llama ∷ [])
    × (n.id ≡ "ollama:llama3")
unfolding build model_id_of needs_profile find_provider split_model_id partition partition_step
pick_of_listed_example =
    pick_of_listed registry (some "ollama:llama3") "ollama:llama3" (some ada) (gpt ∷ llama ∷ [])
      llama ("ollama", "llama3") (inr (inl refl)) refl refl refl

split_model_id-build_example : (split_model_id "ollama:llama3:8b" ≡ ok ("ollama", "llama3:8b")) ↔ (
    ("ollama:llama3:8b" ≡ (build "ollama" "llama3:8b" none none none).id)
    × LacksColon "ollama"
    × ◌≢◌ {A = String} "ollama" ""
    × ◌≢◌ {A = String} "llama3:8b" "")
split_model_id-build_example =
    split_model_id-build "ollama" "llama3:8b" "ollama:llama3:8b" none none none
