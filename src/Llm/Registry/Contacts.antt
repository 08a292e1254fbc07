-- ===== src/Llm/Registry/Contacts.antt =====
-- Which providers a completion contacts, and who answers it.
use web_search_api.Prelude.{
  String, ◌≡◌, refl, sym, ap, ◌∙◌, Bool, true, false, Option, none, some, List, [], ◌∷◌, filter,
  str_eq, if◌then◌else◌, All, Has, All-each, map-Has, ◌⊎◌, inl, inr, arith, eq_iff, Bool-cases,
  Option-cases, filter-Has,
}
use web_search_api.Core.Errors.{DomainError}
use web_search_api.Core.Result.{Result, ok, err, Result-cases}
use web_search_api.Fetch.UrlSafety.{is_member}
use web_search_api.Keyring.Caller.{Caller}
use web_search_api.Keyring.Client.{ResolvedAuth}
use web_search_api.Llm.Capabilities.{Intent}
use web_search_api.Llm.Chat.{ChatResponse}
use web_search_api.Llm.Models.{ModelInfo}
use web_search_api.Llm.Registry.{
  offered, Provider, Caches, ModelRegistry, RegistryTools, Contact, listed, chatted, find_provider,
}
use web_search_api.Llm.Registry.Probing.{Probe, gathered, probe_one, probe_contacts, allowed}
use web_search_api.Llm.Registry.Named.{probe_one-name}
use web_search_api.Llm.Registry.Catalog.{catalog, key_of, disabled_cache_token}
use web_search_api.Llm.Registry.Completion.{provider_for, auth_for, send_to}
use web_search_api.Llm.Registry.Isolation.{Visit, visit}
use web_search_api.Llm.Registry.Listed.{allowed-Has}

-- The provider of a contact is not named by a filter.
abbrev pub IsAllowed : List String → Contact → Type 0
IsAllowed disabled (listed name) = is_member name disabled ≡ false
IsAllowed disabled (chatted name i auth) = is_member name disabled ≡ false

-- The providers offer models under their own names.
abbrev pub IsHonest : ModelRegistry → Type 0
IsHonest r =
    (p : Provider) (auth : ResolvedAuth) (ms : List ModelInfo)
    → Has p r.providers
    → p.list_models auth ≡ offered ms
    → All (λ m. m.provider ≡ p.name) ms

find_provider-some :
    (name : String) (ps : List Provider) (p : Provider)
    → find_provider name ps ≡ some p
    → Has p ps × (p.name ≡ name)
unfolding find_provider
find_provider-some name [] p h = cc
find_provider-some name (q ∷ qs) p h = elim (Bool-cases (str_eq q.name name)) [
  | inl t ↦
      let e : q.name ≡ name = ground (arith, eq_iff q.name name) in
      let f : some q ≡ some p = rw t at h in let g : q ≡ p = cc in (inl g, rw (← g) e)
  | inr f ↦ let (k, e) = find_provider-some name qs p (rw f at h) in (inr k, e)
]

provider_for-ok :
    (r : ModelRegistry) (m : ModelInfo) (p : Provider)
    → provider_for r m ≡ ok p
    → Has p r.providers × (p.name ≡ m.provider)
unfolding provider_for
provider_for-ok r m p h =
    find_provider-some m.provider r.providers p
      (elim (Option-cases (find_provider m.provider r.providers)) [
        | inl n ↦ absurd (ground arith)
        | inr (q, e) ↦ ground arith
      ])

pub All-if :
    {A : Type 0} (P : A → Type 0) (b : Bool) (xs : List A) → All P xs → All P (if b then xs else [])
All-if P true xs h = h
All-if P false xs h = tt

module _ (tools : RegistryTools) where
  pub key_of-token :
      (caller : Option Caller) (disabled : List String)
      → (key_of tools caller disabled).2 ≡ disabled_cache_token tools disabled
  unfolding key_of
  key_of-token none disabled = refl
  key_of-token (some c) disabled = refl

  probe_contacts-All :
      (r : ModelRegistry) (caller : Option Caller) (disabled : List String) (P : Contact → Type 0)
      → ((name : String) → P (listed name))
      → All P (probe_contacts tools r caller disabled)
  unfolding probe_contacts
  probe_contacts-All r caller disabled P asks =
      All-each P (probe_contacts tools r caller disabled) (λ c h.
        let asked = filter (λ (q : Probe). q.asked) (gathered tools r caller disabled) in
        let (q, _, e) = map-Has (λ (q : Probe). listed q.health.name) c asked h in
        rw (← e) (asks q.health.name))

  pub visit-All :
      (P : Contact → Type 0)
      → ((name : String) → P (listed name))
      → (v : Visit tools) (cs : Caches) → All P (visit tools v cs).1
  unfolding catalog
  visit-All P asks v cs = All-if P _ _ (probe_contacts-All v.registry v.caller v.disabled P asks)

  pub probe_contacts-IsAllowed :
      (r : ModelRegistry) (caller : Option Caller) (disabled : List String)
      → All (IsAllowed disabled) (probe_contacts tools r caller disabled)
  unfolding probe_contacts
  probe_contacts-IsAllowed r caller disabled =
      All-each (IsAllowed disabled) (probe_contacts tools r caller disabled) (λ c h.
        let asked = filter (λ (q : Probe). q.asked) (gathered tools r caller disabled) in
        let (q, k, e) = map-Has (λ (q : Probe). listed q.health.name) c asked h in
        let (l, _) = filter-Has (λ (q : Probe). q.asked) q (gathered tools r caller disabled) k in
        let (p, m, g) = map-Has (probe_one tools r caller) q (allowed tools r disabled) l in
        let (_, f) = (allowed-Has tools r disabled p).0 m in
        let name : q.health.name ≡ p.name =
          ap (λ (x : Probe). x.health.name) (sym g) ∙ probe_one-name tools r caller p in
        rw (← e, name) f)

  module _ (r : ModelRegistry) (request : Intent) (caller : Option Caller)
      (auth : Option ResolvedAuth) (m : ModelInfo) where
    send_to_unregistered :
        (e : DomainError)
        → provider_for r m ≡ err e
        → send_to tools r request caller auth m ≡ ([], err e)
    unfolding send_to
    send_to_unregistered e q = rw (send_to, q) refl

    send_to_refused :
        (p : Provider) (e : DomainError)
        → provider_for r m ≡ ok p
        → auth_for tools r auth caller m p ≡ err e
        → send_to tools r request caller auth m ≡ ([], err e)
    unfolding send_to
    send_to_refused p e q n = rw (send_to, q, n) refl

    send_to_sent :
        (p : Provider) (a : ResolvedAuth)
        → provider_for r m ≡ ok p
        → auth_for tools r auth caller m p ≡ ok a
        → send_to tools r request caller auth m ≡ (
          chatted p.name (record request { model = m.model }) a ∷ [],
          p.chat (record request { model = m.model }) a,
        )
    unfolding send_to
    send_to_sent p a q n = rw (send_to, q, n) refl

  -- A completion that is sent: to the provider of the model, under its name there, with the credential.
  abbrev pub IsSent :
      ModelRegistry
      → Intent
      → Option Caller
      → Option ResolvedAuth
      → ModelInfo
      → List Contact × Result ChatResponse
      → Type 0
  IsSent r request caller auth m sent =
      (p : Provider) × (a : ResolvedAuth) × Has p r.providers
      × (p.name ≡ m.provider)
      × (auth_for tools r auth caller m p ≡ ok a)
      × (sent ≡ (
        chatted p.name (record request { model = m.model }) a ∷ [],
        p.chat (record request { model = m.model }) a,
      ))

  pub send_to_cases :
      (r : ModelRegistry) (request : Intent) (caller : Option Caller) (auth : Option ResolvedAuth)
      (m : ModelInfo)
      → ((e : DomainError) × (send_to tools r request caller auth m ≡ ([], err e)))
        ⊎ IsSent r request caller auth m (send_to tools r request caller auth m)
  send_to_cases r request caller auth m = elim (Result-cases (provider_for r m)) [
    | inl (e, q) ↦ inl (e, send_to_unregistered r request caller auth m e q)
    | inr (p, q) ↦ elim (Result-cases (auth_for tools r auth caller m p)) [
      | inl (e, n) ↦ inl (e, send_to_refused r request caller auth m p e q n)
      | inr (a, n) ↦
          let (h, same) = provider_for-ok r m p q in
          inr (p, a, h, same, n, send_to_sent r request caller auth m p a q n)
    ]
  ]
