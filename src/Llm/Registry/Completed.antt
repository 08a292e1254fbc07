-- ===== src/Llm/Registry/Completed.antt =====
-- Which providers a completion contacts after any calls of `catalog`, and who answers it.
use web_search_api.Prelude.{
  String, ◌≡◌, refl, sym, ap, ◌∙◌, false, Option, List, [], ◌∷◌, ◌++◌, All, Has, All-append,
  All-Has, ◌⊎◌, inl, inr,
}
use web_search_api.Core.Errors.{DomainError}
use web_search_api.Core.Result.{Result, ok, err, Result-cases}
use web_search_api.Fetch.UrlSafety.{is_member}
use web_search_api.Keyring.Caller.{Caller}
use web_search_api.Keyring.Client.{ResolvedAuth}
use web_search_api.Llm.Capabilities.{Intent}
use web_search_api.Llm.Chat.{ChatResponse}
use web_search_api.Llm.Models.{ModelInfo}
use web_search_api.Llm.Registry.{
  Provider, ModelCatalog, Caches, ModelRegistry, Clock, RegistryTools, Contact, listed, chatted,
}
use web_search_api.Llm.Registry.Catalog.{Call, catalog, key_of, disabled_cache_token}
use web_search_api.Llm.Registry.Completion.{
  auth_for, send_picked, pick, requested_id, resolve, complete,
}
use web_search_api.Llm.Registry.Chosen.{IsChosen, pick_of-IsChosen}
use web_search_api.Llm.Registry.Isolation.{
  Visit, visit, visit_returns, caches_after, IsProbedFor, catalog_isolates,
}
use web_search_api.Llm.Registry.Listed.{probe_all-Has}
use web_search_api.Llm.Registry.Contacts.{
  IsAllowed, IsHonest, key_of-token, All-if, probe_contacts-IsAllowed, IsSent, send_to_cases,
  visit-All,
}

module _ (tools : RegistryTools) where
  -- One `complete` after calls of `catalog`, the latest first.
  module _ (r : ModelRegistry) (clock : Clock) (request : Intent) (model_id : Option String)
      (caller : Option Caller) (auth : Option ResolvedAuth) (disabled : List String)
      (chosen_default : Option String) where
    -- The call of `catalog` that it makes.
    abbrev pub own_visit : Visit tools
    own_visit = record {
      registry = r;
      clock = clock;
      refresh = false;
      caller = caller;
      disabled = disabled;
    }

    -- A filter with the token of this one has the same names.
    abbrev pub IsTold : List (Visit tools) → Type 0
    IsTold vs =
        (u : Visit tools)
        → Has u vs
        → disabled_cache_token tools u.disabled ≡ disabled_cache_token tools disabled
        → (name : String) → is_member name u.disabled ≡ is_member name disabled

    visit-IsAllowed : (cs : Caches) → All (IsAllowed disabled) (visit tools own_visit cs).1
    unfolding catalog
    visit-IsAllowed cs =
        All-if (IsAllowed disabled) _ _ (probe_contacts-IsAllowed tools r caller disabled)

    abbrev pub completed : Caches → Call (Result ChatResponse)
    completed cs = complete tools r clock request model_id caller auth disabled chosen_default cs

    -- What is sent of the model that is picked from a catalogue.
    abbrev sent_of : ModelCatalog → List Contact × Result ChatResponse
    sent_of c = send_picked tools r request caller auth (pick r model_id chosen_default caller c)

    completed_caught :
        (cs : Caches) (c : ModelCatalog)
        → (visit tools own_visit cs).2 ≡ ok c
        → ((completed cs).1 ≡ (visit tools own_visit cs).1 ++ (sent_of c).0)
          × ((completed cs).2 ≡ (sent_of c).1)
    unfolding complete resolve
    completed_caught cs c h = rw h (refl, refl)

    sent_of_cases :
        (c : ModelCatalog)
        → ((e : DomainError) × (sent_of c ≡ ([], err e)))
          ⊎ ((m : ModelInfo) × IsChosen model_id (requested_id r model_id chosen_default) c.models m
              × IsSent tools r request caller auth m (sent_of c))
    sent_of_cases c = elim (Result-cases (pick r model_id chosen_default caller c)) [
      | inl (e, q) ↦ inl (e, rw q refl)
      | inr (m, q) ↦ rw q (elim (send_to_cases tools r request caller auth m) [
        | inl h ↦ inl h
        | inr h ↦ inr (
          m,
          pick_of-IsChosen r model_id (requested_id r model_id chosen_default) caller c.models m q,
          h,
        )
      ])
    ]

    -- The chosen model is of a provider that the filter does not name, where it was offered.
    chosen_allowed :
        (vs : List (Visit tools)) (c : ModelCatalog) (m : ModelInfo)
        → All (λ u. IsHonest u.registry) (own_visit ∷ vs)
        → IsTold (own_visit ∷ vs)
        → IsProbedFor tools (own_visit ∷ vs) (key_of tools caller disabled) c
        → Has m c.models
        → is_member m.provider disabled ≡ false
    chosen_allowed vs c m honest told (u, h, k, e) n =
        let (p, l, f, (ready, a, q, ms, o, i)) =
          (probe_all-Has tools u.registry u.caller u.disabled m).0 (rw e n) in
        let name : m.provider ≡ p.name =
          All-Has (λ x. x.provider ≡ p.name) ms
            (All-Has (λ v. IsHonest v.registry) (own_visit ∷ vs) honest h p a ms l o) i in
        let token : disabled_cache_token tools u.disabled ≡ disabled_cache_token tools disabled =
          sym (key_of-token tools u.caller u.disabled)
          ∙ ap (λ x. x.2) k
          ∙ key_of-token tools caller disabled in
        rw (name, ← told u h token p.name) f

    -- After any calls of `catalog`, a completion contacts no provider that its filter names: it neither
    -- asks one for its models nor sends it the request. The providers offer models under their own
    -- names in all the calls, and a filter of an earlier call with the same token has the same names.
    pub complete-IsAllowed :
        (vs : List (Visit tools))
        → All (λ u. IsHonest u.registry) (own_visit ∷ vs)
        → IsTold (own_visit ∷ vs)
        → All (IsAllowed disabled) (completed (caches_after tools vs)).1
    complete-IsAllowed vs honest told =
        let cs = caches_after tools vs in
        let (c, q, from) = catalog_isolates tools vs own_visit in
        rw ((completed_caught cs c q).0) (
          All-append (IsAllowed disabled) (visit tools own_visit cs).1 (sent_of c).0
            (visit-IsAllowed cs)
            (elim (sent_of_cases c) [
              | inl (e, s) ↦ rw s tt
              | inr (m, (n, _), (p, a, h, name, _, s)) ↦
                  rw s (rw name (chosen_allowed vs c m honest told from n), tt)
            ]))

    -- After any calls of `catalog`, a completion that returns has sent one request, after all its other
    -- contacts: with the model that was chosen from a catalogue that was probed for the caller's key, to
    -- the registered provider of that model, under the model's name there and otherwise as it came, with
    -- the given credential or the caller's. It returns that provider's answer.
    pub complete_answers :
        (vs : List (Visit tools)) (answer : ChatResponse)
        → (completed (caches_after tools vs)).2 ≡ ok answer
        → (c : ModelCatalog) × IsProbedFor tools (own_visit ∷ vs) (key_of tools caller disabled) c
          × (m : ModelInfo) × IsChosen model_id (requested_id r model_id chosen_default) c.models m
          × (p : Provider) × (a : ResolvedAuth) × Has p r.providers
          × (p.name ≡ m.provider)
          × (auth_for tools r auth caller m p ≡ ok a)
          × (p.chat (record request { model = m.model }) a ≡ ok answer)
          × ((completed (caches_after tools vs)).1
              ≡ (visit tools own_visit (caches_after tools vs)).1
                ++ (chatted p.name (record request { model = m.model }) a ∷ []))
    complete_answers vs answer h =
        let cs = caches_after tools vs in
        let (c, q, from) = catalog_isolates tools vs own_visit in
        let (sent, got) = completed_caught cs c q in
        elim (sent_of_cases c) [
          | inl (e, s) ↦
              absurd (let k : err e ≡ ok answer = sym (ap (λ x. x.1) s) ∙ sym got ∙ h in cc)
          | inr (m, chosen, (p, a, l, name, n, s)) ↦ (
            c,
            from,
            m,
            chosen,
            p,
            a,
            l,
            name,
            n,
            sym (ap (λ x. x.1) s) ∙ sym got ∙ h,
            rw sent (rw s refl),
          )
        ]

    -- The contacts of a completion have what the requests for models have, and what a request to a
    -- model has that is the caller's own but for its model.
    pub complete-All :
        (P : Contact → Type 0)
        → ((name : String) → P (listed name))
        → ((name model : String) (a : ResolvedAuth)
            → P (chatted name (record request { model = model }) a))
        → (cs : Caches) → All P (completed cs).1
    complete-All P asks chats cs =
        let (c, q) = visit_returns tools own_visit cs in
        rw ((completed_caught cs c q).0) (
          All-append P (visit tools own_visit cs).1 (sent_of c).0
            (visit-All tools P asks own_visit cs)
            (elim (sent_of_cases c) [
              | inl (e, s) ↦ rw s tt
              | inr (m, _, (p, a, _, _, _, s)) ↦ rw s (chats p.name m.model a, tt)
            ]))
