-- ===== src/Preferences/Ceilings.antt =====
-- What a person's choices may change of the configuration.
use web_search_api.Prelude.{
  ℕ, ◌≤◌, min, String, ◌≡◌, refl, sym, ◌∙◌, Option, none, some, List, [], ◌++◌, or_else, arith,
  Option-cases, inl, inr, ◌⊎◌,
}
use web_search_api.Core.Result.{ok}
use web_search_api.Preferences.{Preferences, require_disabled_providers}
use web_search_api.Preferences.Reading.{
  ResolvedSettings, reading-Every, some-Every, Every, whole_number, string_list, read_text,
  read_safe_search, read_summary_length,
}
use web_search_api.Preferences.Source.{
  Settings, Resolution, resolved, unavailable, rejected, SettingsClient, given, max_pages_per_query,
  deployment_preferences, outage_preferences, disabled_of, default_profile_of, capped, apply,
  conclude, resolve_again, for_token,
}

module _ (s : Settings) (strip lower : String → String) where
  -- The preferences stay under the ceilings.
  abbrev pub IsWithin : Preferences → Type 0
  IsWithin p =
      (p.max_content_chars ≤ s.max_content_chars) × (p.read_top_pages ≤ max_pages_per_query)

  -- What stands in the preferences of one person's settings.
  abbrev IsApplied : ResolvedSettings → Preferences → Type 0
  IsApplied r p =
      IsWithin p
      × (p.disabled_providers ≡ disabled_of s r)
      × (p.default_profile ≡ default_profile_of s r)

  capped_le : (n : ℕ) (o : Option ℕ) → capped s n o ≤ n
  capped_le n none = omega arith
  capped_le n (some m) = omega arith

  pages_le : (o : Option ℕ) → min (or_else o 0) max_pages_per_query ≤ max_pages_per_query
  pages_le o = omega arith

  apply-IsApplied : (r : ResolvedSettings) → Every (IsApplied r) (apply s strip lower r)
  unfolding apply
  apply-IsApplied r =
      let P = IsApplied r in
      reading-Every P (whole_number "job_retention_hours" 0 r) (λ hours _.
        reading-Every P (whole_number "max_content_chars" 1 r) (λ chars _.
          reading-Every P (read_text "default_model" r) (λ model _.
            reading-Every P (read_text "search_backend" r) (λ backend _.
              reading-Every P (read_safe_search r) (λ safe _.
                reading-Every P (whole_number "recency_days" 1 r) (λ recency _.
                  reading-Every P (read_text "language" r) (λ language _.
                    reading-Every P (read_text "region" r) (λ region _.
                      reading-Every P (string_list "blocked_domains" r) (λ blocked _.
                        reading-Every P (whole_number "read_top_pages" 0 r) (λ pages _.
                          reading-Every P (read_summary_length r) (λ summary _.
                            reading-Every P (read_text "research_notes" r) (λ notes _.
                              some-Every P _ (
                                (capped_le s.max_content_chars chars, pages_le pages),
                                refl,
                                refl,
                              )))))))))))))

  -- How the last `resolve` of a person's settings ends.
  abbrev pub final : SettingsClient → String → Option String → Resolution
  final client token requested =
      resolve_again s strip lower client token requested (client token requested)

  -- Where preferences that are given come from.
  abbrev HasOrigin : SettingsClient → Option String → Option String → Preferences → Type 0
  HasOrigin client none requested p = p ≡ deployment_preferences s
  HasOrigin client (some token) requested p =
      ((r : ResolvedSettings) × (final client token requested ≡ resolved r) × IsApplied r p)
      ⊎ (p ≡ outage_preferences s)

  conclude_origin :
      (q : Resolution) (p : Preferences)
      → conclude s strip lower q ≡ given p
      → ((r : ResolvedSettings) × (q ≡ resolved r) × IsApplied r p) ⊎ (p ≡ outage_preferences s)
  unfolding conclude
  conclude_origin (resolved r) p h = elim (Option-cases (apply s strip lower r)) [
    | inl n ↦ absurd (let e = rw n at h in cc)
    | inr (a, q) ↦
        let e : given a ≡ given p = rw q at h in
        let f : a ≡ p = cc in inl (r, refl, apply-IsApplied r p (rw (← f) q))
  ]
  conclude_origin unavailable p h = inr (let f : outage_preferences s ≡ p = cc in sym f)
  conclude_origin rejected p h = cc

  for_token_origin :
      (client : SettingsClient) (token requested : Option String) (p : Preferences)
      → for_token s strip lower client token requested ≡ given p
      → HasOrigin client token requested p
  unfolding for_token
  for_token_origin client none requested p h = let f : deployment_preferences s ≡ p = cc in sym f
  for_token_origin client (some token) requested p h =
      conclude_origin (final client token requested) p h

  IsWithin-deployment : IsWithin (deployment_preferences s)
  unfolding deployment_preferences
  IsWithin-deployment = (omega arith, omega arith)

  IsWithin-outage : IsWithin (outage_preferences s)
  unfolding outage_preferences deployment_preferences
  IsWithin-outage = (omega arith, omega arith)

  -- Whatever settings-api answers, preferences that are given have at most the configured number of
  -- characters and at most ten pages for a query.
  pub for_token-IsWithin :
      (client : SettingsClient) (token requested : Option String) (p : Preferences)
      → for_token s strip lower client token requested ≡ given p
      → IsWithin p
  for_token-IsWithin client none requested p h =
      rw (for_token_origin client none requested p h) IsWithin-deployment
  for_token-IsWithin client (some token) requested p h =
      elim (for_token_origin client (some token) requested p h) [
        | inl (r, q, (w, _, _)) ↦ w
        | inr e ↦ rw e IsWithin-outage
      ]

  require_disabled_providers-eq :
      (p : Preferences) (names : List String)
      → require_disabled_providers p ≡ ok names
      → p.disabled_providers ≡ some names
  unfolding require_disabled_providers
  require_disabled_providers-eq p names h = elim (Option-cases p.disabled_providers) [
    | inl n ↦ absurd (ground arith)
    | inr (ms, q) ↦ ground arith
  ]

  disabled_of-some :
      (r : ResolvedSettings) (names : List String)
      → disabled_of s r ≡ some names
      → (v : Option (List String)) × (string_list "disabled_providers" r ≡ some v)
        × (names ≡ or_else v [] ++ s.disabled_providers)
  unfolding disabled_of
  disabled_of-some r names h = elim (Option-cases (string_list "disabled_providers" r)) [
    | inl n ↦ absurd (let e : none ≡ some names = rw (disabled_of, n) at h in cc)
    | inr (v, q) ↦
        let e : some (or_else v [] ++ s.disabled_providers) ≡ some names =
          rw (disabled_of, q) at h in
        let f : or_else v [] ++ s.disabled_providers ≡ names = cc in (v, q, sym f)
  ]

  -- A list of disabled providers is never guessed: where the preferences of a person hand one out,
  -- settings-api answered the last time it was asked and did not withhold the list, and the list is the
  -- person's, or none where the answer holds no usable one, followed by the configuration's.
  pub for_token_disabled :
      (client : SettingsClient) (token : String) (requested : Option String) (p : Preferences)
      (names : List String)
      → for_token s strip lower client (some token) requested ≡ given p
      → require_disabled_providers p ≡ ok names
      → (r : ResolvedSettings) × (v : Option (List String)) × (final client token requested
          ≡ resolved r)
        × (string_list "disabled_providers" r ≡ some v)
        × (names ≡ or_else v [] ++ s.disabled_providers)
  unfolding outage_preferences
  for_token_disabled client token requested p names h k =
      let known = require_disabled_providers-eq p names k in
      elim (for_token_origin client (some token) requested p h) [
        | inl (r, q, (_, d, _)) ↦
            let (v, l, e) = disabled_of-some r names (sym d ∙ known) in (r, v, q, l, e)
        | inr e ↦ absurd (let n : none ≡ some names = rw e at known in cc)
      ]
