-- ===== src/Llm/Registry/Listed.antt =====
-- Which models a catalogue lists.
use web_search_api.Prelude.{
  String, ◌≡◌, refl, ◌↔◌, true, false, Option, List, [], ◌∷◌, map, if◌then◌else◌, text_le, Has,
  Has-map, map-Has, Has-filter, filter-Has, Has-append, append-Has, ◌⊎◌, inl, inr, arith,
  Bool-cases,
}
use web_search_api.Core.Errors.{DomainError}
use web_search_api.Fetch.UrlSafety.{is_member}
use web_search_api.Keyring.Caller.{Caller}
use web_search_api.Keyring.Client.{ResolvedAuth, Credential, connected, not_connected, refused}
use web_search_api.Llm.Models.{ModelInfo, is_available}
use web_search_api.Llm.Registry.{
  Listing, offered, raised, past_deadline, crashed, Provider, ModelRegistry, RegistryTools,
  insert_by, sort_by,
}
use web_search_api.Llm.Registry.Probing.{
  Probe, credential_for, probe_with, listing_probe, raised_probe, refused_probe, probe_one, allowed,
  models_of, probe_all,
}

module _ {A : Type 0} (key : A → String) where
  insert_by-Has : (a b : A) (bs : List A) → Has b (insert_by key a bs) ↔ ((a ≡ b) ⊎ Has b bs)
  unfolding insert_by
  insert_by-Has a b [] = (λ h. h, λ h. h)
  insert_by-Has a b (c ∷ cs) = elim (Bool-cases (text_le (key a) (key c))) [
    | inl t ↦ rw t (λ h. h, λ h. h)
    | inr f ↦ rw f (
      λ h. elim h [
        | inl q ↦ inr (inl q)
        | inr m ↦ elim ((insert_by-Has a b cs).0 m) [ inl q ↦ inl q | inr n ↦ inr (inr n) ]
      ],
      λ h. elim h [
        | inl q ↦ inr ((insert_by-Has a b cs).1 (inl q))
        | inr (inl q) ↦ inl q
        | inr (inr n) ↦ inr ((insert_by-Has a b cs).1 (inr n))
      ],
    )
  ]

  sort_by-Has : (b : A) (bs : List A) → Has b (sort_by key bs) ↔ Has b bs
  unfolding sort_by
  sort_by-Has b [] = (λ h. h, λ h. h)
  sort_by-Has b (c ∷ cs) = (
    λ h. elim ((insert_by-Has c b (sort_by key cs)).0 h) [
      | inl q ↦ inl q
      | inr m ↦ inr ((sort_by-Has b cs).0 m)
    ],
    λ h.
        (insert_by-Has c b (sort_by key cs)).1
          (elim h [ inl q ↦ inl q | inr m ↦ inr ((sort_by-Has b cs).1 m) ]),
  )

module _ (tools : RegistryTools) (r : ModelRegistry) where
  -- The provider offers the model to the caller.
  abbrev pub IsOffered : Option Caller → ModelInfo → Provider → Type 0
  IsOffered caller m p =
      (p.has_endpoint ≡ true)
      × (auth : ResolvedAuth) × (credential_for tools r.keyring p caller ≡ connected auth)
      × (ms : List ModelInfo) × (p.list_models auth ≡ offered ms)
      × Has m ms

  raised_probe-found : (name : String) (e : DomainError) → (raised_probe tools name e).found ≡ []
  unfolding raised_probe
  raised_probe-found name e = ground arith

  refused_probe-found : (name : String) (e : DomainError) → (refused_probe tools name e).found ≡ []
  unfolding refused_probe
  refused_probe-found name e = ground arith

  listing_probe-found :
      (timeout name : String) (l : Listing) (m : ModelInfo)
      → Has m (listing_probe tools timeout name l).found
      → (ms : List ModelInfo) × (l ≡ offered ms) × Has m ms
  unfolding listing_probe
  listing_probe-found timeout name (offered ms) m h = (ms, refl, h)
  listing_probe-found timeout name (raised e) m h = elim (rw (raised_probe-found name e) at h) [ ]
  listing_probe-found timeout name past_deadline m h = elim h [ ]
  listing_probe-found timeout name (crashed t) m h = elim h [ ]

  probe_with-found :
      (p : Provider) (c : Credential) (m : ModelInfo)
      → Has m (probe_with tools r p c).found
      → (auth : ResolvedAuth) × (c ≡ connected auth)
        × (ms : List ModelInfo) × (p.list_models auth ≡ offered ms)
        × Has m ms
  unfolding probe_with
  probe_with-found p not_connected m h = elim h [ ]
  probe_with-found p (refused e) m h = elim (rw (refused_probe-found p.name e) at h) [ ]
  probe_with-found p (connected auth) m h =
      let (ms, l, k) = listing_probe-found r.probe_timeout p.name (p.list_models auth) m h in
      (auth, refl, ms, l, k)

  -- The models that the loop takes over from a probe.
  abbrev taken : Probe → List ModelInfo
  taken q = if is_available q.health then q.found else []

  taken-Has : (q : Probe) (m : ModelInfo) → Has m (taken q) → Has m q.found
  taken-Has q m h = elim (Bool-cases (is_available q.health)) [
    | inl t ↦ rw t at h
    | inr f ↦ elim (rw f at h) [ ]
  ]

  probe_one_ready :
      (caller : Option Caller) (p : Provider)
      → p.has_endpoint ≡ true
      → probe_one tools r caller p ≡ probe_with tools r p (credential_for tools r.keyring p caller)
  unfolding probe_one
  probe_one_ready caller p t = rw t refl

  probe_one-found :
      (caller : Option Caller) (p : Provider)
      → p.has_endpoint ≡ false
      → (probe_one tools r caller p).found ≡ []
  unfolding probe_one
  probe_one-found caller p f = rw f refl

  probe_with_offered :
      (p : Provider) (auth : ResolvedAuth) (ms : List ModelInfo)
      → p.list_models auth ≡ offered ms
      → taken (probe_with tools r p (connected auth)) ≡ ms
  unfolding probe_with listing_probe
  probe_with_offered p auth ms l = rw l refl

  probe_one-Has :
      (caller : Option Caller) (p : Provider) (m : ModelInfo)
      → Has m (taken (probe_one tools r caller p)) ↔ IsOffered caller m p
  probe_one-Has caller p m = (
    λ h. elim (Bool-cases p.has_endpoint) [
      | inl t ↦
          let found = taken-Has (probe_one tools r caller p) m h in
          let (auth, c, ms, l, k) =
            probe_with-found p (credential_for tools r.keyring p caller) m
              (rw (probe_one_ready caller p t) at found) in
          (t, auth, c, ms, l, k)
      | inr f ↦
          let found = taken-Has (probe_one tools r caller p) m h in
          elim (rw (probe_one-found caller p f) at found) [ ]
    ],
    λ (t, auth, c, ms, l, h). rw (probe_one_ready caller p t, c, probe_with_offered p auth ms l) h,
  )

  models_of-Has :
      (m : ModelInfo) (qs : List Probe)
      → Has m (models_of qs) ↔ ((q : Probe) × Has q qs × Has m (taken q))
  unfolding models_of
  models_of-Has m [] = (λ h. elim h [ ], λ (q, h, k). elim h [ ])
  models_of-Has m (q ∷ qs) = (
    λ h. elim (append-Has m (taken q) (models_of qs) h) [
      | inl k ↦ (q, inl refl, k)
      | inr k ↦ let (p, l, n) = (models_of-Has m qs).0 k in (p, inr l, n)
    ],
    λ (p, h, k).
        Has-append m (taken q) (models_of qs)
          (elim h [ inl e ↦ inl (rw e k) | inr l ↦ inr ((models_of-Has m qs).1 (p, l, k)) ]),
  )

  pub allowed-Has :
      (disabled : List String) (p : Provider)
      → Has p (allowed tools r disabled) ↔ (Has p r.providers × (is_member p.name disabled ≡ false))
  unfolding allowed
  allowed-Has disabled p = (
    λ h. let (m, e) = filter-Has _ p r.providers h in (m, ground arith),
    λ (m, e). Has-filter _ p r.providers m (rw e refl),
  )

  -- A catalogue lists a model exactly where a registered provider that the filter does not name has an
  -- endpoint, has a credential of the caller or needs none, and offered the model within the time.
  pub probe_all-Has :
      (caller : Option Caller) (disabled : List String) (m : ModelInfo)
      → Has m (probe_all tools r caller disabled).models ↔ (
          (p : Provider) × Has p r.providers
          × (is_member p.name disabled ≡ false)
          × IsOffered caller m p)
  unfolding probe_all
  probe_all-Has caller disabled m =
      let probes = map (probe_one tools r caller) (allowed tools r disabled) in
      let sorted = sort_by-Has (λ n. n.id) m (models_of probes) in
      (
        λ h.
            let (q, k, t) = (models_of-Has m probes).0 (sorted.0 h) in
            let (p, a, e) = map-Has (probe_one tools r caller) q (allowed tools r disabled) k in
            let (n, f) = (allowed-Has disabled p).0 a in
            (p, n, f, (probe_one-Has caller p m).0 (rw e t)),
        λ (p, n, f, o). sorted.1 (
            (models_of-Has m probes).1 (
              probe_one tools r caller p,
              Has-map (probe_one tools r caller) p (allowed tools r disabled)
                  ((allowed-Has disabled p).1 (n, f)),
              (probe_one-Has caller p m).1 o,
            )),
      )
