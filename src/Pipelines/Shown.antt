-- ===== src/Pipelines/Shown.antt =====
-- What a person does not see of a search, and which results have a summary.
use web_search_api.Prelude.{
  String, ◌≡◌, refl, sym, ap, ◌∙◌, subst, true, false, not, ◌⊎◌, inl, inr, Option, none, some, List,
  [], ◌∷◌, map, filter, str_eq, Bool-cases, arith, All, All-each, Has, Has-filter, filter-Has,
  map-Has, Each, map-Each,
}
use web_search_api.Core.Result.{Result, ok, err}
use web_search_api.Fetch.Page.{PageFetcher}
use web_search_api.Pipelines.{
  Summarizer, SearchRequest, SearchQueryIn, SearchResultOut, SearchQueryResult,
}
use web_search_api.Pipelines.Outcomes.{bare, bare_item, run_search-bare}
use web_search_api.Pipelines.Searching.{
  PipelineTools, first_text, within_any, not_asked_for, blocked_for, host, query_result, result_out,
  is_blocked, run_query, run_search,
}
use web_search_api.Preferences.{Preferences}
use web_search_api.Search.Base.{SearchResult, SearchResponse}
use web_search_api.Search.Router.{SearchRouter}

-- A host that is in none of the domains is not in any one of them.
within_any-Has :
    (h : String) (ds : List String) (d : String)
    → within_any h ds ≡ false
    → Has d ds
    → within_any h (d ∷ []) ≡ false
unfolding within_any
within_any-Has h [] d e k = elim k [ ]
within_any-Has h (x ∷ ds) d e (inl q) = rw (← q) (ground arith)
within_any-Has h (x ∷ ds) d e (inr k) = within_any-Has h ds d (ground arith) k

module _ (tools : PipelineTools) where
  -- The query is restricted to a site that the domain covers.
  abbrev pub IsAskedFor : SearchQueryIn → String → Type 0
  IsAskedFor q d =
      (site : String) × (q.site ≡ some site)
      × (within_any (tools.lower (tools.strip site)) (d ∷ []) ≡ true)

  -- No item is on the domain or on a subdomain of it.
  abbrev pub IsHidden : String → SearchQueryResult → Type 0
  IsHidden d r = All (λ item. within_any (host tools item.url) (d ∷ []) ≡ false) r.results

  is_blocked-Has :
      (ds : List String) (url d : String)
      → is_blocked tools ds url ≡ false
      → Has d ds
      → within_any (host tools url) (d ∷ []) ≡ false
  is_blocked-Has [] url d h k = elim k [ ]
  is_blocked-Has (x ∷ ds) url d h k = within_any-Has (host tools url) (x ∷ ds) d h k

  not_asked_for-Has :
      (site : Option String) (ds : List String) (d : String)
      → Has d ds
      → ((t : String) × (site ≡ some t)
          × (within_any (tools.lower (tools.strip t)) (d ∷ []) ≡ true))
        ⊎ Has d (not_asked_for tools site ds)
  not_asked_for-Has none ds d h = inr h
  not_asked_for-Has (some t) ds d h =
      elim (Bool-cases (within_any (tools.lower (tools.strip t)) (d ∷ []))) [
        | inl c ↦ inl (t, refl, c)
        | inr c ↦ inr (Has-filter _ d ds h (rw c refl))
      ]

  named_site : (site : Option String) (t : String) → first_text site none ≡ some t → site ≡ some t
  named_site none t h = cc
  named_site (some s) t h = elim (Bool-cases (str_eq s "")) [
    | inl e ↦ absurd (let f : none ≡ some t = rw e at h in cc)
    | inr e ↦ rw e at h
  ]

  blocked_for-Has :
      (q : SearchQueryIn) (p : Preferences) (d : String)
      → Has d p.blocked_domains
      → IsAskedFor q d ⊎ Has d (blocked_for tools q (some p))
  unfolding blocked_for
  blocked_for-Has q p d h =
      elim (not_asked_for-Has (first_text q.site none) p.blocked_domains d h) [
        | inl (t, e, c) ↦ inl (t, named_site q.site t e, c)
        | inr k ↦ inr k
      ]

  query_result-IsHidden :
      (q : SearchQueryIn) (ds : List String) (o : Result SearchResponse) (d : String)
      → Has d ds
      → IsHidden d (query_result tools q ds o)
  unfolding query_result
  query_result-IsHidden q ds (err e) d h = tt
  query_result-IsHidden q ds (ok response) d h =
      let shown =
        filter (λ (item : SearchResult). not (is_blocked tools ds item.url)) response.results in
      All-each (λ item. within_any (host tools item.url) (d ∷ []) ≡ false) (map result_out shown)
        (λ item k.
          let (found, l, e) = map-Has result_out item shown k in
          let (_, b) = filter-Has (λ x. not (is_blocked tools ds x.url)) found response.results l in
          rw (← e) (is_blocked-Has ds found.url d (ground arith) h))

  query_result-query :
      (q : SearchQueryIn) (ds : List String) (o : Result SearchResponse)
      → (query_result tools q ds o).query ≡ q.query
  unfolding query_result
  query_result-query q ds (err e) = refl
  query_result-query q ds (ok response) = refl

  bare_item-IsHidden : (d : String) (r : SearchQueryResult) → IsHidden d (bare r) → IsHidden d r
  bare_item-IsHidden d r h = hidden_items r.results h
    where
      hidden_items :
          (items : List SearchResultOut)
          → All (λ item. within_any (host tools item.url) (d ∷ []) ≡ false) (map bare_item items)
          → All (λ item. within_any (host tools item.url) (d ∷ []) ≡ false) items
      hidden_items [] k = tt
      hidden_items (item ∷ items) k = (k.0, hidden_items items k.1)

  run_query-IsShown :
      {Caller : Type 0} (router : SearchRouter Caller) (request : SearchRequest)
      (caller : Option Caller) (p : Preferences) (d : String) (q : SearchQueryIn)
      (r : SearchQueryResult)
      → Has d p.blocked_domains
      → bare r ≡ run_query tools router request caller (some p) q
      → (r.query ≡ q.query) × (IsAskedFor q d ⊎ IsHidden d r)
  unfolding run_query
  run_query-IsShown router request caller p d q r b e = (
    ap (λ x. x.query) e ∙ query_result-query q (blocked_for tools q (some p)) _,
    elim (blocked_for-Has q p d b) [
      | inl a ↦ inl a
      | inr c ↦
          let hidden = query_result-IsHidden q (blocked_for tools q (some p)) _ d c in
          inr (bare_item-IsHidden d r (subst (λ x. IsHidden d x) (sym e) hidden))
    ],
  )

  -- In a person's search there is one result for each query, in order, and it shows no page on a domain
  -- that the person blocks or on a subdomain of it, unless its own query, the one in its place, is
  -- restricted to a site which the domain covers.
  pub run_search-IsHidden :
      {Caller : Type 0} (router : SearchRouter Caller) (fetcher : PageFetcher)
      (summarizer : Summarizer) (request : SearchRequest) (caller : Option Caller) (p : Preferences)
      (d : String)
      → Has d p.blocked_domains
      → Each
          (λ q r. (r.query ≡ q.query) × (IsAskedFor q d ⊎ IsHidden d r))
          request.queries
          (run_search tools router fetcher summarizer request caller (some p))
  run_search-IsHidden router fetcher summarizer request caller p d b =
      map-Each (run_query tools router request caller (some p)) bare
        (λ q r. (r.query ≡ q.query) × (IsAskedFor q d ⊎ IsHidden d r))
        (λ q r e. run_query-IsShown router request caller p d q r b e) request.queries _
        (run_search-bare tools router fetcher summarizer request caller (some p))
