-- ===== src/Search/Router.antt =====
-- app/services/search/router.py. A backend, bound to the caller where it has credentials, is the
-- record `Backend`: what its `is_configured` and `search` return or raise. The loop returns the names
-- of the backends that were asked to search, in order, beside its result.
pub mod Order
pub mod Failover
use web_search_api.Prelude.{
  ℕ, zero, suc, ◌+◌, String, Bool, true, false, not, ◌&&◌, Option, none, some, List, [], ◌∷◌, ◌++◌,
  ltb, ◌==◌, if◌then◌else◌, str_eq, format, length, filter, or_else, map,
}
use web_search_api.Core.Errors.{
  DomainError, make_error, message, is_upstream, provider_unavailable_error, upstream_error,
}
use web_search_api.Core.Result.{Result, ok, err}
use web_search_api.Search.Base.{SearchQuery, SearchResponse, is_empty}

pub record Backend : Type 0 where
  pub name : String
  pub is_configured : Result Bool
  pub search : SearchQuery → Result SearchResponse

-- `SearchRouter`: `bind` is `for_caller` where a backend has it, and the identity where it has not.
pub record SearchRouter (Caller : Type 0) : Type 0 where
  pub backends : List Backend
  pub preferred : Option String
  pub bind : Option Caller → Backend → Backend

-- What one round of the loop decides: to skip the backend, to go on after asking it with this
-- `last_error`, or to leave the loop with a result.
pub data Round : Type 0 where
  skip : Round
  go_on : Option DomainError → Round
  leave : Result SearchResponse → Round
  crash : DomainError → Round

module _ {Caller : Type 0} (router : SearchRouter Caller) where
  abbrev place_first : String → List Backend
  place_first name =
      filter (λ b. str_eq b.name name) router.backends
      ++ filter (λ b. not (str_eq b.name name)) router.backends

  -- `_ordered`; `if not name` also skips an empty name.
  unfoldable pub ordered : Option String → List Backend
  ordered (some name) = if str_eq name "" then router.backends else place_first name
  ordered none = elim router.preferred [
    | none ↦ router.backends
    | some name ↦ if str_eq name "" then router.backends else place_first name
  ]

  abbrev pub Attempt : Type 0
  Attempt = List String × Result SearchResponse

  -- What is raised after the loop: `attempted` counts the backends that were asked.
  unfoldable pub exhausted : ℕ → Option DomainError → DomainError
  exhausted attempted last_error =
      if attempted == 0
      then make_error provider_unavailable_error "No search backend configured"
          (some "Configure the Google browser backend, SearxNG or Serper.") none
      else make_error provider_unavailable_error "Every search backend failed"
          (some (elim last_error [ none ↦ "All backends were exhausted." | some e ↦ message e ]))
          none

  unfoldable pub nothing_found : String → DomainError
  nothing_found name =
      make_error upstream_error "Search returned no results"
        (some (format (name ∷ " returned nothing." ∷ []))) none

  -- The answer of a backend that was asked as number `attempted`.
  unfoldable pub judge : ℕ → Option DomainError → String → Result SearchResponse → Round
  judge attempted last_error name (err e) =
      if is_upstream e.kind then go_on (some e) else leave (err e)
  judge attempted last_error name (ok response) =
      if is_empty response && ltb attempted (length router.backends)
      then go_on (some (or_else last_error (nothing_found name)))
      else leave (ok response)

  unfoldable pub try_backend : SearchQuery → ℕ → Option DomainError → Backend → Round
  try_backend query attempted last_error b = elim b.is_configured [
    | err e ↦ crash e
    | ok false ↦ skip
    | ok true ↦ judge (attempted + 1) last_error b.name (b.search query)
  ]

  unfoldable pub search_loop : SearchQuery → ℕ → Option DomainError → List Backend → Attempt
  search_loop query attempted last_error [] = ([], err (exhausted attempted last_error))
  search_loop query attempted last_error (b ∷ bs) =
      elim (try_backend query attempted last_error b) [
        | skip ↦ search_loop query attempted last_error bs
        | crash e ↦ ([], err e)
        | leave r ↦ (b.name ∷ [], r)
        | go_on last ↦
            let (names, r) = search_loop query (attempted + 1) last bs in (b.name ∷ names, r)
      ]

  unfoldable pub search : SearchQuery → Option Caller → Option String → Attempt
  search query caller preferred =
      search_loop query 0 none (map (router.bind caller) (ordered preferred))
