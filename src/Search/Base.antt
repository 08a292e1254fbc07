-- ===== src/Search/Base.antt =====
-- app/services/search/base.py.
use web_search_api.Prelude.{
  ℕ, ◌≤◌, String, ◌≡◌, Bool, true, false, Option, none, some, List, [], ◌∷◌, leb, if◌then◌else◌,
  str_eq, format, arith,
}

pub data SafeSearch : Type 0 where
  off moderate strict : SafeSearch

-- `order.index(level)`, in declaration order.
abbrev pub level : SafeSearch → ℕ
level off = 0
level moderate = 1
level strict = 2

unfoldable pub at_least : SafeSearch → SafeSearch → SafeSearch
at_least s floor = if leb (level floor) (level s) then s else floor

-- `cls.OFF if requested is False else cls.MODERATE`
unfoldable pub asked_for : Option Bool → SafeSearch
asked_for none = moderate
asked_for (some true) = moderate
asked_for (some false) = off

unfoldable pub for_request : Option Bool → Option SafeSearch → SafeSearch
for_request requested none = asked_for requested
for_request none (some chosen) = chosen
for_request (some asked) (some chosen) = at_least (asked_for (some asked)) chosen

pub record SearchResult : Type 0 where
  pub title : String
  pub url : String
  pub snippet : String
  pub rank : ℕ

pub record SearchQuery : Type 0 where
  pub query : String
  pub max_results : ℕ
  pub site : Option String
  pub language : String
  pub region : String
  pub safe_search : SafeSearch
  pub recency_days : Option ℕ

-- `if self.site`: an empty site is no filter.
pub to_query_string : SearchQuery → String
to_query_string q = elim q.site [
  | none ↦ q.query
  | some site ↦ if str_eq site "" then q.query else format (q.query ∷ " site:" ∷ site ∷ [])
]

pub record SearchResponse : Type 0 where
  pub query : String
  pub backend : String
  pub results : List SearchResult

unfoldable pub is_empty : SearchResponse → Bool
is_empty r = elim r.results [ [] ↦ true | _ ∷ _ ↦ false ]

-- Whatever a request says, a search filters at least as hard as the person chose. A request that asks
-- for filtering gets at least the middle level, one that says nothing gets exactly the person's
-- level, and where nobody has chosen only a request that says no goes unfiltered.
pub for_request_floor :
    (requested : Option Bool) (chosen : SafeSearch)
    → (level chosen ≤ level (for_request requested (some chosen)))
      × (requested ≡ none → for_request requested (some chosen) ≡ chosen)
      × (requested ≡ some true → 1 ≤ level (for_request requested (some chosen)))
      × (for_request requested none ≡ off → requested ≡ some false)
unfolding for_request at_least asked_for
for_request_floor requested chosen =
    (ground arith, λ e. ground arith, λ e. ground arith, λ e. ground arith)
