-- ===== src/Fetch/Robots/Copies.antt =====
-- How long an origin's robots.txt is remembered, and what it decides.
use web_search_api.Prelude.{ℕ, ◌-◌, ◌≤◌, String, ◌≡◌, ◌≢◌, Bool, true, some}
use web_search_api.Fetch.UrlSafety.{SplitUrl}
use web_search_api.Fetch.Robots.{
  Held, RobotsPolicy, cache_ttl, Reply, answered, RobotsLibrary, held, can_fetch,
}

module _ {Rules : Type 0} (lib : RobotsLibrary Rules) where
  -- What a robots.txt says of a URL: the rules of a 200 decide, and any other answer, or none, allows it.
  pub record IsDecision (reply : Reply) (url : String) (allowed : Bool) : Type 0 where
    pub by_rules :
        (body : String) → reply ≡ answered 200 body → allowed ≡ lib.allows (lib.parse body) url
    pub by_default : ((body : String) → reply ≢ answered 200 body) → allowed ≡ true

  -- No copy of the origin is held that is younger than the limit at this reading of the clock.
  abbrev pub IsStale : ℕ → String → RobotsPolicy Rules → Type 0
  IsStale now origin p =
      (h : Held Rules) → held origin p.parsers ≡ some h → cache_ttl p ≤ now - h.fetched_at

  -- A later call of the same origin, in the state that the first call leaves.
  abbrev pub again :
      ℕ
      → ℕ
      → ℕ
      → Reply
      → SplitUrl
      → String
      → RobotsPolicy Rules
      → ℕ
      → ℕ
      → ℕ
      → Reply
      → String
      → RobotsPolicy Rules × Bool × Bool
  again first locked done reply parts url p first' locked' done' reply' url' =
      can_fetch lib first' locked' done' reply' parts url'
        (can_fetch lib first locked done reply parts url p).0
