-- ===== src/Fetch/Robots.antt =====
-- app/services/robots.py: `RobotsPolicy`. The rules are of any type `Rules`; what the origin answers
-- to the request for its robots.txt is an argument, and so are the clock readings, in ticks. The
-- body of `_parser_for` under the origin's lock is one step, after other holders of the lock.
pub mod Copies
use web_search_api.Prelude.{
  ℕ, ◌-◌, ◌*◌, ◌≤◌, ◌<◌, String, ◌≡◌, refl, Bool, true, false, Option, none, some, List, [], ◌∷◌,
  ltb, ◌==◌, if◌then◌else◌, str_eq, eq_iff, format, arith,
}
use web_search_api.Fetch.UrlSafety.{SplitUrl}

-- A parser, or `none` where everything is allowed, and when it was fetched.
pub record Held (Rules : Type 0) : Type 0 where
  pub rules : Option Rules
  pub fetched_at : ℕ

pub record RobotsPolicy (Rules : Type 0) : Type 0 where
  pub ticks_per_second : ℕ
  pub parsers : List (String × Held Rules)

-- `ROBOTS_CACHE_TTL_SECONDS`
abbrev pub cache_ttl : {Rules : Type 0} → RobotsPolicy Rules → ℕ
cache_ttl p = 3600 * p.ticks_per_second

pub data Reply : Type 0 where
  failed : Reply
  answered : ℕ → String → Reply

-- `RobotFileParser`: `parse` of a body's lines, and `can_fetch` for this service's agent.
pub record RobotsLibrary (Rules : Type 0) : Type 0 where
  pub parse : String → Rules
  pub allows : Rules → String → Bool

module _ {Rules : Type 0} where
  unfoldable pub held : String → List (String × Held Rules) → Option (Held Rules)
  held k [] = none
  held k ((o, h) ∷ hs) = if str_eq o k then some h else held k hs

  unfoldable pub hold :
      String → Held Rules → List (String × Held Rules) → List (String × Held Rules)
  hold k h [] = (k, h) ∷ []
  hold k h ((o, g) ∷ hs) = if str_eq o k then (k, h) ∷ hs else (o, g) ∷ hold k h hs

  -- `_fresh`, with what it found.
  unfoldable pub fresh : ℕ → String → RobotsPolicy Rules → Option (Held Rules)
  fresh now origin p = elim (held origin p.parsers) [
    | none ↦ none
    | some h ↦ if ltb (now - h.fetched_at) (cache_ttl p) then some h else none
  ]

-- `f"{parts.scheme}://{parts.netloc}"`
unfoldable pub origin_of : SplitUrl → String
origin_of parts = format (parts.scheme ∷ "://" ∷ parts.netloc ∷ [])

module _ {Rules : Type 0} (lib : RobotsLibrary Rules) where
  unfoldable pub read_reply : Reply → Option Rules
  read_reply failed = none
  read_reply (answered status body) = if status == 200 then some (lib.parse body) else none

  -- `_parser_for` at its first look, at its look under the lock, and at the end. The last part says
  -- whether robots.txt was requested.
  unfoldable pub parser_for :
      ℕ → ℕ → ℕ → Reply → String → RobotsPolicy Rules → RobotsPolicy Rules × Option Rules × Bool
  parser_for first locked done reply origin p = elim (fresh first origin p) [
    | some h ↦ (p, h.rules, false)
    | none ↦ elim (fresh locked origin p) [
      | some h ↦ (p, h.rules, false)
      | none ↦ (
        record p {
          parsers = hold origin (record { rules = read_reply reply; fetched_at = done }) p.parsers;
        },
        read_reply reply,
        true,
      )
    ]
  ]

  unfoldable pub permits : Option Rules → String → Bool
  permits none url = true
  permits (some rules) url = lib.allows rules url

  unfoldable pub can_fetch :
      ℕ → ℕ → ℕ → Reply → SplitUrl → String → RobotsPolicy Rules → RobotsPolicy Rules × Bool × Bool
  can_fetch first locked done reply parts url p =
      let (p', rules, requested) = parser_for first locked done reply (origin_of parts) p in
      (p', permits rules url, requested)
