-- ===== src/Keyring/Caller.antt =====
-- app/services/keyring/caller.py.
use web_search_api.Prelude.{String, Option, or_else}

pub record Caller : Type 0 where
  pub account_id : String
  pub profile : Option String
  pub user_token : String

-- `self.profile or ""`: no profile and an empty one are the same key.
abbrev pub cache_key : Caller → String × String
cache_key c = (c.account_id, or_else c.profile "")
