-- ===== src/Llm/Chat.antt =====
-- app/services/llm/providers/openai_compatible.py: `chat`, with `find_unsupported_parameter` of
-- app/services/llm/capabilities.py. A payload is what the code reads of the JSON that came back, its
-- numbers as `_as_int` reads them. A chat returns the bodies that it posted, in order, beside its
-- result.
pub mod Named
pub mod Retry
use web_search_api.Prelude.{
  ℕ, String, Bool, true, false, not, ◌&&◌, ◌||◌, Option, none, some, List, [], ◌∷◌, ◌++◌, filter,
  leb, ◌==◌, if◌then◌else◌, str_eq, format, or_else,
}
use web_search_api.Core.Errors.{
  DomainError, make_error, is_upstream, upstream_error, rate_limited_error, timeout_problem,
  provider_unavailable_error,
}
use web_search_api.Core.Result.{Result, ok, err}
use web_search_api.Llm.Capabilities.{
  Turn, Intent, Body, Field, ShapedRequest, lookup, resolve_capabilities, shape_openai_body,
}
use web_search_api.Llm.Capabilities.Rules.{capability_rules}

-- An element of `choices`: not a dictionary, or its `message.content` and `finish_reason` where those
-- are strings.
pub data Choice : Type 0 where
  malformed : Choice
  choice : Option String → Option String → Choice

-- `choices` is `none` where it is no list.
pub record Payload : Type 0 where
  pub choices : Option (List Choice)
  pub prompt_tokens : Option ℕ
  pub completion_tokens : Option ℕ

-- How a POST ends: by the transport, by a status with the text of `_error_detail`, by a body that is
-- not JSON, or with a payload. JSON that is no object, on which the code raises AttributeError, is left
-- out.
pub data Answer : Type 0 where
  timed_out : String → Answer
  unreachable : String → Answer
  refused : ℕ → String → Answer
  not_json : String → Answer
  answered : Payload → Answer

pub record ChatResponse : Type 0 where
  pub text : String
  pub model : String
  pub provider : String
  pub input_tokens : Option ℕ
  pub output_tokens : Option ℕ
  pub param_adjustments : List String
  pub finish_reason : Option String

-- `re.search` as a test, its group 1, `s.split(".")[0]`, `str` of a number and `str.strip`.
pub record PatternLibrary : Type 0 where
  pub search : String → String → Bool
  pub group_one : String → String → Option String
  pub before_dot : String → String
  pub str : ℕ → String
  pub strip : String → String

abbrev pub unsupported_param_patterns : List String
unsupported_param_patterns =
    "[Uu]nsupported (?:parameter|value)[: ]+'?([a-z_.]+)'?"
    ∷ "[Uu]nrecognized (?:request )?argument[: ]+'?([a-z_.]+)'?" ∷ "'?([a-z_.]+)'? is not supported"
    ∷ "[Ee]xtra inputs are not permitted.*'([a-z_.]+)'" ∷ "[Ii]nvalid parameter[: ]+'?([a-z_.]+)'?"
    ∷ "[Pp]arameter '([a-z_.]+)' is not supported" ∷ []

-- `key in body`
unfoldable pub is_key : String → Body → Bool
is_key k b = elim (lookup k b) [ none ↦ false | some _ ↦ true ]

-- `{k: v for k, v in body.items() if k != offender}`
unfoldable pub without : String → Body → Body
without k [] = []
without k ((j, v) ∷ b) = let rest = without k b in if str_eq j k then rest else (j, v) ∷ rest

module _ (lib : PatternLibrary) where
  open lib use {search, group_one, before_dot, str, strip}

  -- The loop of `find_unsupported_parameter`.
  unfoldable pub find_in : List String → String → Body → Option String
  find_in [] message body = none
  find_in (p ∷ ps) message body =
      let rest = find_in ps message body in
      elim (group_one p message) [
        | none ↦ rest
        | some found ↦ if is_key (before_dot found) body then some (before_dot found) else rest
      ]

  unfoldable pub find_unsupported_parameter : String → Body → Option String
  find_unsupported_parameter = find_in unsupported_param_patterns

  module _ (name : String) where
    -- `_raise_for_status`, for a status of at least 400.
    unfoldable pub status_error : ℕ → String → DomainError
    status_error code detail =
        if (code == 401) || (code == 403)
        then make_error provider_unavailable_error (format (name ∷ " rejected the credential" ∷ []))
            (some detail) none
        else if code == 429
        then make_error rate_limited_error (format (name ∷ " rate limited" ∷ [])) (some detail) none
        else make_error upstream_error (format (name ∷ " returned " ∷ str code ∷ [])) (some detail)
            none

    -- `_post_chat`, by how the POST ends.
    unfoldable pub read_answer : Answer → Result Payload
    read_answer (timed_out m) =
        err (make_error timeout_problem (format (name ∷ " timed out" ∷ [])) (some m) none)
    read_answer (unreachable m) =
        err (
          make_error provider_unavailable_error (format (name ∷ " unreachable" ∷ [])) (some m) none)
    read_answer (refused code detail) = err (status_error code detail)
    read_answer (not_json m) =
        err
          (make_error upstream_error (format (name ∷ " returned invalid JSON" ∷ [])) (some m) none)
    read_answer (answered p) = ok p

    abbrev upstream : String → String → DomainError
    upstream title what = make_error upstream_error title (some (format (name ∷ what ∷ []))) none

    unfoldable pub to_response : String → Payload → List String → Result ChatResponse
    to_response model p adjustments = elim p.choices [
      | none ↦ err (upstream "Empty completion" " returned no choices.")
      | some [] ↦ err (upstream "Empty completion" " returned no choices.")
      | some (malformed ∷ cs) ↦
          err (upstream "Malformed completion" " returned an unexpected choice.")
      | some (choice content reason ∷ cs) ↦ ok (record {
        text = strip (or_else content "");
        model = model;
        provider = name;
        input_tokens = p.prompt_tokens;
        output_tokens = p.completion_tokens;
        param_adjustments = adjustments;
        finish_reason = reason;
      })
    ]

    abbrev finished : String → List String → Result Payload → Result ChatResponse
    finished model adjustments (err e) = err e
    finished model adjustments (ok p) = to_response model p adjustments

    -- `send i body` is how POST number `i` ends.
    module _ (send : ℕ → Body → Answer) where
      abbrev retry_note : String → String
      retry_note k = format ("retried without '" ∷ k ∷ "': provider rejected it" ∷ [])

      unfoldable pub retry : String → ShapedRequest → String → List Body × Result ChatResponse
      retry model shaped k =
          let second = without k shaped.body in
          (
            shaped.body ∷ second ∷ [],
            finished model (shaped.adjustments ++ retry_note k ∷ []) (read_answer (send 1 second)),
          )

      unfoldable pub send_shaped : String → ShapedRequest → List Body × Result ChatResponse
      send_shaped model shaped = elim (read_answer (send 0 shaped.body)) [
        | ok p ↦ (shaped.body ∷ [], to_response model p shaped.adjustments)
        | err e ↦
            if not (is_upstream e.kind)
            then (shaped.body ∷ [], err e)
            else elim (find_unsupported_parameter e.detail shaped.body) [
              | none ↦ (shaped.body ∷ [], err e)
              | some k ↦ retry model shaped k
            ]
      ]

      unfoldable pub chat : Intent → List Body × Result ChatResponse
      chat i =
          send_shaped i.model (
            shape_openai_body str i
              (resolve_capabilities search capability_rules i.model none none))
