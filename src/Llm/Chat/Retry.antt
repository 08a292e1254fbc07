-- ===== src/Llm/Chat/Retry.antt =====
-- What `chat` posts.
use web_search_api.Prelude.{
  ℕ, String, ◌≡◌, ◌≢◌, refl, sym, ap, ◌∙◌, subst, ◌⊎◌, inl, inr, true, false, none, some, [], ◌∷◌,
  arith, Bool-cases, Option-cases, str_eq, eq_iff, str_eq_of_ne,
}
use web_search_api.Core.Errors.{DomainError, is_upstream}
use web_search_api.Core.Result.{Result, ok, err}
use web_search_api.Llm.Capabilities.{
  Intent, Body, ShapedRequest, lookup, resolve_capabilities, shape_openai_body,
}
use web_search_api.Llm.Capabilities.Rules.{capability_rules}
use web_search_api.Llm.Chat.Named.{
  Names, IsUpstream, is_upstream-IsUpstream, find_in-is_key, find_in-Names, not_again,
}
use web_search_api.Llm.Chat.{
  PatternLibrary, Payload, Answer, is_key, without, find_unsupported_parameter,
  unsupported_param_patterns, read_answer, to_response, retry, send_shaped, chat,
}

lookup-without_same : (k : String) (b : Body) → lookup k (without k b) ≡ none
unfolding without
lookup-without_same k [] = refl
lookup-without_same k ((j, v) ∷ b) = elim (Bool-cases (str_eq j k)) [
  | inl t ↦ rw t (lookup-without_same k b)
  | inr f ↦ rw (f, f) (lookup-without_same k b)
]

lookup-without_other : (k i : String) (b : Body) → i ≢ k → lookup i (without k b) ≡ lookup i b
unfolding without
lookup-without_other k i [] n = refl
lookup-without_other k i ((j, v) ∷ b) n =
    let rest = lookup-without_other k i b n in
    elim (Bool-cases (str_eq j k)) [
      | inl t ↦
          let other : j ≢ i = λ e. n (let q = (eq_iff j k).0 t in cc) in
          rw (t, str_eq_of_ne j i other) rest
      | inr f ↦ rw f (ground (arith, rest))
    ]

is_key-present : (k : String) (b : Body) → is_key k b ≡ true → lookup k b ≢ none
unfolding is_key
is_key-present k b h e = ground arith

-- How a failed first POST is answered.
pub record IsRetry (lib : PatternLibrary) (e : DomainError) (first second : Body) : Type 0 where
  pub from_upstream : IsUpstream e.kind
  pub key : String
  -- The error names the key: one of the patterns finds it, up to its first dot, in the error's text.
  pub is_named : Names lib e.detail key
  pub was_sent : lookup key first ≢ none
  pub is_gone : lookup key second ≡ none
  pub rest_kept : (j : String) → j ≢ key → lookup j second ≡ lookup j first

module _ (lib : PatternLibrary) where
  module _ (name : String) (send : ℕ → Body → Answer) where
    abbrev pub shaped : Intent → ShapedRequest
    shaped i =
        shape_openai_body lib.str i
          (resolve_capabilities lib.search capability_rules i.model none none)

    retried :
        (model k : String) (s : ShapedRequest) (e : DomainError)
        → is_upstream e.kind ≡ true
        → find_unsupported_parameter lib e.detail s.body ≡ some k
        → IsRetry lib e s.body (without k s.body)
    unfolding find_unsupported_parameter
    retried model k s e up found = record {
      from_upstream = is_upstream-IsUpstream e.kind up;
      key = k;
      is_named = find_in-Names lib unsupported_param_patterns e.detail k s.body found;
      was_sent = is_key-present k s.body (find_in-is_key lib _ e.detail k s.body found);
      is_gone = lookup-without_same k s.body;
      rest_kept = λ j n. lookup-without_other k j s.body n;
    }

    sent_ok :
        (model : String) (s : ShapedRequest) (p : Payload)
        → read_answer lib name (send 0 s.body) ≡ ok p
        → send_shaped lib name send model s
          ≡ (s.body ∷ [], to_response lib name model p s.adjustments)
    unfolding send_shaped
    sent_ok model s p h = ground arith

    sent_refused :
        (model : String) (s : ShapedRequest) (e : DomainError)
        → read_answer lib name (send 0 s.body) ≡ err e
        → (is_upstream e.kind ≡ false) ⊎ (find_unsupported_parameter lib e.detail s.body ≡ none)
        → send_shaped lib name send model s ≡ (s.body ∷ [], err e)
    unfolding send_shaped
    sent_refused model s e h (inl f) = ground arith
    sent_refused model s e h (inr n) = ground arith

    sent_again :
        (model k : String) (s : ShapedRequest) (e : DomainError)
        → read_answer lib name (send 0 s.body) ≡ err e
        → is_upstream e.kind ≡ true
        → find_unsupported_parameter lib e.detail s.body ≡ some k
        → send_shaped lib name send model s ≡ retry lib name send model s k
    unfolding send_shaped
    sent_again model k s e h u f = ground arith

    result-cases :
        (r : Result Payload) → ((p : Payload) × (r ≡ ok p)) ⊎ ((e : DomainError) × (r ≡ err e))
    result-cases (ok p) = inl (p, refl)
    result-cases (err e) = inr (e, refl)

    -- A chat posts the shaped body, and once more after an upstream error in whose text one of the
    -- patterns finds a key of that body: then it posts the same body without that key. It posts nothing
    -- more in every other case, and a failure of the first post is then the chat's own: a rejected
    -- credential, a rate limit, a timeout, or an upstream error that names no key of the body.
    pub chat-IsRetry :
        (i : Intent)
        → (((chat lib name send i).0 ≡ (shaped i).body ∷ [])
            × ((e : DomainError)
                → read_answer lib name (send 0 (shaped i).body) ≡ err e
                → ((chat lib name send i).1 ≡ err e)
                  × (IsUpstream e.kind
                      → (k : String) → Names lib e.detail k
                      → lookup k (shaped i).body ≡ none)))
          ⊎ ((e : DomainError) × (second : Body) × (read_answer lib name (send 0 (shaped i).body)
                ≡ err e)
              × ((chat lib name send i).0 ≡ (shaped i).body ∷ second ∷ [])
              × IsRetry lib e (shaped i).body second)
    unfolding chat retry
    chat-IsRetry i =
        let s : ShapedRequest = shaped i in
        elim (result-cases (read_answer lib name (send 0 s.body))) [
          | inl (p, h) ↦ inl (
            ap (λ x. x.0) (sent_ok i.model s p h),
            λ e q. (let c : ok p ≡ err e = sym h ∙ q in cc),
          )
          | inr (e, h) ↦ elim (Bool-cases (is_upstream e.kind)) [
            | inr f ↦ inl (alone i.model s e h (inl f))
            | inl u ↦ elim (Option-cases (find_unsupported_parameter lib e.detail s.body)) [
              | inl n ↦ inl (alone i.model s e h (inr n))
              | inr (k, found) ↦ inr (
                e,
                without k s.body,
                h,
                ap (λ x. x.0) (sent_again i.model k s e h u found),
                retried i.model k s e u found,
              )
            ]
          ]
        ]
      where
        alone :
            (model : String) (s : ShapedRequest) (e : DomainError)
            → read_answer lib name (send 0 s.body) ≡ err e
            → (is_upstream e.kind ≡ false) ⊎ (find_unsupported_parameter lib e.detail s.body ≡ none)
            → ((send_shaped lib name send model s).0 ≡ s.body ∷ [])
              × ((d : DomainError)
                  → read_answer lib name (send 0 s.body) ≡ err d
                  → ((send_shaped lib name send model s).1 ≡ err d)
                    × (IsUpstream d.kind
                        → (k : String) → Names lib d.detail k
                        → lookup k s.body ≡ none))
        alone model s e h c = (
          ap (λ x. x.0) (sent_refused model s e h c),
          λ d q.
              let both : ◌≡◌ {A = Result Payload} (err e) (err d) = sym h ∙ q in
              let same : e ≡ d = cc in
              (
                ap (λ x. x.1) (sent_refused model s e h c) ∙ ap err same,
                subst
                    (λ x.
                      IsUpstream x.kind
                      → (k : String) → Names lib x.detail k
                      → lookup k s.body ≡ none)
                    same (not_again lib e s.body c),
              ),
        )
