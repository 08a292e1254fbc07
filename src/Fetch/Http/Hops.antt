-- ===== src/Fetch/Http/Hops.antt =====
-- The requests of one fetch: each was let through by the guard, and there are not too many.
use native.Mathlib.Numerals.{add-one}
use web_search_api.Prelude.{
  ℕ, zero, suc, ◌+◌, ◌≤◌, String, ◌≡◌, refl, ap, ◌∙◌, true, some, List, [], ◌∷◌, ◌⊎◌, inl, inr,
  arith, length, Option-cases,
}
use web_search_api.Core.Result.{Result, ok, err}
use web_search_api.Core.Errors.{DomainError}
use web_search_api.Fetch.UrlSafety.{UrlLibrary, validate_url}
use web_search_api.Fetch.UrlSafety.Policy.{IsAllowed, validate_url_iff}
use web_search_api.Fetch.Http.{
  HttpFetcher, TextLibrary, Response, Exchange, timed_out, transport_failed, responded, FetchResult,
  Next, follow, finish, location_of, after_response, request, fetch_from, fetch,
}

pub Exchange-cases :
    (x : Exchange)
    → (x ≡ timed_out)
      ⊎ ((m : String) × (x ≡ transport_failed m))
      ⊎ ((r : Response) × (x ≡ responded r))
Exchange-cases timed_out = inl refl
Exchange-cases (transport_failed m) = inr (inl (m, refl))
Exchange-cases (responded r) = inr (inr (r, refl))

module _ (f : HttpFetcher) (tools : TextLibrary) (lib : ℕ → UrlLibrary)
    (send : ℕ → String → Exchange) where
  -- Hop `hop` was answered by a redirect, and the guard, as it stands before the next hop, lets its
  -- target through as the URL `next`.
  abbrev pub IsLink : ℕ → String → String → Type 0
  IsLink hop current next =
      (r : Response) × (l : String) × (send hop current ≡ responded r)
      × (r.is_redirect ≡ true)
      × (r.location ≡ some l)
      × IsAllowed (lib (hop + 1)) f.allow_private (tools.urljoin current l) next

  -- Each URL of the list is a link from the one in front of it.
  abbrev pub AreLinked : ℕ → String → List String → Type 0
  AreLinked hop current [] = Unit
  AreLinked hop current (next ∷ us) = IsLink hop current next × AreLinked (hop + 1) next us

  -- The URLs of one fetch of a URL, in order.
  abbrev pub AreGuarded : String → List String → Type 0
  AreGuarded url [] = Unit
  AreGuarded url (u ∷ us) = IsAllowed (lib 0) f.allow_private url u × AreLinked 0 u us

  location_of-some :
      (r : Response) (l : String) → location_of f tools r ≡ some l → r.location ≡ some l
  unfolding location_of
  location_of-some r l h = elim (Option-cases r.location) [
    | inl n ↦ absurd (ground arith)
    | inr (m, q) ↦ ground arith
  ]

  after_response-follow :
      (hop : ℕ) (original current next : String) (r : Response)
      → send hop current ≡ responded r
      → after_response f tools lib send hop original current r ≡ follow next
      → IsLink hop current next
  unfolding after_response
  after_response-follow hop original current next r answered h =
      elim (Option-cases (location_of f tools r)) [
        | inl n ↦ absurd (ground arith)
        | inr (l, q) ↦ (
          r,
          l,
          answered,
          ground arith,
          location_of-some r l q,
          (validate_url_iff (lib (hop + 1)) f.allow_private (tools.urljoin current l) next).0
              (ground arith),
        )
      ]

  request-follow :
      (hop : ℕ) (original current next : String)
      → request f tools lib send hop original current ≡ follow next
      → IsLink hop current next
  unfolding request
  request-follow hop original current next h = elim (Exchange-cases (send hop current)) [
    | inl q ↦ absurd (ground arith)
    | inr (inl (m, q)) ↦ absurd (ground arith)
    | inr (inr (r, q)) ↦ after_response-follow hop original current next r q (ground arith)
  ]

  pub Next-cases :
      (n : Next f tools lib send)
      → ((r : Result FetchResult) × (n ≡ finish r)) ⊎ ((u : String) × (n ≡ follow u))
  Next-cases (finish r) = inl (r, refl)
  Next-cases (follow u) = inr (u, refl)

  pub fetch_from_stops :
      (rounds hop : ℕ) (original current : String) (r : Result FetchResult)
      → request f tools lib send hop original current ≡ finish r
      → fetch_from f tools lib send (suc rounds) hop original current ≡ (current ∷ [], r)
  unfolding fetch_from
  fetch_from_stops rounds hop original current r q = ground arith

  pub fetch_from_goes_on :
      (rounds hop : ℕ) (original current next : String)
      → request f tools lib send hop original current ≡ follow next
      → fetch_from f tools lib send (suc rounds) hop original current ≡ (
        current ∷ (fetch_from f tools lib send rounds (hop + 1) original next).0,
        (fetch_from f tools lib send rounds (hop + 1) original next).1,
      )
  unfolding fetch_from
  fetch_from_goes_on rounds hop original current next q = ground arith

  -- The first request of a run that has rounds left is for the URL that it was given.
  fetch_from-AreLinked :
      (rounds hop : ℕ) (original current : String)
      → (us : List String) × ((fetch_from f tools lib send (suc rounds) hop original current).0
          ≡ current ∷ us)
        × AreLinked hop current us
  fetch_from-AreLinked zero hop original current =
      elim (Next-cases (request f tools lib send hop original current)) [
        | inl (r, q) ↦ ([], ap (λ t. t.0) (fetch_from_stops zero hop original current r q), tt)
        | inr (next, q) ↦ (
          (fetch_from f tools lib send zero (hop + 1) original next).0,
          ap (λ t. t.0) (fetch_from_goes_on zero hop original current next q),
          unfold fetch_from in tt,
        )
      ]
  fetch_from-AreLinked (suc rounds) hop original current =
      elim (Next-cases (request f tools lib send hop original current)) [
        | inl (r, q) ↦
            ([], ap (λ t. t.0) (fetch_from_stops (suc rounds) hop original current r q), tt)
        | inr (next, q) ↦
            let (us, e, linked) = fetch_from-AreLinked rounds (hop + 1) original next in
            (
              next ∷ us,
              ap (λ t. t.0) (fetch_from_goes_on (suc rounds) hop original current next q)
                  ∙ ap (◌∷◌ current) e,
              (request-follow hop original current next q, linked),
            )
      ]

  length-fetch_from :
      (rounds hop : ℕ) (original current : String)
      → length (fetch_from f tools lib send rounds hop original current).0 ≤ rounds
  unfolding fetch_from
  length-fetch_from zero hop original current = omega arith
  length-fetch_from (suc rounds) hop original current =
      elim (Next-cases (request f tools lib send hop original current)) [
        | inl (r, q) ↦ rw (fetch_from_stops rounds hop original current r q) (omega arith)
        | inr (next, q) ↦
            rw (fetch_from_goes_on rounds hop original current next q)
              (omega (arith, length-fetch_from rounds (hop + 1) original next))
      ]

  pub validate-cases :
      (r : Result String) → ((u : String) × (r ≡ ok u)) ⊎ ((e : DomainError) × (r ≡ err e))
  validate-cases (ok u) = inl (u, refl)
  validate-cases (err e) = inr (e, refl)

  pub fetch_rejected :
      (url : String) (e : DomainError)
      → validate_url (lib 0) f.allow_private url ≡ err e
      → fetch f tools lib send url ≡ ([], err e)
  unfolding fetch
  fetch_rejected url e q = ground arith

  pub fetch_accepted :
      (url u : String)
      → validate_url (lib 0) f.allow_private url ≡ ok u
      → fetch f tools lib send url ≡ fetch_from f tools lib send (f.max_redirects + 1) 0 u u
  unfolding fetch
  fetch_accepted url u q = ground arith

  -- The first URL that a fetch requests is what the guard made of the URL it was given, and every
  -- further one is what the guard, as it stood before that hop, made of the target of the redirect that
  -- answered the request before; there are at most `max_redirects + 1` requests.
  pub fetch-AreGuarded :
      (url : String)
      → AreGuarded url (fetch f tools lib send url).0
        × (length (fetch f tools lib send url).0 ≤ f.max_redirects + 1)
  fetch-AreGuarded url = elim (validate-cases (validate_url (lib 0) f.allow_private url)) [
    | inl (u, q) ↦
        let (us, e, linked) = fetch_from-AreLinked f.max_redirects 0 u u in
        rw (fetch_accepted url u q) (
          rw (add-one, e) ((validate_url_iff (lib 0) f.allow_private url u).0 q, linked),
          length-fetch_from (f.max_redirects + 1) 0 u u,
        )
    | inr (e, q) ↦ rw (fetch_rejected url e q) (tt, omega arith)
  ]
