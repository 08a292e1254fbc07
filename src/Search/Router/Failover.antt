-- ===== src/Search/Router/Failover.antt =====
-- Which backend's answer a search returns.
use web_search_api.Prelude.{
  ℕ, suc, ◌+◌, ◌≤◌, ◌<◌, String, ◌≡◌, ◌≢◌, refl, sym, ap, ◌∙◌, true, false, Option, none, some,
  List, [], ◌∷◌, ◌++◌, map, arith, length, All, or_else,
}
use web_search_api.Core.Errors.{DomainError, is_upstream, provider_unavailable_error, make_error}
use web_search_api.Core.Result.{Result, ok, err}
use web_search_api.Search.Base.{SearchQuery, SearchResponse, is_empty}
use web_search_api.Search.Router.{
  Backend, SearchRouter, skip, go_on, leave, ordered, exhausted, judge, try_backend, search_loop,
  search, nothing_found,
}
use web_search_api.Search.Router.Order.{length-map, ordered_lem}

-- The backend does not decide the search: it is not configured, it is blocked or fails upstream, or
-- it finds nothing.
pub data Passes (query : SearchQuery) (b : Backend) : Type 0 where
  unconfigured : b.is_configured ≡ ok false → Passes query b
  failed :
      (e : DomainError)
      → b.is_configured ≡ ok true
      → b.search query ≡ err e
      → is_upstream e.kind ≡ true
      → Passes query b
  found_nothing :
      (r : SearchResponse)
      → b.is_configured ≡ ok true
      → b.search query ≡ ok r
      → is_empty r ≡ true
      → Passes query b

abbrev pub IsUnconfigured : Backend → Type 0
IsUnconfigured b = b.is_configured ≡ ok false

pub data Any {ℓ κ} {A : Type ℓ} (P : A → Type κ) : List A → Type (ℓ ⊔ κ) where
  at_head : {x : A} {xs : List A} → P x → Any P (x ∷ xs)
  later : {x : A} {xs : List A} → Any P xs → Any P (x ∷ xs)

module _ {Caller : Type 0} (router : SearchRouter Caller) (query : SearchQuery) where
  -- A backend that passes, asked while another one is left to ask, lets the loop go on.
  data Continues (attempted : ℕ) (last : Option DomainError) (b : Backend) : Type 0 where
    skipped : try_backend router query attempted last b ≡ skip → Continues attempted last b
    asked :
        (last' : Option DomainError)
        → try_backend router query attempted last b ≡ go_on last'
        → Continues attempted last b

  Passes-Continues :
      (attempted : ℕ) (last : Option DomainError) (b : Backend)
      → attempted + 1 < length router.backends
      → Passes query b
      → Continues attempted last b
  unfolding try_backend judge
  Passes-Continues attempted last b room (unconfigured c) = skipped (ground arith)
  Passes-Continues attempted last b room (failed e c s u) = asked (some e) (ground arith)
  Passes-Continues attempted last b room (found_nothing r c s n) =
      asked (some (or_else last (nothing_found router b.name))) (ground arith)

  loop_skip :
      (n : ℕ) (last : Option DomainError) (b : Backend) (bs : List Backend)
      → try_backend router query n last b ≡ skip
      → search_loop router query n last (b ∷ bs) ≡ search_loop router query n last bs
  unfolding search_loop
  loop_skip n last b bs q = ground arith

  loop_go_on :
      (n : ℕ) (last last' : Option DomainError) (b : Backend) (bs : List Backend)
      → try_backend router query n last b ≡ go_on last'
      → (search_loop router query n last (b ∷ bs)).1 ≡ (search_loop router query (n + 1) last' bs).1
  unfolding search_loop
  loop_go_on n last last' b bs q = ground arith

  loop_leave :
      (n : ℕ) (last : Option DomainError) (b : Backend) (bs : List Backend)
      (r : Result SearchResponse)
      → try_backend router query n last b ≡ leave r
      → (search_loop router query n last (b ∷ bs)).1 ≡ r
  unfolding search_loop
  loop_leave n last b bs r q = ground arith

  -- After backends that pass, the loop stands before the next with no more attempts than those.
  loop-Passes :
      (n : ℕ) (last : Option DomainError) (before : List Backend) (b : Backend)
      (after : List Backend)
      → n + length before + suc (length after) ≤ length router.backends
      → All (Passes query) before
      → (n' : ℕ) × (last' : Option DomainError) × ((search_loop router query n last
            (before ++ b ∷ after)).1
          ≡ (search_loop router query n' last' (b ∷ after)).1)
        × (n' + suc (length after) ≤ length router.backends)
  loop-Passes n last [] b after h p = (n, last, refl, omega arith)
  loop-Passes n last (x ∷ before) b after h p = elim (Passes-Continues n last x (omega arith) p.0) [
    | skipped q ↦
        let (n', last', e, le) = loop-Passes n last before b after (omega arith) p.1 in
        (n', last', ap (λ t. t.1) (loop_skip n last x (before ++ b ∷ after) q) ∙ e, le)
    | asked l q ↦
        let (n', last', e, le) = loop-Passes (n + 1) l before b after (omega arith) p.1 in
        (n', last', loop_go_on n last l x (before ++ b ∷ after) q ∙ e, le)
  ]

  try_found :
      (n : ℕ) (last : Option DomainError) (b : Backend) (r : SearchResponse)
      → b.is_configured ≡ ok true
      → b.search query ≡ ok r
      → is_empty r ≡ false
      → try_backend router query n last b ≡ leave (ok r)
  unfolding try_backend judge
  try_found n last b r c s f = ground arith

  try_aborts :
      (n : ℕ) (last : Option DomainError) (b : Backend) (e : DomainError)
      → b.is_configured ≡ ok true
      → b.search query ≡ err e
      → is_upstream e.kind ≡ false
      → try_backend router query n last b ≡ leave (err e)
  unfolding try_backend judge
  try_aborts n last b e c s f = ground arith

  abbrev attempts : Option Caller → Option String → List Backend
  attempts caller preferred = map (router.bind caller) (ordered router preferred)

  length-attempts :
      (caller : Option Caller) (preferred : Option String)
      → length (attempts caller preferred) ≡ length router.backends
  length-attempts caller preferred =
      length-map (router.bind caller) (ordered router preferred) ∙ (ordered_lem router preferred).0

  length-around :
      (before : List Backend) (b : Backend) (after : List Backend)
      → length (before ++ b ∷ after) ≡ length before + suc (length after)
  length-around [] b after = omega arith
  length-around (x ∷ before) b after = omega (arith, length-around before b after)

  -- Failover: where the backends ahead of it are not configured, are blocked or fail upstream, or find
  -- nothing, the first backend that finds something answers the search.
  pub search_fails_over :
      (caller : Option Caller) (preferred : Option String) (before : List Backend) (b : Backend)
      (after : List Backend) (r : SearchResponse)
      → map (router.bind caller) (ordered router preferred) ≡ before ++ b ∷ after
      → All (Passes query) before
      → b.is_configured ≡ ok true
      → b.search query ≡ ok r
      → is_empty r ≡ false
      → (search router query caller preferred).1 ≡ ok r
  unfolding search
  search_fails_over caller preferred before b after r e p c s f =
      let size = sym (ap length e) ∙ length-attempts caller preferred in
      let (n, last, q, _) =
        loop-Passes 0 none before b after (omega (arith, length-around before b after)) p in
      ap (λ bs. (search_loop router query 0 none bs).1) e
      ∙ q
      ∙ loop_leave n last b after (ok r) (try_found n last b r c s f)

  -- No failover from other failures: behind backends that do not decide the search, a configured
  -- backend that raises anything but an upstream error, a timeout for one, ends the search with
  -- its error, whatever backends are left.
  pub search_aborts :
      (caller : Option Caller) (preferred : Option String) (before : List Backend) (b : Backend)
      (after : List Backend) (e : DomainError)
      → map (router.bind caller) (ordered router preferred) ≡ before ++ b ∷ after
      → All (Passes query) before
      → b.is_configured ≡ ok true
      → b.search query ≡ err e
      → is_upstream e.kind ≡ false
      → (search router query caller preferred).1 ≡ err e
  unfolding search
  search_aborts caller preferred before b after e o p c s f =
      let size = sym (ap length o) ∙ length-attempts caller preferred in
      let (n, last, q, _) =
        loop-Passes 0 none before b after (omega (arith, length-around before b after)) p in
      ap (λ bs. (search_loop router query 0 none bs).1) o
      ∙ q
      ∙ loop_leave n last b after (err e) (try_aborts n last b e c s f)

  abbrev pub IsUnavailable : Result SearchResponse → Type 0
  IsUnavailable r = (e : DomainError) × (r ≡ err e) × (e.kind ≡ provider_unavailable_error)

  exhausted_kind :
      (n : ℕ) (last : Option DomainError)
      → (exhausted router n last).kind ≡ provider_unavailable_error
  unfolding exhausted make_error
  exhausted_kind n last = ground arith

  -- While an unconfigured backend is still ahead, no backend is the last one to be asked.
  loop-IsUnavailable :
      (n : ℕ) (last : Option DomainError) (bs : List Backend)
      → n + length bs < length router.backends
      → All (Passes query) bs
      → IsUnavailable (search_loop router query n last bs).1
  loop-IsUnavailable n last [] h p =
      unfold search_loop in (exhausted router n last, refl, exhausted_kind n last)
  loop-IsUnavailable n last (b ∷ bs) h p = elim (Passes-Continues n last b (omega arith) p.0) [
    | skipped q ↦
        let e = ap (λ t. t.1) (loop_skip n last b bs q) in
        rw e (loop-IsUnavailable n last bs (omega arith) p.1)
    | asked l q ↦
        rw (loop_go_on n last l b bs q) (loop-IsUnavailable (n + 1) l bs (omega arith) p.1)
  ]

  loop-IsUnavailable_any :
      (n : ℕ) (last : Option DomainError) (bs : List Backend)
      → n + length bs ≤ length router.backends
      → All (Passes query) bs
      → Any IsUnconfigured bs
      → IsUnavailable (search_loop router query n last bs).1
  loop-IsUnavailable_any n last [] h p a = elim a [ ]
  loop-IsUnavailable_any n last (b ∷ bs) h p (at_head c) =
      rw (ap (λ t. t.1) (loop_skip n last b bs (unfold try_backend in ground arith)))
        (loop-IsUnavailable n last bs (omega arith) p.1)
  loop-IsUnavailable_any n last (b ∷ []) h p (later a) = elim a [ ]
  loop-IsUnavailable_any n last (b ∷ b' ∷ bs) h p (later a) =
      elim (Passes-Continues n last b (omega arith) p.0) [
        | skipped q ↦
            rw (ap (λ t. t.1) (loop_skip n last b (b' ∷ bs) q))
              (loop-IsUnavailable_any n last (b' ∷ bs) (omega arith) p.1 a)
        | asked l q ↦
            rw (loop_go_on n last l b (b' ∷ bs) q)
              (loop-IsUnavailable_any (n + 1) l (b' ∷ bs) (omega arith) p.1 a)
      ]

  -- Where one backend is not configured, and every backend is not configured, fails upstream or
  -- finds nothing, a search fails with "unavailable", also when every configured backend answered
  -- that there are no results.
  pub search-IsUnavailable :
      (caller : Option Caller) (preferred : Option String)
      → All (Passes query) (map (router.bind caller) (ordered router preferred))
      → Any IsUnconfigured (map (router.bind caller) (ordered router preferred))
      → IsUnavailable (search router query caller preferred).1
  unfolding search
  search-IsUnavailable caller preferred p a =
      let size = length-attempts caller preferred in
      loop-IsUnavailable_any 0 none (attempts caller preferred) (omega arith) p a

  -- The backend is configured and answers with no results.
  abbrev pub FindsNothing : Backend → Type 0
  FindsNothing b =
      (b.is_configured ≡ ok true)
      × ((r : SearchResponse) × (b.search query ≡ ok r) × (is_empty r ≡ true))

  try_nothing :
      (n : ℕ) (last : Option DomainError) (b : Backend) (r : SearchResponse)
      → length router.backends ≤ n + 1
      → b.is_configured ≡ ok true
      → b.search query ≡ ok r
      → try_backend router query n last b ≡ leave (ok r)
  unfolding try_backend judge
  try_nothing n last b r h c s = ground arith

  loop_empty :
      (n : ℕ) (last : Option DomainError) (b : Backend) (bs : List Backend)
      → n + suc (length bs) ≡ length router.backends
      → All FindsNothing (b ∷ bs)
      → (r : SearchResponse) × ((search_loop router query n last (b ∷ bs)).1 ≡ ok r)
        × (is_empty r ≡ true)
  loop_empty n last b [] h ((c, (r, s, f)), _) =
      (r, loop_leave n last b [] (ok r) (try_nothing n last b r (omega arith) c s), f)
  loop_empty n last b (b' ∷ bs) h ((c, (r, s, f)), p) =
      elim (Passes-Continues n last b (omega arith) (found_nothing r c s f)) [
        | skipped q ↦ absurd (unfold try_backend judge in ground arith)
        | asked l q ↦
            let (r', e, f') = loop_empty (n + 1) l b' bs (omega arith) p in
            (r', loop_go_on n last l b (b' ∷ bs) q ∙ e, f')
      ]

  -- Where there are backends, and every one is configured and finds nothing, the search returns an
  -- empty answer.
  pub search_empty :
      (caller : Option Caller) (preferred : Option String)
      → router.backends ≢ []
      → All FindsNothing (map (router.bind caller) (ordered router preferred))
      → (r : SearchResponse) × ((search router query caller preferred).1 ≡ ok r)
        × (is_empty r ≡ true)
  unfolding search
  search_empty caller preferred some_backend p =
      from (attempts caller preferred) (length-attempts caller preferred) p
    where
      from :
          (bs : List Backend)
          → length bs ≡ length router.backends
          → All FindsNothing bs
          → (r : SearchResponse) × ((search_loop router query 0 none bs).1 ≡ ok r)
            × (is_empty r ≡ true)
      from [] e q = absurd (some_backend (empty router.backends (sym e)))
        where
          empty : (bs : List Backend) → length bs ≡ 0 → bs ≡ []
          empty [] e = refl
          empty (b ∷ bs) e = absurd (omega arith)
      from (b ∷ bs) e q = loop_empty 0 none b bs (omega arith) q
