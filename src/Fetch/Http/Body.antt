-- ===== src/Fetch/Http/Body.antt =====
-- What a successful fetch returns, and how much of a body is read for it.
use mathlib.Core.List.{append_assoc, append-nil}
use web_search_api.Prelude.{
  ℕ, zero, suc, ◌+◌, ◌≤◌, ◌<◌, String, ◌≡◌, refl, sym, ap, ◌∙◌, true, false, List, [], ◌∷◌, ◌++◌,
  ◌⊎◌, inl, inr, arith, length, take, map, Bool-cases, Option-cases, ltb, ltb→lt, leb,
  length-take-le, or_else, str_eq, eq_iff,
}
use web_search_api.Core.Result.{ok, ◌>>=◌, >>=-eq-ok}
use web_search_api.Fetch.UrlSafety.{UrlLibrary, validate_url}
use web_search_api.Fetch.Http.{
  HttpFetcher, TextLibrary, Chunk, bytes, Response, Exchange, FetchResult, finish, textual_prefixes,
  is_textual, read_chunks, read_capped, to_result, location_of, after_response, request, fetch_from,
  fetch,
}
use web_search_api.Fetch.Http.Hops.{
  Exchange-cases, Next-cases, fetch_from_stops, fetch_from_goes_on, validate-cases, fetch_rejected,
  fetch_accepted,
}

abbrev pub join : List (List ℕ) → List ℕ
join [] = []
join (b ∷ bs) = b ++ join bs

take-append : (n : ℕ) (xs ys : List ℕ) → n ≤ length xs → take n (xs ++ ys) ≡ take n xs
take-append zero xs ys h = refl
take-append (suc n) [] ys h = absurd (omega arith)
take-append (suc n) (x ∷ xs) ys h = ap (◌∷◌ x) (take-append n xs ys (omega arith))

module _ (f : HttpFetcher) where
  read_chunks_long :
      (url : String) (buffer b : List ℕ) (cs : List Chunk)
      → f.max_bytes < length (buffer ++ b)
      → read_chunks f url buffer (bytes b ∷ cs) ≡ ok (buffer ++ b)
  unfolding read_chunks
  read_chunks_long url buffer b cs h = ground arith

  read_chunks_short :
      (url : String) (buffer b : List ℕ) (cs : List Chunk)
      → length (buffer ++ b) ≤ f.max_bytes
      → read_chunks f url buffer (bytes b ∷ cs) ≡ read_chunks f url (buffer ++ b) cs
  unfolding read_chunks
  read_chunks_short url buffer b cs h = ground arith

  read_chunks_prefix :
      (url : String) (buffer : List ℕ) (bs : List (List ℕ)) (rest : List Chunk)
      → length buffer ≤ f.max_bytes
      → (f.max_bytes < length (buffer ++ join bs)) ⊎ (rest ≡ [])
      → (r : List ℕ) × (read_chunks f url buffer (map bytes bs ++ rest) ≡ ok r)
        × (take f.max_bytes r ≡ take f.max_bytes (buffer ++ join bs))
  read_chunks_prefix url buffer [] rest h (inl long) =
      absurd (let e = ap length (append-nil buffer) in omega arith)
  read_chunks_prefix url buffer [] rest h (inr none_left) = (
    buffer,
    rw none_left (unfold read_chunks in refl),
    ap (take f.max_bytes) (sym (append-nil buffer)),
  )
  read_chunks_prefix url buffer (b ∷ bs) rest h w =
      elim (Bool-cases (ltb f.max_bytes (length (buffer ++ b)))) [
        | inl t ↦
            let over = ltb→lt f.max_bytes (length (buffer ++ b)) t in
            (
              buffer ++ b,
              read_chunks_long url buffer b (map bytes bs ++ rest) over,
              sym (
                  ap (take f.max_bytes) (sym (append_assoc buffer b (join bs)))
                  ∙ take-append f.max_bytes (buffer ++ b) (join bs) (omega arith)),
            )
        | inr t ↦
            let fits : length (buffer ++ b) ≤ f.max_bytes = ground arith in
            let e : (buffer ++ b) ++ join bs ≡ buffer ++ (b ++ join bs) =
              append_assoc buffer b (join bs) in
            let (r, q, s) =
              read_chunks_prefix url (buffer ++ b) bs rest fits
                (elim w [ inl long ↦ inl (let e' = ap length e in omega arith) | inr n ↦ inr n ]) in
            (
              r,
              read_chunks_short url buffer b (map bytes bs ++ rest) fits ∙ q,
              s ∙ ap (take f.max_bytes) e,
            )
      ]

  -- Once more than `max_bytes` bytes have come, nothing later in the stream matters, be it endless,
  -- stalled or broken: the body is the first `max_bytes` bytes. A stream that ends before gives the
  -- same, which is all of it.
  pub read_capped-take :
      (url : String) (bs : List (List ℕ)) (rest : List Chunk)
      → (f.max_bytes < length (join bs)) ⊎ (rest ≡ [])
      → read_capped f url (map bytes bs ++ rest) ≡ ok (take f.max_bytes (join bs))
  read_capped-take url bs rest w =
      let (r, q, s) = read_chunks_prefix url [] bs rest (omega arith) w in
      unfold read_capped in rw q (ap ok s)

  read_capped_bounded :
      (url : String) (cs : List Chunk) (b : List ℕ)
      → read_capped f url cs ≡ ok b
      → length b ≤ f.max_bytes
  unfolding read_capped
  read_capped_bounded url cs b h =
      let (r, _, q) = >>=-eq-ok (read_chunks f url [] cs) (λ x. ok (take f.max_bytes x)) h in
      let e : take f.max_bytes r ≡ b = cc in rw (← e) (length-take-le f.max_bytes r)

  module _ (tools : TextLibrary) where
    -- A document that was fetched: a status below 400, no type or a textual one, and a body decoded
    -- from at most `max_bytes` bytes.
    pub record IsDocument (original : String) (d : FetchResult) : Type 0 where
      pub same_url : d.url ≡ original
      pub status_fine : d.status_code < 400
      pub type_fine : (d.content_type ≡ "") ⊎ (is_textual d.content_type textual_prefixes ≡ true)
      pub encoding : String
      pub raw : List ℕ
      pub raw_bounded : length raw ≤ f.max_bytes
      pub decoded : d.body ≡ tools.decode encoding raw

    abbrev document : String → String → Response → List ℕ → FetchResult
    document original final r b = record {
      url = original;
      final_url = final;
      status_code = r.status_code;
      content_type = tools.media_type (or_else r.content_type "");
      body = tools.decode (or_else r.encoding "utf-8") b;
    }

    to_result-checked :
        (original final : String) (r : Response) (d : FetchResult)
        → to_result f tools original final r ≡ ok d
        → (leb 400 r.status_code ≡ false)
          × ((str_eq (tools.media_type (or_else r.content_type "")) "" ≡ true)
              ⊎ (is_textual (tools.media_type (or_else r.content_type "")) textual_prefixes ≡ true))
          × ((read_capped f final r.chunks >>= λ b. ok (document original final r b)) ≡ ok d)
    unfolding to_result
    to_result-checked original final r d h = (ground arith, ground arith, ground arith)

    to_result-IsDocument :
        (original final : String) (r : Response) (d : FetchResult)
        → to_result f tools original final r ≡ ok d
        → IsDocument original d
    to_result-IsDocument original final r d h =
        let (s, t, c) = to_result-checked original final r d h in
        let (b, q, e) =
          >>=-eq-ok (read_capped f final r.chunks) (λ b. ok (document original final r b)) c in
        let e' : document original final r b ≡ d = cc in
        rw (← e') (record {
          same_url = refl;
          status_fine = ground arith;
          type_fine = elim t [ inl m ↦ inl ((eq_iff _ "").0 m) | inr m ↦ inr m ];
          encoding = or_else r.encoding "utf-8";
          raw = b;
          raw_bounded = read_capped_bounded final r.chunks b q;
          decoded = refl;
        })

    to_result-final_url :
        (original final : String) (r : Response) (d : FetchResult)
        → to_result f tools original final r ≡ ok d
        → d.final_url ≡ final
    to_result-final_url original final r d h =
        let (s, t, c) = to_result-checked original final r d h in
        let (b, q, e) =
          >>=-eq-ok (read_capped f final r.chunks) (λ b. ok (document original final r b)) c in
        let e' : document original final r b ≡ d = cc in
        ap (λ (x : FetchResult). x.final_url) (sym e')

    module _ (lib : ℕ → UrlLibrary) (send : ℕ → String → Exchange) where
      after_response-finish :
          (hop : ℕ) (original current : String) (r : Response) (d : FetchResult)
          → after_response f tools lib send hop original current r ≡ finish (ok d)
          → to_result f tools original current r ≡ ok d
      unfolding after_response
      after_response-finish hop original current r d h = elim (Bool-cases r.is_redirect) [
        | inr n ↦ ground arith
        | inl y ↦ elim (Option-cases (location_of f tools r)) [
          | inl n ↦ absurd (ground arith)
          | inr (l, q) ↦
              elim (validate-cases f tools lib send
                (validate_url (lib (hop + 1)) f.allow_private (tools.urljoin current l))) [
                  | inl (u, v) ↦ absurd (ground arith)
                  | inr (e, v) ↦ absurd (ground arith)
                ]
        ]
      ]

      request-finish :
          (hop : ℕ) (original current : String) (d : FetchResult)
          → request f tools lib send hop original current ≡ finish (ok d)
          → IsDocument original d × (d.final_url ≡ current)
      unfolding request
      request-finish hop original current d h = elim (Exchange-cases (send hop current)) [
        | inl q ↦ absurd (ground arith)
        | inr (inl (m, q)) ↦ absurd (ground arith)
        | inr (inr (r, q)) ↦
            let t = after_response-finish hop original current r d (ground arith) in
            (
              to_result-IsDocument original current r d t,
              to_result-final_url original current r d t,
            )
      ]

      -- The last of some URLs.
      abbrev pub last_or : String → List String → String
      last_or d [] = d
      last_or d (u ∷ us) = last_or u us

      fetch_from-IsDocument :
          (rounds hop : ℕ) (original current start : String) (d : FetchResult)
          → (fetch_from f tools lib send rounds hop original current).1 ≡ ok d
          → IsDocument original d
            × (d.final_url
                ≡ last_or start (fetch_from f tools lib send rounds hop original current).0)
      fetch_from-IsDocument zero hop original current start d h = absurd (unfold fetch_from in cc h)
      fetch_from-IsDocument (suc rounds) hop original current start d h =
          elim (Next-cases f tools lib send (request f tools lib send hop original current)) [
            | inl (r, q) ↦
                let e = fetch_from_stops f tools lib send rounds hop original current r q in
                let r_ok : r ≡ ok d = cc in
                let (doc, final) = request-finish hop original current d (q ∙ ap finish r_ok) in
                (doc, rw e final)
            | inr (next, q) ↦
                let e = fetch_from_goes_on f tools lib send rounds hop original current next q in
                let (doc, final) =
                  fetch_from-IsDocument rounds (hop + 1) original next current d (rw e at h) in
                (doc, rw e final)
          ]

      -- A fetch that succeeds returns a readable document under the normalised URL that was asked for,
      -- and its `final_url` is the last URL that was requested.
      pub fetch-IsDocument :
          (url : String) (d : FetchResult)
          → (fetch f tools lib send url).1 ≡ ok d
          → (original : String) × (validate_url (lib 0) f.allow_private url ≡ ok original)
            × IsDocument original d
            × (d.final_url ≡ last_or original (fetch f tools lib send url).0)
      fetch-IsDocument url d h =
          elim (validate-cases f tools lib send (validate_url (lib 0) f.allow_private url)) [
            | inl (u, q) ↦
                let e = fetch_accepted f tools lib send url u q in
                let (doc, final) =
                  fetch_from-IsDocument (f.max_redirects + 1) 0 u u u d (rw e at h) in
                (u, q, doc, rw e final)
            | inr (x, q) ↦ let e = fetch_rejected f tools lib send url x q in absurd (cc)
          ]
