-- ===== src/Fetch/Page/Modes.antt =====
-- What a page fetch returns in each render mode, and when the browser can make it fail.
use web_search_api.Prelude.{
  ◌≤◌, ◌<◌, String, ◌≡◌, ◌≢◌, refl, sym, ap, ◌∙◌, subst, ◌↔◌, Bool, true, false, false≢true, some,
  List, [], ◌∷◌, arith, length, Has, Option-cases, inl, inr, ◌⊎◌,
}
use web_search_api.Core.Errors.{
  DomainError, ErrorKind, upstream_error, search_blocked_error, forbidden_url_error,
}
use web_search_api.Core.Result.{Result, ok, err, ◌>>=◌, ◌>>◌, >>=-eq-ok, >>=-eq-err, Result-cases}
use web_search_api.Fetch.Http.{FetchResult}
use web_search_api.Fetch.Page.{
  FetchedPage, Render, auto, never, PageFetcher, is_tolerated, render_fallback_threshold,
  render_page, try_render, check_robots, choose, escalate, plain_page, fetch_by, fetch,
}

-- The errors of the browser that leave the plain page.
abbrev pub degrading : List ErrorKind
degrading = upstream_error ∷ search_blocked_error ∷ forbidden_url_error ∷ []

degrading-untolerated :
    (k : ErrorKind) → ((j : ErrorKind) → Has j degrading → k ≢ j) → is_tolerated k ≡ false
degrading-untolerated upstream_error n = absurd (n upstream_error (inl refl) refl)
degrading-untolerated search_blocked_error n = absurd (n search_blocked_error (inr (inl refl)) refl)
degrading-untolerated forbidden_url_error n =
    absurd (n forbidden_url_error (inr (inr (inl refl))) refl)
degrading-untolerated k n = refl

untolerated-degrading : (k j : ErrorKind) → is_tolerated k ≡ false → Has j degrading → k ≢ j
untolerated-degrading k j f (inl q) e = false≢true (sym f ∙ ap is_tolerated (e ∙ sym q))
untolerated-degrading k j f (inr (inl q)) e = false≢true (sym f ∙ ap is_tolerated (e ∙ sym q))
untolerated-degrading k j f (inr (inr (inl q))) e = false≢true (sym f ∙ ap is_tolerated (e ∙ sym q))
untolerated-degrading k j f (inr (inr (inr m))) e = elim m [ ]

module _ (f : PageFetcher) where
  -- The URL passed the guard, and robots.txt does not stand against it.
  pub record IsCleared (url safe : String) : Type 0 where
    pub guarded : f.validate url ≡ ok safe
    pub permitted :
        (can_fetch : String → Bool)
        → f.robots ≡ some can_fetch
        → f.respect_robots ≡ true
        → can_fetch safe ≡ true

  robots_permitted :
      (safe : String)
      → check_robots f safe ≡ ok tt
      → (can_fetch : String → Bool) → f.robots ≡ some can_fetch
      → f.respect_robots ≡ true
      → can_fetch safe ≡ true
  unfolding check_robots
  robots_permitted safe h can_fetch q r = ground arith

  -- Whatever the mode, a page that is returned was fetched or rendered under the URL that the guard
  -- returned, and neither the guard nor robots.txt refused it.
  pub fetch-IsCleared :
      (url : String) (render : Render) (page : FetchedPage)
      → fetch f url render ≡ ok page
      → (safe : String) × IsCleared url safe × (fetch_by f render safe ≡ ok page)
  unfolding fetch
  fetch-IsCleared url render page h =
      let (safe, v, rest) =
        >>=-eq-ok (f.validate url) (λ s. check_robots f s >> fetch_by f render s) h in
      let (u, r, b) = >>=-eq-ok (check_robots f safe) (λ _. fetch_by f render safe) rest in
      (safe, record { guarded = v; permitted = robots_permitted safe r }, b)

  -- A plain page with text enough, and any page in mode `never`, is returned as it is.
  pub fetch_by_plain :
      (url : String) (plain : FetchedPage)
      → plain_page f url ≡ ok plain
      → (fetch_by f never url ≡ ok plain)
        × (render_fallback_threshold ≤ length plain.content.text → fetch_by f auto url ≡ ok plain)
  unfolding fetch_by escalate
  fetch_by_plain url plain h = (ground arith, λ le. ground arith)

  -- In mode `auto`, where the plain fetch gives a page and the call returns one, what comes back
  -- has at least the text of the plain page, and is the plain page or the rendered one.
  pub fetch_by_auto :
      (url : String) (plain page : FetchedPage)
      → plain_page f url ≡ ok plain
      → fetch_by f auto url ≡ ok page
      → (length plain.content.text ≤ length page.content.text)
        × ((page ≡ plain) ⊎ (render_page f url ≡ ok page))
  unfolding fetch_by escalate try_render choose
  fetch_by_auto url plain page h e = elim (Option-cases f.browser) [
    | inl n ↦ (ground arith, ground arith)
    | inr (b, q) ↦ (ground arith, ground arith)
  ]

  -- The plain page is thin, and the browser fails with an error that is none of those tolerated.
  pub record IsLost (safe : String) (e : DomainError) : Type 0 where
    pub plain : FetchResult
    pub render : String → Result String
    pub fetched : f.http_fetch safe ≡ ok plain
    pub thin : length (f.extract plain.body plain.final_url).text < render_fallback_threshold
    pub has_browser : f.browser ≡ some render
    pub failed : render safe ≡ err e
    pub untolerated : (k : ErrorKind) → Has k degrading → e.kind ≢ k

  escalate_fails :
      (safe : String) (plain : FetchedPage) (e : DomainError)
      → escalate f auto safe plain ≡ err e ↔ (
          (length plain.content.text < render_fallback_threshold)
          × (render : String → Result String) × (f.browser ≡ some render)
          × (render safe ≡ err e)
          × (is_tolerated e.kind ≡ false))
  unfolding escalate try_render render_page
  escalate_fails safe plain e = (forth, λ (thin, render, b, r, t). ground arith)
    where
      forth :
          escalate f auto safe plain ≡ err e
          → (length plain.content.text < render_fallback_threshold)
            × (render : String → Result String) × (f.browser ≡ some render)
            × (render safe ≡ err e)
            × (is_tolerated e.kind ≡ false)
      forth h = elim (Option-cases f.browser) [
        | inl n ↦ absurd (ground arith)
        | inr (render, q) ↦ elim (Result-cases (render safe)) [
          | inr (html, r) ↦ absurd (ground arith)
          | inl (d, r) ↦ (ground arith, render, q, ground arith, ground arith)
        ]
      ]

  fetch_by_auto_fails :
      (safe : String) (e : DomainError)
      → fetch_by f auto safe ≡ err e ↔ ((f.http_fetch safe ≡ err e) ⊎ IsLost safe e)
  unfolding fetch_by plain_page
  fetch_by_auto_fails safe e = (forth, back)
    where
      page_of : FetchResult → FetchedPage
      page_of r = record {
        content = f.extract r.body r.final_url;
        final_url = r.final_url;
        rendered = false;
      }

      forth : fetch_by f auto safe ≡ err e → (f.http_fetch safe ≡ err e) ⊎ IsLost safe e
      forth h = elim ((>>=-eq-err (plain_page f safe) (λ p. escalate f auto safe p) e).0 h) [
        | inl q ↦ elim ((>>=-eq-err (f.http_fetch safe) (λ r. ok (page_of r)) e).0 q) [
          | inl c ↦ inl c
          | inr (r, _, c) ↦ absurd (cc)
        ]
        | inr (p, q, c) ↦
            let (r, g, o) = >>=-eq-ok (f.http_fetch safe) (λ r. ok (page_of r)) q in
            let same : page_of r ≡ p = cc in
            let (thin, render, b, t, u) = (escalate_fails safe p e).0 c in
            inr (record {
              plain = r;
              render = render;
              fetched = g;
              thin = subst (λ x. length x.content.text < render_fallback_threshold) (sym same) thin;
              has_browser = b;
              failed = t;
              untolerated = λ j m. untolerated-degrading e.kind j u m;
            })
      ]

      back : (f.http_fetch safe ≡ err e) ⊎ IsLost safe e → fetch_by f auto safe ≡ err e
      back (inl q) = ground arith
      back (inr l) =
          (>>=-eq-err (f.http_fetch safe >>= (λ r. ok (page_of r))) (λ p. escalate f auto safe p)
              e).1
            (inr (
              page_of l.plain,
              ap (λ x. x >>= (λ r. ok (page_of r))) l.fetched,
              (escalate_fails safe (page_of l.plain) e).1 (
                l.thin,
                l.render,
                l.has_browser,
                l.failed,
                degrading-untolerated e.kind l.untolerated,
              ),
            ))

  -- In mode `auto` a fetch fails exactly where the guard or robots.txt refuses the URL or the plain fetch
  -- fails, with their error, or where the plain page is thin and the browser fails with an error that is
  -- neither an upstream error nor a forbidden URL, such as a timeout: then that error is raised, and the
  -- plain page is lost. Any other failure of the browser leaves the fetch a success.
  pub fetch_auto_fails :
      (url : String) (e : DomainError)
      → fetch f url auto ≡ err e ↔ (
          (f.validate url ≡ err e)
          ⊎ ((safe : String) × (f.validate url ≡ ok safe)
              × ((check_robots f safe ≡ err e)
                  ⊎ ((check_robots f safe ≡ ok tt)
                      × ((f.http_fetch safe ≡ err e) ⊎ IsLost safe e)))))
  unfolding fetch
  fetch_auto_fails url e = (forth, back)
    where
      forth :
          fetch f url auto ≡ err e
          → (f.validate url ≡ err e)
            ⊎ ((safe : String) × (f.validate url ≡ ok safe)
                × ((check_robots f safe ≡ err e)
                    ⊎ ((check_robots f safe ≡ ok tt)
                        × ((f.http_fetch safe ≡ err e) ⊎ IsLost safe e))))
      forth h =
          elim ((>>=-eq-err (f.validate url) (λ s. check_robots f s >> fetch_by f auto s) e).0 h) [
            | inl q ↦ inl q
            | inr (safe, q, c) ↦ inr (
              safe,
              q,
              elim ((>>=-eq-err (check_robots f safe) (λ _. fetch_by f auto safe) e).0 c) [
                | inl r ↦ inl r
                | inr (_, r, b) ↦ inr (r, (fetch_by_auto_fails safe e).0 b)
              ],
            )
          ]

      back :
          (f.validate url ≡ err e)
            ⊎ ((safe : String) × (f.validate url ≡ ok safe)
                × ((check_robots f safe ≡ err e)
                    ⊎ ((check_robots f safe ≡ ok tt)
                        × ((f.http_fetch safe ≡ err e) ⊎ IsLost safe e))))
          → fetch f url auto ≡ err e
      back (inl q) = ground arith
      back (inr (safe, q, inl r)) = ground arith
      back (inr (safe, q, inr (r, b))) = let c = (fetch_by_auto_fails safe e).1 b in ground arith
