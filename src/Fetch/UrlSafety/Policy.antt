-- ===== src/Fetch/UrlSafety/Policy.antt =====
-- What `validate_url` lets through, stated without its control flow.
use web_search_api.Prelude.{
  String, ◌≡◌, ◌≢◌, refl, sym, ap, ◌∙◌, ◌↔◌, Bool, true, false, none, some, List, [], ◌∷◌, arith,
  All, Option-cases, inl, inr, ◌⊎◌, eq_iff, str_eq_of_ne, if◌then◌else◌, false≢true,
}
use web_search_api.Core.Result.{ok, >>=-eq-ok}
use web_search_api.Fetch.UrlSafety.{
  SplitUrl, Parsed, value_error, parsed, IpAddress, UrlLibrary, is_member, allowed_schemes,
  cloud_metadata_hosts, local_hosts, normalise_parts, assert_public_ip, assert_all_public,
  check_resolved, check_address, check_host, host_of, check_parts, validate_url,
}

Parsed-cases :
    (p : Parsed) → ((m : String) × (p ≡ value_error m)) ⊎ ((s : SplitUrl) × (p ≡ parsed s))
Parsed-cases (value_error m) = inl (m, refl)
Parsed-cases (parsed s) = inr (s, refl)

module _ (lib : UrlLibrary) where
  open lib use {strip, strip_brackets, lower, urlsplit, ip_address, resolve}

  -- The text is an address, and a routable one.
  abbrev pub IsPublic : String → Type 0
  IsPublic a =
      (ip : IpAddress) × (ip_address a ≡ some ip)
      × (ip.is_global ≡ true)
      × (ip.is_multicast ≡ false)

  -- The host stands for an address, and every address that it stands for is public unless private
  -- ones are allowed.
  pub data Reaches (allow_private : Bool) (host : String) : Type 0 where
    literal :
        (ip : IpAddress)
        → ip_address (strip_brackets host) ≡ some ip
        → (allow_private ≡ false → IsPublic ip.text)
        → Reaches allow_private host
    named :
        (addresses : List String)
        → ip_address (strip_brackets host) ≡ none
        → resolve host ≡ some addresses
        → addresses ≢ []
        → (allow_private ≡ false → All IsPublic addresses)
        → Reaches allow_private host

  assert_public_ip-IsPublic : (a host : String) → assert_public_ip lib a host ≡ ok tt → IsPublic a
  unfolding assert_public_ip
  assert_public_ip-IsPublic a host h = elim (Option-cases (ip_address a)) [
    | inl n ↦ absurd (ground arith)
    | inr (ip, q) ↦ (ip, q, ground arith, ground arith)
  ]

  IsPublic-assert_public_ip : (a host : String) → IsPublic a → assert_public_ip lib a host ≡ ok tt
  unfolding assert_public_ip
  IsPublic-assert_public_ip a host (ip, q, g, m) = ground arith

  assert_all_public-All :
      (as' : List String) (host : String)
      → assert_all_public lib as' host ≡ ok tt
      → All IsPublic as'
  unfolding assert_all_public
  assert_all_public-All [] host h = tt
  assert_all_public-All (a ∷ rest) host h =
      let (u, p, q) =
        >>=-eq-ok (assert_public_ip lib a host) (λ _. assert_all_public lib rest host) h in
      (assert_public_ip-IsPublic a host p, assert_all_public-All rest host q)

  All-assert_all_public :
      (as' : List String) (host : String)
      → All IsPublic as'
      → assert_all_public lib as' host ≡ ok tt
  unfolding assert_all_public
  All-assert_all_public [] host h = refl
  All-assert_all_public (a ∷ rest) host h =
      ground (arith, IsPublic-assert_public_ip a host h.0, All-assert_all_public rest host h.1)

  literal_check :
      (allow : Bool) (ip : IpAddress) (host : String)
      → (if allow then ok tt else assert_public_ip lib ip.text host) ≡ ok tt
      → allow ≡ false
      → IsPublic ip.text
  literal_check true ip host h e = cc
  literal_check false ip host h e = assert_public_ip-IsPublic ip.text host h

  named_check :
      (allow : Bool) (as' : List String) (host : String)
      → (if allow then ok tt else assert_all_public lib as' host) ≡ ok tt
      → allow ≡ false
      → All IsPublic as'
  named_check true as' host h e = absurd (false≢true (sym e))
  named_check false as' host h e = assert_all_public-All as' host h

  check_address-Reaches :
      (allow : Bool) (host : String) → check_address lib allow host ≡ ok tt → Reaches allow host
  unfolding check_address check_resolved
  check_address-Reaches allow host h = elim (Option-cases (ip_address (strip_brackets host))) [
    | inr (ip, q) ↦ literal ip q (literal_check allow ip host (ground arith))
    | inl n ↦ elim (Option-cases (resolve host)) [
      | inl m ↦ absurd (ground arith)
      | inr ([], r) ↦ absurd (ground arith)
      | inr (a ∷ rest, r) ↦
          named (a ∷ rest) n r (λ e. cc) (named_check allow (a ∷ rest) host (ground arith))
    ]
  ]

  Reaches-check_address :
      (allow : Bool) (host : String) → Reaches allow host → check_address lib allow host ≡ ok tt
  unfolding check_address check_resolved
  Reaches-check_address true host (literal ip q p) = ground arith
  Reaches-check_address false host (literal ip q p) =
      ground (arith, IsPublic-assert_public_ip ip.text host (p refl))
  Reaches-check_address allow host (named [] n r e p) = absurd (e refl)
  Reaches-check_address true host (named (a ∷ rest) n r e p) = ground arith
  Reaches-check_address false host (named (a ∷ rest) n r e p) =
      ground (arith, All-assert_all_public (a ∷ rest) host (p refl))

  -- A URL that may be fetched, and the text that is fetched for it.
  pub record IsAllowed (allow_private : Bool) (url fetched : String) : Type 0 where
    pub parts : SplitUrl
    pub host : String
    pub split : urlsplit (strip url) ≡ parsed parts
    pub scheme_allowed : is_member (lower parts.scheme) allowed_schemes ≡ true
    pub has_host : parts.hostname ≡ some host
    pub host_nonempty : host ≢ ""
    pub not_metadata : is_member (lower host) cloud_metadata_hosts ≡ false
    pub not_local : allow_private ≡ false → is_member (lower host) local_hosts ≡ false
    pub reaches : Reaches allow_private (lower host)
    pub normalised : fetched ≡ normalise_parts lib parts

  check_host-passes :
      (allow : Bool) (h : String)
      → check_host lib allow h ≡ ok tt
      → (is_member h cloud_metadata_hosts ≡ false)
        × (allow ≡ false → is_member h local_hosts ≡ false)
        × (check_address lib allow h ≡ ok tt)
  unfolding check_host
  check_host-passes allow h e = (ground arith, λ f. ground arith, ground arith)

  passes-check_host :
      (allow : Bool) (h : String)
      → is_member h cloud_metadata_hosts ≡ false
      → (allow ≡ false → is_member h local_hosts ≡ false)
      → check_address lib allow h ≡ ok tt
      → check_host lib allow h ≡ ok tt
  unfolding check_host
  passes-check_host true h m l c = ground arith
  passes-check_host false h m l c = let l' = l refl in ground arith

  check_parts-passes :
      (allow : Bool) (parts : SplitUrl) (u : String)
      → check_parts lib allow parts ≡ ok u
      → (is_member (lower parts.scheme) allowed_schemes ≡ true)
        × ((h : String) × (parts.hostname ≡ some h)
            × (h ≢ "")
            × (check_host lib allow (lower h) ≡ ok tt)
            × (u ≡ normalise_parts lib parts))
  unfolding check_parts host_of
  check_parts-passes allow parts u e = elim (Option-cases parts.hostname) [
    | inl n ↦ absurd (ground arith)
    | inr (h, q) ↦ (
      ground arith,
      (h, q, λ n. ground (arith, eq_iff h ""), passed h q, ground (arith, passed h q)),
    )
  ]
    where
      passed : (h : String) → parts.hostname ≡ some h → check_host lib allow (lower h) ≡ ok tt
      passed h q = ground arith

  passes-check_parts :
      (allow : Bool) (parts : SplitUrl) (h : String)
      → is_member (lower parts.scheme) allowed_schemes ≡ true
      → parts.hostname ≡ some h
      → h ≢ ""
      → check_host lib allow (lower h) ≡ ok tt
      → check_parts lib allow parts ≡ ok (normalise_parts lib parts)
  unfolding check_parts host_of
  passes-check_parts allow parts h s q n c = let e = str_eq_of_ne h "" n in ground arith

  split_ok :
      (allow : Bool) (url u : String)
      → validate_url lib allow url ≡ ok u
      → (parts : SplitUrl) × (urlsplit (strip url) ≡ parsed parts)
        × (check_parts lib allow parts ≡ ok u)
  unfolding validate_url
  split_ok allow url u e = elim (Parsed-cases (urlsplit (strip url))) [
    | inl (m, q) ↦ absurd (ground arith)
    | inr (parts, q) ↦ (parts, q, ground arith)
  ]

  split_back :
      (allow : Bool) (url : String) (parts : SplitUrl)
      → urlsplit (strip url) ≡ parsed parts
      → validate_url lib allow url ≡ check_parts lib allow parts
  unfolding validate_url
  split_back allow url parts q = ground arith

  -- `validate_url` returns a URL exactly if it is allowed: an http or https URL with a host that is no
  -- cloud metadata name, no local name, and that stands for public addresses only. Where private
  -- addresses are allowed, the last two are not asked, and a name must still resolve.
  pub validate_url_iff :
      (allow_private : Bool) (url fetched : String)
      → (validate_url lib allow_private url ≡ ok fetched) ↔ IsAllowed allow_private url fetched
  validate_url_iff allow url u = (sound, complete)
    where
      sound : validate_url lib allow url ≡ ok u → IsAllowed allow url u
      sound e =
          let (parts, q, c) = split_ok allow url u e in
          let (s, (h, hq, n, hc, r)) = check_parts-passes allow parts u c in
          let (m, l, a) = check_host-passes allow (lower h) hc in
          record {
            parts = parts;
            host = h;
            split = q;
            scheme_allowed = s;
            has_host = hq;
            host_nonempty = n;
            not_metadata = m;
            not_local = l;
            reaches = check_address-Reaches allow (lower h) a;
            normalised = r;
          }

      complete : IsAllowed allow url u → validate_url lib allow url ≡ ok u
      complete a =
          split_back allow url a.parts a.split
          ∙ passes-check_parts allow a.parts a.host a.scheme_allowed a.has_host a.host_nonempty (
              passes-check_host allow (lower a.host) a.not_metadata a.not_local
                (Reaches-check_address allow (lower a.host) a.reaches))
          ∙ ap ok (sym a.normalised)
