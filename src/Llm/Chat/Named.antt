-- ===== src/Llm/Chat/Named.antt =====
-- Which keys of a body an error names.
use web_search_api.Prelude.{
  String, ◌≡◌, refl, sym, ap, ◌∙◌, subst, ◌⊎◌, inl, inr, true, false, false≢true, none, some, List,
  [], ◌∷◌, arith, Bool-cases, Option-cases, Has,
}
use web_search_api.Core.Errors.{
  DomainError, ErrorKind, is_upstream, upstream_error, search_blocked_error,
}
use web_search_api.Llm.Capabilities.{Body, lookup}
use web_search_api.Llm.Chat.{
  PatternLibrary, is_key, find_in, find_unsupported_parameter, unsupported_param_patterns,
}

-- A pattern finds a text in the message that is the key, or the key and more behind a dot.
abbrev pub Names : PatternLibrary → String → String → Type 0
Names lib message key =
    (p found : String) × Has p unsupported_param_patterns
    × (lib.group_one p message ≡ some found)
    × (lib.before_dot found ≡ key)

-- The class `UpstreamError` or its one subclass.
abbrev pub IsUpstream : ErrorKind → Type 0
IsUpstream k = (k ≡ upstream_error) ⊎ (k ≡ search_blocked_error)

pub is_upstream-IsUpstream : (k : ErrorKind) → is_upstream k ≡ true → IsUpstream k
is_upstream-IsUpstream upstream_error h = inl refl
is_upstream-IsUpstream search_blocked_error h = inr refl
is_upstream-IsUpstream k h = absurd (false≢true h)

module _ (lib : PatternLibrary) where
  pub find_in-is_key :
      (ps : List String) (m k : String) (b : Body) → find_in lib ps m b ≡ some k → is_key k b ≡ true
  unfolding find_in
  find_in-is_key [] m k b h = cc
  find_in-is_key (p ∷ ps) m k b h = ground (arith, find_in-is_key ps m k b)

  pub find_in-Names :
      (ps : List String) (m k : String) (b : Body)
      → find_in lib ps m b ≡ some k
      → (p found : String) × Has p ps
        × (lib.group_one p m ≡ some found)
        × (lib.before_dot found ≡ k)
  unfolding find_in
  find_in-Names [] m k b h = absurd (cc)
  find_in-Names (p ∷ ps) m k b h =
      let later : find_in lib ps m b ≡ some k
          → (p' found : String) × Has p' (p ∷ ps)
            × (lib.group_one p' m ≡ some found)
            × (lib.before_dot found ≡ k) =
        λ e. (let (p', found, l, g, d) = find_in-Names ps m k b e in (p', found, inr l, g, d)) in
      elim (Option-cases (lib.group_one p m)) [
        | inl n ↦ later (ground arith)
        | inr (found, q) ↦ elim (Bool-cases (is_key (lib.before_dot found) b)) [
          | inl t ↦ (p, found, inl refl, q, ground arith)
          | inr f ↦ later (ground arith)
        ]
      ]

  find_in-none :
      (ps : List String) (m p found : String) (b : Body)
      → find_in lib ps m b ≡ none
      → Has p ps
      → lib.group_one p m ≡ some found
      → lookup (lib.before_dot found) b ≡ none
  unfolding find_in is_key
  find_in-none [] m p found b n h g = elim h [ ]
  find_in-none (q ∷ ps) m p found b n (inl e) g =
      let g' : lib.group_one q m ≡ some found = rw e g in
      elim (Option-cases (lookup (lib.before_dot found) b)) [
        | inl z ↦ z
        | inr (v, z) ↦ absurd (ground arith)
      ]
  find_in-none (q ∷ ps) m p found b n (inr h) g =
      let rest : find_in lib ps m b ≡ none = elim (Option-cases (lib.group_one q m)) [
        | inl z ↦ ground arith
        | inr (f, z) ↦ ground arith
      ] in
      find_in-none ps m p found b rest h g

  pub not_again :
      (e : DomainError) (b : Body)
      → (is_upstream e.kind ≡ false) ⊎ (find_unsupported_parameter lib e.detail b ≡ none)
      → IsUpstream e.kind
      → (k : String) → Names lib e.detail k
      → lookup k b ≡ none
  unfolding find_unsupported_parameter
  not_again e b (inl f) (inl q) k named = absurd (false≢true (sym f ∙ ap is_upstream q))
  not_again e b (inl f) (inr q) k named = absurd (false≢true (sym f ∙ ap is_upstream q))
  not_again e b (inr n) u k (p, found, h, g, d) =
      subst (λ x. lookup x b ≡ none) d
        (find_in-none unsupported_param_patterns e.detail p found b n h g)
