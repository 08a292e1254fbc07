-- ===== src/Llm/Prompts/Tags.antt =====
-- That the content of a prompt cannot close its block. A tag is described here by the grammar of the
-- pattern: `<`, white space, at most one `/`, white space, the word `source_text` in any case, and a
-- character that is no part of a word, or the end.
use Prim.Native.Char.{Char, code as code_point}
use web_search_api.Prelude.{
  ℕ, String, ◌≡◌, refl, sym, ap, ◌∙◌, ◌↔◌, Bool, true, false, false≢true, Option, List, [], ◌∷◌,
  ◌==◌, arith, Bool-cases, inl, inr, ◌⊎◌, Lift,
}
use web_search_api.Llm.Prompts.{
  PromptTools, tag_name, skip_spaces, skip_slash, at_boundary, starts_word, opens_tag, fenced,
  build_summary_prompt,
}
use web_search_api.Llm.Prompts.Fence.{
  HasMarks, has_tag, fenced_lem, skip_spaces_stop, skip_spaces_go, skip_slash_stop, skip_slash_go,
  starts_word_go, starts_word_stop,
}
use web_search_api.Llm.Prompts.Layout.{block, user-block}
use web_search_api.Preferences.{SummaryLength}

abbrev word : List ℕ
word = b's' ∷ b'o' ∷ b'u' ∷ b'r' ∷ b'c' ∷ b'e' ∷ b'_' ∷ b't' ∷ b'e' ∷ b'x' ∷ b't' ∷ []

module _ (tools : PromptTools) where
  abbrev pub IsBoundary : String → Type 0
  IsBoundary String.[] = Unit
  IsBoundary (String.◌∷◌ c s) = tools.is_word c ≡ false

  abbrev pub IsName : List ℕ → String → Type 0
  IsName [] s = IsBoundary s
  IsName (x ∷ xs) String.[] = Lift
  IsName (x ∷ xs) (String.◌∷◌ c s) = (tools.fold c ≡ x) × IsName xs s

  -- What may follow the `<`, while a `/` may still come or after it.
  abbrev pub IsOpening : Bool → String → Type 0
  IsOpening slash String.[] = Lift
  IsOpening true (String.◌∷◌ c s) =
      IsName word (String.◌∷◌ c s)
      ⊎ (((tools.is_space c ≡ true) × IsOpening true s)
          ⊎ ((code_point c ≡ b'/') × IsOpening false s))
  IsOpening false (String.◌∷◌ c s) =
      IsName word (String.◌∷◌ c s) ⊎ ((tools.is_space c ≡ true) × IsOpening false s)

  -- Somewhere in the text a tag stands.
  abbrev pub HasTag : String → Type 0
  HasTag String.[] = Lift
  HasTag (String.◌∷◌ c s) = ((code_point c ≡ b'<') × IsOpening true s) ⊎ HasTag s

  starts_word-IsName : (xs : List ℕ) (s : String) → starts_word tools xs s ≡ true → IsName xs s
  unfolding at_boundary starts_word
  starts_word-IsName [] String.[] h = tt
  starts_word-IsName [] (String.◌∷◌ c s) h = ground arith
  starts_word-IsName (x ∷ xs) String.[] h = absurd (cc)
  starts_word-IsName (x ∷ xs) (String.◌∷◌ c s) h = elim (Bool-cases (tools.fold c == x)) [
    | inl e ↦ (ground arith, starts_word-IsName xs s (sym (starts_word_go tools x xs c s e) ∙ h))
    | inr e ↦ absurd (false≢true (sym (starts_word_stop tools x xs c s e) ∙ h))
  ]

  IsName-starts_word : (xs : List ℕ) (s : String) → IsName xs s → starts_word tools xs s ≡ true
  unfolding at_boundary starts_word
  IsName-starts_word [] String.[] n = refl
  IsName-starts_word [] (String.◌∷◌ c s) n = ground arith
  IsName-starts_word (x ∷ xs) String.[] n = elim n [ ]
  IsName-starts_word (x ∷ xs) (String.◌∷◌ c s) (e, n) =
      starts_word_go tools x xs c s (ground (arith, e)) ∙ IsName-starts_word xs s n

  word_opens-IsOpening :
      (s : String) → starts_word tools tag_name (skip_spaces tools s) ≡ true → IsOpening false s
  unfolding skip_spaces starts_word
  word_opens-IsOpening String.[] h = absurd (cc)
  word_opens-IsOpening (String.◌∷◌ c s) h = elim (Bool-cases (tools.is_space c)) [
    | inl t ↦ inr (t, word_opens-IsOpening s (rw (skip_spaces_go tools c s t) at h))
    | inr f ↦
        inl (starts_word-IsName word (String.◌∷◌ c s) (rw (skip_spaces_stop tools c s f) at h))
  ]

  -- What the lookahead reads, by the first characters of the text.
  abbrev rest_opens : String → Bool
  rest_opens x = starts_word tools tag_name (skip_spaces tools x)

  opens_tag-space :
      (c : Char) (s : String)
      → tools.is_space c ≡ true
      → opens_tag tools (String.◌∷◌ c s) ≡ opens_tag tools s
  opens_tag-space c s t = ap (λ x. rest_opens (skip_slash tools x)) (skip_spaces_go tools c s t)

  opens_tag-slash :
      (c : Char) (s : String)
      → tools.is_space c ≡ false
      → (code_point c == b'/') ≡ true
      → opens_tag tools (String.◌∷◌ c s) ≡ rest_opens s
  opens_tag-slash c s f t =
      ap (λ x. rest_opens (skip_slash tools x)) (skip_spaces_stop tools c s f)
      ∙ ap (λ x. rest_opens x) (skip_slash_go tools c s t)

  opens_tag-word :
      (c : Char) (s : String)
      → tools.is_space c ≡ false
      → (code_point c == b'/') ≡ false
      → opens_tag tools (String.◌∷◌ c s) ≡ starts_word tools tag_name (String.◌∷◌ c s)
  opens_tag-word c s f n =
      ap (λ x. rest_opens (skip_slash tools x)) (skip_spaces_stop tools c s f)
      ∙ ap (λ x. rest_opens x) (skip_slash_stop tools c s n)
      ∙ ap (λ x. starts_word tools tag_name x) (skip_spaces_stop tools c s f)

  opens_tag-IsOpening : (s : String) → opens_tag tools s ≡ true → IsOpening true s
  unfolding skip_spaces skip_slash starts_word
  opens_tag-IsOpening String.[] h = absurd (cc)
  opens_tag-IsOpening (String.◌∷◌ c s) h = elim (Bool-cases (tools.is_space c)) [
    | inl t ↦ inr (inl (t, opens_tag-IsOpening s (sym (opens_tag-space c s t) ∙ h)))
    | inr f ↦ elim (Bool-cases (code_point c == b'/')) [
      | inl t ↦
          inr (inr (ground (arith, t), word_opens-IsOpening s (sym (opens_tag-slash c s f t) ∙ h)))
      | inr n ↦ inl (starts_word-IsName word (String.◌∷◌ c s) (sym (opens_tag-word c s f n) ∙ h))
    ]
  ]

  has_tag-HasTag : (s : String) → has_tag tools s ≡ true → HasTag s
  unfolding has_tag
  has_tag-HasTag String.[] h = absurd (cc)
  has_tag-HasTag (String.◌∷◌ c s) h = elim (Bool-cases (has_tag tools s)) [
    | inl t ↦ inr (has_tag-HasTag s t)
    | inr f ↦ inl (ground arith, opens_tag-IsOpening s (ground arith))
  ]

  module _ (marks : HasMarks tools)
      (letters : (c : Char) → tools.fold c ≡ b's' → tools.is_space c ≡ false) where
    slash_spaceless : (c : Char) → code_point c ≡ b'/' → tools.is_space c ≡ false
    slash_spaceless c e = (marks c (inr (inr e))).0

    letter_slashless : (c : Char) → tools.fold c ≡ b's' → (code_point c == b'/') ≡ false
    letter_slashless c e = elim (Bool-cases (code_point c == b'/')) [
      | inr f ↦ f
      | inl t ↦
          let slash : code_point c ≡ b'/' = ground (arith, t) in
          let same = (marks c (inr (inr slash))).2 in absurd (omega (arith, e, slash, same))
    ]

    IsOpening-word_opens : (s : String) → IsOpening false s → rest_opens s ≡ true
    IsOpening-word_opens String.[] o = elim o [ ]
    IsOpening-word_opens (String.◌∷◌ c s) (inl n) =
        ap (λ x. starts_word tools tag_name x) (skip_spaces_stop tools c s (letters c n.0))
        ∙ IsName-starts_word word (String.◌∷◌ c s) n
    IsOpening-word_opens (String.◌∷◌ c s) (inr (t, o)) =
        ap (λ x. starts_word tools tag_name x) (skip_spaces_go tools c s t)
        ∙ IsOpening-word_opens s o

    IsOpening-opens_tag : (s : String) → IsOpening true s → opens_tag tools s ≡ true
    IsOpening-opens_tag String.[] o = elim o [ ]
    IsOpening-opens_tag (String.◌∷◌ c s) (inl n) =
        opens_tag-word c s (letters c n.0) (letter_slashless c n.0)
        ∙ IsName-starts_word word (String.◌∷◌ c s) n
    IsOpening-opens_tag (String.◌∷◌ c s) (inr (inl (t, o))) =
        opens_tag-space c s t ∙ IsOpening-opens_tag s o
    IsOpening-opens_tag (String.◌∷◌ c s) (inr (inr (e, o))) =
        opens_tag-slash c s (slash_spaceless c e) (ground (arith, e)) ∙ IsOpening-word_opens s o

    HasTag-has_tag : (s : String) → HasTag s → has_tag tools s ≡ true
    unfolding has_tag
    HasTag-has_tag String.[] h = elim h [ ]
    HasTag-has_tag (String.◌∷◌ c s) (inl (e, o)) =
        let t = IsOpening-opens_tag s o in ground (arith, e)
    HasTag-has_tag (String.◌∷◌ c s) (inr h) = let t = HasTag-has_tag s h in ground arith

    has_tag_iff : (s : String) → has_tag tools s ≡ false ↔ (¬ HasTag s)
    has_tag_iff s = (
      λ f h. false≢true (sym f ∙ HasTag-has_tag s h),
      λ n. elim (Bool-cases (has_tag tools s)) [
        | inl t ↦ absurd (n (has_tag-HasTag s t))
        | inr f ↦ f
      ],
    )

    -- Whatever else a request asks for, the user message is one fixed text, an opening tag, a body, a
    -- closing tag and another fixed text, the two the same for every content, and the body has no tag: no
    -- white space, slash or case makes the content close the block, or open one. The body is the content
    -- exactly where that has no tag itself. The characters `<`, `&` and `/` are no white space and no part
    -- of a word, and have no other case; no letter that compares as `s` is white space.
    pub build_summary_prompt-IsFenced :
        (topic additional_notes : Option String) (sources : Option (List String))
        (research_notes : Option String) (length : SummaryLength)
        → (before : String) × (after : List String) × ((content : String)
            → (body : String) × ((build_summary_prompt tools content topic additional_notes sources
                  research_notes length).user
                ≡ block before body after)
              × (¬ HasTag body)
              × (body ≡ content ↔ (¬ HasTag content)))
    build_summary_prompt-IsFenced topic additional_notes sources research_notes length =
        let (before, after, same) =
          user-block tools topic additional_notes sources research_notes length in
        (
          before,
          after,
          λ content.
              let (clean, kept) = fenced_lem tools marks content in
              (
                fenced tools content,
                same content,
                (has_tag_iff (fenced tools content)).0 clean,
                (λ e. (has_tag_iff content).0 (kept.0 e), λ n. kept.1 ((has_tag_iff content).1 n)),
              ),
        )
