-- ===== src/Llm/Prompts/Fence.antt =====
-- That the content of a prompt cannot close its block.
use Prim.Native.Char.{Char, code as code_point}
use web_search_api.Prelude.{
  ℕ, String, ◌≡◌, refl, sym, ap, ◌∙◌, subst, ◌↔◌, Bool, true, false, false≢true, ◌&&◌, ◌||◌, List,
  [], ◌∷◌, ◌==◌, All, arith, Bool-cases, inl, inr, ◌⊎◌,
}
use web_search_api.Llm.Prompts.{
  PromptTools, tag_name, skip_spaces, skip_slash, at_boundary, starts_word, opens_tag, fenced,
}

module _ (tools : PromptTools) where
  -- Somewhere in the text a tag opens.
  unfoldable pub has_tag : String → Bool
  unfolding skip_spaces skip_slash
  has_tag String.[] = false
  has_tag (String.◌∷◌ c s) = (code_point c == b'<' && opens_tag tools s) || has_tag s

  -- `<`, `&` and `/` are no white space, no part of a word, and compare to themselves.
  abbrev pub IsMark : Char → Type 0
  IsMark c = (tools.is_space c ≡ false) × (tools.is_word c ≡ false) × (tools.fold c ≡ code_point c)

  abbrev pub IsMarkCode : ℕ → Type 0
  IsMarkCode n = (n ≡ b'<') ⊎ ((n ≡ b'&') ⊎ (n ≡ b'/'))

  abbrev pub HasMarks : Type 0
  HasMarks = (c : Char) → IsMarkCode (code_point c) → IsMark c

  -- The mark of a tag in front of a text.
  abbrev opens_at : Char → String → Bool
  opens_at c s = code_point c == b'<' && opens_tag tools s

  abbrev escaped : String → String
  escaped s = String.◌∷◌ "l" (String.◌∷◌ "t" (String.◌∷◌ ";" s))

  fenced_open :
      (c : Char) (s : String)
      → opens_at c s ≡ true
      → fenced tools (String.◌∷◌ c s) ≡ String.◌∷◌ "&" (escaped (fenced tools s))
  unfolding fenced
  fenced_open c s t = rw t refl

  fenced_kept :
      (c : Char) (s : String)
      → opens_at c s ≡ false
      → fenced tools (String.◌∷◌ c s) ≡ String.◌∷◌ c (fenced tools s)
  unfolding fenced
  fenced_kept c s f = rw f refl

  opens_at-code : (c : Char) (s : String) → opens_at c s ≡ true → code_point c ≡ b'<'
  opens_at-code c s t = ground arith

  pub skip_spaces_stop :
      (c : Char) (s : String)
      → tools.is_space c ≡ false
      → skip_spaces tools (String.◌∷◌ c s) ≡ String.◌∷◌ c s
  unfolding skip_spaces
  skip_spaces_stop c s f = rw f refl

  pub skip_spaces_go :
      (c : Char) (s : String)
      → tools.is_space c ≡ true
      → skip_spaces tools (String.◌∷◌ c s) ≡ skip_spaces tools s
  unfolding skip_spaces
  skip_spaces_go c s t = rw t refl

  pub skip_slash_stop :
      (c : Char) (s : String)
      → (code_point c == b'/') ≡ false
      → skip_slash tools (String.◌∷◌ c s) ≡ String.◌∷◌ c s
  unfolding skip_slash
  skip_slash_stop c s f = rw f refl

  pub skip_slash_go :
      (c : Char) (s : String)
      → (code_point c == b'/') ≡ true
      → skip_slash tools (String.◌∷◌ c s) ≡ s
  unfolding skip_slash
  skip_slash_go c s t = rw t refl

  pub starts_word_nil : (s : String) → starts_word tools [] s ≡ at_boundary tools s
  unfolding starts_word
  starts_word_nil s = refl

  pub starts_word_go :
      (x : ℕ) (xs : List ℕ) (c : Char) (s : String)
      → (tools.fold c == x) ≡ true
      → starts_word tools (x ∷ xs) (String.◌∷◌ c s) ≡ starts_word tools xs s
  unfolding starts_word
  starts_word_go x xs c s t = rw t refl

  pub starts_word_stop :
      (x : ℕ) (xs : List ℕ) (c : Char) (s : String)
      → (tools.fold c == x) ≡ false
      → starts_word tools (x ∷ xs) (String.◌∷◌ c s) ≡ false
  unfolding starts_word
  starts_word_stop x xs c s f = rw f refl

  fenced_nil : fenced tools "" ≡ ""
  unfolding fenced
  fenced_nil = refl

  opens_at-tag : (c : Char) (s : String) → opens_at c s ≡ true → opens_tag tools s ≡ true
  opens_at-tag c s t = ground arith

  module _ (marks : HasMarks) where
    skip_spaces-fenced :
        (s : String) → skip_spaces tools (fenced tools s) ≡ fenced tools (skip_spaces tools s)
    unfolding fenced skip_spaces
    skip_spaces-fenced String.[] = refl
    skip_spaces-fenced (String.◌∷◌ c s) = elim (Bool-cases (opens_at c s)) [
      | inl t ↦
          rw (skip_spaces_stop c s (marks c (inl (opens_at-code c s t))).0, fenced_open c s t)
            (skip_spaces_stop "&" (escaped (fenced tools s)) (marks "&" (inr (inl refl))).0)
      | inr f ↦ elim (Bool-cases (tools.is_space c)) [
        | inl t ↦
            rw (fenced_kept c s f, skip_spaces_go c (fenced tools s) t, skip_spaces_go c s t)
              (skip_spaces-fenced s)
        | inr g ↦
            rw (skip_spaces_stop c s g, fenced_kept c s f) (skip_spaces_stop c (fenced tools s) g)
      ]
    ]

    skip_slash-fenced :
        (s : String) → skip_slash tools (fenced tools s) ≡ fenced tools (skip_slash tools s)
    unfolding fenced skip_slash
    skip_slash-fenced String.[] = refl
    skip_slash-fenced (String.◌∷◌ c s) = elim (Bool-cases (opens_at c s)) [
      | inl t ↦
          let e = opens_at-code c s t in
          rw (skip_slash_stop c s (rw e refl), fenced_open c s t)
            (skip_slash_stop "&" (escaped (fenced tools s)) refl)
      | inr f ↦ elim (Bool-cases (code_point c == b'/')) [
        | inl t ↦
            rw (fenced_kept c s f, skip_slash_go c (fenced tools s) t, skip_slash_go c s t) refl
        | inr g ↦
            rw (skip_slash_stop c s g, fenced_kept c s f) (skip_slash_stop c (fenced tools s) g)
      ]
    ]

    at_boundary-fenced :
        (s : String) → at_boundary tools (fenced tools s) ≡ true → at_boundary tools s ≡ true
    unfolding at_boundary
    at_boundary-fenced String.[] h = refl
    at_boundary-fenced (String.◌∷◌ c s) h = elim (Bool-cases (opens_at c s)) [
      | inl t ↦ rw ((marks c (inl (opens_at-code c s t))).1) refl
      | inr f ↦ rw (fenced_kept c s f) at h
    ]

    -- The code is not that of `&`.
    abbrev IsPlain : ℕ → Type 0
    IsPlain x = (x == b'&') ≡ false

    tag_name-IsPlain : All IsPlain tag_name
    tag_name-IsPlain =
        (refl, (refl, (refl, (refl, (refl, (refl, (refl, (refl, (refl, (refl, (refl, tt)))))))))))

    starts_word-fenced :
        (xs : List ℕ) (s : String)
        → All IsPlain xs
        → starts_word tools xs (fenced tools s) ≡ true
        → starts_word tools xs s ≡ true
    starts_word-fenced [] s p h =
        rw (starts_word_nil s) (at_boundary-fenced s (rw (starts_word_nil (fenced tools s)) at h))
    starts_word-fenced (x ∷ xs) String.[] p h = rw fenced_nil at h
    starts_word-fenced (x ∷ xs) (String.◌∷◌ c s) p h = elim (Bool-cases (opens_at c s)) [
      | inl t ↦ absurd (
          let e = (marks "&" (inr (inl refl))).2 in
          let k = starts_word_stop x xs "&" (escaped (fenced tools s)) (ground (arith, e, p.0)) in
          let g : starts_word tools (x ∷ xs) (String.◌∷◌ "&" (escaped (fenced tools s))) ≡ true =
            rw (fenced_open c s t) at h in
          false≢true (sym k ∙ g))
      | inr f ↦
          let g : starts_word tools (x ∷ xs) (String.◌∷◌ c (fenced tools s)) ≡ true =
            rw (fenced_kept c s f) at h in
          elim (Bool-cases (tools.fold c == x)) [
            | inl e ↦
                rw (starts_word_go x xs c s e)
                  (starts_word-fenced xs s p.1 (rw (starts_word_go x xs c (fenced tools s) e) at g))
            | inr e ↦
                absurd
                  (let k = starts_word_stop x xs c (fenced tools s) e in false≢true (sym k ∙ g))
          ]
    ]

    opens_tag-fenced :
        (s : String) → opens_tag tools (fenced tools s) ≡ true → opens_tag tools s ≡ true
    opens_tag-fenced s h =
        let word = skip_spaces tools (skip_slash tools (skip_spaces tools s)) in
        let e : skip_spaces tools (skip_slash tools (skip_spaces tools (fenced tools s)))
            ≡ fenced tools word =
          ap (λ x. skip_spaces tools (skip_slash tools x)) (skip_spaces-fenced s)
          ∙ ap (λ x. skip_spaces tools x) (skip_slash-fenced (skip_spaces tools s))
          ∙ skip_spaces-fenced (skip_slash tools (skip_spaces tools s)) in
        starts_word-fenced tag_name word tag_name-IsPlain
          (sym (ap (λ x. starts_word tools tag_name x) e) ∙ h)

    fenced-tagless : (s : String) → has_tag (fenced tools s) ≡ false
    unfolding has_tag
    fenced-tagless String.[] = rw fenced_nil refl
    fenced-tagless (String.◌∷◌ c s) = elim (Bool-cases (opens_at c s)) [
      | inl t ↦ rw (fenced_open c s t) (fenced-tagless s)
      | inr f ↦ elim (Bool-cases (opens_at c (fenced tools s))) [
        | inl t ↦ absurd (
            let e = opens_at-code c (fenced tools s) t in
            let o = opens_tag-fenced s (opens_at-tag c (fenced tools s) t) in
            let k : opens_at c s ≡ true = rw (e, o) refl in cc)
        | inr g ↦ rw (fenced_kept c s f, g) (fenced-tagless s)
      ]
    ]

    tagless-kept : (s : String) → has_tag s ≡ false → fenced tools s ≡ s
    unfolding has_tag
    tagless-kept String.[] h = fenced_nil
    tagless-kept (String.◌∷◌ c s) h =
        rw (fenced_kept c s (ground arith), tagless-kept s (ground arith)) refl

    -- The escaped text opens no tag, and is the text itself exactly where that has none.
    pub fenced_lem :
        (content : String)
        → (has_tag (fenced tools content) ≡ false)
          × ((fenced tools content ≡ content) ↔ (has_tag content ≡ false))
    fenced_lem content = (
      fenced-tagless content,
      (λ e. subst (λ x. has_tag x ≡ false) e (fenced-tagless content), tagless-kept content),
    )
