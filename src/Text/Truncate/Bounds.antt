-- ===== src/Text/Truncate/Bounds.antt =====
-- What a truncation keeps and what it reports, and how the budget grows with the context window.
use mathlib.Core.List.{append_assoc, append-nil}
use web_search_api.Prelude.{
  ℕ, zero, suc, ◌+◌, ◌*◌, ◌≤◌, ◌<◌, max, ◌≡◌, ◌≢◌, refl, sym, ap, ◌∙◌, Bool, true, false, Option,
  none, some, List, [], ◌∷◌, ◌++◌, length, take, leb, arith, ◌⊎◌, inl, inr, ◌↔◌, leb→le, leb→lt,
  Bool-cases, Option-cases, length-take-le, All, length-append,
}
use web_search_api.Text.Truncate.{
  Truncation, rfind, rfind_step, later, minimum_keep, cut_at, keep_char, rstrip, truncate,
  char_budget_for_context, chars_per_token, reserved_output_tokens, prompt_overhead_tokens,
}

-- The first text begins the second.
abbrev pub Begins : List ℕ → List ℕ → Type 0
Begins xs ys = (rest : List ℕ) × (ys ≡ xs ++ rest)

Begins-trans : (xs ys zs : List ℕ) → Begins xs ys → Begins ys zs → Begins xs zs
Begins-trans xs ys zs (r, e) (s, f) = (r ++ s, f ∙ ap (λ l. l ++ s) e ∙ append_assoc xs r s)

take-Begins : (n : ℕ) (xs : List ℕ) → Begins (take n xs) xs
take-Begins zero xs = (xs, refl)
take-Begins (suc n) [] = ([], refl)
take-Begins (suc n) (x ∷ xs) = let (r, e) = take-Begins n xs in (r, ap (◌∷◌ x) e)

Begins-length : (xs ys : List ℕ) → Begins xs ys → length xs ≤ length ys
Begins-length xs ys (r, e) = let l = ap length e in omega (arith, length-append xs r)

length-take : (n : ℕ) (xs : List ℕ) → n ≤ length xs → length (take n xs) ≡ n
length-take zero xs h = refl
length-take (suc n) [] h = absurd (omega arith)
length-take (suc n) (x ∷ xs) h = ap suc (length-take n xs (omega arith))

rfind-lt : (c : ℕ) (xs : List ℕ) (i : ℕ) → rfind c xs ≡ some i → i < length xs
unfolding rfind rfind_step
rfind-lt c [] i h = cc
rfind-lt c (x ∷ xs) i h = elim (Option-cases (rfind c xs)) [
  | inl n ↦ ground arith
  | inr (j, q) ↦ let below = rfind-lt c xs j q in ground arith
]

later-lt :
    (a b : Option ℕ) (n i : ℕ)
    → ((j : ℕ) → a ≡ some j → j < n)
    → ((j : ℕ) → b ≡ some j → j < n)
    → later a b ≡ some i
    → i < n
unfolding later
later-lt none b n i f g h = g i h
later-lt (some a) none n i f g h = f i h
later-lt (some a) (some b) n i f g h =
    let p = f a refl in let q = g b refl in let e : max a b ≡ i = cc in omega arith

-- The cut is the window or a part of it, and never shorter than the least that must be kept.
cut_at-cases :
    (limit : ℕ) (window : List ℕ)
    → (cut_at limit window ≡ window)
      ⊎ ((b : ℕ) × (minimum_keep limit ≤ b)
          × (b < length window)
          × (cut_at limit window ≡ take b window))
unfolding cut_at
cut_at-cases limit window = elim (Option-cases (later (rfind b' ' window) (rfind 10 window))) [
  | inl n ↦ inl (ground arith)
  | inr (b, q) ↦ elim (Bool-cases (leb (minimum_keep limit) b)) [
    | inl t ↦ inr (
      b,
      leb→le _ _ t,
      later-lt _ _ (length window) b (rfind-lt b' ' window) (rfind-lt 10 window) q,
      ground arith,
    )
    | inr f ↦ inl (ground arith)
  ]
]

module _ (is_space : ℕ → Bool) where
  abbrev pub AreSpaces : List ℕ → Type 0
  AreSpaces = All (λ c. is_space c ≡ true)

  keep_char-splits :
      (c : ℕ) (xs : List ℕ) (pad : List ℕ)
      → AreSpaces pad
      → (pad' : List ℕ) × (c ∷ xs ++ pad ≡ keep_char is_space c xs ++ pad') × AreSpaces pad'
  unfolding keep_char
  keep_char-splits c [] pad h = elim (Bool-cases (is_space c)) [
    | inl t ↦ (c ∷ pad, rw t, (t, h))
    | inr f ↦ (pad, rw f, h)
  ]
  keep_char-splits c (x ∷ xs) pad h = (pad, refl, h)

  -- What `rstrip` takes off is white space at the end.
  rstrip-splits : (xs : List ℕ) → (pad : List ℕ) × (xs ≡ rstrip is_space xs ++ pad) × AreSpaces pad
  unfolding rstrip
  rstrip-splits [] = ([], refl, tt)
  rstrip-splits (c ∷ cs) =
      let (pad, e, h) = rstrip-splits cs in
      let (pad', e', h') = keep_char-splits c (rstrip is_space cs) pad h in
      (pad', ap (◌∷◌ c) e ∙ e', h')

  nil_last : (init : List ℕ) (last : ℕ) → [] ≢ init ++ last ∷ []
  nil_last [] last h = cc
  nil_last (x ∷ init) last h = cc

  keep_char-end :
      (c : ℕ) (xs init : List ℕ) (last : ℕ)
      → keep_char is_space c xs ≡ init ++ last ∷ []
      → (is_space last ≡ false) ⊎ ((init' : List ℕ) × (xs ≡ init' ++ last ∷ []))
  unfolding keep_char
  keep_char-end c [] [] last h = elim (Bool-cases (is_space c)) [
    | inl t ↦ absurd (let e : [] ≡ last ∷ [] = rw t at h in cc)
    | inr f ↦ inl (let e : c ∷ [] ≡ last ∷ [] = rw f at h in cc)
  ]
  keep_char-end c [] (y ∷ []) last h = absurd (elim (Bool-cases (is_space c)) [
    | inl t ↦ (let e : [] ≡ y ∷ last ∷ [] = rw t at h in cc)
    | inr f ↦ (let e : c ∷ [] ≡ y ∷ last ∷ [] = rw f at h in cc)
  ])
  keep_char-end c [] (y ∷ z ∷ init) last h = absurd (elim (Bool-cases (is_space c)) [
    | inl t ↦ (let e : [] ≡ y ∷ z ∷ (init ++ last ∷ []) = rw t at h in cc)
    | inr f ↦ (let e : c ∷ [] ≡ y ∷ z ∷ (init ++ last ∷ []) = rw f at h in cc)
  ])
  keep_char-end c (x ∷ xs) [] last h = absurd (cc)
  keep_char-end c (x ∷ xs) (y ∷ init) last h = inr (init, cc)

  -- A text that `rstrip` gives does not end in white space.
  rstrip-end :
      (xs init : List ℕ) (last : ℕ) → rstrip is_space xs ≡ init ++ last ∷ [] → is_space last ≡ false
  unfolding rstrip
  rstrip-end [] [] last h = absurd (cc)
  rstrip-end [] (y ∷ init) last h = absurd (cc)
  rstrip-end (c ∷ cs) init last h = elim (keep_char-end c (rstrip is_space cs) init last h) [
    | inl f ↦ f
    | inr (init', e) ↦ rstrip-end cs init' last e
  ]

  pub record IsCut (text : List ℕ) (limit : ℕ) (t : Truncation) : Type 0 where
    pub within : length t.text ≤ limit
    pub begins : Begins t.text text
    pub original : t.original_chars ≡ length text
    pub whole : (t.truncated ≡ false) ↔ ((0 < limit) × (length text ≤ limit))
    pub unchanged : t.truncated ≡ false → t.text ≡ text
    pub stripped :
        t.truncated ≡ true
        → (init : List ℕ) (last : ℕ) → t.text ≡ init ++ last ∷ []
        → is_space last ≡ false
    -- What is cut off lies behind four fifths of the limit, but for the white space in front of it.
    pub used :
        t.truncated ≡ true
        → 0 < limit
        → (pad rest : List ℕ) × AreSpaces pad
          × (text ≡ (t.text ++ pad) ++ rest)
          × (minimum_keep limit ≤ length (t.text ++ pad))

  IsCut-text :
      (text : List ℕ) (limit : ℕ)
      → 0 < limit
      → limit < length text
      → IsCut text limit (record {
        text = rstrip is_space (cut_at limit (take limit text));
        truncated = true;
        original_chars = length text;
      })
  IsCut-text text limit pos long =
      let window = take limit text in
      let size = length-take limit text (omega arith) in
      let (pad, e, sp) = rstrip-splits (cut_at limit window) in
      let strip : Begins (rstrip is_space (cut_at limit window)) (cut_at limit window) = (pad, e) in
      let cut = cut_bounds in
      record {
        within = let l = Begins-length _ _ strip in omega (arith, cut.1, length-take-le limit text);
        begins = Begins-trans _ _ _ strip (Begins-trans _ _ _ cut.2 (take-Begins limit text));
        original = refl;
        whole = (λ h. cc, λ h. absurd (omega arith));
        unchanged = λ h. cc;
        stripped = λ _ init last h. rstrip-end (cut_at limit window) init last h;
        used = λ _ _.
            let (rest, whole) =
              Begins-trans (cut_at limit window) window text cut.2 (take-Begins limit text) in
            (
              pad,
              rest,
              sp,
              whole ∙ ap (λ l. l ++ rest) e,
              let l = ap length e in omega (arith, cut.0),
            );
      }
    where
      cut_bounds :
          (minimum_keep limit ≤ length (cut_at limit (take limit text)))
          × (length (cut_at limit (take limit text)) ≤ length (take limit text))
          × Begins (cut_at limit (take limit text)) (take limit text)
      cut_bounds = elim (cut_at-cases limit (take limit text)) [
        | inl q ↦
            let size = length-take limit text (omega arith) in
            rw q (omega arith, omega arith, ([], sym (append-nil _)))
        | inr (b, keep, lt, q) ↦
            let l = length-take b (take limit text) (omega arith) in
            rw q (omega arith, omega arith, take-Begins b (take limit text))
      ]

  -- A truncated text is a beginning of the text and within the limit, `truncated` says exactly whether
  -- the text was longer than the limit or the limit was 0, a text that is not cut is unchanged, and a
  -- cut keeps the first four fifths of the limit, rounded down, but for white space at their end: what it
  -- leaves out of them is white space of the text, right behind what it keeps, which itself does not end
  -- in white space.
  pub truncate-IsCut : (text : List ℕ) (limit : ℕ) → IsCut text limit (truncate is_space text limit)
  unfolding truncate
  truncate-IsCut text limit = elim (Bool-cases (leb limit 0)) [
    | inl z ↦ rw z (record {
      within = omega arith;
      begins = (text, refl);
      original = refl;
      whole = (λ h. cc, λ h. absurd (let l = leb→le _ _ z in omega arith));
      unchanged = λ h. cc;
      stripped = λ _ init last h. absurd (nil_last init last h);
      used = λ _ p. absurd (let l = leb→le _ _ z in omega arith);
    })
    | inr p ↦ elim (Bool-cases (leb (length text) limit)) [
      | inl short ↦
          rw (p, short)
            (record {
              within = leb→le _ _ short;
              begins = ([], sym (append-nil text));
              original = refl;
              whole = (λ h. (leb→lt _ _ p, leb→le _ _ short), λ h. refl);
              unchanged = λ h. refl;
              stripped = λ h. cc;
              used = λ h. cc;
            })
      | inr long ↦ rw (p, long) (IsCut-text text limit (leb→lt _ _ p) (leb→lt _ _ long))
    ]
  ]

-- The budget is within the hard limit, where it is not 0 leaves room in the context window for the
-- prompt and the answer, and never shrinks when the window grows.
pub budget_fits :
    (window wider hard_limit : ℕ)
    → window ≤ wider
    → (char_budget_for_context (some window) hard_limit ≤ hard_limit)
      × (0 < char_budget_for_context (some window) hard_limit
          → char_budget_for_context (some window) hard_limit
              + chars_per_token * (reserved_output_tokens + prompt_overhead_tokens)
            ≤ chars_per_token * window)
      × (char_budget_for_context (some window) hard_limit
          ≤ char_budget_for_context (some wider) hard_limit)
      × (char_budget_for_context (some window) hard_limit ≤ char_budget_for_context none hard_limit)
unfolding char_budget_for_context
budget_fits window wider hard_limit h =
    (ground arith, λ p. ground arith, ground arith, ground arith)
