-- ===== src/Core/Result.antt =====
-- A call that may raise a `DomainError`.
use web_search_api.Prelude.{◌≡◌, refl, ap, ◌∙◌, ◌⊎◌, ◌↔◌, inl, inr}
use web_search_api.Core.Errors.{DomainError}

pub data Result {ℓ} (A : Type ℓ) : Type ℓ where
  err : DomainError → Result A
  ok : A → Result A

-- What comes next runs on the value that a call returns, and is passed over when it raises.
abbrev pub and_then {κ ℓ} : {B : Type κ} {A : Type ℓ} → (A → Result B) → Result A → Result B
and_then next (err e) = err e
and_then next (ok value) = next value

infixl 10 ◌>>=◌ ◌>>◌
abbrev pub ◌>>=◌ {κ ℓ} : {B : Type κ} {A : Type ℓ} → Result A → (A → Result B) → Result B
call >>= next = and_then next call

abbrev pub ◌>>◌ {κ} : {B : Type κ} → Result (Unit {0}) → Result B → Result B
check >> call = and_then (λ _. call) check

-- A chain that returns has a first call that returns.
pub >>=-eq-ok {κ ℓ} :
    {B : Type κ} {A : Type ℓ} (call : Result A) (next : A → Result B) {b : B}
    → (call >>= next) ≡ ok b
    → (value : A) × (call ≡ ok value) × (next value ≡ ok b)
>>=-eq-ok (err e) next h = cc
>>=-eq-ok (ok value) next h = (value, refl, h)

pub Result-cases {ℓ} :
    {A : Type ℓ} (call : Result A)
    → ((e : DomainError) × (call ≡ err e)) ⊎ ((value : A) × (call ≡ ok value))
Result-cases (err e) = inl (e, refl)
Result-cases (ok value) = inr (value, refl)

-- A chain fails at its first call, or after it.
pub >>=-eq-err {κ ℓ} :
    {B : Type κ} {A : Type ℓ} (call : Result A) (next : A → Result B) (e : DomainError)
    → (call >>= next) ≡ err e
      ↔ ((call ≡ err e) ⊎ ((value : A) × (call ≡ ok value) × (next value ≡ err e)))
>>=-eq-err (err d) next e = (
  λ h. (let same : d ≡ e = cc in inl (ap err same)),
  λ c. elim c [ inl q ↦ (let same : d ≡ e = cc in ap err same) | inr (v, q, _) ↦ absurd (cc) ],
)
>>=-eq-err (ok value) next e = (
  λ h. inr (value, refl, h),
  λ c. elim c [
    | inl q ↦ absurd (cc)
    | inr (v, q, h) ↦ (let same : value ≡ v = cc in ap next same ∙ h)
  ],
)
