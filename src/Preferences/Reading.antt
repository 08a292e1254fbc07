-- ===== src/Preferences/Reading.antt =====
-- app/services/preferences.py: the readers of single settings. A resolved namespace is the `get` of the
-- settings client: `none` where it raises `SettingsRefused`. What is logged is left out.
use web_search_api.Prelude.{
  ℕ, String, Option, none, some, List, leb, if◌then◌else◌, str_eq, ◌≡◌, refl,
}
use web_search_api.Preferences.{SummaryLength, brief, standard, detailed}
use web_search_api.Search.Base.{SafeSearch, off, moderate, strict}

-- A value by its type: `None`, a text, a whole number that is not negative, a list of texts, or any
-- other (a negative number, a truth value, a list with an item that is no text).
pub data Value : Type 0 where
  missing other : Value
  text : String → Value
  number : ℕ → Value
  texts : List String → Value

abbrev pub ResolvedSettings : Type 0
ResolvedSettings = String → Option Value

-- What comes next runs on a value that was read.
abbrev pub reading {κ ℓ} : {B : Type κ} {A : Type ℓ} → (A → Option B) → Option A → Option B
reading next none = none
reading next (some a) = next a

infixl 10 ◌>>=◌
abbrev pub ◌>>=◌ {κ ℓ} : {B : Type κ} {A : Type ℓ} → Option A → (A → Option B) → Option B
call >>= next = reading next call

abbrev text_value : Value → Option String
text_value (text s) = if str_eq s "" then none else some s
text_value _ = none

abbrev number_value : ℕ → Value → Option ℕ
number_value minimum (number n) = if leb minimum n then some n else none
number_value minimum _ = none

abbrev list_value : Value → Option (List String)
list_value (texts ss) = some ss
list_value _ = none

abbrev safe_search_value : Value → SafeSearch
safe_search_value (text s) =
    if str_eq s "off"
    then off
    else if str_eq s "moderate"
    then moderate
    else if str_eq s "strict"
    then strict
    else moderate
safe_search_value _ = moderate

abbrev summary_length_value : Value → SummaryLength
summary_length_value (text s) =
    if str_eq s "brief"
    then brief
    else if str_eq s "standard"
    then standard
    else if str_eq s "detailed"
    then detailed
    else standard
summary_length_value _ = standard

unfoldable pub read_text : String → ResolvedSettings → Option (Option String)
read_text key resolved = do v ← resolved key; some (text_value v)

unfoldable pub whole_number : String → ℕ → ResolvedSettings → Option (Option ℕ)
whole_number key minimum resolved = do v ← resolved key; some (number_value minimum v)

unfoldable pub string_list : String → ResolvedSettings → Option (Option (List String))
string_list key resolved = do v ← resolved key; some (list_value v)

unfoldable pub read_safe_search : ResolvedSettings → Option SafeSearch
read_safe_search resolved = do v ← resolved "safe_search"; some (safe_search_value v)

unfoldable pub read_summary_length : ResolvedSettings → Option SummaryLength
read_summary_length resolved = do v ← resolved "summary_length"; some (summary_length_value v)

-- A property of the value where there is one.
abbrev pub Every {κ ℓ} : {A : Type ℓ} → (A → Type κ) → Option A → Type (ℓ ⊔ κ)
Every {A = A} P o = (a : A) → o ≡ some a → P a

pub reading-Every {ι κ ℓ} :
    {A : Type ℓ} {B : Type κ} (P : B → Type ι) (call : Option A) {next : A → Option B}
    → ((a : A) → call ≡ some a → Every P (next a))
    → Every P (call >>= next)
reading-Every P none f b h = cc
reading-Every P (some a) f b h = f a refl b h

pub some-Every {κ ℓ} : {A : Type ℓ} (P : A → Type κ) (a : A) → P a → Every P (some a)
some-Every P a p b h = let q : a ≡ b = cc in rw (← q) p
