-- ===== src/Model/Filter/Total.antt =====
-- Filters whose values their expressions accept never raise.
use text.Mathlib.TextEquality.{eq_iff}
use pna.Base.{
  ◌⊎◌, ℕ, ◌≡◌, refl, subst, [], ◌∷◌, Bool, true, false, ◌||◌, ◌==◌, string_eq, String, Option, none,
  some, Result, ok, Bool-cases, Option-cases, inl, inr, if◌then◌else◌,
}
use pna.Base.Dict.{lookup}
use pna.Base.Text.{Text}
use pna.Base.Value.{num}
use pna.Model.Pattern.{Re, accepts, ip_re, regex_of}
use pna.Model.Filter.{Filters, reject_unmatched, reject_value, filter_reject}
use pna.Model.Filter.Accepted.{reject_address_total}

-- The value is one that the expression of the filter accepts, if there is such an expression.
abbrev pub AcceptedBy : Option Re → Text → Type 0
AcceptedBy none f = Unit
AcceptedBy (some regex) f = accepts regex f ≡ true

abbrev pub Fits : String → Text → Type 0
Fits name f = AcceptedBy (regex_of name) f

abbrev pub AllFit : Filters → Type 0
AllFit [] = Unit
AllFit ((name, f) ∷ filters) = Fits name f × AllFit filters

abbrev Returns : Result Bool → Type 0
Returns r = (b : Bool) × (r ≡ ok b)

found_value : {g f : Text} → ◌≡◌ {A = Option Text} (some g) (some f) → g ≡ f
found_value h = cc

pub lookup-Fits :
    (filters : Filters) (name : String) (f : Text)
    → AllFit filters
    → lookup name filters ≡ some f
    → Fits name f
lookup-Fits [] name f h e = absurd (cc)
lookup-Fits ((j, g) ∷ filters) name f (h, hs) e = elim (Bool-cases (j == name)) [
  | inl same ↦
      let key : j ≡ name = (eq_iff j name).0 same in
      let value : g ≡ f = found_value (rw same at e) in
      subst (λ k. Fits k f) key (subst (Fits j) value h)
  | inr other ↦ lookup-Fits filters name f hs (rw other at e)
]

reject_unmatched_total :
    (regex : Option Re) (f : Text) → AcceptedBy regex f → Returns (reject_unmatched regex f)
unfolding reject_unmatched
reject_unmatched_total none f h = (false, refl)
reject_unmatched_total (some r) f h = (false, rw h)

Returns-if :
    (b : Bool) {x y : Result Bool}
    → (b ≡ true → Returns x)
    → Returns y
    → Returns (if b then x else y)
Returns-if true hx hy = hx refl
Returns-if false hx hy = hy

or_cases : (a b : Bool) → (a || b) ≡ true → (a ≡ true) ⊎ (b ≡ true)
or_cases true b h = inl refl
or_cases false b h = inr h

module _ (name : String) (f : Text) (fit : Fits name f) where
  address_fits : (name == "local-ip" || name == "remote-ip") ≡ true → accepts ip_re f ≡ true
  address_fits h = elim (or_cases (name == "local-ip") (name == "remote-ip") h) [
    | inl e ↦ subst (λ k. Fits k f) ((eq_iff name "local-ip").0 e) fit
    | inr e ↦ subst (λ k. Fits k f) ((eq_iff name "remote-ip").0 e) fit
  ]

reject_value_total :
    (R : Type 0) (name : String) (f : Text) (n : ℕ)
    → Fits name f
    → Returns (reject_value {R = R} name f (num n))
unfolding reject_value
reject_value_total R name f n fit =
    Returns-if _ (λ h. reject_address_total f n (address_fits name f fit h))
      (Returns-if _ (λ h. (true, refl))
        (Returns-if _ (λ h. reject_unmatched_total (regex_of name) f fit) (false, refl)))

-- Where every filter has a value that its expression accepts, filter_reject returns for every name
-- and number, and raises no exception.
pub filter_reject_total :
    (R : Type 0) (filters : Filters) (name : String) (n : ℕ)
    → AllFit filters
    → (b : Bool) × (filter_reject {R = R} filters name (num n) ≡ ok b)
unfolding filter_reject
filter_reject_total R filters name n fit = elim (Option-cases (lookup name filters)) [
  | inl unset ↦ (false, rw (unset, filter_reject))
  | inr (f, set) ↦
      let (b, e) = reject_value_total R name f n (lookup-Fits filters name f fit set) in
      (b, rw (set, filter_reject) e)
]
