-- ===== src/Cui/Settings/Accepted.antt =====
-- The dialog stores only values that the filter's expression accepts.
use text.Mathlib.TextEquality.{eq_iff}
use pna.Base.{
  ◌≡◌, refl, ap, ◌∙◌, sym, subst, [], ◌∷◌, true, ◌==◌, string_eq, String, some, Bool-cases, inl,
  inr,
}
use pna.Base.Dict.{lookup, insert, erase, contains}
use pna.Base.Text.{Text}
use pna.Model.Filter.{Filters}
use pna.Model.Pattern.{Re, accepts, regex_of}
use pna.Model.Filter.Total.{AllFit, Fits, AcceptedBy}
use pna.Cui.Settings.{clear_filter, store_filter}
use pna.Cui.Settings.Dialog.{is_accepted, value_or}

AllFit-insert :
    (name : String) (f : Text) (filters : Filters)
    → Fits name f
    → AllFit filters
    → AllFit (insert name f filters)
AllFit-insert name f [] h hs = (h, tt)
AllFit-insert name f ((j, g) ∷ filters) h (hj, hs) = elim (Bool-cases (j == name)) [
  | inl same ↦ rw same (subst (λ k. Fits k f) (sym ((eq_iff j name).0 same)) h, hs)
  | inr other ↦ rw other (hj, AllFit-insert name f filters h hs)
]

AllFit-erase : (name : String) (filters : Filters) → AllFit filters → AllFit (erase name filters)
AllFit-erase name [] hs = tt
AllFit-erase name ((j, g) ∷ filters) (hj, hs) = elim (Bool-cases (j == name)) [
  | inl same ↦ rw same hs
  | inr other ↦ rw other (hj, AllFit-erase name filters hs)
]

pub AllFit-clear :
    (name : String) (filters : Filters) → AllFit filters → AllFit (clear_filter name filters)
unfolding clear_filter
AllFit-clear name filters hs = elim (Bool-cases (contains name filters)) [
  | inl there ↦ rw there (AllFit-erase name filters hs)
  | inr missing ↦ rw missing hs
]

-- What the dialog stores has an expression that accepts it.
pub store_filter-AllFit :
    (name : String) (regex : Re) (value : Text) (filters : Filters)
    → regex_of name ≡ some regex
    → is_accepted regex value ≡ true
    → AllFit filters
    → AllFit (store_filter name value filters)
unfolding store_filter
store_filter-AllFit name regex [] filters e h hs = AllFit-clear name filters hs
store_filter-AllFit name regex (c ∷ cs) filters e h hs =
    AllFit-insert name (c ∷ cs) filters (subst (λ o. AcceptedBy o (c ∷ cs)) (sym e) h) hs

-- A stored value is accepted again.
pub lookup-is_accepted :
    (name : String) (regex : Re) (filters : Filters)
    → regex_of name ≡ some regex
    → AllFit filters
    → is_accepted regex (value_or (lookup name filters)) ≡ true
lookup-is_accepted name regex [] e hs = refl
lookup-is_accepted name regex ((j, g) ∷ filters) e (h, hs) = elim (Bool-cases (j == name)) [
  | inl same ↦
      let here : regex_of j ≡ some regex = ap regex_of ((eq_iff j name).0 same) ∙ e in
      rw same (accepted_text regex g (subst (λ o. AcceptedBy o g) here h))
  | inr other ↦ rw other (lookup-is_accepted name regex filters e hs)
]
  where
    accepted_text : (regex : Re) (g : Text) → accepts regex g ≡ true → is_accepted regex g ≡ true
    accepted_text regex [] h = refl
    accepted_text regex (c ∷ cs) h = h
