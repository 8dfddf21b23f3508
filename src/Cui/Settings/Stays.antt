-- ===== src/Cui/Settings/Stays.antt =====
-- The dialog of the filters keeps them such that their expressions accept their values, and raises
-- nothing, but for keys that are numbers which its edit field does not know.
use pna.Base.{
  string_eq, suc, zero, ◌<◌, ◌≡◌, refl, ap, subst, List, [], ◌∷◌, get_elem?, Bool, true, false,
  if◌then◌else◌, Option, none, some, Result, ok, >>=-eq-ok, ok-injective, Bool-cases, inl, inr,
  String, arith, ℕ,
}
use pna.Base.Dict.{lookup}
use pna.Base.Text.{Text}
use pna.Model.Filter.Total.{AllFit}
use pna.Model.Pattern.{Re, filter_res, regex_of, ip_re, port_re, time_re, latest_re}
use pna.Cui.Keys.{Key, letter, among, esc, bs, del}
use pna.Cui.Edit.{Step, going, returns, edit_key}
use pna.Cui.Edit.Total.{IsHandled, AllHandled, edit_key-Returns}
use pna.Cui.Select.{move_selection}
use pna.Cui.Select.InList.{move_selection-below}
use pna.Cui.Info.Selection.{get_elem?_total}
use pna.Cui.Settings.{clear_filter}
use pna.Cui.Settings.Accepted.{AllFit-clear, store_filter-AllFit}
use pna.Cui.Settings.Dialog.{
  Field, Dialog, filter_count, filter_chars, field_of, value_or, is_accepted, returned, field_key,
  list_key, dialog_key, view_filters,
}

abbrev entry_or : String × Re → Option (String × Re) → String × Re
entry_or d none = d
entry_or d (some e) = e

same_entry :
    (e : String × Re) {f : String × Re}
    → regex_of e.0 ≡ some e.1
    → ◌≡◌ {A = Option (String × Re)} (some e) (some f)
    → regex_of f.0 ≡ some f.1
same_entry e h same = subst (λ g. regex_of g.0 ≡ some g.1) (ap (entry_or e) same) h

-- The lines and the expressions belong together.
pub regex_of_index :
    (i : ℕ) {f : String × Re}
    → i < filter_count
    → get_elem? filter_res i ≡ some f
    → regex_of f.0 ≡ some f.1
regex_of_index zero le h = same_entry ("local-ip", ip_re) refl h
regex_of_index (suc zero) le h = same_entry ("remote-ip", ip_re) refl h
regex_of_index (suc (suc zero)) le h = same_entry ("source-port", port_re) refl h
regex_of_index (suc (suc (suc zero))) le h = same_entry ("destination-port", port_re) refl h
regex_of_index (suc (suc (suc (suc zero)))) le h = same_entry ("begin-time", time_re) refl h
regex_of_index (suc (suc (suc (suc (suc zero))))) le h = same_entry ("end-time", time_re) refl h
regex_of_index (suc (suc (suc (suc (suc (suc zero)))))) le h =
    same_entry ("latest", latest_re) refl h
regex_of_index (suc (suc (suc (suc (suc (suc (suc i))))))) le h = absurd (omega arith)

-- The field edits with the expression of its filter.
abbrev pub IsField : Option Field → Type 0
IsField none = Unit
IsField (some f) = regex_of f.filter ≡ some f.regex

-- A line of the list is selected, and the expressions accept the values of all filters.
abbrev pub IsDialog : Dialog → Type 0
IsDialog s = (s.selection < filter_count) × AllFit s.filters × IsField s.field

-- What comes of a key
abbrev pub Keeps : Result Dialog → Type 0
Keeps r = (d : Dialog) → r ≡ ok d → IsDialog d

Keeps-ok : (d : Dialog) → IsDialog d → Keeps (ok d)
Keeps-ok d h t e = subst IsDialog (ok-injective e) h

if-Keeps : (b : Bool) (x y : Result Dialog) → Keeps x → Keeps y → Keeps (if b then x else y)
if-Keeps true x y hx hy = hx
if-Keeps false x y hx hy = hy

abbrev pub Returns : Result Dialog → Type 0
Returns r = (d : Dialog) × (r ≡ ok d)

if-Returns : (b : Bool) (x y : Result Dialog) → Returns x → Returns y → Returns (if b then x else y)
if-Returns true x y hx hy = hx
if-Returns false x y hx hy = hy

returned-IsDialog :
    (f : Field) (value : Text) (s : Dialog)
    → IsDialog s
    → regex_of f.filter ≡ some f.regex
    → IsDialog (returned f value s)
unfolding returned
returned-IsDialog f value s (le, fit, _) same = elim (Bool-cases (is_accepted f.regex value)) [
  | inl fits ↦ rw fits (le, store_filter-AllFit f.filter f.regex value s.filters same fits fit, tt)
  | inr other ↦ rw other (le, fit, same)
]

field_key-Keeps :
    (key : Key) (f : Field) (s : Dialog)
    → IsDialog s
    → regex_of f.filter ≡ some f.regex
    → Keeps (field_key key f s)
unfolding field_key
field_key-Keeps key f s (le, fit, h) same d e =
    let (step, _, later) = >>=-eq-ok (edit_key 21 f.initial filter_chars key f.line) _ e in
    after step later
  where
    after :
        (step : Step)
        → elim step [
          | going line ↦ ok (record s { field = some (record f { line = line }) })
          | returns value ↦ ok (returned f value s)
        ]
          ≡ ok d
        → IsDialog d
    after (going line) later = subst IsDialog (ok-injective later) (le, fit, same)
    after (returns value) later =
        subst IsDialog (ok-injective later) (returned-IsDialog f value s (le, fit, h) same)

-- The list with a line selected
list_key_total :
    (key : Key) (s : Dialog) → IsDialog s → Returns (list_key key s) × Keeps (list_key key s)
unfolding list_key
list_key_total key s (le, fit, h) =
    let ((filter, regex), at) = get_elem?_total filter_res s.selection le in
    let same = regex_of_index s.selection le at in
    let opens : Dialog = record s {
      field = some (field_of filter regex (value_or (lookup filter s.filters)));
    } in
    let clears : Dialog = record s { filters = clear_filter filter s.filters } in
    let moves : Dialog = record s { selection = move_selection filter_count key s.selection } in
    let cleared = AllFit-clear filter s.filters fit in
    let below = move_selection-below filter_count key s.selection le in
    rw at (
      if-Returns (among key (letter b'q' ∷ letter b'Q' ∷ esc ∷ [])) _ _ (_, refl)
          (if-Returns (among key (letter 13 ∷ letter 10 ∷ [])) _ _ (opens, refl)
            (if-Returns (among key (bs ∷ del ∷ [])) _ _ (clears, refl) (moves, refl))),
      if-Keeps (among key (letter b'q' ∷ letter b'Q' ∷ esc ∷ [])) _ _ (Keeps-ok _ (le, fit, h)) (
          if-Keeps (among key (letter 13 ∷ letter 10 ∷ [])) _ _ (Keeps-ok opens (le, fit, same)) (
            if-Keeps (among key (bs ∷ del ∷ [])) _ _ (Keeps-ok clears (le, cleared, h))
              (Keeps-ok moves (below, fit, h)))),
    )

pub dialog_key-Keeps : (key : Key) (s : Dialog) → IsDialog s → Keeps (dialog_key key s)
unfolding dialog_key
dialog_key-Keeps key s h = on_field s.field h refl
  where
    on_field :
        (o : Option Field)
        → (s.selection < filter_count) × AllFit s.filters × IsField o
        → s.field ≡ o
        → Keeps (elim o [ none ↦ list_key key s | some f ↦ field_key key f s ])
    on_field none (le, fit, _) e = (list_key_total key s h).1
    on_field (some f) (le, fit, same) e = field_key-Keeps key f s h same

after_step :
    (f : Field) (s : Dialog) (step : Step)
    → Returns (elim step [
      | going line ↦ ok (record s { field = some (record f { line = line }) })
      | returns value ↦ ok (returned f value s)
    ])
after_step f s (going line) = (_, refl)
after_step f s (returns value) = (_, refl)

field_key-Returns :
    (key : Key) (f : Field) (s : Dialog) → IsHandled key → Returns (field_key key f s)
unfolding field_key
field_key-Returns key f s known =
    let (step, e) = edit_key-Returns 21 f.initial filter_chars key f.line known in
    rw e (after_step f s step)

dialog_key-Returns :
    (key : Key) (s : Dialog) → IsHandled key → IsDialog s → Returns (dialog_key key s)
unfolding dialog_key
dialog_key-Returns key s known h = on_field s.field
  where
    on_field :
        (o : Option Field) → Returns (elim o [ none ↦ list_key key s | some f ↦ field_key key f s ])
    on_field none = (list_key_total key s h).0
    on_field (some f) = field_key-Returns key f s known

-- Whatever keys are pressed
pub view_filters-Keeps :
    (keys : List (Option Key)) (s : Dialog) → IsDialog s → Keeps (view_filters keys s)
unfolding view_filters
view_filters-Keeps [] s h = Keeps-ok s h
view_filters-Keeps (none ∷ keys) s h = view_filters-Keeps keys s h
view_filters-Keeps (some key ∷ keys) s h = λ d e.
    let (s', did, later) = >>=-eq-ok (dialog_key key s) _ e in
    let h' = dialog_key-Keeps key s h s' did in
    if-Keeps s'.left (ok s') (view_filters keys s') (Keeps-ok s' h') (view_filters-Keeps keys s' h')
      d later

-- Where the edit field knows every number among the keys
pub view_filters-Returns :
    (keys : List (Option Key)) (s : Dialog)
    → AllHandled keys
    → IsDialog s
    → Returns (view_filters keys s)
unfolding view_filters
view_filters-Returns [] s known h = (s, refl)
view_filters-Returns (none ∷ keys) s known h = view_filters-Returns keys s known h
view_filters-Returns (some key ∷ keys) s (known, more) h =
    let (s', did) = dialog_key-Returns key s known h in
    let h' = dialog_key-Keeps key s h s' did in
    rw did (
      if-Returns s'.left (ok s') (view_filters keys s') (s', refl)
        (view_filters-Returns keys s' more h'))
