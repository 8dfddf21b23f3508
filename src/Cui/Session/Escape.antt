-- ===== src/Cui/Session/Escape.antt =====
-- Ctrl-U, Enter, ESC and ESC, at the end of what a dialog of cui.py reads.
use pna.Base.{
  ℕ, ◌≡◌, ◌≢◌, refl, ap, sym, subst, ◌∙◌, List, [], ◌∷◌, ◌++◌, Bool, true, false, ◌||◌,
  if◌then◌else◌, nat_eq, text_eq, length, Option, none, some, Result, ok, ◌>>=◌, >>=-eq-ok,
  ok-injective, Bool-cases, inl, inr, or_raise, index_error, get_elem?,
}
use pna.Base.Text.{Text, show}
use pna.Model.State.{PnaModel}
use pna.Cui.Keys.{Key, among, letter, esc, nak}
use pna.Cui.Edit.{Line, Step, going, returns, edit_key, edit_loop, get_value}
use pna.Cui.Select.{
  Choice, waits as still, leaves, chooses, move_selection, select_loop, sort_keys, position_of,
  set_sort_key,
}
use pna.Cui.Settings.{digits, read_threshold, set_threshold}
use pna.Cui.Settings.Accepted.{lookup-is_accepted}
use pna.Cui.Settings.Stays.{IsDialog, regex_of_index, dialog_key-Keeps}
use pna.Cui.Settings.Dialog.{Field, Dialog, list_key, field_key, returned, dialog_key, view_filters}
use pna.Cui.Info.Selection.{get_elem?_total}
use pna.Model.Pattern.{filter_res}
use pna.Cui.Session.{details_closed}

-- What a dialog reads, with Ctrl-U, Enter, ESC and ESC at its end
abbrev pub closing : List (Option Key)
closing = some nak ∷ some (letter 13) ∷ some esc ∷ some esc ∷ []

abbrev pub closed : List (Option Key) → List (Option Key)
closed keys = keys ++ closing

abbrev IsLeft : Choice → Type 0
IsLeft c = elim c [ still s ↦ ⊥ | leaves ↦ Unit | chooses s ↦ Unit ]

if-IsLeft : (b : Bool) (x y : Choice) → IsLeft x → IsLeft y → IsLeft (if b then x else y)
if-IsLeft true x y hx hy = hx
if-IsLeft false x y hx hy = hy

select_loop-IsLeft :
    (count : ℕ) (keys : List (Option Key)) (s : ℕ) → IsLeft (select_loop count (closed keys) s)
unfolding select_loop
select_loop-IsLeft count [] s = tt
select_loop-IsLeft count (none ∷ keys) s = select_loop-IsLeft count keys s
select_loop-IsLeft count (some key ∷ keys) s =
    if-IsLeft (among key (letter b'q' ∷ letter b'Q' ∷ esc ∷ [])) _ _ tt (
      if-IsLeft (among key (letter 13 ∷ letter 10 ∷ [])) _ _ tt
        (select_loop-IsLeft count keys (move_selection count key s)))

abbrev pub Leaves : {A : Type 0} → Result (Option A) → Type 0
Leaves r = r ≢ ok none

chosen-Leaves :
    (m : PnaModel) (c : Choice)
    → IsLeft c
    → Leaves (elim c [
      | still _ ↦ ok none
      | leaves ↦ ok (some m)
      | chooses selection ↦ do
        key ← or_raise (get_elem? sort_keys selection) index_error
        ok (some (record m { sort_key = key }))
    ])
chosen-Leaves m (still s) h e = h
chosen-Leaves m leaves h e = cc
chosen-Leaves m (chooses s) h e =
    let (k, _, later) = >>=-eq-ok (or_raise (get_elem? sort_keys s) index_error) _ e in cc

pub set_sort_key-Leaves :
    (keys : List (Option Key)) (m : PnaModel) → Leaves (set_sort_key (closed keys) m)
unfolding set_sort_key
set_sort_key-Leaves keys m =
    chosen-Leaves m _ (select_loop-IsLeft (length sort_keys) keys (position_of m.sort_key))

-- The edit field is left.
abbrev IsDone : Step → Type 0
IsDone s = elim s [ going l ↦ ⊥ | returns v ↦ Unit ]

module _ (width : ℕ) (initial chars : Text) where
  after_key :
      (keys : List (Option Key)) (s : Step)
      → ((l : Line) → edit_loop width initial chars (closed keys) l ≡ ok s → IsDone s)
      → (step : Step)
      → elim step [
        | going l' ↦ edit_loop width initial chars (closed keys) l'
        | returns v ↦ ok (returns v)
      ]
        ≡ ok s
      → IsDone s
  after_key keys s next (going l) e = next l e
  after_key keys s next (returns v) e = subst IsDone (ok-injective e) tt

  edit_loop-IsDone :
      (keys : List (Option Key)) (l : Line) (s : Step)
      → edit_loop width initial chars (closed keys) l ≡ ok s
      → IsDone s
  unfolding edit_loop edit_key
  edit_loop-IsDone [] l s e = subst IsDone (ok-injective e) tt
  edit_loop-IsDone (none ∷ keys) l s e = edit_loop-IsDone keys l s e
  edit_loop-IsDone (some key ∷ keys) l s e =
      let (step, _, later) = >>=-eq-ok (edit_key width initial chars key l) _ e in
      after_key keys s (λ l'. edit_loop-IsDone keys l' s) step later

pub set_threshold-Leaves :
    (keys : List (Option Key)) (m : PnaModel) → Leaves (set_threshold (closed keys) m)
unfolding set_threshold get_value
set_threshold-Leaves keys m e =
    let (step, typed, later) =
      >>=-eq-ok (get_value 15 (show m.threshold) digits (closed keys)) _ e in
    stored step (edit_loop-IsDone 15 (show m.threshold) digits keys _ step typed) later
  where
    stored :
        (step : Step)
        → IsDone step
        → elim step [
          | going l ↦ ok none
          | returns value ↦ do n ← read_threshold value; ok (some (record m { threshold = n }))
        ]
          ≡ ok none
        → ⊥
    stored (going l) h later = h
    stored (returns v) h later = let (n, _, last) = >>=-eq-ok (read_threshold v) _ later in cc

-- In the list, Enter opens the field on a value that is accepted, and ESC returns it; in the field,
-- Ctrl-U and Enter return the empty text, and what follows closes the list.
closing-left :
    (o : Option Field) (s d : Dialog)
    → s.left ≡ false
    → IsDialog (record s { field = o })
    → view_filters closing (record s { field = o }) ≡ ok d
    → d.left ≡ true
unfolding view_filters dialog_key list_key field_key returned edit_key move_selection
closing-left none s d open_still (le, fit, _) e =
    let ((filter, regex), at) = get_elem?_total filter_res s.selection le in
    let same = regex_of_index s.selection le at in
    let again = lookup-is_accepted filter regex s.filters same fit in
    let ends = rw (open_still, at, again) at e in ap (λ d. d.left) (ok-injective (sym ends))
closing-left (some f) s d open_still h e =
    let ends = rw open_still at e in ap (λ d. d.left) (ok-injective (sym ends))

pub view_filters-left :
    (keys : List (Option Key)) (s d : Dialog)
    → s.left ≡ false
    → IsDialog s
    → view_filters (closed keys) s ≡ ok d
    → d.left ≡ true
unfolding view_filters
view_filters-left [] s d open_still h e = closing-left s.field s d open_still h e
view_filters-left (none ∷ keys) s d open_still h e = view_filters-left keys s d open_still h e
view_filters-left (some key ∷ keys) s d open_still h e =
    let (s', did, later) = >>=-eq-ok (dialog_key key s) _ e in
    let h' = dialog_key-Keeps key s h s' did in
    elim (Bool-cases s'.left) [
      | inl left ↦
          let same : ◌≡◌ {A = Result Dialog} (ok s') (ok d) = rw left at later in
          ap (λ d. d.left) (ok-injective (sym same)) ∙ left
      | inr still_open ↦ view_filters-left keys s' d still_open h' (rw still_open at later)
    ]

or_true : (a b : Bool) → b ≡ true → (a || b) ≡ true
or_true true b h = refl
or_true false b h = h

pub details_closed_closing : (keys : List (Option Key)) → details_closed (closed keys) ≡ true
unfolding details_closed
details_closed_closing [] = refl
details_closed_closing (none ∷ keys) = details_closed_closing keys
details_closed_closing (some key ∷ keys) =
    or_true (among key (letter b'q' ∷ letter b'Q' ∷ esc ∷ letter 13 ∷ letter 10 ∷ [])) _
      (details_closed_closing keys)
