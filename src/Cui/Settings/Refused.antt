-- ===== src/Cui/Settings/Refused.antt =====
-- A text that a filter refuses keeps its edit field open.
use pna.Base.{◌≡◌, refl, All, List, [], ◌∷◌, map, true, false, some, ok}
use pna.Cui.Keys.{Key, letter, among, esc}
use pna.Cui.Keys.Same.{among-All}
use pna.Cui.Edit.{edit_key}
use pna.Cui.Settings.Dialog.{
  Field, Dialog, is_accepted, view_filters, field_of, dialog_key, field_key,
}

-- The keys with which a dialog is left
abbrev pub leave_keys : List Key
leave_keys = letter b'q' ∷ letter b'Q' ∷ esc ∷ []

abbrev Reopens : Field → Dialog → Key → Type 0
Reopens f s key =
    field_key key f s ≡ ok (record s { field = some (field_of f.filter f.regex f.initial) })

-- A key with which a dialog is left returns to a text that is refused.
field_key-Reopens :
    (f : Field) (s : Dialog) (key : Key)
    → is_accepted f.regex f.initial ≡ false
    → among key leave_keys ≡ true
    → Reopens f s key
unfolding field_key edit_key
field_key-Reopens f s key refused leaves =
    among-All (Reopens f s) key leave_keys (rw refused, (rw refused, (rw refused, tt))) leaves

field_key_enter :
    (f : Field) (s : Dialog)
    → is_accepted f.regex f.line.value ≡ false
    → field_key (letter 13) f s
      ≡ ok (record s { field = some (field_of f.filter f.regex f.line.value) })
unfolding field_key edit_key
field_key_enter f s refused = rw refused

leaving_refused :
    (f : Field) (s : Dialog) (keys : List Key)
    → s.left ≡ false
    → is_accepted f.regex f.initial ≡ false
    → All (λ k. among k leave_keys ≡ true) keys
    → view_filters (map some keys) (record s { field = some (field_of f.filter f.regex f.initial) })
      ≡ ok (record s { field = some (field_of f.filter f.regex f.initial) })
unfolding view_filters dialog_key
leaving_refused f s [] open_still refused leaves = refl
leaving_refused f s (key ∷ keys) open_still refused (this, others) =
    let rest = leaving_refused f s keys open_still refused others in
    rw
      (
        field_key-Reopens (field_of f.filter f.regex f.initial)
            (record s { field = some (field_of f.filter f.regex f.initial) }) key refused this,
        open_still,
      )
      (rw open_still at rest)

-- When the edit field of a filter holds a text that is not empty and that the expression of the
-- filter does not accept, Enter keeps the field open on this text, and no number of the keys q, Q
-- and ESC after it closes the field or the dialog.
pub enter_refused :
    (f : Field) (s : Dialog) (keys : List Key)
    → s.field ≡ some f
    → s.left ≡ false
    → is_accepted f.regex f.line.value ≡ false
    → All (λ k. among k leave_keys ≡ true) keys
    → view_filters (some (letter 13) ∷ map some keys) s
      ≡ ok (record s { field = some (field_of f.filter f.regex f.line.value) })
unfolding view_filters dialog_key
enter_refused f s keys opened open_still refused leaves =
    let rest =
      leaving_refused (field_of f.filter f.regex f.line.value) s keys open_still refused leaves in
    rw (opened, field_key_enter f s refused, open_still) (rw open_still at rest)
