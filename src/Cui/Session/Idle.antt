-- ===== src/Cui/Session/Idle.antt =====
-- A session in which no log was added: the interface raises nothing, until it is quit.
use pna.Base.{
  ℕ, zero, suc, ◌-◌, ◌≡◌, ◌⊎◌, refl, ap, subst, ◌∙◌, List, [], ◌∷◌, Bool, true, false, take, length,
  if◌then◌else◌, leb, Option, none, some, Result, ok, ◌>>=◌, inl, inr, arith,
}
use pna.Base.Int.{ℤ, pos, negsuc, ltb_ℤ}
use pna.Base.Text.{show}
use pna.Base.Value.{Entry}
use pna.Model.Filter.{Filters}
use pna.Model.State.{PnaModel}
use pna.Model.State.Dicts.{items}
use pna.Model.State.Idle.{IsIdle, get_data-IsEmptied}
use pna.Cui.Keys.{Key}
use pna.Cui.Edit.{Step as EditStep, going, returns, get_value}
use pna.Cui.Select.{set_sort_key}
use pna.Cui.Select.InList.{set_sort_key_total}
use pna.Cui.Settings.{set_threshold, digits}
use pna.Cui.Settings.Threshold.{AllPlain, set_threshold_total}
use pna.Cui.Settings.Stays.{view_filters-Returns}
use pna.Cui.Edit.Total.{AllHandled, get_value_total}
use pna.Cui.Info.{Move, move, update_data, visible, view_details}
use pna.Cui.Info.Selection.{IsIndex}
use pna.Cui.Draw.{row_lines}
use pna.Cui.Settings.View.{settings_view}
use pna.Cui.Session.{
  Session, update, redraw, write_view, Action, Control, runs, waits, exits, settle, opened,
  write_filters, run_filters, run_details, run_action, handlers, sort_key_action, threshold_action,
  filters_action, quit_action, details_action, update_action, move_action, handle_control,
}
use pna.Cui.Session.Invariant.{IsSession, IsCurrent}
use pna.Cui.Session.Handlers.{ArePlain, some_of}
use pna.Cui.Session.Arrival.{header_line_total}
use pna.Cui.Session.Dispatch.{action_of, on_action, handle_control-action_of}

take-nil : {A : Type 0} (n : ℕ) → take {A = A} n [] ≡ []
take-nil zero = refl
take-nil (suc n) = refl

visible-nil : (height : ℕ) → visible {A = Entry} height [] ≡ []
visible-nil height = if-nil (leb 2 height)
  where
    if-nil :
        (b : Bool)
        → (if b then take {A = Entry} (height - 2) [] else take (0 - (2 - height)) []) ≡ []
    if-nil true = take-nil (height - 2)
    if-nil false = take-nil (0 - (2 - height))

-- Nothing to show, and no log behind it.
abbrev pub IsBlank : Session → Type 0
IsBlank s = IsIdle s.model × (s.info.shown ≡ [])

abbrev pub Blanks : Result Session → Type 0
Blanks r = (s : Session) × (r ≡ ok s) × IsBlank s

update-Blanks : (s : Session) → IsIdle s.model → Blanks (update s)
unfolding update update_data
update-Blanks s h =
    let (m, out, e, empty, idle) = get_data-IsEmptied s.model h in
    let info = update_data s.height (items out) s.info in
    let none_shown : info.shown ≡ [] = ap (visible s.height) empty ∙ visible-nil s.height in
    (record s { model = m; info = info }, rw e, (idle, none_shown))

pub redraw-Blanks : (s : Session) → IsIdle s.model → Blanks (redraw s)
unfolding redraw row_lines
redraw-Blanks s h =
    let (header, eh) = header_line_total s.model.sort_key in
    let (t, eu, (idle, none_shown)) = update-Blanks s h in
    (record t { lines = header ∷ [] }, rw (eh, eu, none_shown), (idle, none_shown))

pub write_view-Blanks : (s : Session) → IsIdle s.model → Blanks (write_view s)
unfolding write_view
write_view-Blanks s h = redraw-Blanks (record s { settings = settings_view 5 s.width s.model }) h

-- What an action or a round does.
abbrev pub GoesTo : Control → Type 0
GoesTo c = elim c [ runs s ↦ IsBlank s | waits ↦ Unit | exits ↦ Unit ]

abbrev pub Goes : Result Control → Type 0
Goes r = (c : Control) × (r ≡ ok c) × GoesTo c

settle-Goes :
    (s : Session) (o : Option PnaModel)
    → ((m : PnaModel) → o ≡ some m → IsIdle m)
    → Goes (settle s o)
unfolding settle
settle-Goes s none h = (waits, refl, tt)
settle-Goes s (some m) h =
    let (t, e, blank) = redraw-Blanks (record s { model = m }) (h m refl) in (runs t, rw e, blank)

sort_key-Goes :
    (keys : List (Option Key)) (s : Session)
    → IsIdle s.model
    → Goes (do m ← set_sort_key keys s.model; settle s m)
sort_key-Goes keys s h = elim (set_sort_key_total keys s.model) [
  | inl waiting ↦ rw waiting (settle-Goes s none (λ m e. cc))
  | inr (inl same) ↦ rw same (settle-Goes s _ (λ m e. subst IsIdle (some_of e) h))
  | inr (inr (i, k, _, set)) ↦ rw set (settle-Goes s _ (λ m e. subst IsIdle (some_of e) h))
]

threshold_returns :
    (keys : List (Option Key)) (m : PnaModel)
    → AllPlain keys
    → AllHandled keys
    → (set_threshold keys m ≡ ok none)
      ⊎ ((n : ℕ) × (set_threshold keys m ≡ ok (some (record m { threshold = n }))))
unfolding set_threshold
threshold_returns keys m plain known =
    let (step, e) = get_value_total 15 (show m.threshold) digits keys known in left step e
  where
    left :
        (step : EditStep)
        → get_value 15 (show m.threshold) digits keys ≡ ok step
        → (set_threshold keys m ≡ ok none)
          ⊎ ((n : ℕ) × (set_threshold keys m ≡ ok (some (record m { threshold = n }))))
    left (going l) e = inl (rw e)
    left (returns v) e =
        let (n, sets, small) = set_threshold_total keys m v plain e in inr (n, sets)

threshold-Goes :
    (keys : List (Option Key)) (s : Session)
    → AllPlain keys
    → AllHandled keys
    → IsIdle s.model
    → Goes (do m ← set_threshold keys s.model; settle s m)
threshold-Goes keys s plain known h = elim (threshold_returns keys s.model plain known) [
  | inl waiting ↦ rw waiting (settle-Goes s none (λ m e. cc))
  | inr (n, sets) ↦ rw sets (settle-Goes s _ (λ m e. subst IsIdle (some_of e) h))
]

filters-Goes :
    (inputs : List (Option Key)) (s : Session)
    → AllHandled inputs
    → IsSession s
    → IsIdle s.model
    → Goes (run_filters inputs s)
unfolding run_filters
filters-Goes inputs s known (settled, _) h =
    let (d, reads) = view_filters-Returns inputs (opened s) known (omega arith, settled.fit, tt) in
    rw reads (settle-Goes s _ (written d.left d.filters))
  where
    written :
        (left : Bool) (filters : Filters) (m : PnaModel)
        → (if left then some (write_filters filters s.model) else none) ≡ some m
        → IsIdle m
    written true filters m w = subst IsIdle (some_of w) h
    written false filters m w = cc

beeps : (i : ℤ) (rows : List Entry) → rows ≡ [] → IsIndex i (length rows) → ltb_ℤ i (pos 0) ≡ true
beeps (pos n) rows none_shown h =
    let size : length rows ≡ 0 = ap length none_shown in absurd (omega arith)
beeps (negsuc n) rows none_shown h = ground arith

details-Goes :
    (keys : List (Option Key)) (s : Session) → IsBlank s → IsCurrent s → Goes (run_details keys s)
unfolding run_details view_details
details-Goes keys s (idle, none_shown) h =
    let low : ltb_ℤ s.info.selection (pos 0) ≡ true =
      beeps s.info.selection s.info.shown none_shown h in
    (runs s, rw low, (idle, none_shown))

-- What the dialogs of a round read: the numbers among the keys are ones that an edit field handles,
-- and no key that the field of the threshold takes is more than one character.
abbrev pub IsReadable : List (Option Key) → Type 0
IsReadable inputs = ArePlain inputs × AllHandled inputs

-- Right after the window was drawn
module _ (inputs : List (Option Key)) (s : Session) (readable : IsReadable inputs) where
  on_action-Goes :
      (o : Option Action) → IsSession s → IsBlank s → IsCurrent s → Goes (on_action o inputs s)
  unfolding run_action move
  on_action-Goes none h blank current = (runs s, refl, blank)
  on_action-Goes (some sort_key_action) h blank current = sort_key-Goes inputs s blank.0
  on_action-Goes (some threshold_action) h blank current =
      threshold-Goes inputs s readable.0 readable.1 blank.0
  on_action-Goes (some filters_action) h blank current = filters-Goes inputs s readable.1 h blank.0
  on_action-Goes (some quit_action) h blank current = (exits, refl, tt)
  on_action-Goes (some details_action) h blank current = details-Goes inputs s blank current
  on_action-Goes (some update_action) h blank current =
      let (t, e, blank') = update-Blanks s blank.0 in (runs t, rw e, blank')
  on_action-Goes (some (move_action Move.up)) h blank current = (_, refl, blank)
  on_action-Goes (some (move_action Move.down)) h blank current = (_, refl, blank)
  on_action-Goes (some (move_action Move.first)) h blank current = (_, refl, blank)
  on_action-Goes (some (move_action Move.last)) h blank current = (_, refl, blank)

  pub handle_control-Goes :
      (key : Option Key)
      → IsSession s
      → IsBlank s
      → IsCurrent s
      → Goes (handle_control key inputs s)
  unfolding handle_control
  handle_control-Goes none h blank current = (runs s, refl, blank)
  handle_control-Goes (some key) h blank current =
      rw (handle_control-action_of key inputs s)
        (on_action-Goes (action_of handlers key) h blank current)
