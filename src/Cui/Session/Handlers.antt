-- ===== src/Cui/Session/Handlers.antt =====
-- The handlers of keys keep the invariant of a session.
use pna.Base.{
  ◌≡◌, refl, ap, sym, subst, List, [], ◌∷◌, Bool, true, false, if◌then◌else◌, nat_eq, Option, none,
  some, ok, ◌>>=◌, >>=-eq-ok, ok-injective, inl, inr, ◌∙◌, arith,
}
use pna.Base.Text.{show}
use pna.Base.Value.{Entry}
use pna.Model.Filter.{Filters}
use pna.Model.Filter.Total.{AllFit}
use pna.Model.State.{PnaModel}
use pna.Model.State.Fields.{get_fields}
use pna.Cui.Keys.{Key, among}
use pna.Cui.Edit.{Step as EditStep, going, returns, get_value}
use pna.Cui.Select.{set_sort_key}
use pna.Cui.Select.InList.{set_sort_key_total}
use pna.Cui.Settings.{set_threshold, read_threshold, digits}
use pna.Cui.Settings.Threshold.{AllPlain, set_threshold_total}
use pna.Cui.Settings.Dialog.{view_filters}
use pna.Cui.Settings.Stays.{view_filters-Keeps}
use pna.Cui.Info.{Details, beep, details, view_details}
use pna.Cui.Info.Selection.{IsMoved, move-IsMoved}
use pna.Cui.Draw.{detail_lines}
use pna.Cui.Session.Invariant.{IsSettled, IsSession, Holds, update-IsSession, redraw-IsSession}
use pna.Cui.Session.{
  Session, sort_key_action, threshold_action, filters_action, quit_action, details_action,
  update_action, move_action, update, redraw, Action, Control, runs, waits, exits, settle,
  write_filters, opened, run_filters, run_details, run_action, details_closed, Handlers, handlers,
  dispatch, handle_control,
}

abbrev pub some_or : PnaModel → Option PnaModel → PnaModel
some_or a none = a
some_or a (some b) = b

pub some_of : {m n : PnaModel} → ◌≡◌ {A = Option PnaModel} (some m) (some n) → m ≡ n
some_of {m} e = ap (some_or m) e

settle-Holds :
    (s : Session) (o : Option PnaModel) (c : Control)
    → ((m : PnaModel) → o ≡ some m → IsSettled m)
    → IsMoved s.info.selection
    → settle s o ≡ ok c
    → Holds c
unfolding settle
settle-Holds s none c h moved e = subst Holds (ok-injective e) tt
settle-Holds s (some m) c h moved e =
    let (t, drawn, later) = >>=-eq-ok (redraw (record s { model = m })) _ e in
    subst Holds (ok-injective later)
      (redraw-IsSession (record s { model = m }) t drawn (h m refl, moved)).0

sort_key-IsSettled :
    (keys : List (Option Key)) (m m' : PnaModel)
    → set_sort_key keys m ≡ ok (some m')
    → IsSettled m
    → IsSettled m'
sort_key-IsSettled keys m m' e h = elim (set_sort_key_total keys m) [
  | inl waiting ↦ cc
  | inr (inl same) ↦ subst IsSettled (some_of (ok-injective (sym same ∙ e))) h
  | inr (inr (i, k, _, set)) ↦
      subst IsSettled (some_of (ok-injective (sym set ∙ e)))
        (record { fit = h.fit; small = h.small; loaded = h.loaded })
]

threshold-IsSettled :
    (keys : List (Option Key)) (m m' : PnaModel)
    → AllPlain keys
    → set_threshold keys m ≡ ok (some m')
    → IsSettled m
    → IsSettled m'
unfolding set_threshold
threshold-IsSettled keys m m' plain e h =
    let (step, typed, later) = >>=-eq-ok (get_value 15 (show m.threshold) digits keys) _ e in
    left step typed later
  where
    left :
        (step : EditStep)
        → get_value 15 (show m.threshold) digits keys ≡ ok step
        → elim step [
          | going l ↦ ok none
          | returns value ↦ do n ← read_threshold value; ok (some (record m { threshold = n }))
        ]
          ≡ ok (some m')
        → IsSettled m'
    left (going l) typed later = cc
    left (returns v) typed later =
        let (n, sets, small) = set_threshold_total keys m v plain typed in
        subst IsSettled (some_of (ok-injective (sym sets ∙ e)))
          (record { fit = h.fit; small = small; loaded = h.loaded })

filters-Holds :
    (inputs : List (Option Key)) (s : Session) (c : Control)
    → IsSession s
    → run_filters inputs s ≡ ok c
    → Holds c
unfolding run_filters
filters-Holds inputs s c (h, moved) e =
    let (d, left, later) = >>=-eq-ok (view_filters inputs (opened s)) _ e in
    let (_, fit, _) = view_filters-Keeps inputs (opened s) (omega arith, h.fit, tt) d left in
    settle-Holds s _ c (written d.left d.filters fit) moved later
  where
    written :
        (left : Bool) (filters : Filters)
        → AllFit filters
        → (m : PnaModel) → (if left then some (write_filters filters s.model) else none) ≡ some m
        → IsSettled m
    written true filters fit m w = subst IsSettled (some_of w) (record {
      fit = rw ((nat_eq.beq_iff s.model.filters s.model.filters).1 refl) fit;
      small = h.small;
      loaded = h.loaded;
    })
    written false filters fit m w = cc

details-Holds :
    (keys : List (Option Key)) (s : Session) (c : Control)
    → IsSession s
    → run_details keys s ≡ ok c
    → Holds c
unfolding run_details
details-Holds keys s c h e =
    let (shows, _, later) = >>=-eq-ok (view_details s.info) _ e in shown shows later
  where
    ended : (closed : Bool) → ok (if closed then runs s else waits) ≡ ok c → Holds c
    ended true e = subst Holds (ok-injective e) h
    ended false e = subst Holds (ok-injective e) tt

    shown :
        (shows : Details Entry)
        → elim shows [
          | beep ↦ ok (runs s)
          | details row ↦ do
            _ ← detail_lines s.width (get_fields false s.model.sort_key) row
            ok (if details_closed keys then runs s else waits)
        ]
          ≡ ok c
        → Holds c
    shown beep later = subst Holds (ok-injective later) h
    shown (details row) later =
        let (ls, _, last) =
          >>=-eq-ok (detail_lines s.width (get_fields false s.model.sort_key) row) _ later in
        ended (details_closed keys) last

-- No key that the field of the threshold takes is more than one character.
abbrev pub ArePlain : List (Option Key) → Type 0
ArePlain inputs = AllPlain inputs

run_action-Holds :
    (action : Action) (inputs : List (Option Key)) (s : Session) (c : Control)
    → ArePlain inputs
    → IsSession s
    → run_action action inputs s ≡ ok c
    → Holds c
unfolding run_action
run_action-Holds sort_key_action inputs s c plain (h, moved) e =
    let (o, chosen, later) = >>=-eq-ok (set_sort_key inputs s.model) _ e in
    settle-Holds s o c (λ m same. sort_key-IsSettled inputs s.model m (chosen ∙ ap ok same) h) moved
      later
run_action-Holds threshold_action inputs s c plain (h, moved) e =
    let (o, typed, later) = >>=-eq-ok (set_threshold inputs s.model) _ e in
    settle-Holds s o c (λ m same. threshold-IsSettled inputs s.model m plain (typed ∙ ap ok same) h)
      moved later
run_action-Holds filters_action inputs s c plain h e = filters-Holds inputs s c h e
run_action-Holds quit_action inputs s c plain h e = subst Holds (ok-injective e) tt
run_action-Holds details_action inputs s c plain h e = details-Holds inputs s c h e
run_action-Holds update_action inputs s c plain h e =
    let (t, updated, later) = >>=-eq-ok (update s) _ e in
    subst Holds (ok-injective later) (update-IsSession s t updated h).0
run_action-Holds (move_action key) inputs s c plain (h, moved) e =
    subst Holds (ok-injective e) (h, move-IsMoved key s.info moved)

matched-Holds :
    (b : Bool) (action : Action) (inputs : List (Option Key)) (s : Session) (c : Control)
    → ArePlain inputs
    → IsSession s
    → (if b then run_action action inputs s else ok (runs s)) ≡ ok c
    → Holds c
matched-Holds true action inputs s c plain h e = run_action-Holds action inputs s c plain h e
matched-Holds false action inputs s c plain h e = subst Holds (ok-injective e) h

after_handler :
    (rest : Handlers) (key : Key) (inputs : List (Option Key)) (c : Control)
    → ((t : Session) → IsSession t → dispatch rest key inputs t ≡ ok c → Holds c)
    → (d : Control) → Holds d
    → elim d [ runs t ↦ dispatch rest key inputs t | waits ↦ ok waits | exits ↦ ok exits ] ≡ ok c
    → Holds c
after_handler rest key inputs c go_on (runs t) ht later = go_on t ht later
after_handler rest key inputs c go_on waits ht later = subst Holds (ok-injective later) tt
after_handler rest key inputs c go_on exits ht later = subst Holds (ok-injective later) tt

dispatch-Holds :
    (table : Handlers) (key : Key) (inputs : List (Option Key)) (s : Session) (c : Control)
    → ArePlain inputs
    → IsSession s
    → dispatch table key inputs s ≡ ok c
    → Holds c
unfolding dispatch
dispatch-Holds [] key inputs s c plain h e = subst Holds (ok-injective e) h
dispatch-Holds ((keys, action) ∷ rest) key inputs s c plain h e =
    let (d, handled, later) =
      >>=-eq-ok (if among key keys then run_action action inputs s else ok (runs s)) _ e in
    after_handler rest key inputs c (λ t. dispatch-Holds rest key inputs t c plain) d
      (matched-Holds (among key keys) action inputs s d plain h handled) later

pub handle_control-Holds :
    (key : Option Key) (inputs : List (Option Key)) (s : Session) (c : Control)
    → ArePlain inputs
    → IsSession s
    → handle_control key inputs s ≡ ok c
    → Holds c
unfolding handle_control
handle_control-Holds none inputs s c plain h e = subst Holds (ok-injective e) h
handle_control-Holds (some key) inputs s c plain h e =
    dispatch-Holds handlers key inputs s c plain h e
