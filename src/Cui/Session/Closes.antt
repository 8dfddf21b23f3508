-- ===== src/Cui/Session/Closes.antt =====
-- Ctrl-U, Enter, ESC and ESC close every dialog.
use pna.Base.{
  arith, ◌≡◌, ◌≢◌, refl, sym, ◌∙◌, List, false, if◌then◌else◌, nat_eq, text_eq, Option, none, some,
  Result, ok, err, stuck, ◌>>=◌, >>=-eq-ok,
}
use pna.Base.Value.{Entry}
use pna.Model.State.{PnaModel}
use pna.Model.State.Fields.{get_fields}
use pna.Cui.Keys.{Key}
use pna.Cui.Settings.Dialog.{view_filters}
use pna.Cui.Info.{Details, beep, details, view_details}
use pna.Cui.Draw.{detail_lines}
use pna.Cui.Session.{
  Session, redraw, update, Action, sort_key_action, threshold_action, filters_action, quit_action,
  details_action, update_action, move_action, Control, runs, waits, settle, write_filters, opened,
  run_filters, run_details, details_closed, run_action, handlers, handle_control,
}
use pna.Cui.Session.Invariant.{IsSession}
use pna.Cui.Session.Dispatch.{action_of, on_action, handle_control-action_of}
use pna.Cui.Session.Escape.{
  closed, Leaves, set_sort_key-Leaves, set_threshold-Leaves, view_filters-left,
  details_closed_closing,
}

-- No dialog waits.
abbrev pub GoesOn : Result Control → Type 0
GoesOn r = r ≢ ok waits

settle-GoesOn : (s : Session) (r : Result (Option PnaModel)) → Leaves r → GoesOn (r >>= settle s)
unfolding settle
settle-GoesOn s (ok none) h e = h refl
settle-GoesOn s (ok (some m)) h e =
    let (t, _, later) = >>=-eq-ok (redraw (record s { model = m })) _ e in cc
settle-GoesOn s (err x) h e = cc
settle-GoesOn s stuck h e = cc

filters-GoesOn :
    (inputs : List (Option Key)) (s : Session)
    → IsSession s
    → GoesOn (run_filters (closed inputs) s)
unfolding run_filters
filters-GoesOn inputs s (settled, _) e =
    let (d, filtered, later) = >>=-eq-ok (view_filters (closed inputs) (opened s)) _ e in
    let left = view_filters-left inputs (opened s) d refl (omega arith, settled.fit, tt) filtered in
    settle-GoesOn s (ok (some (write_filters d.filters s.model))) (λ x. cc) (rw left at later)

details-GoesOn : (keys : List (Option Key)) (s : Session) → GoesOn (run_details (closed keys) s)
unfolding run_details
details-GoesOn keys s e =
    let (shows, _, later) = >>=-eq-ok (view_details s.info) _ e in shown shows later
  where
    shown :
        (shows : Details Entry)
        → elim shows [
          | beep ↦ ok (runs s)
          | details row ↦ do
            _ ← detail_lines s.width (get_fields false s.model.sort_key) row
            ok (if details_closed (closed keys) then runs s else waits)
        ]
          ≡ ok waits
        → ⊥
    shown beep later = cc
    shown (details row) later =
        let (ls, _, last) =
          >>=-eq-ok (detail_lines s.width (get_fields false s.model.sort_key) row) _ later in
        let goes : ◌≡◌ {A = Result Control} (ok (runs s)) (ok waits) =
          rw (details_closed_closing keys) at last in
        cc

on_action-GoesOn :
    (o : Option Action) (inputs : List (Option Key)) (s : Session)
    → IsSession s
    → GoesOn (on_action o (closed inputs) s)
unfolding run_action
on_action-GoesOn none inputs s h e = cc
on_action-GoesOn (some sort_key_action) inputs s h e =
    settle-GoesOn s _ (set_sort_key-Leaves inputs s.model) e
on_action-GoesOn (some threshold_action) inputs s h e =
    settle-GoesOn s _ (set_threshold-Leaves inputs s.model) e
on_action-GoesOn (some filters_action) inputs s h e = filters-GoesOn inputs s h e
on_action-GoesOn (some quit_action) inputs s h e = cc
on_action-GoesOn (some details_action) inputs s h e = details-GoesOn inputs s e
on_action-GoesOn (some update_action) inputs s h e =
    let (t, _, later) = >>=-eq-ok (update s) _ e in cc
on_action-GoesOn (some (move_action m)) inputs s h e = cc

-- In a session as in the invariant, Ctrl-U, Enter, ESC and ESC close every dialog, whatever is
-- pressed in it before: handling a key with keys that end in these four never leaves a dialog
-- waiting.
pub handle_control-closed :
    (key : Option Key) (inputs : List (Option Key)) (s : Session)
    → IsSession s
    → handle_control key (closed inputs) s ≢ ok waits
unfolding handle_control
handle_control-closed none inputs s h e = cc
handle_control-closed (some key) inputs s h e =
    on_action-GoesOn (action_of handlers key) inputs s h
      (sym (handle_control-action_of key (closed inputs) s) ∙ e)
