-- ===== src/Cui/Session/Invariant.antt =====
-- The invariant of a session of `CursesInterface`, over everything that can happen.
use pna.Base.{
  ◌≤◌, ◌≡◌, length, refl, sym, subst, false, nat_eq, Result, ok, err, stuck, >>=-eq-ok,
  ok-injective,
}
use pna.Struct.{Bytes}
use pna.Model.Filter.Total.{AllFit}
use pna.Model.State.{PnaModel, add_file, get_data}
use pna.Model.State.Dicts.{items}
use pna.Model.State.Loaded.{IsLoaded, add_file-IsLoaded}
use pna.Model.State.Cached.{add_file_lem}
use pna.Model.State.Settings.{IsRefreshed, get_data-IsRefreshed}
use pna.Cui.Info.Selection.{IsMoved, IsIndex, IsIndex-IsMoved, update-IsIndex}
use pna.Cui.Draw.{header_line, row_lines, shown_fields}
use pna.Cui.Settings.View.{settings_view}
use pna.Cui.Session.{Session, update, redraw, write_view, Control, runs, waits, exits, receive}

-- The values of all filters are ones that their expressions accept, the threshold is bounded, and
-- the logs are well-formed.
pub record IsSettled (m : PnaModel) : Type 0 where
  pub fit : AllFit (m.store m.filters)
  pub small : m.threshold ≤ 4294967295
  pub loaded : IsLoaded m

-- The model is settled, and the selection is at least -1.
abbrev pub IsSession : Session → Type 0
IsSession s = IsSettled s.model × IsMoved s.info.selection

abbrev pub Holds : Control → Type 0
Holds c = elim c [ runs s ↦ IsSession s | waits ↦ Unit | exits ↦ Unit ]

IsRefreshed-IsSettled : (m n : PnaModel) → IsRefreshed m n → IsSettled m → IsSettled n
IsRefreshed-IsSettled m n same h =
    subst IsSettled (sym same) (record { fit = h.fit; small = h.small; loaded = h.loaded })

pub add_file-IsSettled :
    (file : Bytes) (m m' : PnaModel) → add_file file m ≡ ok m' → IsSettled m → IsSettled m'
add_file-IsSettled file m m' e h =
    let (item, all, _, same) = add_file_lem file m m' e in
    let loaded = add_file-IsLoaded file m m' h.loaded e in
    subst IsSettled (sym same) (record { fit = h.fit; small = h.small; loaded = loaded })

pub receive-IsSession : (file : Bytes) (s : Session) → IsSession s → IsSession (receive file s)
unfolding receive
receive-IsSession file s (h, moved) = added (add_file file s.model) refl
  where
    added :
        (r : Result PnaModel)
        → add_file file s.model ≡ r
        → IsSession (elim r [ ok m ↦ record s { model = m } | _ ↦ s ])
    added (ok m) e = (add_file-IsSettled file s.model m e h, moved)
    added (err x) e = (h, moved)
    added stuck e = (h, moved)

-- Where the window's data was just read, the selection is the index of a row, or -1 of none.
abbrev pub IsCurrent : Session → Type 0
IsCurrent s = IsIndex s.info.selection (length s.info.shown)

pub update-IsSession :
    (s s' : Session) → update s ≡ ok s' → IsSession s → IsSession s' × IsCurrent s'
unfolding update
update-IsSession s s' e (h, moved) =
    let ((m, out), got, later) = >>=-eq-ok (get_data false s.model) _ e in
    let now = update-IsIndex s.height (items out) s.info moved in
    let same = get_data-IsRefreshed s.model m false out got in
    subst (λ t. IsSession t × IsCurrent t) (ok-injective later)
      ((IsRefreshed-IsSettled s.model m same h, IsIndex-IsMoved _ _ now), now)

pub redraw-IsSession :
    (s s' : Session) → redraw s ≡ ok s' → IsSession s → IsSession s' × IsCurrent s'
unfolding redraw
redraw-IsSession s s' e h =
    let (header, _, e1) = >>=-eq-ok (header_line s.model.sort_key) _ e in
    let (t, updated, e2) = >>=-eq-ok (update s) _ e1 in
    let (rest, _, e3) = >>=-eq-ok (row_lines (shown_fields s.model.sort_key) 0 t.info.shown) _ e2 in
    subst (λ t. IsSession t × IsCurrent t) (ok-injective e3) (update-IsSession s t updated h)

pub write_view-IsSession :
    (s t : Session) → write_view s ≡ ok t → IsSession s → IsSession t × IsCurrent t
unfolding write_view
write_view-IsSession s t e h =
    redraw-IsSession (record s { settings = settings_view 5 s.width s.model }) t e h
