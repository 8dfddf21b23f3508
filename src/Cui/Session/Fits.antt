-- ===== src/Cui/Session/Fits.antt =====
-- The lines of the information window fit into it.
use pna.Base.{
  ℕ, ◌+◌, ◌-◌, ◌≤◌, ◌≡◌, refl, subst, List, true, false, leb, length, length-take, ok, >>=-eq-ok,
  ok-injective, arith,
}
use pna.Base.Value.{Entry}
use pna.Model.State.{get_data}
use pna.Model.State.Dicts.{items}
use pna.Cui.Info.{update_data, visible}
use pna.Cui.Draw.{header_line, row_lines, shown_fields}
use pna.Cui.Draw.Fits.{length-row_lines}
use pna.Cui.Session.{Session, update, redraw}

length-visible :
    (height : ℕ) (rows : List Entry) → 2 ≤ height → length (visible height rows) + 2 ≤ height
length-visible height rows h =
    let tall : leb 2 height ≡ true = ground arith in
    rw tall (omega (arith, length-take (height - 2) rows))

shown_fits :
    (s t : Session)
    → 2 ≤ s.height
    → update s ≡ ok t
    → (length t.info.shown + 2 ≤ s.height) × (t.height ≡ s.height)
unfolding update update_data
shown_fits s t h e =
    let ((m, out), _, later) = >>=-eq-ok (get_data false s.model) _ e in
    subst (λ t. (length t.info.shown + 2 ≤ s.height) × (t.height ≡ s.height)) (ok-injective later)
      (length-visible s.height (items out) h, refl)

-- In a window of at least two lines, where redraw raises no exception, the header and the rows take
-- fewer lines than the window has.
pub redraw_fits : (s t : Session) → 2 ≤ s.height → redraw s ≡ ok t → length t.lines + 1 ≤ t.height
unfolding redraw
redraw_fits s t h e =
    let (header, _, e1) = >>=-eq-ok (header_line s.model.sort_key) _ e in
    let (u, updated, e2) = >>=-eq-ok (update s) _ e1 in
    let (rest, drawn, e3) =
      >>=-eq-ok (row_lines (shown_fields s.model.sort_key) 0 u.info.shown) _ e2 in
    let (fits, same) = shown_fits s u h updated in
    let size = length-row_lines (shown_fields s.model.sort_key) 0 u.info.shown rest drawn in
    subst (λ t. length t.lines + 1 ≤ t.height) (ok-injective e3) (omega (arith, fits, same, size))
