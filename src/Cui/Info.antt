-- ===== src/Cui/Info.antt =====
-- util/intop/cui.py: the selection of `InfoWindow`, its keys, and the interface's loop.
pub mod Selection
use pna.Base.{
  ℕ, zero, suc, ◌+◌, ◌-◌, List, [], ◌∷◌, Bool, true, false, ◌||◌, ◌&&◌, ltb, leb, if◌then◌else◌,
  take, length, get_elem?, Option, none, some, Result, ok, err, or_raise, index_error, ◌>>=◌,
}
use pna.Base.Int.{ℤ, pos, negsuc, ◌+ℤ◌, sub_ℕ, ltb_ℤ, leb_ℤ}

-- `self.selection` and `self.data`
pub record Info (A : Type 0) : Type 0 where
  pub selection : ℤ
  pub shown : List A

-- What `view_details` does: it beeps, or it shows the details of a row.
pub data Details (A : Type 0) : Type 0 where
  beep : Details A
  details : A → Details A

-- `self.actions`, but for `update_data`
pub data Move : Type 0 where
  up down first last : Move

module _ {A : Type 0} where
  -- `self.data[:height-2]`
  abbrev pub visible : ℕ → List A → List A
  visible height rows =
      if leb 2 height then take (height - 2) rows else take (length rows - (2 - height)) rows

  -- `len(self.data) - 1`
  abbrev pub last_row : List A → ℤ
  last_row rows = sub_ℕ (length rows) 1

  -- `update_data`, on what `get_data` returns.
  unfoldable pub update_data : ℕ → List A → Info A → Info A
  update_data height rows s =
      let shown = visible height rows in
      record {
        selection =
            if leb_ℤ (pos (length shown)) s.selection
            then last_row shown
            else if ltb_ℤ s.selection (pos 0) && ltb 0 (length shown)
            then pos 0
            else s.selection;
        shown = shown;
      }

  unfoldable pub move_up : Info A → Info A
  move_up s =
      let selection = s.selection +ℤ negsuc 0 in
      record s { selection = if ltb_ℤ selection (pos 0) then pos 0 else selection }

  unfoldable pub move_down : Info A → Info A
  move_down s =
      let selection = s.selection +ℤ pos 1 in
      record s {
        selection = if leb_ℤ (pos (length s.shown)) selection then last_row s.shown else selection;
      }

  unfoldable pub move_first : Info A → Info A
  move_first s = record s { selection = pos 0 }

  unfoldable pub move_last : Info A → Info A
  move_last s = record s { selection = last_row s.shown }

  unfoldable pub move : Move → Info A → Info A
  unfolding move_up move_down move_first move_last
  move up = move_up
  move down = move_down
  move first = move_first
  move last = move_last

  -- `self.data[i]`, which counts from the end where i is negative.
  abbrev pub index : List A → ℤ → Result A
  index rows (pos n) = or_raise (get_elem? rows n) index_error
  index rows (negsuc n) =
      if leb (n + 1) (length rows)
      then or_raise (get_elem? rows (length rows - (n + 1))) index_error
      else err index_error

  -- `view_details`
  unfoldable pub view_details : Info A → Result (Details A)
  view_details s =
      if ltb_ℤ s.selection (pos 0) || ltb_ℤ (pos (length s.shown)) s.selection
      then ok beep
      else (do row ← index s.shown s.selection; ok (details row))

  -- `interact`: each round draws the window, which reads the data, and then handles a key.
  unfoldable pub rounds : ℕ → List (List A × Move) → Info A → Info A
  unfolding update_data move
  rounds height [] s = s
  rounds height ((rows, key) ∷ rest) s = rounds height rest (move key (update_data height rows s))
