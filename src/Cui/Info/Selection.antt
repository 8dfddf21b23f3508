-- ===== src/Cui/Info/Selection.antt =====
-- The selection of the information window.
use pna.Base.{
  ℕ, zero, suc, ◌+◌, ◌<◌, ◌≡◌, refl, List, [], ◌∷◌, Bool, true, false, Bool-cases, inl, inr, ltb,
  leb, length, get_elem?, some, ok, ◌>>=◌, arith, if◌then◌else◌, ◌&&◌, ◌||◌,
}
use pna.Base.Int.{ℤ, pos, negsuc, ◌+ℤ◌, sub_ℕ, ltb_ℤ, leb_ℤ}
use pna.Cui.Info.{
  Info, Details, beep, details, Move, up, down, first, last, visible, last_row, update_data, move,
  index, view_details, rounds,
}

-- At least -1, which is the value behind `len(self.data) - 1` of no data.
abbrev pub IsMoved : ℤ → Type 0
IsMoved (pos n) = Unit
IsMoved (negsuc n) = n ≡ 0

-- The index of a row, or -1 where there is none.
abbrev pub IsIndex : ℤ → ℕ → Type 0
IsIndex (pos n) count = n < count
IsIndex (negsuc n) count = (n ≡ 0) × (count ≡ 0)

last_row-IsIndex : (n : ℕ) → IsIndex (sub_ℕ n 1) n
last_row-IsIndex zero = (refl, refl)
last_row-IsIndex (suc n) = let e : leb 1 (suc n) ≡ true = ground arith in rw e (omega arith)

pub IsIndex-IsMoved : (s : ℤ) (n : ℕ) → IsIndex s n → IsMoved s
IsIndex-IsMoved (pos k) n h = tt
IsIndex-IsMoved (negsuc k) n h = h.0

updated-IsIndex :
    (s : ℤ) (n : ℕ)
    → IsMoved s
    → IsIndex
        (if leb_ℤ (pos n) s then sub_ℕ n 1 else if ltb_ℤ s (pos 0) && ltb 0 n then pos 0 else s)
        n
updated-IsIndex (pos k) n h = elim (Bool-cases (leb_ℤ (pos n) (pos k))) [
  | inl below ↦ rw below (last_row-IsIndex n)
  | inr above ↦ let e : ltb_ℤ (pos k) (pos 0) ≡ false = ground arith in rw (above, e) (ground arith)
]
updated-IsIndex (negsuc k) zero h = ground arith
updated-IsIndex (negsuc k) (suc n) h = ground arith

floor-IsMoved : (x : ℤ) → IsMoved (if ltb_ℤ x (pos 0) then pos 0 else x)
floor-IsMoved (pos k) = let e : ltb_ℤ (pos k) (pos 0) ≡ false = ground arith in rw e tt
floor-IsMoved (negsuc k) = let e : ltb_ℤ (negsuc k) (pos 0) ≡ true = ground arith in rw e tt

next-IsMoved : (x : ℤ) → IsMoved x → IsMoved (x +ℤ pos 1)
unfolding ◌+ℤ◌
next-IsMoved (pos k) h = let e : leb (0 + 0) (k + 1) ≡ true = ground arith in rw e tt
next-IsMoved (negsuc k) h = let e : leb (suc k + 0) (0 + 1) ≡ true = ground arith in rw e tt

if-IsMoved : (b : Bool) (x y : ℤ) → IsMoved x → IsMoved y → IsMoved (if b then x else y)
if-IsMoved true x y hx hy = hx
if-IsMoved false x y hx hy = hy

module _ {A : Type 0} where
  last-IsMoved : (rows : List A) → IsMoved (last_row rows)
  last-IsMoved rows = IsIndex-IsMoved (last_row rows) (length rows) (last_row-IsIndex (length rows))

  pub move-IsMoved :
      (key : Move) (s : Info A) → IsMoved s.selection → IsMoved (move key s).selection
  unfolding move
  move-IsMoved up s h = floor-IsMoved (s.selection +ℤ negsuc 0)
  move-IsMoved down s h =
      if-IsMoved (leb_ℤ (pos (length s.shown)) (s.selection +ℤ pos 1)) (last_row s.shown)
        (s.selection +ℤ pos 1) (last-IsMoved s.shown) (next-IsMoved s.selection h)
  move-IsMoved first s h = tt
  move-IsMoved last s h = last-IsMoved s.shown

  pub get_elem?_total :
      (rows : List A) (n : ℕ) → n < length rows → (a : A) × (get_elem? rows n ≡ some a)
  get_elem?_total [] n h = absurd (omega arith)
  get_elem?_total (x ∷ rows) zero h = (x, refl)
  get_elem?_total (x ∷ rows) (suc n) h = get_elem?_total rows n (omega arith)

  details_at :
      (i : ℤ) (rows : List A)
      → IsIndex i (length rows)
      → (d : Details A) × ((if ltb_ℤ i (pos 0) || ltb_ℤ (pos (length rows)) i
            then ok beep
            else (do row ← index rows i; ok (details row)))
          ≡ ok d)
  details_at (pos n) rows h =
      let (a, found) = get_elem?_total rows n h in
      let low : ltb_ℤ (pos n) (pos 0) ≡ false = ground arith in
      let high : ltb_ℤ (pos (length rows)) (pos n) ≡ false = ground arith in
      (details a, rw (low, high, found))
  details_at (negsuc n) rows h =
      let low : ltb_ℤ (negsuc n) (pos 0) ≡ true = ground arith in (beep, rw low)

  pub update-IsIndex :
      (height : ℕ) (rows : List A) (s : Info A)
      → IsMoved s.selection
      → IsIndex (update_data height rows s).selection (length (update_data height rows s).shown)
  unfolding update_data
  update-IsIndex height rows s h = updated-IsIndex s.selection (length (visible height rows)) h

  rounds-IsMoved :
      (height : ℕ) (events : List (List A × Move)) (s : Info A)
      → IsMoved s.selection
      → IsMoved (rounds height events s).selection
  unfolding rounds
  rounds-IsMoved height [] s h = h
  rounds-IsMoved height ((rows, key) ∷ rest) s h =
      let now = update-IsIndex height rows s h in
      rounds-IsMoved height rest _ (move-IsMoved key _ (IsIndex-IsMoved _ _ now))

  -- From a selection of at least -1, after any number of rounds of drawing, with any data, and
  -- moving, the window that is drawn again has the index of one of its rows selected, or -1 if it
  -- has none, and view_details shows that row or beeps, without an IndexError.
  pub view_details_total :
      (height : ℕ) (events : List (List A × Move)) (rows : List A) (s : Info A)
      → IsMoved s.selection
      → (let now = update_data height rows (rounds height events s) in
          IsIndex now.selection (length now.shown) × ((d : Details A) × (view_details now ≡ ok d)))
  unfolding view_details
  view_details_total height events rows s h =
      let ready =
        update-IsIndex height rows (rounds height events s) (rounds-IsMoved height events s h) in
      (ready, details_at _ _ ready)
