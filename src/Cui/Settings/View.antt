-- ===== src/Cui/Settings/View.antt =====
-- util/intop/cui.py: what `SettingsWindow.redraw` writes, and where.
use pna.Base.{
  ℕ, ◌+◌, ◌-◌, ◌≤◌, ◌<◌, ◌≡◌, refl, List, [], ◌∷◌, ◌++◌, All, Bool, true, false, leb, if◌then◌else◌,
  ◌==◌, nat_eq, length, replicate, length-append, length-replicate, String, arith,
}
use pna.Base.Int.{ℤ, pos, sub_ℕ}
use pna.Base.Text.{Text, codes, show}
use pna.Model.Label.{stringify}
use pna.Model.Derive.{Name}
use pna.Model.Filter.{Filters}
use pna.Model.State.{SortKey, raw, connections, sessions, column, PnaModel}
use pna.Model.State.Fields.{key_text}

-- `self.window.addstr(y, x, my_str)`
pub record Placed : Type 0 where
  pub y : ℕ
  pub x : ℤ
  pub my_str : Text

abbrev pub put : ℕ → Text → Placed
put y my_str = record { y = y; x = pos 0; my_str = my_str }

-- `my_str + ' '*(n-len(my_str))`
abbrev pub filled : ℕ → Text → Text
filled n my_str = my_str ++ replicate (n - length my_str) b' '

-- The key and the name of each of the actions
abbrev pub action_texts : Text
action_texts = codes "s:Sort key  t:Threshold  f:Filter(s)  q:Quit  "

abbrev pub filter_str : Text
filter_str = codes "   Filters: "

abbrev pub more_str : Text
more_str = codes " [press \"f\" for more filters]"

abbrev pub filter_text : ℕ → String → Text → Text
filter_text i filter value =
    (if i == 0 then filter_str else replicate (length filter_str) b' ')
    ++ (stringify filter ++ (codes " of " ++ value))

-- The hint, at the right end of the line
abbrev pub more_line : ℕ → ℕ → Placed
more_line width y = record { y = y; x = sub_ℕ width (length more_str + 1); my_str = more_str }

-- The loop over the filters: where the window ends, a hint takes the place of the rest.
unfoldable pub filter_lines : ℕ → ℕ → ℕ → Filters → List Placed
filter_lines height width i [] = []
filter_lines height width i ((filter, value) ∷ filters) =
    let rest = filter_lines height width (i + 1) filters in
    let line = put (i + 3) (filled (width - 1) (filter_text i filter value)) in
    let hint = more_line width (i + 2) in
    if i == 0 then line ∷ rest else if leb height (i + 3) then hint ∷ [] else line ∷ rest

abbrev pub filters_view : ℕ → ℕ → Filters → List Placed
filters_view height width [] = put 3 (filter_str ++ codes "None") ∷ []
filters_view height width (f ∷ filters) = filter_lines height width 0 (f ∷ filters)

-- `SettingsWindow.redraw`
unfoldable pub settings_view : ℕ → ℕ → PnaModel → List Placed
unfolding filter_lines
settings_view height width m =
    put 0 (filled (width - 7) action_texts ++ codes "(intop)")
    ∷ put 1 (codes "  Sort Key: " ++ stringify (key_text m.sort_key))
    ∷ put 2 (codes " Threshold: " ++ show m.threshold)
    ∷ put (height - 1) (replicate (width - 1) b' ')
    ∷ filters_view height width (m.store m.filters)

-- A text is inside the window.
abbrev pub IsInside : ℕ → ℕ → Placed → Type 0
IsInside height width p = (p.y < height) × ((k : ℕ) × (p.x ≡ pos k) × (k + length p.my_str ≤ width))

-- The lines of the filters have room.
abbrev pub AreShort : ℕ → Filters → Type 0
AreShort width [] = Unit
AreShort width ((filter, value) ∷ filters) =
    (length (stringify filter) + length value + 17 ≤ width) × AreShort width filters

length-filled : (n : ℕ) (t : Text) → length t ≤ n → length (filled n t) ≡ n
length-filled n t h = omega (
  arith,
  length-append t (replicate (n - length t) b' '),
  length-replicate {A = ℕ} (n - length t) b' ',
  h,
)

length-margin :
    (b : Bool) → length (if b then filter_str else replicate (length filter_str) b' ') ≡ 12
length-margin true = refl
length-margin false = refl

length-filter_text :
    (i : ℕ) (filter : String) (value : Text)
    → length (filter_text i filter value) ≡ length (stringify filter) + length value + 16
length-filter_text i filter value = omega (
  arith,
  length-margin (i == 0),
  length-append (if i == 0 then filter_str else replicate (length filter_str) b' ')
      (stringify filter ++ (codes " of " ++ value)),
  length-append (stringify filter) (codes " of " ++ value),
  length-append (codes " of ") value,
)

key_text-le : (key : SortKey) → length (stringify (key_text key)) ≤ 13
unfolding stringify
key_text-le raw = omega arith
key_text-le connections = omega arith
key_text-le sessions = omega arith
key_text-le (column Name.tcp_ports) = omega arith
key_text-le (column _) = omega arith

module _ (height width : ℕ) (tall : 5 ≤ height) (wide : 60 ≤ width) where
  filter_line-IsInside :
      (i : ℕ) (filter : String) (value : Text)
      → length (stringify filter) + length value + 17 ≤ width
      → i + 3 < height
      → IsInside height width (put (i + 3) (filled (width - 1) (filter_text i filter value)))
  filter_line-IsInside i filter value h room =
      let size = length-filter_text i filter value in
      let full = length-filled (width - 1) (filter_text i filter value) (omega (arith, size, h)) in
      (room, (0, refl, omega (arith, full)))

  hint-IsInside : (i : ℕ) → i + 2 < height → IsInside height width (more_line width (i + 2))
  hint-IsInside i room =
      let left : leb (length more_str + 1) width ≡ true = ground arith in
      (room, (width - (length more_str + 1), rw left, omega arith))

  if-Inside :
      (b : Bool) (xs ys : List Placed)
      → (b ≡ true → All (IsInside height width) xs)
      → (b ≡ false → All (IsInside height width) ys)
      → All (IsInside height width) (if b then xs else ys)
  if-Inside true xs ys hx hy = hx refl
  if-Inside false xs ys hx hy = hy refl

  filter_lines-IsInside :
      (i : ℕ) (filters : Filters)
      → AreShort width filters
      → i + 2 < height
      → All (IsInside height width) (filter_lines height width i filters)
  unfolding filter_lines
  filter_lines-IsInside i [] h room = tt
  filter_lines-IsInside i ((filter, value) ∷ filters) (h, hs) room =
      let more =
        λ (fits : i + 3 < height). filter_lines-IsInside (i + 1) filters hs (omega arith) in
      if-Inside (i == 0) _ _ (λ first. after_line more (ground (arith, nat_eq.beq_iff i 0)))
        (λ later.
          if-Inside (leb height (i + 3)) _ _ (λ full. (hint-IsInside i room, tt))
            (λ fits. after_line more (ground arith)))
    where
      after_line :
          (i + 3 < height → All (IsInside height width) (filter_lines height width (i + 1) filters))
          → i + 3 < height
          → All (IsInside height width) (
              put (i + 3) (filled (width - 1) (filter_text i filter value))
              ∷ filter_lines height width (i + 1) filters)
      after_line more fits = (filter_line-IsInside i filter value h fits, more fits)

  filters_view-IsInside :
      (filters : Filters)
      → AreShort width filters
      → All (IsInside height width) (filters_view height width filters)
  filters_view-IsInside [] h = ((omega arith, (0, refl, omega arith)), tt)
  filters_view-IsInside (f ∷ filters) h = filter_lines-IsInside 0 (f ∷ filters) h (omega arith)

  -- In a window of at least 5 lines and 60 columns, if the threshold and the line of each filter
  -- have room, everything that redraw of the settings writes is inside the window, however many
  -- filters are set.
  pub settings_view-IsInside :
      (m : PnaModel)
      → length (show m.threshold) + 12 ≤ width
      → AreShort width (m.store m.filters)
      → All (IsInside height width) (settings_view height width m)
  unfolding settings_view
  settings_view-IsInside m h short =
      let bar = length-filled (width - 7) action_texts (omega arith) in
      let whole = length-append (filled (width - 7) action_texts) (codes "(intop)") in
      let sorted_by = length-append (codes "  Sort Key: ") (stringify (key_text m.sort_key)) in
      let bounded = length-append (codes " Threshold: ") (show m.threshold) in
      let blank = length-replicate {A = ℕ} (width - 1) b' ' in
      (
        (omega arith, (0, refl, omega (arith, bar, whole))),
        (
          (omega arith, (0, refl, omega (arith, sorted_by, key_text-le m.sort_key))),
          (
            (omega arith, (0, refl, omega (arith, bounded, h))),
            (
              (omega arith, (0, refl, omega (arith, blank))),
              filters_view-IsInside (m.store m.filters) short,
            ),
          ),
        ),
      )
