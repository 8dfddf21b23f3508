-- ===== src/Cui/Edit/Total.antt =====
-- The edit field raises nothing, but for keys that are numbers which it does not know.
use pna.Base.{
  ℕ, ◌-◌, ◌≡◌, refl, List, [], ◌∷◌, Bool, true, false, if◌then◌else◌, ltb, length, nat_eq, text_eq,
  Option, none, some, Result, ok, arith,
}
use pna.Base.Text.{Text}
use pna.Cui.Keys.{
  Key, str, code, letter, among, key_up, key_down, key_left, key_right, key_enter, esc, bs, del,
  nak,
}
use pna.Cui.Edit.{Line, Step, going, returns, insert_key, edit_key, edit_loop, get_value}

-- A text, or one of the numbers that the field handles.
abbrev pub IsHandled : Key → Type 0
IsHandled (str s) = Unit
IsHandled (code n) =
    among (code n)
      (key_enter ∷ esc ∷ key_up ∷ key_down ∷ key_left ∷ key_right ∷ bs ∷ del ∷ nak ∷ [])
    ≡ true

abbrev pub AllHandled : List (Option Key) → Type 0
AllHandled [] = Unit
AllHandled (none ∷ keys) = AllHandled keys
AllHandled (some key ∷ keys) = IsHandled key × AllHandled keys

abbrev pub Returns : Result Step → Type 0
Returns r = (s : Step) × (r ≡ ok s)

if-Returns :
    (b : Bool) {x y : Result Step}
    → Returns x
    → (b ≡ false → Returns y)
    → Returns (if b then x else y)
if-Returns true hx hy = hx
if-Returns false hx hy = hy refl

text-Returns :
    (width : ℕ) (chars : Text) (s : Text) (l : Line) → Returns (insert_key width chars (str s) l)
unfolding insert_key
text-Returns width chars s l =
    if-Returns (ltb (length l.value) (width - 2)) (_, refl) (λ e. (_, refl))

module _ (width : ℕ) (initial chars : Text) where
  pub edit_key-Returns :
      (key : Key) (l : Line) → IsHandled key → Returns (edit_key width initial chars key l)
  unfolding edit_key
  edit_key-Returns (str s) l h =
      if-Returns (among (str s) (letter 13 ∷ letter 10 ∷ key_enter ∷ [])) (_, refl)
        (λ a.
          if-Returns (among (str s) (letter b'q' ∷ letter b'Q' ∷ esc ∷ [])) (_, refl)
            (λ b. text-Returns width chars s l))
  edit_key-Returns (code n) l h =
      if-Returns (among (code n) (letter 13 ∷ letter 10 ∷ key_enter ∷ [])) (_, refl)
        (λ h0.
          if-Returns (among (code n) (letter b'q' ∷ letter b'Q' ∷ esc ∷ [])) (_, refl)
            (λ h1.
              if-Returns (among (code n) (key_up ∷ [])) (_, refl)
                (λ h2.
                  if-Returns (among (code n) (key_down ∷ [])) (_, refl)
                    (λ h3.
                      if-Returns (among (code n) (key_left ∷ [])) (_, refl)
                        (λ h4.
                          if-Returns (among (code n) (key_right ∷ [])) (_, refl)
                            (λ h5.
                              if-Returns (among (code n) (bs ∷ [])) (_, refl)
                                (λ h6.
                                  if-Returns (among (code n) (del ∷ [])) (_, refl)
                                    (λ h7.
                                      if-Returns (among (code n) (nak ∷ [])) (_, refl)
                                        (λ h8. absurd (ground arith))))))))))

  after :
      (keys : List (Option Key))
      → ((l : Line) → Returns (edit_loop width initial chars keys l))
      → (step : Step)
      → Returns (elim step [
        | going l' ↦ edit_loop width initial chars keys l'
        | returns v ↦ ok (returns v)
      ])
  after keys next (going l) = next l
  after keys next (returns v) = (returns v, refl)

  edit_loop-Returns :
      (keys : List (Option Key)) (l : Line)
      → AllHandled keys
      → Returns (edit_loop width initial chars keys l)
  unfolding edit_loop
  edit_loop-Returns [] l h = (going l, refl)
  edit_loop-Returns (none ∷ keys) l h = edit_loop-Returns keys l h
  edit_loop-Returns (some key ∷ keys) l (h, hs) =
      let (step, e) = edit_key-Returns key l h in
      rw e (after keys (λ l'. edit_loop-Returns keys l' hs) step)

  -- Where the field knows every number among the keys, it raises no exception.
  pub get_value_total :
      (keys : List (Option Key)) → AllHandled keys → Returns (get_value width initial chars keys)
  unfolding get_value
  get_value_total keys h = edit_loop-Returns keys _ h
