-- ===== src/Cui/Edit.antt =====
-- util/intop/cui.py: `EditField.get_value`.
pub mod Bounds
pub mod Total
use pna.Base.{
  ℕ, zero, suc, ◌+◌, ◌-◌, List, [], ◌∷◌, ◌++◌, Bool, true, false, ◌||◌, ◌&&◌, ◌==◌, nat_eq, text_eq,
  if◌then◌else◌, ltb, take, drop, length, Result, ok, err, type_error, ◌>>=◌, Option, none, some,
}
use pna.Base.Text.{Text, codes}
use pna.Cui.Keys.{
  Key, str, code, letter, among, key_up, key_down, key_left, key_right, key_enter, esc, bs, del,
  nak,
}

pub record Line : Type 0 where
  pub value : Text
  pub position : ℕ

-- What a key does: the loop goes on, or `get_value` returns.
pub data Step : Type 0 where
  going : Line → Step
  returns : Text → Step

-- `value[:position]+value[position+1:]`
abbrev pub delete_at : ℕ → Text → Text
delete_at position value = take position value ++ drop (position + 1) value

-- `key in chars`: a part of the text; a key that is a number raises TypeError.
abbrev pub starts : Text → Text → Bool
starts [] t = true
starts (c ∷ cs) [] = false
starts (c ∷ cs) (d ∷ ds) = c == d && starts cs ds

abbrev pub part_of : Text → Text → Bool
part_of s [] = starts s []
part_of s (c ∷ cs) = starts s (c ∷ cs) || part_of s cs

abbrev pub in_chars : Key → Text → Result Bool
in_chars (code n) chars = err type_error
in_chars (str s) chars = ok (part_of s chars)

-- The text that a key adds.
abbrev pub key_text : Key → Text
key_text (str s) = s
key_text (code n) = []

unfoldable pub insert_key : ℕ → Text → Key → Line → Result Step
insert_key width chars key l =
    if ltb (length l.value) (width - 2)
    then (do
      accepted ← in_chars key chars
      ok (
          going (
            if accepted
            then record {
              value = take l.position l.value ++ (key_text key ++ drop l.position l.value);
              position = l.position + 1;
            }
            else l)))
    else ok (going l)

-- One round of the loop, with a key.
unfoldable pub edit_key : ℕ → Text → Text → Key → Line → Result Step
unfolding insert_key
edit_key width initial chars key l =
    if among key (letter 13 ∷ letter 10 ∷ key_enter ∷ [])
    then ok (returns l.value)
    else if among key (letter b'q' ∷ letter b'Q' ∷ esc ∷ [])
    then ok (returns initial)
    else if among key (key_up ∷ [])
    then ok (going (record l { position = 0 }))
    else if among key (key_down ∷ [])
    then ok (going (record l { position = length l.value }))
    else if among key (key_left ∷ [])
    then ok (going (record l { position = l.position - 1 }))
    else if among key (key_right ∷ [])
    then ok (
        going
          (if ltb l.position (length l.value) then record l { position = l.position + 1 } else l))
    else if among key (bs ∷ [])
    then ok (
        going (
          if l.position == 0
          then l
          else record { value = delete_at (l.position - 1) l.value; position = l.position - 1 }))
    else if among key (del ∷ [])
    then ok (
        going (
          if l.position == length l.value
          then l
          else record l { value = delete_at l.position l.value }))
    else if among key (nak ∷ [])
    then ok (going (record { value = []; position = 0 }))
    else insert_key width chars key l

-- The loop, on the keys that come in (`none` where `curses.error` was raised): the value, or the line
-- when the keys are used up and it still waits.
unfoldable pub edit_loop : ℕ → Text → Text → List (Option Key) → Line → Result Step
unfolding edit_key
edit_loop width initial chars [] l = ok (going l)
edit_loop width initial chars (none ∷ keys) l = edit_loop width initial chars keys l
edit_loop width initial chars (some key ∷ keys) l = do
  step ← edit_key width initial chars key l
  elim step [ going l' ↦ edit_loop width initial chars keys l' | returns v ↦ ok (returns v) ]

unfoldable pub get_value : ℕ → Text → Text → List (Option Key) → Result Step
unfolding edit_loop
get_value width initial chars keys =
    edit_loop width initial chars keys (record { value = initial; position = length initial })
