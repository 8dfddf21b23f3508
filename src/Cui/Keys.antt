-- ===== src/Cui/Keys.antt =====
-- util/intop/cui.py: `CursesInterface.getkey`, which decodes what curses reports.
pub mod Same
use pna.Base.{
  ℕ, List, [], ◌∷◌, Bool, false, ◌||◌, ◌==◌, nat_eq, text_eq, if◌then◌else◌, Option, none, some,
}
use pna.Base.Text.{Text, codes}

-- A key is a text, or one of the numbers of `curses` and `curses.ascii`.
pub data Key : Type 0 where
  str : Text → Key
  code : ℕ → Key

abbrev pub key_down : Key
key_down = code 258

abbrev pub key_up : Key
key_up = code 259

abbrev pub key_left : Key
key_left = code 260

abbrev pub key_right : Key
key_right = code 261

abbrev pub key_enter : Key
key_enter = code 343

abbrev pub esc : Key
esc = code 27

abbrev pub del : Key
del = code 127

abbrev pub bs : Key
bs = code 8

abbrev pub nak : Key
nak = code 21

abbrev pub ff : Key
ff = code 12

abbrev pub dc2 : Key
dc2 = code 18

-- `==` of two keys, and `key in (...)`
abbrev pub same_key : Key → Key → Bool
same_key (str s) (str t) = s == t
same_key (code m) (code n) = m == n
same_key _ _ = false

abbrev pub among : Key → List Key → Bool
among k [] = false
among k (j ∷ js) = same_key k j || among k js

abbrev pub letter : ℕ → Key
letter c = str (c ∷ [])

-- What `window.getkey()` reports, one call after the other: a text, or `curses.error` when no key
-- comes in time.
abbrev pub Presses : Type 0
Presses = List (Option Text)

-- A key or `curses.error`, and what is left.
abbrev pub Reading : Type 0
Reading = Option Key × Presses

-- `window.getkey()`; a list that is at its end reports nothing more.
abbrev pub read : Presses → Option Text × Presses
read [] = (none, [])
read (p ∷ ps) = (p, ps)

-- The letter of an arrow's sequence.
abbrev pub arrow : Text → Key
arrow t =
    if t == codes "A"
    then key_up
    else if t == codes "B"
    then key_down
    else if t == codes "C"
    then key_right
    else if t == codes "D"
    then key_left
    else str t

-- Behind ESC and 'O'
unfoldable pub after_o : Presses → Reading
after_o ps =
    let (press, rest) = read ps in
    elim press [ none ↦ (none, rest) | some t ↦ (some (arrow t), rest) ]

-- Behind ESC, '[' and '3'
unfoldable pub after_three : Presses → Reading
after_three ps =
    let (press, rest) = read ps in
    elim press [
      | none ↦ (none, rest)
      | some t ↦ (some (if t == codes "~" then del else str t), rest)
    ]

-- Behind ESC and '['
unfoldable pub after_bracket : Presses → Reading
unfolding after_three
after_bracket ps =
    let (press, rest) = read ps in
    elim press [
      | none ↦ (none, rest)
      | some t ↦ if t == codes "3" then after_three rest else (some (arrow t), rest)
    ]

-- "key begins escape sequence, decode"
unfoldable pub after_esc : Presses → Reading
unfolding after_o after_bracket
after_esc ps =
    let (press, rest) = read ps in
    elim press [
      | none ↦ (some esc, rest)
      | some t ↦
          if t == codes "O"
          then after_o rest
          else if t == codes "["
          then after_bracket rest
          else (some (str t), rest)
    ]

-- A text of more than one character names a key.
abbrev pub named : Text → Key
named t =
    if t == codes "KEY_DOWN"
    then key_down
    else if t == codes "KEY_UP"
    then key_up
    else if t == codes "KEY_LEFT"
    then key_left
    else if t == codes "KEY_RIGHT"
    then key_right
    else str t

-- The codes of single characters other than ESC.
abbrev pub control : ℕ → Key
control c =
    if c == 21
    then nak
    else if c == 8 || c == 31 || c == 127
    then bs
    else if c == 12
    then ff
    else if c == 18
    then dc2
    else letter c

-- `getkey`. curses reports no empty text.
unfoldable pub getkey : Presses → Reading
unfolding after_esc
getkey ps =
    let (press, rest) = read ps in
    elim press [
      | none ↦ (none, rest)
      | some t ↦ elim t [
        | [] ↦ (none, rest)
        | c ∷ cs ↦ elim cs [
          | [] ↦ if c == 27 then after_esc rest else (some (control c), rest)
          | d ∷ ds ↦ (some (named (c ∷ d ∷ ds)), rest)
        ]
      ]
    ]
