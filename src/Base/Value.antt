-- ===== src/Base/Value.antt =====
-- The values in the dictionaries of the program: a number, a text, or a list of rows.
use Prim.Native.Nat.{ℕ}
use Prim.Native.String.{String}
use mathlib.Core.List.{List, map}
use mathlib.Core.Path.{◌≡◌}
use mathlib.Core.Option.{none, some}
use pna.Base.Tests.{string_eq}
use pna.Base.Outcome.{Result, ok, err, key_error, type_error, ◌>>=◌}
use pna.Base.Dict.{Dict, lookup}
use pna.Base.Text.{Text}

pub data Value (R : Type 0) : Type 0 where
  num : ℕ → Value R
  text : Text → Value R
  rows : List R → Value R

-- Three levels: a port tuple, a flow or watch entry, and a log.
abbrev pub Tuple : Type 0
Tuple = Dict String (Value ⊥)

abbrev pub Entry : Type 0
Entry = Dict String (Value Tuple)

abbrev pub Log : Type 0
Log = Dict String (Value Entry)

module _ {R : Type 0} where
  -- `d[k]`, of any value
  abbrev pub get : String → Dict String (Value R) → Result (Value R)
  get k d = elim (lookup k d) [ none ↦ err (key_error k) | some v ↦ ok v ]

  abbrev pub as_num : Value R → Result ℕ
  as_num (num n) = ok n
  as_num _ = err type_error

  abbrev pub as_rows : Value R → Result (List R)
  as_rows (rows l) = ok l
  as_rows _ = err type_error

  -- `d[k]` where the program goes on to use a number, or a list
  abbrev pub get_num : String → Dict String (Value R) → Result ℕ
  get_num k d = get k d >>= as_num

  abbrev pub get_rows : String → Dict String (Value R) → Result (List R)
  get_rows k d = get k d >>= as_rows

module _ {R : Type 0} where
  -- The value at a key, where there is one.
  abbrev pub field : String → Dict String (Value R) → Value R
  field k d = elim (lookup k d) [ none ↦ num 0 | some v ↦ v ]

  abbrev pub Has : String → Dict String (Value R) → Type 0
  Has k d = get k d ≡ ok (field k d)

-- A value whose rows are read as rows of another kind.
abbrev pub map_rows : {R S : Type 0} → (R → S) → Value R → Value S
map_rows f (num n) = num n
map_rows f (text t) = text t
map_rows f (rows l) = rows (map f l)

abbrev pub map_dict : {R S : Type 0} → (R → S) → Dict String (Value R) → Dict String (Value S)
map_dict f = map (λ e. (e.0, map_rows f e.1))

-- A tuple has no rows.
abbrev pub as_entry : Tuple → Entry
as_entry = map_dict (λ absurd. elim absurd [ ])

-- The dict of a log's header, beside other logs: its values are numbers and texts.
abbrev pub as_log : Entry → Log
as_log = map_dict as_entry
