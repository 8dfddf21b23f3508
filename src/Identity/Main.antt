-- ===== src/Identity/Main.antt =====
-- util/intop/identity.py: `main`, on the files by their names. `eval` is a parameter: what a text of
-- Python stands for.
use pna.Base.{
  ◌-◌, ◌≡◌, ap, ◌∙◌, List, [], ◌∷◌, ◌++◌, false, ◌==◌, text_eq, length, drop, if◌then◌else◌, Result,
  ok, err, stuck, or_raise, os_error, type_error, ◌>>=◌,
}
use pna.Base.Dict.{Dict, lookup, insert}
use pna.Base.Text.{Text, codes}
use pna.Base.Value.{Log}
use pna.Struct.{Bytes}
use pna.Identity.{unparse}

abbrev pub Files : Type 0
Files = Dict Text Bytes

-- `arg[-5:]`
abbrev pub last_five : Text → Text
last_five arg = drop (length arg - 5) arg

module _ (eval : Bytes → Result (List Log)) where
  -- `PNALogParser.parse(arg)` calls a method of instances with a text, which raises TypeError.
  unfoldable pub raw_data : Text → Files → Result (List Log)
  raw_data arg files =
      if last_five arg == codes ".dict"
      then (do data' ← or_raise (lookup arg files) os_error; eval data')
      else err type_error

  -- The body of the loop
  unfoldable pub convert : Text → Files → Result Files
  unfolding raw_data
  convert arg files = do
    raw ← raw_data arg files
    file_data ← unparse raw
    ok (insert (arg ++ codes ".id") file_data files)

  -- The files when the program ends, and the exception that ended it, if there was one.
  unfoldable pub main : List Text → Files → Files × Result (Unit {0})
  unfolding convert
  main [] files = (files, ok tt)
  main (arg ∷ args) files = elim (convert arg files) [
    | ok files' ↦ main args files'
    | err e ↦ (files, err e)
    | stuck ↦ (files, stuck)
  ]

  -- The program behind the conversion of one file
  abbrev then_main : List Text → Files → Result Files → Files × Result (Unit {0})
  then_main args files r = elim r [
    | ok f ↦ main args f
    | err e ↦ (files, err e)
    | stuck ↦ (files, stuck)
  ]

  after_one :
      (r : Result Files) (front more : List Text) (files written : Files)
      → ((f : Files)
          → main front f ≡ (written, ok tt)
          → main (front ++ more) f ≡ (written, err type_error))
      → then_main front files r ≡ (written, ok tt)
      → then_main (front ++ more) files r ≡ (written, err type_error)
  after_one (ok f) front more files written next h = next f h
  after_one (err e) front more files written next h =
      let never : ◌≡◌ {A = Result (Unit {0})} (err e) (ok tt) = ap (λ p. p.1) h in cc
  after_one stuck front more files written next h =
      let never : ◌≡◌ {A = Result (Unit {0})} stuck (ok tt) = ap (λ p. p.1) h in cc

  not_converted :
      (arg : Text) (files : Files)
      → (last_five arg == codes ".dict") ≡ false
      → convert arg files ≡ err type_error
  unfolding convert raw_data
  not_converted arg files other = rw other

  stopped :
      (arg : Text) (rest : List Text) (files : Files)
      → (last_five arg == codes ".dict") ≡ false
      → main (arg ∷ rest) files ≡ (files, err type_error)
  unfolding main
  stopped arg rest files other = ap (then_main rest files) (not_converted arg files other)

  -- When main got through the files before, the first argument that does not end in .dict raises
  -- TypeError; what was written stays, and no later file is converted.
  pub main_stops :
      (front rest : List Text) (arg : Text) (files written : Files)
      → main front files ≡ (written, ok tt)
      → (last_five arg == codes ".dict") ≡ false
      → main (front ++ arg ∷ rest) files ≡ (written, err type_error)
  unfolding main
  main_stops [] rest arg files written h other =
      stopped arg rest files other ∙ ap (λ p. (p.0, err type_error)) h
  main_stops (a ∷ front) rest arg files written h other =
      after_one (convert a files) front (arg ∷ rest) files written
        (λ f e. main_stops front rest arg f written e other) h
