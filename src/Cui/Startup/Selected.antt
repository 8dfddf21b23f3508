-- ===== src/Cui/Startup/Selected.antt =====
-- Which files `add_data` adds.
use pna.Base.{
  ℕ, ◌≤◌, ◌<◌, ◌≡◌, ◌⊎◌, refl, ap, ◌∙◌, sym, List, [], ◌∷◌, ◌++◌, All, true, false, ◌&&◌, nat_eq,
  arith, leb, Option, some, ok, >>=_ext, Bool-cases, inl, inr,
}
use pna.Base.Text.{Text}
use pna.Struct.{Bytes}
use pna.Model.State.{PnaModel}
use pna.Cli.{add_files}
use pna.Cui.Times.{DateTime, begin_time, end_time}
use pna.Cui.Startup.{File, Environment, is_hidden, in_window, add_element, add_elements, add_data}
use pna.Cui.Startup.Instants.{IsTime, instant, not_after-instant}

-- The name begins with a dot.
abbrev pub IsHidden : Text → Type 0
IsHidden element = (rest : Text) × (element ≡ b'.' ∷ rest)

abbrev pub IsInside : DateTime → DateTime → File → Type 0
IsInside begin until f = (instant begin ≤ instant f.modified) × (instant f.modified ≤ instant until)

abbrev pub IsOutside : DateTime → DateTime → File → Type 0
IsOutside begin until f =
    (instant f.modified < instant begin) ⊎ (instant until < instant f.modified)

between : (a b c : ℕ) → (leb a b && leb b c) ≡ true → (a ≤ b) × (b ≤ c)
between a b c h = ground arith

apart : (a b c : ℕ) → (leb a b && leb b c) ≡ false → (b < a) ⊎ (c < b)
apart a b c h = ground arith

module _ (env : Environment) (log_dir : Text) where
  -- A name of a file that was changed at a time, or one that begins with a dot.
  abbrev pub IsThere : Text → Type 0
  IsThere element =
      IsHidden element ⊎ ((f : File) × (env.file (log_dir ++ element) ≡ some f) × IsTime f.modified)

  -- The bytes of the files of a listing whose names do not begin with a dot and that were changed
  -- between two times, in the order of the listing.
  pub data Selects (begin until : DateTime) : List Text → List Bytes → Type 0 where
    empty : Selects begin until [] []
    hides :
        {element : Text} {elements : List Text} {files : List Bytes}
        → IsHidden element
        → Selects begin until elements files
        → Selects begin until (element ∷ elements) files
    takes :
        {element : Text} {elements : List Text} {files : List Bytes} (f : File)
        → (IsHidden element → ⊥)
        → env.file (log_dir ++ element) ≡ some f
        → IsInside begin until f
        → Selects begin until elements files
        → Selects begin until (element ∷ elements) (f.contents ∷ files)
    leaves :
        {element : Text} {elements : List Text} {files : List Bytes} (f : File)
        → (IsHidden element → ⊥)
        → env.file (log_dir ++ element) ≡ some f
        → IsOutside begin until f
        → Selects begin until elements files
        → Selects begin until (element ∷ elements) files

  is_hidden-IsHidden : (element : Text) → is_hidden element ≡ true → IsHidden element
  is_hidden-IsHidden [] h = cc
  is_hidden-IsHidden (c ∷ cs) h = (cs, ap (λ d. d ∷ cs) ((nat_eq.beq_iff c b'.').0 h))

  IsHidden-is_hidden : (element : Text) → IsHidden element → is_hidden element ≡ true
  IsHidden-is_hidden element (rest, e) = rw e refl

  module _ (begin until : DateTime) (from : IsTime begin) (to : IsTime until) where
    in_window-instant :
        (f : File)
        → IsTime f.modified
        → in_window begin until f
          ≡ (leb (instant begin) (instant f.modified) && leb (instant f.modified) (instant until))
    in_window-instant f h =
        rw (not_after-instant begin f.modified from h, not_after-instant f.modified until h to) refl

    inside :
        (f : File) → IsTime f.modified → in_window begin until f ≡ true → IsInside begin until f
    inside f h e = between _ _ _ (sym (in_window-instant f h) ∙ e)

    outside :
        (f : File) → IsTime f.modified → in_window begin until f ≡ false → IsOutside begin until f
    outside f h e = apart _ _ _ (sym (in_window-instant f h) ∙ e)

    abbrev Adds : List Text → Type 0
    Adds elements =
        (files : List Bytes) × Selects begin until elements files
        × ((m : PnaModel) → add_elements env log_dir begin until elements m ≡ add_files files m)

    add_file_of :
        (element : Text) (elements : List Text) (f : File)
        → is_hidden element ≡ false
        → env.file (log_dir ++ element) ≡ some f
        → IsTime f.modified
        → Adds elements
        → Adds (element ∷ elements)
    unfolding add_elements add_element add_files
    add_file_of element elements f visible there time (files, picks, rest) =
        let shown =
          λ (x : IsHidden element). let dot = IsHidden-is_hidden element x in absurd (cc) in
        elim (Bool-cases (in_window begin until f)) [
          | inl within ↦ (
            f.contents ∷ files,
            takes f shown there (inside f time within) picks,
            (λ m.
                rw (visible, there, within)
                  (>>=_ext _ (add_elements env log_dir begin until elements) (add_files files)
                    rest)),
          )
          | inr without ↦ (
            files,
            leaves f shown there (outside f time without) picks,
            (λ m. rw (visible, there, without) (rest m)),
          )
        ]

    -- The loop adds the files that are selected.
    add_elements-add_files : (elements : List Text) → All IsThere elements → Adds elements
    unfolding add_elements add_files
    add_elements-add_files [] h = ([], empty, (λ m. refl))
    add_elements-add_files (element ∷ elements) (h, hs) =
        let (files, picks, rest) = add_elements-add_files elements hs in
        elim (Bool-cases (is_hidden element)) [
          | inl dot ↦ (files, hides (is_hidden-IsHidden element dot) picks, (λ m. rw dot (rest m)))
          | inr visible ↦ elim h [
            | inl hidden ↦ let dot = IsHidden-is_hidden element hidden in absurd (cc)
            | inr (f, there, time) ↦
                add_file_of element elements f visible there time (files, picks, rest)
          ]
        ]

  -- Where the two ends of the window can be read from the options, both are times with fields in
  -- their ranges, and every name of the directory that does not begin with a dot is one of a file
  -- whose last change is such a time, add_data adds exactly the files whose names do not begin with
  -- a dot and whose last change is no instant before the begin and none after the end, in the order
  -- of the listing, as add_files does.
  pub add_data-add_files :
      (begin_option end_option : Option Text) (begin until : DateTime) (m : PnaModel)
      → begin_time begin_option env.begin_today ≡ ok begin
      → end_time end_option env.end_today ≡ ok until
      → IsTime begin
      → IsTime until
      → All IsThere (env.listdir log_dir)
      → (files : List Bytes) × Selects begin until (env.listdir log_dir) files
        × (add_data env log_dir begin_option end_option m ≡ add_files files m)
  unfolding add_data
  add_data-add_files begin_option end_option begin until m eb eu from to there =
      let (files, picks, adds) =
        add_elements-add_files begin until from to (env.listdir log_dir) there in
      (files, picks, rw (eb, eu) (adds m))
