-- ===== src/Cui/Startup.antt =====
-- util/intop/cui.py: `add_data` and `cui_main`, in an environment that has the files and the clock.
mod Tests
pub mod Instants
pub mod Selected
pub mod Raises
use pna.Base.{
  ℕ, ◌-◌, List, [], ◌∷◌, ◌++◌, Bool, true, false, ◌&&◌, ◌==◌, nat_eq, if◌then◌else◌, Option, none,
  some, Result, ok, err, or_raise, os_error, system_exit, ◌>>=◌,
}
use pna.Base.Text.{Text}
use pna.Struct.{Bytes}
use pna.Model.Filter.{Filters}
use pna.Model.State.{PnaModel, new_model, add_file}
use pna.Cui.Times.{DateTime, not_after, begin_time, end_time}
use pna.Cui.Session.{Session, start}

-- A file with the local time of its last change.
pub record File : Type 0 where
  pub modified : DateTime
  pub contents : Bytes

-- `datetime.today()` where the begin and where the end is left out, `os.listdir`, and the files.
pub record Environment : Type 0 where
  pub begin_today : DateTime
  pub end_today : DateTime
  pub listdir : Text → List Text
  pub file : Text → Option File

-- The options, and `args`.
pub record Arguments : Type 0 where
  pub directory : Option Text
  pub static : Option Text
  pub begin : Option Text
  pub end_option : Option Text
  pub args : List Text

-- How the program starts: `sys.exit(2)`, or with an interface, which may watch a directory.
pub data Opening : Type 0 where
  usage_error : Opening
  watches : Text → Session → Opening
  shows : Session → Opening

-- `string.find(element, ".") == 0`
abbrev pub is_hidden : Text → Bool
is_hidden [] = false
is_hidden (c ∷ cs) = c == b'.'

-- `!= None`
abbrev pub is_given : Option Text → Bool
is_given none = false
is_given (some t) = true

-- `begin <= then and end >= then`
abbrev pub in_window : DateTime → DateTime → File → Bool
in_window begin until f = not_after begin f.modified && not_after f.modified until

-- `CursesInterface(screen, model, dirwatch)`: the information window has four lines less than the
-- screen, which has more than four.
abbrev pub interface : ℕ → ℕ → PnaModel → Result Session
interface height width m = start (height - 4) width m

module _ (env : Environment) where
  abbrev pub open_file : Text → Result File
  open_file name = or_raise (env.file name) os_error

  module _ (log_dir : Text) (begin until : DateTime) where
    unfoldable pub add_element : Text → PnaModel → Result PnaModel
    add_element element m = do
      f ← open_file (log_dir ++ element)
      if in_window begin until f then add_file f.contents m else ok m

    unfoldable pub add_elements : List Text → PnaModel → Result PnaModel
    unfolding add_element
    add_elements [] m = ok m
    add_elements (element ∷ elements) m = do
      m' ← if is_hidden element then ok m else add_element element m
      add_elements elements m'

  unfoldable pub add_data : Text → Option Text → Option Text → PnaModel → Result PnaModel
  unfolding add_elements
  add_data log_dir begin end' m = do
    from ← begin_time begin env.begin_today
    until ← end_time end' env.end_today
    add_elements log_dir from until (env.listdir log_dir) m

  -- `for file in args`
  unfoldable pub add_args : List Text → PnaModel → Result PnaModel
  add_args [] m = ok m
  add_args (name ∷ names) m = do f ← open_file name; m' ← add_file f.contents m; add_args names m'

  -- The files of the directory that an option names.
  unfoldable pub load : Arguments → PnaModel → Result PnaModel
  unfolding add_data
  load a m = elim a.directory [
    | some directory ↦ add_data directory a.begin a.end_option m
    | none ↦ elim a.static [ some static ↦ add_data static a.begin a.end_option m | none ↦ ok m ]
  ]

  abbrev view_args : Arguments → ℕ → ℕ → PnaModel → Result Opening
  view_args a height width m = do
    m' ← add_args a.args m
    s ← interface height width m'
    ok (shows s)

  -- `if directory :`, where an empty text counts as false
  unfoldable pub open_interface : Arguments → ℕ → ℕ → PnaModel → Result Opening
  unfolding add_args
  open_interface a height width m = elim a.directory [
    | none ↦ view_args a height width m
    | some directory ↦ elim directory [
      | [] ↦ view_args a height width m
      | c ∷ cs ↦ do s ← interface height width m; ok (watches (c ∷ cs) s)
    ]
  ]

  -- `cui_main`, with the size of the screen, on `PNAModel()`
  unfoldable pub cui_main : Arguments → ℕ → ℕ → PnaModel → Result Opening
  unfolding load open_interface
  cui_main a height width m =
      if is_given a.static && is_given a.directory
      then ok usage_error
      else (do m' ← load a m; open_interface a height width m')
