-- ===== src/Cui/Startup/Raises.antt =====
-- The program does not start on logs.
use pna.Base.{
  ℕ, ◌-◌, ◌≡◌, refl, ap, subst, ◌∙◌, List, [], ◌∷◌, ◌++◌, Bool, true, false, if◌then◌else◌, Option,
  none, some, ok, err, key_error, value_error, >>=-eq-ok, ok-injective,
}
use pna.Base.Text.{Text}
use pna.Base.Value.{Log}
use pna.Struct.{Bytes}
use pna.Model.State.{PnaModel, add_file}
use pna.Model.State.Cached.{add_file_lem}
use pna.Model.State.Raw.{missing_key, get_data_raises}
use pna.Cui.Times.Window.{end_of_december}
use pna.Cui.Times.{DateTime, Groups, search, begin_time, end_time}
use pna.Cui.Session.{start, update}
use pna.Cui.Session.Invariant.{IsSettled, add_file-IsSettled}
use pna.Cui.Session.Arrival.{AllFit-LatestAccepted}
use pna.Cui.Startup.{
  Environment, Arguments, is_hidden, in_window, open_file, add_element, add_elements, add_data,
  load, open_interface, cui_main,
}

-- A settled model, of which the sort key is kept and nothing is cached.
abbrev pub IsFresh : PnaModel → PnaModel → Type 0
IsFresh m n = IsSettled n × (n.cache.valid ≡ false) × (n.sort_key ≡ m.sort_key)

added-IsFresh :
    (file : Bytes) (m n n' : PnaModel) → add_file file n ≡ ok n' → IsFresh m n → IsFresh m n'
added-IsFresh file m n n' e (settled, invalid, key) =
    let (_, _, _, same) = add_file_lem file n n' e in
    (
      add_file-IsSettled file n n' e settled,
      ap (λ k. k.cache.valid) same,
      ap (λ k. k.sort_key) same ∙ key,
    )

module _ (env : Environment) (log_dir : Text) where
  if_in_window-IsFresh :
      (b : Bool) (file : Bytes) (m n n' : PnaModel)
      → (if b then add_file file n else ok n) ≡ ok n'
      → IsFresh m n
      → IsFresh m n'
  if_in_window-IsFresh true file m n n' e h = added-IsFresh file m n n' e h
  if_in_window-IsFresh false file m n n' e h = subst (IsFresh m) (ok-injective e) h

  element-IsFresh :
      (hidden : Bool) (begin until : DateTime) (element : Text) (m n n' : PnaModel)
      → (if hidden then ok n else add_element env log_dir begin until element n) ≡ ok n'
      → IsFresh m n
      → IsFresh m n'
  unfolding add_element
  element-IsFresh true begin until element m n n' e h = subst (IsFresh m) (ok-injective e) h
  element-IsFresh false begin until element m n n' e h =
      let (f, _, later) = >>=-eq-ok (open_file env (log_dir ++ element)) _ e in
      if_in_window-IsFresh (in_window begin until f) f.contents m n n' later h

  add_elements-IsFresh :
      (begin until : DateTime) (elements : List Text) (m n n' : PnaModel)
      → add_elements env log_dir begin until elements n ≡ ok n'
      → IsFresh m n
      → IsFresh m n'
  unfolding add_elements
  add_elements-IsFresh begin until [] m n n' e h = subst (IsFresh m) (ok-injective e) h
  add_elements-IsFresh begin until (element ∷ elements) m n n' e h =
      let (k, one, later) =
        >>=-eq-ok
          (if is_hidden element then ok n else add_element env log_dir begin until element n) _ e in
      add_elements-IsFresh begin until elements m k n' later
        (element-IsFresh (is_hidden element) begin until element m n k one h)

  add_data-IsFresh :
      (begin_option end_option : Option Text) (m n : PnaModel)
      → add_data env log_dir begin_option end_option m ≡ ok n
      → IsFresh m m
      → IsFresh m n
  unfolding add_data
  add_data-IsFresh begin_option end_option m n e h =
      let (from, _, later) = >>=-eq-ok (begin_time begin_option env.begin_today) _ e in
      let (until, _, last) = >>=-eq-ok (end_time end_option env.end_today) _ later in
      add_elements-IsFresh from until (env.listdir log_dir) m m n last h

start_raises :
    (height width : ℕ) (m n : PnaModel) (item : Log) (items : List Log)
    → IsFresh m n
    → n.all_data ≡ item ∷ items
    → start height width n ≡ err (key_error (missing_key m.sort_key))
unfolding start update
start_raises height width m n item items (settled, invalid, key) all =
    let latest = AllFit-LatestAccepted (n.store n.filters) settled.fit in
    rw (get_data_raises n item items invalid latest all settled.loaded, key)

-- If only a directory to watch is given, and add_data puts at least one log into a model with
-- nothing cached, whose settings and logs are good as in the invariant of a session, cui_main
-- raises KeyError before it shows anything: at end-time under the sort key raw, and at watch-data
-- under all others.
pub cui_main_raises :
    (env : Environment) (a : Arguments) (c : ℕ) (cs : Text) (height width : ℕ) (m n : PnaModel)
    (item : Log) (items : List Log)
    → a.directory ≡ some (c ∷ cs)
    → a.static ≡ none
    → IsSettled m
    → m.cache.valid ≡ false
    → add_data env (c ∷ cs) a.begin a.end_option m ≡ ok n
    → n.all_data ≡ item ∷ items
    → cui_main env a height width m ≡ err (key_error (missing_key m.sort_key))
unfolding cui_main load open_interface
cui_main_raises env a c cs height width m n item items dir static settled invalid loads all =
    let fresh =
      add_data-IsFresh env (c ∷ cs) a.begin a.end_option m n loads (settled, invalid, refl) in
    rw (static, dir, loads, start_raises (height - 4) width m n item items fresh all)

-- If the begin of the window can be made, add_data with an end time whose text gives December
-- raises ValueError, whatever else the text gives.
pub add_data_december :
    (env : Environment) (log_dir t : Text) (begin_option : Option Text) (begin : DateTime)
    (g : Groups) (m : PnaModel)
    → begin_time begin_option env.begin_today ≡ ok begin
    → search t ≡ some g
    → g.month ≡ 12
    → add_data env log_dir begin_option (some t) m ≡ err value_error
unfolding add_data end_time
add_data_december env log_dir t begin_option begin g m begins found month =
    rw (begins, found, end_of_december g month)
