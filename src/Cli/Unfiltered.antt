-- ===== src/Cli/Unfiltered.antt =====
-- The filters of the command line filter nothing.
use pna.Base.{
  ℕ, ◌≡◌, refl, ap, sym, subst, ok-injective, ◌+◌, ◌∙◌, List, [], ◌∷◌, map, true, false, ◌==◌,
  nat_eq, string_eq, text_eq, if◌then◌else◌, Option, none, some, ok, >>=-eq-ok, String,
}
use pna.Base.Dict.{lookup, lookup-insert}
use pna.Base.Text.{Text}
use pna.Struct.{Bytes}
use pna.Model.Pattern.{accepts, latest_re}
use pna.Model.Filter.{Filters}
use pna.Model.Filter.Keeps.{renamed, LatestAccepted}
use pna.LogFile.{init, parse}
use pna.Model.State.{SortKey, raw, PnaModel, logs, add_file}
use pna.Model.State.Loaded.{IsLoaded, add_file-IsLoaded}
use pna.Model.State.Cached.{add_file_lem}
use pna.Model.State.Raw.{get_data_raw}
use pna.Cli.{Options, set_filter, option_filters, configure, add_files, interact, is_format, prints}

-- The files' logs are appended in order; all else stays.
add_files_lem :
    (files : List Bytes) (m m' : PnaModel)
    → IsLoaded m
    → m.cache.valid ≡ false
    → add_files files m ≡ ok m'
    → IsLoaded m' × (m'.cache.valid ≡ false)
unfolding add_files
add_files_lem [] m m' h c r =
    let same : m ≡ m' = ok-injective r in
    (subst IsLoaded same h, ap (λ n. n.cache.valid) (sym same) ∙ c)
add_files_lem (file ∷ files) m m' h c r =
    let (n, added, later) = >>=-eq-ok (add_file file m) _ r in
    let (item, _, _, changed) = add_file_lem file m n added in
    add_files_lem files n m' (add_file-IsLoaded file m n h added) (ap (λ k. k.cache.valid) changed)
      later

-- Other settings, on the same logs.
abbrev pub resettle : SortKey → ℕ → ℕ → (ℕ → Filters) → ℕ → PnaModel → PnaModel
resettle key threshold filters store next m = record m {
  sort_key = key;
  threshold = threshold;
  filters = filters;
  store = store;
  next = next;
}

module _ (key : SortKey) (threshold filters : ℕ) (store : ℕ → Filters) (next : ℕ) where
  add_file-resettle :
      (file : Bytes) (m n : PnaModel)
      → add_file file m ≡ ok n
      → add_file file (resettle key threshold filters store next m)
        ≡ ok (resettle key threshold filters store next n)
  unfolding add_file
  add_file-resettle file m n h =
      let (file_data, e1, h1) = >>=-eq-ok (init file) _ h in
      let (x, e2, h2) = >>=-eq-ok (parse file_data) _ h1 in
      rw (e1, e2) (ap (λ k. ok (resettle key threshold filters store next k)) (ok-injective h2))

  add_files-resettle :
      (files : List Bytes) (m n : PnaModel)
      → add_files files m ≡ ok n
      → add_files files (resettle key threshold filters store next m)
        ≡ ok (resettle key threshold filters store next n)
  unfolding add_files
  add_files-resettle [] m n h =
      ap (λ k. ok (resettle key threshold filters store next k)) (ok-injective h)
  add_files-resettle (file ∷ files) m n h =
      let (k, added, later) = >>=-eq-ok (add_file file m) _ h in
      rw (add_file-resettle file m k added) (add_files-resettle files k n later)

set_filter-latest :
    (name : String) (v : Option Text) (d : Filters)
    → (name == "latest") ≡ false
    → lookup "latest" (set_filter name v d) ≡ lookup "latest" d
set_filter-latest name none d h = refl
set_filter-latest name (some []) d h = refl
set_filter-latest name (some (c ∷ cs)) d h = rw (lookup-insert name "latest" (c ∷ cs) d, h)

option_filters-latest : (o : Options) → lookup "latest" (option_filters o) ≡ none
unfolding option_filters
option_filters-latest o =
    set_filter-latest "end-time" o.end_time _ refl
    ∙ set_filter-latest "begin-time" o.begin_time _ refl
    ∙ set_filter-latest "remote-ip" o.remote_ip _ refl
    ∙ set_filter-latest "local-ip" o.local_ip [] refl

abbrev LatestOf : Option Text → Type 0
LatestOf o = elim o [ none ↦ Unit | some f ↦ accepts latest_re f ≡ true ]

option_filters-LatestAccepted : (o : Options) → LatestAccepted (option_filters o)
option_filters-LatestAccepted o = subst LatestOf (sym (option_filters-latest o)) tt

-- With a format that the tool has and at least one file, on a model without a valid cache and with
-- well-formed logs, and if the files can be read: interact prints all logs of the model and of the
-- files with all their flows, whatever filters the options give.
pub interact_unfiltered :
    (o : Options) (file : Bytes) (files : List Bytes) (m n : PnaModel)
    → is_format o.format ≡ true
    → IsLoaded m
    → m.cache.valid ≡ false
    → add_files (file ∷ files) m ≡ ok n
    → interact o (file ∷ files) m ≡ ok (prints o.format (logs (map renamed n.all_data)))
unfolding interact configure
interact_unfiltered o file files m n known h c r =
    let store : ℕ → Filters = λ r. if r == m.next then option_filters o else m.store r in
    let (loaded, invalid) = add_files_lem (file ∷ files) m n h c r in
    let here : store m.next ≡ option_filters o = rw ((nat_eq.beq_iff m.next m.next).1 refl) refl in
    let added = add_files-resettle raw 0 m.next store (m.next + 1) (file ∷ files) m n r in
    let latest : LatestAccepted (store m.next) =
      subst LatestAccepted (sym here) (option_filters-LatestAccepted o) in
    let shown = get_data_raw (resettle raw 0 m.next store (m.next + 1) n) invalid latest loaded in
    rw (known, added, shown)
