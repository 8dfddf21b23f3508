-- ===== src/Model/State/Refines/Commands.antt =====
-- Any sequence of changes and calls: the cache is not seen.
use pna.Base.{
  ℕ, ◌≡◌, ◌⊎◌, refl, ap, sym, subst, ◌∙◌, List, [], ◌∷◌, ◌++◌, false, Result, ok, err, stuck, ◌>>=◌,
  >>=-eq-ok, >>=_ext, >>=_assoc, ok-injective, inl, inr, string_eq,
}
use pna.Base.Dict.{insert}
use pna.Base.Value.{Log, rows, as_log}
use pna.Struct.{Bytes}
use pna.LogFile.{init, parse}
use pna.Model.Filter.{do_filter}
use pna.Model.State.{
  SortKey, raw, connections, sessions, column, Row, Output, table, PnaModel, rank_and_store,
  rows_for, flatten, view_for, view_data, get_data, add_file, row_value,
}
use pna.Model.Rank.{ranked}
use pna.Model.State.Cached.{stored}
use pna.Model.State.Refines.{Plain, plain_of, answer, view_answer, output_of, view_for-output}
use pna.Model.State.Refines.Coherent.{IsCoherent, IsCoherent-Finds}

-- A call gives the answer.
pub get_data-answer :
    (m : PnaModel) → IsCoherent m → output_of (get_data false m) ≡ answer (plain_of m)
unfolding get_data answer view_data
get_data-answer m h = elim (IsCoherent-Finds m h) [
  | inl missed ↦ rw missed (with_items (do_filter (m.store m.filters) m.all_data))
  | inr (rs, hit, answers) ↦ rw hit (sym answers)
]
  where
    with_items :
        (r : Result (List Log))
        → output_of (r >>= view_for m.sort_key m) ≡ (r >>= view_answer m.sort_key m.threshold)
    with_items (ok items) = view_for-output m.sort_key m items refl
    with_items (err e) = refl
    with_items stuck = refl

-- The object is as it was, or has the table in its cache.
abbrev IsKept : PnaModel → PnaModel → Output → Type 0
IsKept m m' out =
    (m' ≡ m) ⊎ ((rs : List Row) × (out ≡ table rs) × (m' ≡ record m { cache = stored m rs }))

ranked-IsKept :
    (m m' : PnaModel) (all_rows : List Row) (out : Output)
    → rank_and_store m all_rows ≡ ok (m', out)
    → IsKept m m' out
unfolding rank_and_store
ranked-IsKept m m' all_rows out e =
    let (rs, _, later) = >>=-eq-ok (ranked (row_value m.sort_key) m.threshold all_rows) _ e in
    inr (rs, sym (ap (λ p. p.1) (ok-injective later)), sym (ap (λ p. p.0) (ok-injective later)))

view_for-IsKept :
    (key : SortKey) (m m' : PnaModel) (items : List Log) (out : Output)
    → view_for key m items ≡ ok (m', out)
    → IsKept m m' out
unfolding view_for
view_for-IsKept raw m m' items out e =
    let (es, _, later) = >>=-eq-ok (flatten items) _ e in
    inl (sym (ap (λ p. p.0) (ok-injective later)))
view_for-IsKept connections m m' items out e =
    let (all_rows, _, later) = >>=-eq-ok (rows_for connections items) _ e in
    ranked-IsKept m m' all_rows out later
view_for-IsKept sessions m m' items out e =
    let (all_rows, _, later) = >>=-eq-ok (rows_for sessions items) _ e in
    ranked-IsKept m m' all_rows out later
view_for-IsKept (column n) m m' items out e =
    let (all_rows, _, later) = >>=-eq-ok (rows_for (column n) items) _ e in
    ranked-IsKept m m' all_rows out later

-- The object after a call stays coherent.
pub get_data-IsCoherent :
    (m m' : PnaModel) (out : Output)
    → get_data false m ≡ ok (m', out)
    → IsCoherent m
    → IsCoherent m' × (plain_of m' ≡ plain_of m)
unfolding get_data view_data
get_data-IsCoherent m m' out e h = elim (IsCoherent-Finds m h) [
  | inr (rs, hit, answers) ↦
      let same = ap (λ p. p.0) (ok-injective (rw hit at e)) in
      subst (λ n. IsCoherent n × (plain_of n ≡ plain_of m)) same (h, refl)
  | inl missed ↦
      let (items, _, later) =
        >>=-eq-ok (do_filter (m.store m.filters) m.all_data) _ (rw missed at e) in
      kept (view_for-IsKept m.sort_key m m' items out later)
]
  where
    kept : IsKept m m' out → IsCoherent m' × (plain_of m' ≡ plain_of m)
    kept (inl same) = subst (λ n. IsCoherent n × (plain_of n ≡ plain_of m)) (sym same) (h, refl)
    kept (inr (rs, is, same)) =
        let answers : answer (plain_of m) ≡ ok (table rs) =
          sym (get_data-answer m h) ∙ ap output_of e ∙ ap ok is in
        subst (λ n. IsCoherent n × (plain_of n ≡ plain_of m)) (sym same)
          (inr (m.sort_key, m.threshold, rs, refl, answers), refl)

-- What a user of the model does, short of changing the filters.
pub data Command : Type 0 where
  by_key : SortKey → Command
  by_threshold : ℕ → Command
  adds : Bytes → Command
  asks : Command

-- The results of the calls of `get_data()`
unfoldable pub run : List Command → PnaModel → Result (List Output)
run [] m = ok []
run (by_key key ∷ commands) m = run commands (record m { sort_key = key })
run (by_threshold threshold ∷ commands) m = run commands (record m { threshold = threshold })
run (adds file ∷ commands) m = do m' ← add_file file m; run commands m'
run (asks ∷ commands) m = do (m', out) ← get_data false m; outs ← run commands m'; ok (out ∷ outs)

-- The log that a file holds.
unfoldable pub log_of : Bytes → Result Log
log_of file = do
  file_data ← init file
  (flows, _) ← parse file_data
  ok (insert "flows" (rows flows) (as_log file_data.header))

-- The same, without a cache
unfoldable pub run_plain : List Command → Plain → Result (List Output)
unfolding log_of answer
run_plain [] p = ok []
run_plain (by_key key ∷ commands) p = run_plain commands (record p { sort_key = key })
run_plain (by_threshold threshold ∷ commands) p =
    run_plain commands (record p { threshold = threshold })
run_plain (adds file ∷ commands) p = do
  item ← log_of file
  run_plain commands (record p { all_data = p.all_data ++ item ∷ [] })
run_plain (asks ∷ commands) p = do out ← answer p; outs ← run_plain commands p; ok (out ∷ outs)

log_of-add_file :
    (file : Bytes) (m : PnaModel)
    → add_file file m ≡ (do
      item ← log_of file
      ok (record m {
        all_data = m.all_data ++ item ∷ [];
        cache = record m.cache { valid = false };
      }))
unfolding add_file log_of
log_of-add_file file m = sym (
    >>=_assoc (init file) _ _
    ∙ >>=_ext (init file) _ _ (λ file_data. >>=_assoc (parse file_data) _ _))

-- The commands after one that leaves a coherent object
abbrev Agree : List Command → Type 0
Agree commands = (m : PnaModel) → IsCoherent m → run commands m ≡ run_plain commands (plain_of m)

adds-Agree :
    (file : Bytes) (commands : List Command) (m : PnaModel)
    → Agree commands
    → run (adds file ∷ commands) m ≡ run_plain (adds file ∷ commands) (plain_of m)
unfolding run run_plain
adds-Agree file commands m next = rw (log_of-add_file file m) (with_log (log_of file))
  where
    with_log :
        (r : Result Log)
        → (r
            >>= (λ item. ok (record m {
              all_data = m.all_data ++ item ∷ [];
              cache = record m.cache { valid = false };
            }))
            >>= run commands)
          ≡ (r >>= λ item.
              run_plain commands (record (plain_of m) { all_data = m.all_data ++ item ∷ [] }))
    with_log (ok item) = next _ (inl refl)
    with_log (err e) = refl
    with_log stuck = refl

asks-Agree :
    (commands : List Command) (m : PnaModel)
    → IsCoherent m
    → Agree commands
    → run (asks ∷ commands) m ≡ run_plain (asks ∷ commands) (plain_of m)
unfolding run run_plain
asks-Agree commands m h next = rw (← get_data-answer m h) (with_call (get_data false m) refl)
  where
    with_call :
        (r : Result (PnaModel × Output))
        → get_data false m ≡ r
        → (r >>= λ x. run commands x.0 >>= λ outs. ok (x.1 ∷ outs))
          ≡ (output_of r >>= λ out. run_plain commands (plain_of m) >>= λ outs. ok (out ∷ outs))
    with_call (ok (m', out)) e =
        let (h', same) = get_data-IsCoherent m m' out e h in
        ap (λ r. r >>= λ outs. ok (out ∷ outs)) (next m' h' ∙ ap (run_plain commands) same)
    with_call (err x) e = refl
    with_call stuck e = refl

-- Whatever sequence of changes of the sort key and the threshold, files added and calls of get_data
-- is made on an object whose cache is not valid or holds what its logs give, the results, or the
-- exception that ends them, are those of a model that keeps no cache and computes each answer from
-- the logs.
pub run_refines :
    (commands : List Command) (m : PnaModel)
    → IsCoherent m
    → run commands m ≡ run_plain commands (plain_of m)
unfolding run run_plain
run_refines [] m h = refl
run_refines (by_key key ∷ commands) m h = run_refines commands (record m { sort_key = key }) h
run_refines (by_threshold threshold ∷ commands) m h =
    run_refines commands (record m { threshold = threshold }) h
run_refines (adds file ∷ commands) m h = adds-Agree file commands m (run_refines commands)
run_refines (asks ∷ commands) m h = asks-Agree commands m h (run_refines commands)
