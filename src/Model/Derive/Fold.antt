-- ===== src/Model/Derive/Fold.antt =====
-- The grouping loops of `derive_point_to_points` as one fold, and sums over a dict.
use pna.Base.{
  ℕ, ◌+◌, ◌≡◌, refl, List, [], ◌∷◌, ◌++◌, text_eq, Option, none, some, arith, Result, ok, ◌>>=◌,
  >>=-eq-ok, ok-injective,
}
use pna.Base.Dict.{Dict, lookup, insert}
use pna.Base.Text.{Text}
use pna.Base.Value.{Entry, Log, get_rows}
use pna.Model.Derive.{
  Counts, Name, count, no_counts, add_counts, PointToPoint, combine_pair, entry_counts,
  pairs_of_entries, pairs_of_logs, values,
}

-- The sum of a measure over a list, and over a value that may be missing.
abbrev pub sum {ℓ} : {V : Type ℓ} → (V → ℕ) → List V → ℕ
sum f [] = 0
sum f (v ∷ vs) = f v + sum f vs

abbrev pub part {ℓ} : {V : Type ℓ} → (V → ℕ) → Option V → ℕ
part f none = 0
part f (some v) = f v

-- Writing a key replaces its old share of the sum.
pub sum-insert {ℓ} :
    {V : Type ℓ} (f : V → ℕ) (k : Text) (v : V) (d : Dict Text V)
    → sum f (values (insert k v d)) + part f (lookup k d) ≡ sum f (values d) + f v
sum-insert f k v [] = omega arith
sum-insert f k v ((j, w) ∷ d) = grind (arith, sum-insert f k v d)

pub count-add_counts : (n : Name) (a b : Counts) → count n (add_counts a b) ≡ count n a + count n b
unfolding add_counts
count-add_counts Name.tcp_ports a b = refl
count-add_counts _ a b = refl

pub count_none : (n : Name) → count n no_counts ≡ 0
count_none Name.tcp_ports = refl
count_none _ = refl

-- The entries of the logs, read one by one.
unfoldable pub entries_counts : List Entry → Result (List PointToPoint)
entries_counts [] = ok []
entries_counts (entry ∷ entries) = do
  e ← entry_counts entry
  es ← entries_counts entries
  ok (e ∷ es)

unfoldable pub logs_counts : List Log → Result (List PointToPoint)
unfolding entries_counts
logs_counts [] = ok []
logs_counts (item ∷ items) = do
  watch_data ← get_rows "watch-data" item
  es ← entries_counts watch_data
  fs ← logs_counts items
  ok (es ++ fs)

unfoldable pub combine_all : List PointToPoint → Dict Text PointToPoint → Dict Text PointToPoint
combine_all [] d = d
combine_all (e ∷ es) d = combine_all es (combine_pair d e)

combine_all-append :
    (es fs : List PointToPoint) (d : Dict Text PointToPoint)
    → combine_all (es ++ fs) d ≡ combine_all fs (combine_all es d)
unfolding combine_all
combine_all-append [] fs d = refl
combine_all-append (e ∷ es) fs d = combine_all-append es fs (combine_pair d e)

pairs_of_entries-combine_all :
    (entries : List Entry) (d : Dict Text PointToPoint) (es : List PointToPoint)
    → entries_counts entries ≡ ok es
    → pairs_of_entries entries d ≡ ok (combine_all es d)
unfolding pairs_of_entries entries_counts combine_all
pairs_of_entries-combine_all [] d es h = let all : [] ≡ es = ok-injective h in rw (← all)
pairs_of_entries-combine_all (entry ∷ entries) d es h =
    let (e, read, later) = >>=-eq-ok (entry_counts entry) _ h in
    let (es', reads, whole) = >>=-eq-ok (entries_counts entries) _ later in
    let all : e ∷ es' ≡ es = ok-injective whole in
    rw (read, ← all) (pairs_of_entries-combine_all entries (combine_pair d e) es' reads)

pub pairs_of_logs-combine_all :
    (items : List Log) (d : Dict Text PointToPoint) (es : List PointToPoint)
    → logs_counts items ≡ ok es
    → pairs_of_logs items d ≡ ok (combine_all es d)
unfolding pairs_of_logs logs_counts combine_all
pairs_of_logs-combine_all [] d es h = let all : [] ≡ es = ok-injective h in rw (← all)
pairs_of_logs-combine_all (item ∷ items) d es h =
    let (watch, read, later) = >>=-eq-ok (get_rows "watch-data" item) _ h in
    let (fs, first, later') = >>=-eq-ok (entries_counts watch) _ later in
    let (gs, rest, whole) = >>=-eq-ok (logs_counts items) _ later' in
    let all : fs ++ gs ≡ es = ok-injective whole in
    rw (read, pairs_of_entries-combine_all watch d fs first, ← all, combine_all-append fs gs d)
      (pairs_of_logs-combine_all items (combine_all fs d) gs rest)
