-- ===== src/Model/Derive/Totals.antt =====
-- Grouping neither loses nor invents counts.
use pna.Base.{
  ℕ, ◌+◌, ◌≡◌, refl, sym, List, [], ◌∷◌, text_eq, Option, none, some, arith, ok, ok-injective,
}
use pna.Base.Dict.{Dict, lookup}
use pna.Base.Text.{Text}
use pna.Base.Value.{Log}
use pna.Model.Derive.{
  Name, count, add_counts, PointToPoint, pair_key, counts_of, combine_pair, values,
  derive_point_to_points,
}
use pna.Model.Derive.Fold.{
  sum, part, sum-insert, count-add_counts, count_none, logs_counts, combine_all,
  pairs_of_logs-combine_all,
}

abbrev pub pair_count : Name → PointToPoint → ℕ
pair_count n p = count n p.counts

abbrev pub one : PointToPoint → ℕ
one e = 1

part-pair_count :
    (n : Name) (o : Option PointToPoint) → part (pair_count n) o ≡ count n (counts_of o)
part-pair_count n none = sym (count_none n)
part-pair_count n (some p) = refl

sum-combine_pair :
    (n : Name) (d : Dict Text PointToPoint) (e : PointToPoint)
    → sum (pair_count n) (values (combine_pair d e))
      ≡ sum (pair_count n) (values d) + pair_count n e
unfolding combine_pair
sum-combine_pair n d e =
    let k = pair_key e in
    let old = counts_of (lookup k d) in
    omega (
      arith,
      sum-insert (pair_count n) k (record e { counts = add_counts old e.counts }) d,
      part-pair_count n (lookup k d),
      count-add_counts n old e.counts,
    )

sum-combine_all :
    (n : Name) (es : List PointToPoint) (d : Dict Text PointToPoint)
    → sum (pair_count n) (values (combine_all es d))
      ≡ sum (pair_count n) (values d) + sum (pair_count n) es
unfolding combine_all
sum-combine_all n [] d = omega arith
sum-combine_all n (e ∷ es) d =
    omega (arith, sum-combine_all n es (combine_pair d e), sum-combine_pair n d e)

-- When the entries of the logs can be read and derive_point_to_points returns rows, their counts
-- under each of the nine names add up to the counts of the entries of all logs.
pub derive_point_to_points-sum :
    (items : List Log) (es rows : List PointToPoint) (n : Name)
    → logs_counts items ≡ ok es
    → derive_point_to_points items ≡ ok rows
    → sum (pair_count n) rows ≡ sum (pair_count n) es
unfolding derive_point_to_points
derive_point_to_points-sum items es rows n h r =
    let whole : values (combine_all es []) ≡ rows =
      ok-injective (rw (pairs_of_logs-combine_all items [] es h) at r) in
    rw (← whole) (omega (arith, sum-combine_all n es []))
