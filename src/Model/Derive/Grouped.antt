-- ===== src/Model/Derive/Grouped.antt =====
-- The rows of `derive_point_to_points`: one per pair of addresses, with the counts of that pair.
use pna.Base.{
  ◌+◌, ◌≤◌, ◌≡◌, List, [], ◌∷◌, All, arith, nat_eq, text_eq, ok, ok-injective, ℕ, ◌∙◌, ap,
}
use pna.Base.Dict.{Dict}
use pna.Base.Text.{Text}
use pna.Base.Value.{Log}
use pna.Model.Derive.{Name, PointToPoint, combine_pair, values, derive_point_to_points}
use pna.Model.Derive.Fold.{sum, logs_counts, combine_all, pairs_of_logs-combine_all}
use pna.Model.Derive.Totals.{pair_count, one}
use pna.Model.Derive.Pairs.{
  at_pair, once, IsPair, Stored, logs_counts-IsPair, combine_pair-Stored, combine_pair-at_pair,
  combine_pair-once,
}

once_few : (n m : ℕ) → m ≡ once n → m ≤ 1
once_few n m h = ground arith

once-once : (n m k : ℕ) → m ≡ once n → once (m + k) ≡ once (n + k)
once-once n m k h =
    ground (arith, nat_eq.beq_iff n 0, nat_eq.beq_iff (m + k) 0, nat_eq.beq_iff (n + k) 0)

module _ (l r : Text) where
  combine_all-at_pair :
      (n : Name) (es : List PointToPoint) (d : Dict Text PointToPoint)
      → All IsPair es
      → Stored d
      → sum (at_pair l r (pair_count n)) (values (combine_all es d))
        ≡ sum (at_pair l r (pair_count n)) (values d) + sum (at_pair l r (pair_count n)) es
  unfolding combine_all
  combine_all-at_pair n [] d hs stored = omega arith
  combine_all-at_pair n (e ∷ es) d (h, hs) stored = omega (
    arith,
    combine_all-at_pair n es (combine_pair d e) hs (combine_pair-Stored d e h stored),
    combine_pair-at_pair l r n d e h stored,
  )

  combine_all-once :
      (es : List PointToPoint) (d : Dict Text PointToPoint)
      → All IsPair es
      → Stored d
      → sum (at_pair l r one) (values d) ≤ 1
      → sum (at_pair l r one) (values (combine_all es d))
        ≡ once (sum (at_pair l r one) (values d) + sum (at_pair l r one) es)
  unfolding combine_all
  combine_all-once [] d hs stored few =
      ground (arith, nat_eq.beq_iff (sum (at_pair l r one) (values d) + 0) 0)
  combine_all-once (e ∷ es) d (h, hs) stored few =
      let step = combine_pair-once l r d e h stored few in
      combine_all-once es (combine_pair d e) hs (combine_pair-Stored d e h stored)
        (once_few _ _ step)
      ∙ (once-once _ _ (sum (at_pair l r one) es) step ∙ ap once (omega arith))

-- When the entries of the logs can be read and derive_point_to_points returns rows, there is one
-- row for each pair of a local and a remote address that an entry has, and none for other pairs,
-- and the row of a pair has, under each of the nine names, the sum of the counts of the entries
-- with that pair.
pub derive_point_to_points_grouped :
    (items : List Log) (es rows : List PointToPoint) (local remote : Text) (n : Name)
    → logs_counts items ≡ ok es
    → derive_point_to_points items ≡ ok rows
    → (sum (at_pair local remote one) rows ≡ once (sum (at_pair local remote one) es))
      × (sum (at_pair local remote (pair_count n)) rows
          ≡ sum (at_pair local remote (pair_count n)) es)
unfolding derive_point_to_points
derive_point_to_points_grouped items es rows l r n h e =
    let whole : values (combine_all es []) ≡ rows =
      ok-injective (rw (pairs_of_logs-combine_all items [] es h) at e) in
    let pairs = logs_counts-IsPair items es h in
    rw (← whole) (
      combine_all-once l r es [] pairs tt (omega arith) ∙ ap once (omega arith),
      combine_all-at_pair l r n es [] pairs tt ∙ omega arith,
    )
