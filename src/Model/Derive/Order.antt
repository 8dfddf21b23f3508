-- ===== src/Model/Derive/Order.antt =====
-- The counts of `derive_point_to_points` on logs up to their order.
use native.Mathlib.Nat.{ℕ_set}
use mathlib.Core.List.{Permᴰ}
use mathlib.Core.Quot
use mathlib.Core.Quot.{Quot}
use pna.Base.{
  ℕ, ◌+◌, ◌≡◌, refl, ap, sym, ◌∙◌, List, [], ◌∷◌, ◌++◌, arith, Result, ok, ◌>>=◌, >>=-eq-ok,
  ok-injective,
}
use pna.Base.Text.{Text}
use pna.Base.Value.{Log, get_rows}
use pna.Model.Derive.{Name, PointToPoint, derive_point_to_points}
use pna.Model.Derive.Fold.{sum, entries_counts, logs_counts}
use pna.Model.Derive.Totals.{pair_count, one}
use pna.Model.Derive.Pairs.{at_pair, once}
use pna.Model.Derive.Grouped.{derive_point_to_points_grouped}

-- Logs up to their order, each as often as it was added
abbrev pub Bag : Type 0
Bag = Quot {α = List Log} Permᴰ

abbrev pub bag : List Log → Bag
bag = Quot.mk

abbrev Measure : Type 0
Measure = PointToPoint → ℕ

abbrev share : Measure → Result (List PointToPoint) → ℕ
share f (ok es) = sum f es
share f _ = 0

-- What one log has of a measure
abbrev log_share : Measure → Log → ℕ
log_share f item = share f (get_rows "watch-data" item >>= entries_counts)

sum-Perm {ℓ} : {V : Type ℓ} (f : V → ℕ) (xs ys : List V) → Permᴰ xs ys → sum f xs ≡ sum f ys
sum-Perm f _ _ Permᴰ.nil = refl
sum-Perm f _ _ (Permᴰ.cons e p) = omega (arith, ap f e, sum-Perm f _ _ p)
sum-Perm f _ _ (Permᴰ.swap d e) = omega (arith, ap f d, ap f e)
sum-Perm f _ _ (Permᴰ.trans p q) = sum-Perm f _ _ p ∙ sum-Perm f _ _ q

-- What logs in any order have of a measure
unfoldable tally : Measure → Bag → ℕ
tally f = Quot.lift ℕ_set (sum (log_share f)) (sum-Perm (log_share f))

sum-append {ℓ} : {V : Type ℓ} (f : V → ℕ) (xs ys : List V) → sum f (xs ++ ys) ≡ sum f xs + sum f ys
sum-append f [] ys = omega arith
sum-append f (x ∷ xs) ys = omega (arith, sum-append f xs ys)

sum-logs_counts :
    (f : Measure) (items : List Log) (es : List PointToPoint)
    → logs_counts items ≡ ok es
    → sum f es ≡ sum (log_share f) items
unfolding logs_counts
sum-logs_counts f [] es h = sym (ap (sum f) (ok-injective h))
sum-logs_counts f (item ∷ items) es h =
    let (watch, read, later) = >>=-eq-ok (get_rows "watch-data" item) _ h in
    let (fs, first, later') = >>=-eq-ok (entries_counts watch) _ later in
    let (gs, rest, whole) = >>=-eq-ok (logs_counts items) _ later' in
    let all : fs ++ gs ≡ es = ok-injective whole in
    rw (read, first, ← all) (omega (arith, sum-append f fs gs, sum-logs_counts f items gs rest))

-- The rows have what the bag of the logs has.
rows-tally :
    (items : List Log) (es rows : List PointToPoint) (local remote : Text) (n : Name)
    → logs_counts items ≡ ok es
    → derive_point_to_points items ≡ ok rows
    → (sum (at_pair local remote one) rows ≡ once (tally (at_pair local remote one) (bag items)))
      × (sum (at_pair local remote (pair_count n)) rows
          ≡ tally (at_pair local remote (pair_count n)) (bag items))
unfolding tally
rows-tally items es rows l r n h e =
    let (rows_once, counts) = derive_point_to_points_grouped items es rows l r n h e in
    (
      rows_once ∙ ap once (sum-logs_counts (at_pair l r one) items es h),
      counts ∙ sum-logs_counts (at_pair l r (pair_count n)) items es h,
    )

-- The order of the logs does not matter: where two lists hold the same logs up to order, the
-- entries of both can be read and derive_point_to_points returns rows for both, each pair of a
-- local and a remote address has as many rows in both, and the same counts in them, under each of
-- the nine names.
pub derive_point_to_points-bag :
    (items others : List Log) (es fs rows lines : List PointToPoint) (local remote : Text)
    (n : Name)
    → bag items ≡ bag others
    → logs_counts items ≡ ok es
    → logs_counts others ≡ ok fs
    → derive_point_to_points items ≡ ok rows
    → derive_point_to_points others ≡ ok lines
    → (sum (at_pair local remote one) rows ≡ sum (at_pair local remote one) lines)
      × (sum (at_pair local remote (pair_count n)) rows
          ≡ sum (at_pair local remote (pair_count n)) lines)
derive_point_to_points-bag items others es fs rows lines l r n same h h' e e' =
    let (once1, counts1) = rows-tally items es rows l r n h e in
    let (once2, counts2) = rows-tally others fs lines l r n h' e' in
    (
      once1 ∙ (ap (λ b. once (tally (at_pair l r one) b)) same ∙ sym once2),
      counts1 ∙ (ap (tally (at_pair l r (pair_count n))) same ∙ sym counts2),
    )
