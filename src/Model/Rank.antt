-- ===== src/Model/Rank.antt =====
-- util/intop/model.py, `get_data`: the threshold, and `sorted(data, lambda l, r: cmp(r[key], l[key]))`.
pub mod Ordered
use pna.Base.{ℕ, List, [], ◌∷◌, map, Bool, leb, ltb, if◌then◌else◌, Result, ok, ◌>>=◌}

-- Rows beside the number that `row[key]` is.
unfoldable pub read_keys : {R : Type 0} → (R → Result ℕ) → List R → Result (List (ℕ × R))
read_keys value [] = ok []
read_keys value (r ∷ rs) = do n ← value r; ns ← read_keys value rs; ok ((n, r) ∷ ns)

-- `[i for i in data if i[key] >= threshold]`
unfoldable pub exceeding : {R : Type 0} → ℕ → List (ℕ × R) → List (ℕ × R)
exceeding threshold [] = []
exceeding threshold (e ∷ es) =
    let rest = exceeding threshold es in if leb threshold e.0 then e ∷ rest else rest

-- A stable sort, the greatest number first. The first of two equal rows stays first.
unfoldable pub place : {R : Type 0} → ℕ × R → List (ℕ × R) → List (ℕ × R)
place e [] = e ∷ []
place e (f ∷ fs) = if leb f.0 e.0 then e ∷ f ∷ fs else f ∷ place e fs

unfoldable pub descending : {R : Type 0} → List (ℕ × R) → List (ℕ × R)
unfolding place
descending [] = []
descending (e ∷ es) = place e (descending es)

-- `sorted` compares only where there are two rows or more, so that a single row is not read.
unfoldable pub sorted : {R : Type 0} → (R → Result ℕ) → List R → Result (List R)
unfolding read_keys descending
sorted value [] = ok []
sorted value (r ∷ []) = ok (r ∷ [])
sorted value (r ∷ s ∷ rs) = do
  es ← read_keys value (r ∷ s ∷ rs)
  ok (map (λ e. e.1) (descending es))

-- The end of `get_data`: the rows from the threshold on, sorted.
unfoldable pub ranked : {R : Type 0} → (R → Result ℕ) → ℕ → List R → Result (List R)
unfolding sorted exceeding
ranked value threshold rows = do
  es ← read_keys value rows
  sorted value (map (λ e. e.1) (exceeding threshold es))
