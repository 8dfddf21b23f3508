-- ===== src/Model/Rank/Ordered.antt =====
-- `get_data`'s rows in the order of their numbers.
use pna.Base.{
  ℕ, ◌≡◌, ◌≤◌, refl, ◌∙◌, ap, List, [], ◌∷◌, map, leb, ◌==◌, nat_eq, if◌then◌else◌, Bool-cases,
  Result, ok, >>=-eq-ok, ok-injective, inl, inr, arith,
}
use pna.Model.Rank.{read_keys, exceeding, place, descending, sorted, ranked}

module _ {R : Type 0} where
  -- The rows with one number, in order.
  abbrev pub with_key : ℕ → List (ℕ × R) → List R
  with_key n [] = []
  with_key n (e ∷ es) = let rest = with_key n es in if e.0 == n then e.1 ∷ rest else rest

  abbrev pub AtMost : ℕ → List (ℕ × R) → Type 0
  AtMost n [] = Unit
  AtMost n (e ∷ es) = (e.0 ≤ n) × AtMost n es

  abbrev pub IsDescending : List (ℕ × R) → Type 0
  IsDescending [] = Unit
  IsDescending (e ∷ es) = AtMost e.0 es × IsDescending es

  AtMost-weaken : (m n : ℕ) (es : List (ℕ × R)) → m ≤ n → AtMost m es → AtMost n es
  AtMost-weaken m n [] le h = tt
  AtMost-weaken m n (e ∷ es) le (h, hs) = (omega arith, AtMost-weaken m n es le hs)

  place-AtMost :
      (n : ℕ) (e : ℕ × R) (es : List (ℕ × R)) → e.0 ≤ n → AtMost n es → AtMost n (place e es)
  unfolding place
  place-AtMost n e [] le h = (le, tt)
  place-AtMost n e (f ∷ fs) le (h, hs) = elim (Bool-cases (leb f.0 e.0)) [
    | inl below ↦ rw below (le, (h, hs))
    | inr above ↦ rw above (h, place-AtMost n e fs le hs)
  ]

  place-IsDescending : (e : ℕ × R) (es : List (ℕ × R)) → IsDescending es → IsDescending (place e es)
  unfolding place
  place-IsDescending e [] h = (tt, tt)
  place-IsDescending e (f ∷ fs) (h, hs) = elim (Bool-cases (leb f.0 e.0)) [
    | inl below ↦
        let le : f.0 ≤ e.0 = ground arith in rw below ((le, AtMost-weaken f.0 e.0 fs le h), (h, hs))
    | inr above ↦
        let ge : e.0 ≤ f.0 = ground arith in
        rw above (place-AtMost f.0 e fs ge h, place-IsDescending e fs hs)
  ]

  descending-IsDescending : (es : List (ℕ × R)) → IsDescending (descending es)
  unfolding descending
  descending-IsDescending [] = tt
  descending-IsDescending (e ∷ es) =
      place-IsDescending e (descending es) (descending-IsDescending es)

  with_key-place :
      (n : ℕ) (e : ℕ × R) (es : List (ℕ × R)) → with_key n (place e es) ≡ with_key n (e ∷ es)
  unfolding place
  with_key-place n e [] = refl
  with_key-place n e (f ∷ fs) = ground (arith, with_key-place n e fs)

  with_key-descending : (n : ℕ) (es : List (ℕ × R)) → with_key n (descending es) ≡ with_key n es
  unfolding descending
  with_key-descending n [] = refl
  with_key-descending n (e ∷ es) =
      with_key-place n e (descending es)
      ∙ ap (λ rest. if e.0 == n then e.1 ∷ rest else rest) (with_key-descending n es)

  with_key-exceeding :
      (n threshold : ℕ) (es : List (ℕ × R))
      → with_key n (exceeding threshold es) ≡ (if leb threshold n then with_key n es else [])
  unfolding exceeding
  with_key-exceeding n threshold [] = ground arith
  with_key-exceeding n threshold (e ∷ es) = ground (arith, with_key-exceeding n threshold es)

module _ {R : Type 0} (value : R → Result ℕ) where
  -- Every number is what its row reads as.
  abbrev pub Reads : List (ℕ × R) → Type 0
  Reads [] = Unit
  Reads (e ∷ es) = (value e.1 ≡ ok e.0) × Reads es

  abbrev pub rows_of : List (ℕ × R) → List R
  rows_of = map (λ e. e.1)

  read_keys-Reads :
      (rs : List R) (es : List (ℕ × R)) → read_keys value rs ≡ ok es → Reads es × (rows_of es ≡ rs)
  unfolding read_keys
  read_keys-Reads [] es h = let none_left : [] ≡ es = ok-injective h in rw (← none_left) (tt, refl)
  read_keys-Reads (r ∷ rs) es h =
      let (n, one, later) = >>=-eq-ok (value r) _ h in
      let (ns, rest, whole) = >>=-eq-ok (read_keys value rs) _ later in
      let all : (n, r) ∷ ns ≡ es = ok-injective whole in
      let (reads, same) = read_keys-Reads rs ns rest in
      rw (← all) ((one, reads), ap (λ l. r ∷ l) same)

  pub read_keys-rows_of : (es : List (ℕ × R)) → Reads es → read_keys value (rows_of es) ≡ ok es
  unfolding read_keys
  read_keys-rows_of [] h = refl
  read_keys-rows_of (e ∷ es) (h, hs) = rw (h, read_keys-rows_of es hs)

  place-Reads : (e : ℕ × R) (es : List (ℕ × R)) → value e.1 ≡ ok e.0 → Reads es → Reads (place e es)
  unfolding place
  place-Reads e [] h hs = (h, tt)
  place-Reads e (f ∷ fs) h (hf, hs) = elim (Bool-cases (leb f.0 e.0)) [
    | inl below ↦ rw below (h, (hf, hs))
    | inr above ↦ rw above (hf, place-Reads e fs h hs)
  ]

  descending-Reads : (es : List (ℕ × R)) → Reads es → Reads (descending es)
  unfolding descending
  descending-Reads [] h = tt
  descending-Reads (e ∷ es) (h, hs) = place-Reads e (descending es) h (descending-Reads es hs)

  exceeding-Reads : (t : ℕ) (es : List (ℕ × R)) → Reads es → Reads (exceeding t es)
  unfolding exceeding
  exceeding-Reads t [] h = tt
  exceeding-Reads t (e ∷ es) (h, hs) = elim (Bool-cases (leb t e.0)) [
    | inl kept ↦ rw kept (h, exceeding-Reads t es hs)
    | inr dropped ↦ rw dropped (exceeding-Reads t es hs)
  ]

  sorted-rows_of :
      (es : List (ℕ × R)) → Reads es → sorted value (rows_of es) ≡ ok (rows_of (descending es))
  unfolding sorted descending place
  sorted-rows_of [] h = refl
  sorted-rows_of (e ∷ []) h = refl
  sorted-rows_of (e ∷ f ∷ es) h = rw (read_keys-rows_of (e ∷ f ∷ es) h)

  -- Where every row has the number that the table is sorted by, the end of get_data returns rows in
  -- descending order of it, and for every number the rows with it are those of the data in the
  -- order of the data if it reaches the threshold, and none otherwise.
  pub ranked_lem :
      (threshold : ℕ) (rs : List R) (es : List (ℕ × R))
      → read_keys value rs ≡ ok es
      → (out : List (ℕ × R)) × (ranked value threshold rs ≡ ok (rows_of out))
        × (read_keys value (rows_of out) ≡ ok out)
        × IsDescending out
        × ((n : ℕ) → with_key n out ≡ (if leb threshold n then with_key n es else []))
  unfolding ranked
  ranked_lem threshold rs es h =
      let (reads, same) = read_keys-Reads rs es h in
      let kept = exceeding-Reads threshold es reads in
      (
        descending (exceeding threshold es),
        rw h (sorted-rows_of (exceeding threshold es) kept),
        read_keys-rows_of _ (descending-Reads (exceeding threshold es) kept),
        descending-IsDescending (exceeding threshold es),
        λ n. with_key-descending n (exceeding threshold es) ∙ with_key-exceeding n threshold es,
      )
