-- ===== src/Model/State/Refines/Coherent.antt =====
-- The cache holds what a model without a cache would compute.
use pna.Base.{
  ℕ, ◌≡◌, ◌⊎◌, refl, ap, sym, subst, ◌∙◌, List, [], ◌∷◌, Bool, true, false, ◌&&◌, ◌==◌, nat_eq,
  none, some, ok, inl, inr, Bool-cases, get_elem?,
}
use pna.Model.Derive.{Name}
use pna.Model.State.{
  SortKey, raw, connections, sessions, column, same_sort_key, name_code, Row, table, PnaModel,
  is_key, is_threshold, cached, filter_names,
}
use pna.Model.State.Cached.{stored, invalid-cached, same_filters_refl}
use pna.Model.State.Refines.{plain_of, answer}

abbrev names : List Name
names =
    Name.tcp_ports ∷ Name.tcp_packets ∷ Name.tcp_octets ∷ Name.udp_ports ∷ Name.udp_packets
    ∷ Name.udp_octets ∷ Name.all_ports ∷ Name.all_packets ∷ Name.all_octets ∷ []

abbrev name_of : ℕ → Name
name_of n = elim (get_elem? names n) [ none ↦ Name.all_octets | some name ↦ name ]

name_of-name_code : (n : Name) → name_of (name_code n) ≡ n
name_of-name_code Name.tcp_ports = refl
name_of-name_code _ = refl

same_sort_key_eq : (j k : SortKey) → same_sort_key j k ≡ true → j ≡ k
same_sort_key_eq raw raw h = refl
same_sort_key_eq connections connections h = refl
same_sort_key_eq sessions sessions h = refl
same_sort_key_eq (column m) (column n) h =
    let codes = (nat_eq.beq_iff (name_code m) (name_code n)).0 h in
    ap column (sym (name_of-name_code m) ∙ ap name_of codes ∙ name_of-name_code n)
same_sort_key_eq _ _ h = cc

-- The cache of a table that was computed from the logs and the filters as they are, under some key
-- and threshold.
abbrev pub IsCoherent : PnaModel → Type 0
IsCoherent m =
    (m.cache.valid ≡ false)
    ⊎ ((key : SortKey) × (threshold : ℕ) × (rs : List Row) × (m.cache
          ≡ stored (record m { sort_key = key; threshold = threshold }) rs)
        × (answer (record (plain_of m) { sort_key = key; threshold = threshold }) ≡ ok (table rs)))

-- A miss, or the answer
abbrev pub Finds : PnaModel → Type 0
Finds m =
    (cached m ≡ ok none)
    ⊎ ((rs : List Row) × (cached m ≡ ok (some rs)) × (answer (plain_of m) ≡ ok (table rs)))

both_equal : (a b : Bool) → (a && b && true) ≡ true → (a ≡ true) × (b ≡ true)
both_equal true true h = (refl, refl)
both_equal true false h = cc
both_equal false b h = cc

module _ (m : PnaModel) (key : SortKey) (threshold : ℕ) (rs : List Row) where
  hits : Bool
  hits = is_key m.sort_key (some key) && is_threshold m.threshold (some threshold) && true

  answer_here :
      hits ≡ true
      → answer (record (plain_of m) { sort_key = key; threshold = threshold }) ≡ ok (table rs)
      → answer (plain_of m) ≡ ok (table rs)
  unfolding hits
  answer_here h e =
      let (same_key, same_threshold) =
        both_equal (same_sort_key key m.sort_key) (threshold == m.threshold) h in
      let k = same_sort_key_eq key m.sort_key same_key in
      let t = (nat_eq.beq_iff threshold m.threshold).0 same_threshold in
      subst
        (λ k.
          answer (record (plain_of m) { sort_key = k; threshold = m.threshold }) ≡ ok (table rs))
        k
        (subst (λ t. answer (record (plain_of m) { sort_key = key; threshold = t }) ≡ ok (table rs))
          t e)

  looked_up :
      m.cache.key ≡ some key
      → m.cache.threshold ≡ some threshold
      → m.cache.filters ≡ some m.filters
      → m.cache.valid ≡ true
      → m.cache.contents ≡ some rs
      → answer (record (plain_of m) { sort_key = key; threshold = threshold }) ≡ ok (table rs)
      → Finds m
  unfolding cached hits
  looked_up ek et ef ev ec e = elim (Bool-cases hits) [
    | inl hit ↦ inr (
      rs,
      rw (ek, et, ev, hit, ef, same_filters_refl (m.store m.filters) filter_names, ec),
      answer_here hit e,
    )
    | inr miss ↦ inl (rw (ek, et, ev, miss))
  ]

pub IsCoherent-Finds : (m : PnaModel) → IsCoherent m → Finds m
IsCoherent-Finds m (inl invalid) = inl (invalid-cached m invalid)
IsCoherent-Finds m (inr (key, threshold, rs, is, answers)) =
    looked_up m key threshold rs (ap (λ c. c.key) is) (ap (λ c. c.threshold) is)
      (ap (λ c. c.filters) is) (ap (λ c. c.valid) is) (ap (λ c. c.contents) is) answers
