-- ===== src/Cui/Keys/Same.antt =====
-- Keys that cui.py finds in a tuple of keys.
use pna.Base.{◌≡◌, ap, subst, sym, All, List, [], ◌∷◌, true, nat_eq, text_eq, Bool-cases, inl, inr}
use pna.Cui.Keys.{Key, str, code, same_key, among}

pub same_key_eq : (k j : Key) → same_key k j ≡ true → k ≡ j
same_key_eq (str s) (str t) h = ap str ((text_eq.beq_iff s t).0 h)
same_key_eq (code m) (code n) h = ap code ((nat_eq.beq_iff m n).0 h)
same_key_eq (str s) (code n) h = cc
same_key_eq (code m) (str t) h = cc

-- What holds of all keys of a tuple holds of a key in it.
pub among-All :
    (P : Key → Type 0) (key : Key) (keys : List Key) → All P keys → among key keys ≡ true → P key
among-All P key [] all h = cc
among-All P key (k ∷ keys) (this, others) h = elim (Bool-cases (same_key key k)) [
  | inl same ↦ subst P (sym (same_key_eq key k same)) this
  | inr other ↦ among-All P key keys others (rw other at h)
]
