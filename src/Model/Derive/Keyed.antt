-- ===== src/Model/Derive/Keyed.antt =====
-- A dict in which every value holds its own key, and its rows without the keys.
use pna.Base.{◌≡◌, ◌≢◌, refl, sym, ◌∙◌, List, [], ◌∷◌, ◌==◌, text_eq, arith, Bool-cases, inl, inr}
use pna.Base.Dict.{Dict, insert}
use pna.Base.Text.{Text}
use pna.Model.Derive.{values}

module _ {V : Type 0} (key : V → Text) where
  abbrev pub IsKeyed : Dict Text V → Type 0
  IsKeyed [] = Unit
  IsKeyed ((k, v) ∷ d) = (key v ≡ k) × IsKeyed d

  -- The rows, with their keys.
  abbrev pub by_key : List V → Dict Text V
  by_key [] = []
  by_key (v ∷ vs) = (key v, v) ∷ by_key vs

  -- No two rows have one key.
  abbrev pub Differs : Text → List V → Type 0
  Differs k [] = Unit
  Differs k (v ∷ vs) = (key v ≢ k) × Differs k vs

  abbrev pub IsDistinct : List V → Type 0
  IsDistinct [] = Unit
  IsDistinct (v ∷ vs) = Differs (key v) vs × IsDistinct vs

  pub by_key-values : (d : Dict Text V) → IsKeyed d → by_key (values d) ≡ d
  by_key-values [] h = refl
  by_key-values ((k, v) ∷ d) (h, hs) = rw (h, by_key-values d hs)

  pub insert-IsKeyed :
      (k : Text) (v : V) (d : Dict Text V) → key v ≡ k → IsKeyed d → IsKeyed (insert k v d)
  insert-IsKeyed k v [] e h = (e, tt)
  insert-IsKeyed k v ((j, w) ∷ d) e (h, hs) = elim (Bool-cases (j == k)) [
    | inl same ↦ rw same (e ∙ sym ((text_eq.beq_iff j k).0 same), hs)
    | inr other ↦ rw other (h, insert-IsKeyed k v d e hs)
  ]

  insert-Differs :
      (j k : Text) (v : V) (d : Dict Text V)
      → key v ≡ k
      → k ≢ j
      → Differs j (values d)
      → Differs j (values (insert k v d))
  insert-Differs j k v [] e ne h = (λ x. ne (sym e ∙ x), tt)
  insert-Differs j k v ((i, w) ∷ d) e ne (h, hs) = elim (Bool-cases (i == k)) [
    | inl same ↦ rw same ((λ x. ne (sym e ∙ x)), hs)
    | inr other ↦ rw other (h, insert-Differs j k v d e ne hs)
  ]

  pub insert-IsDistinct :
      (k : Text) (v : V) (d : Dict Text V)
      → key v ≡ k
      → IsKeyed d
      → IsDistinct (values d)
      → IsDistinct (values (insert k v d))
  insert-IsDistinct k v [] e hk h = (tt, tt)
  insert-IsDistinct k v ((j, w) ∷ d) e (hj, hk) (h, hs) = elim (Bool-cases (j == k)) [
    | inl same ↦
        let old : key w ≡ key v = hj ∙ ((text_eq.beq_iff j k).0 same ∙ sym e) in
        rw same (rw old at h, hs)
    | inr other ↦
        let new : k ≢ key w = ground (arith, text_eq.beq_iff j k) in
        rw other (insert-Differs (key w) k v d e new h, insert-IsDistinct k v d e hk hs)
  ]
