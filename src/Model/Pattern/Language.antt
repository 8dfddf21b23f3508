-- ===== src/Model/Pattern/Language.antt =====
-- The matcher decides the languages of the expressions.
use pna.Base.{
  ℕ, ◌≡◌, refl, ap, ◌∙◌, sym, subst, [], ◌∷◌, ◌++◌, true, false, Bool-cases, inl, inr, ◌⊎◌, ◌↔◌,
  arith,
}
use mathlib.Core.List.{cons-ne-nil, head-eq_of_cons-eq, tail-eq_of_cons-eq}
use pna.Base.Text.{Text}
use pna.Model.Pattern.{
  Class, Re, never, empty, one_of, seq, alt, star, fits, nullable, deriv, accepts,
}

-- A row of texts that all have a property.
pub data Star (P : Text → Type 0) : Text → Type 0 where
  stop : {s : Text} → s ≡ [] → Star P s
  again : {s : Text} (a b : Text) → P a → Star P b → s ≡ a ++ b → Star P s

-- The texts of an expression.
abbrev pub Language : Re → Text → Type 0
Language never s = ⊥
Language empty s = s ≡ []
Language (one_of k) s = (c : ℕ) × (fits k c ≡ true) × (s ≡ c ∷ [])
Language (seq r q) s = (a : Text) × (b : Text) × Language r a × Language q b × (s ≡ a ++ b)
Language (alt r q) s = Language r s ⊎ Language q s
Language (star r) s = Star (Language r) s

nullable_sound : (r : Re) → nullable r ≡ true → Language r []
unfolding nullable
nullable_sound never h = cc
nullable_sound empty h = refl
nullable_sound (one_of k) h = cc
nullable_sound (seq r q) h =
    ([], [], nullable_sound r (ground arith), nullable_sound q (ground arith), refl)
nullable_sound (alt r q) h = elim (Bool-cases (nullable r)) [
  | inl e ↦ inl (nullable_sound r e)
  | inr e ↦ inr (nullable_sound q (ground arith))
]
nullable_sound (star r) h = stop refl

append_nil_left : (a b : Text) → [] ≡ a ++ b → a ≡ []
append_nil_left [] b e = refl
append_nil_left (c ∷ a) b e = cc

append_nil_right : (a b : Text) → [] ≡ a ++ b → b ≡ []
append_nil_right [] b e = sym e
append_nil_right (c ∷ a) b e = cc

nullable_complete : (r : Re) → Language r [] → nullable r ≡ true
unfolding nullable
nullable_complete never h = absurd h
nullable_complete empty h = refl
nullable_complete (one_of k) h = ground arith
nullable_complete (seq r q) (a, b, ha, hb, e) = ground (
  arith,
  nullable_complete r (subst (Language r) (append_nil_left a b e) ha),
  nullable_complete q (subst (Language q) (append_nil_right a b e) hb),
)
nullable_complete (alt r q) (inl h) = ground (arith, nullable_complete r h)
nullable_complete (alt r q) (inr h) = ground (arith, nullable_complete q h)
nullable_complete (star r) h = refl

one_of_fits : (k : Class) (c : ℕ) → fits k c ≡ true → deriv c (one_of k) ≡ empty
unfolding deriv
one_of_fits k c e = rw e

one_of_misses : (k : Class) (c : ℕ) → fits k c ≡ false → deriv c (one_of k) ≡ never
unfolding deriv
one_of_misses k c e = rw e

seq_nullable :
    (c : ℕ) (r q : Re) → nullable r ≡ true → deriv c (seq r q) ≡ alt (seq (deriv c r) q) (deriv c q)
unfolding deriv
seq_nullable c r q e = rw e

seq_solid : (c : ℕ) (r q : Re) → nullable r ≡ false → deriv c (seq r q) ≡ seq (deriv c r) q
unfolding deriv
seq_solid c r q e = rw e

deriv_sound : (c : ℕ) (r : Re) (s : Text) → Language (deriv c r) s → Language r (c ∷ s)
unfolding deriv
deriv_sound c never s h = h
deriv_sound c empty s h = absurd h
deriv_sound c (one_of k) s h = elim (Bool-cases (fits k c)) [
  | inl e ↦ (c, e, ap (◌∷◌ c) (subst (λ r. Language r s) (one_of_fits k c e) h))
  | inr e ↦ absurd (subst (λ r. Language r s) (one_of_misses k c e) h)
]
deriv_sound c (seq r q) s h = elim (Bool-cases (nullable r)) [
  | inl e ↦ elim (subst (λ x. Language x s) (seq_nullable c r q e) h) [
    | inl (a, b, ha, hb, w) ↦ (c ∷ a, b, deriv_sound c r a ha, hb, ap (◌∷◌ c) w)
    | inr hq ↦ ([], c ∷ s, nullable_sound r e, deriv_sound c q s hq, refl)
  ]
  | inr e ↦
      let (a, b, ha, hb, w) = subst (λ x. Language x s) (seq_solid c r q e) h in
      (c ∷ a, b, deriv_sound c r a ha, hb, ap (◌∷◌ c) w)
]
deriv_sound c (alt r q) s (inl h) = inl (deriv_sound c r s h)
deriv_sound c (alt r q) s (inr h) = inr (deriv_sound c q s h)
deriv_sound c (star r) s (a, b, ha, hb, e) =
    again (c ∷ a) b (deriv_sound c r a ha) hb (ap (◌∷◌ c) e)

Star-cons :
    {P : Text → Type 0} (c : ℕ) (s : Text) {t : Text}
    → Star P t
    → t ≡ c ∷ s
    → (a : Text) × (b : Text) × P (c ∷ a) × Star P b × (s ≡ a ++ b)
Star-cons c s (stop e) w = absurd (cons-ne-nil c s (sym w ∙ e))
Star-cons c s (again [] b ha hb e) w = Star-cons c s hb (sym e ∙ w)
Star-cons {P} c s (again (d ∷ a) b ha hb e) w =
    let whole : c ∷ s ≡ d ∷ (a ++ b) = sym w ∙ e in
    (a, b, subst (λ x. P (x ∷ a)) (sym (head-eq_of_cons-eq whole)) ha, hb, tail-eq_of_cons-eq whole)

deriv_complete : (c : ℕ) (r : Re) (s : Text) → Language r (c ∷ s) → Language (deriv c r) s
unfolding deriv
deriv_complete c never s h = h
deriv_complete c empty s h = absurd (cons-ne-nil c s h)
deriv_complete c (one_of k) s (d, e, w) =
    subst (λ r. Language r s) (sym (one_of_fits k c (ground arith))) (ground arith)
deriv_complete c (seq r q) s ([], b, ha, hb, w) =
    subst (λ x. Language x s) (sym (seq_nullable c r q (nullable_complete r ha)))
      (inr (deriv_complete c q s (subst (Language q) (sym w) hb)))
deriv_complete c (seq r q) s (d ∷ a, b, ha, hb, w) =
    let first : Language r (c ∷ a) =
      subst (λ x. Language r (x ∷ a)) (sym (head-eq_of_cons-eq w)) ha in
    let front : Language (seq (deriv c r) q) s =
      (a, b, deriv_complete c r a first, hb, tail-eq_of_cons-eq w) in
    elim (Bool-cases (nullable r)) [
      | inl e ↦ subst (λ x. Language x s) (sym (seq_nullable c r q e)) (inl front)
      | inr e ↦ subst (λ x. Language x s) (sym (seq_solid c r q e)) front
    ]
deriv_complete c (alt r q) s (inl h) = inl (deriv_complete c r s h)
deriv_complete c (alt r q) s (inr h) = inr (deriv_complete c q s h)
deriv_complete c (star r) s h =
    let (a, b, ha, hb, w) = Star-cons c s h refl in (a, b, deriv_complete c r a ha, hb, w)

accepts_sound : (r : Re) (s : Text) → accepts r s ≡ true → Language r s
unfolding accepts
accepts_sound r [] h = nullable_sound r h
accepts_sound r (c ∷ s) h = deriv_sound c r s (accepts_sound (deriv c r) s h)

accepts_complete : (r : Re) (s : Text) → Language r s → accepts r s ≡ true
unfolding accepts
accepts_complete r [] h = nullable_complete r h
accepts_complete r (c ∷ s) h = accepts_complete (deriv c r) s (deriv_complete c r s h)

-- For every expression and text, the matcher accepts the text exactly if it is in the language of
-- the expression.
pub accepts-Language : (r : Re) (s : Text) → (accepts r s ≡ true) ↔ Language r s
accepts-Language r s = (accepts_sound r s, accepts_complete r s)
