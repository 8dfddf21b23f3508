-- ===== src/Base/Text/Split.antt =====
-- `split` takes apart what `join` put together.
use Prim.Native.Nat.{ℕ}
use mathlib.Core.Path.{◌≡◌, refl}
use mathlib.Core.Logic.{◌≢◌}
use mathlib.Core.List.{List, [], ◌∷◌, ◌++◌}
use native.Mathlib.Omega.{arith}
use pna.Base.Lists.{All}
use pna.Base.Tests.{nat_eq}
use pna.Base.Text.{Text, split, join}

abbrev pub Lacks : ℕ → Text → Type 0
Lacks sep = All (λ c. c ≢ sep)

module _ (sep : ℕ) where
  pub split_lacking : (p : Text) → Lacks sep p → split sep p ≡ p ∷ []
  unfolding split
  split_lacking [] h = refl
  split_lacking (c ∷ p) h = ground (arith, split_lacking p h.1)

  pub split-append :
      (p rest : Text) → Lacks sep p → split sep (p ++ (sep ∷ rest)) ≡ p ∷ split sep rest
  unfolding split
  split-append [] rest h = ground arith
  split-append (c ∷ p) rest h = ground (arith, split-append p rest h.1)

  -- The parts of a joined text come back, if there is one and none holds the separator.
  pub split-join :
      (p : Text) (ps : List Text)
      → Lacks sep p
      → All (Lacks sep) ps
      → split sep (join sep (p ∷ ps)) ≡ p ∷ ps
  unfolding join
  split-join p [] h hs = split_lacking p h
  split-join p (q ∷ ps) h hs = rw (split-append p (join sep (q ∷ ps)) h, split-join q ps hs.0 hs.1)
