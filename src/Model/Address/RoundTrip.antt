-- ===== src/Model/Address/RoundTrip.antt =====
-- The text of an address names the address.
use pna.Base.{
  ℕ, ◌^◌, ◌<◌, ◌≡◌, ◌≢◌, ◌⊎◌, inl, [], ◌∷◌, map, All, All-append, arith, ok, ok-injective, ◌∙◌, ap,
  sym,
}
use pna.Base.Int.{pos, pos_part, pos_laws}
use pna.Base.Text.{Text, show, split, join}
use pna.Base.Text.Decimal.{IsDigit, show-digits, int-show}
use pna.Base.Text.Split.{Lacks, split-join}
use pna.Model.Address.{octets, int2ip, ip2int}

-- A separator that is no digit.
digits-Lacks : (sep : ℕ) (s : Text) → (sep < b'0') ⊎ (b'9' < sep) → All IsDigit s → Lacks sep s
digits-Lacks sep [] h ds = tt
digits-Lacks sep (c ∷ s) h ds = (ground arith, digits-Lacks sep s h ds.1)

pub show-Lacks : (sep n : ℕ) → (sep < b'0') ⊎ (b'9' < sep) → Lacks sep (show n)
show-Lacks sep n h = digits-Lacks sep (show n) h (show-digits n)

split-int2ip : (addr : ℕ) → split b'.' (int2ip addr) ≡ map show (octets addr)
unfolding int2ip octets
split-int2ip addr = split-join b'.' (show _) _ (show-Lacks b'.' _ (inl (omega arith))) (
  show-Lacks b'.' _ (inl (omega arith)),
  (show-Lacks b'.' _ (inl (omega arith)), (show-Lacks b'.' _ (inl (omega arith)), tt)),
)

-- The text of an address has digits and dots alone.
pub int2ip-Lacks :
    (sep addr : ℕ) → (sep < b'0') ⊎ (b'9' < sep) → sep ≢ b'.' → Lacks sep (int2ip addr)
unfolding int2ip octets join
int2ip-Lacks sep addr h dot =
    let number = λ (n : ℕ). show-Lacks sep n h in
    let after = λ (n : ℕ) (rest : Text) (tail : Lacks sep rest).
      All-append (λ c. c ≢ sep) (show n) (b'.' ∷ rest) (number n) ((λ e. dot (sym e)), tail) in
    after _ _ (after _ _ (after _ _ (number _)))

-- Every 32-bit address is read back from its text.
pub ip2int-int2ip : (addr : ℕ) → addr < 2 ^ 32 → ip2int (int2ip addr) ≡ ok (pos addr)
unfolding ip2int octets
ip2int-int2ip addr h =
    rw (split-int2ip addr) (simp (int-show, pos_laws) (ap (λ n. ok (pos n)) (omega arith)))

-- Two 32-bit addresses with one text are one address.
pub int2ip-injective : (a b : ℕ) → a < 2 ^ 32 → b < 2 ^ 32 → int2ip a ≡ int2ip b → a ≡ b
int2ip-injective a b ha hb h =
    ap pos_part (ok-injective (sym (ip2int-int2ip a ha) ∙ (ap ip2int h ∙ ip2int-int2ip b hb)))
