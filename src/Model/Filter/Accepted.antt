-- ===== src/Model/Filter/Accepted.antt =====
-- The expressions of `PNAModel.filter_res` against `filter_reject`: a value that its expression
-- accepts never makes the filter raise.
use mathlib.Core.List.{cons-ne-nil}
use Prim.Native.Nat.{bit_and}
use pna.Base.{
  not, text_eq, ℕ, zero, suc, ◌-◌, ◌+◌, ◌*◌, ◌<◌, ◌≡◌, ◌≢◌, refl, ap, sym, ◌∙◌, subst, [], ◌∷◌,
  ◌++◌, append_assoc, append-nil, All, All-append, Bool, true, ◌==◌, nat_eq, arith, inl, inr, ok,
}
use pna.Base.Int.{ℤ, pos, scale, ◌+ℤ◌}
use pna.Base.Text.{Text, int, unsigned, scan_digits, split, is_digit}
use pna.Base.Text.Decimal.{IsDigit, int_digits, int_line}
use pna.Base.Text.Split.{Lacks, split_lacking, split-append}
use pna.Model.Address.{int2ip, ip2int, netmask, and_mask, reject_address}
use pna.Model.Pattern.{
  seq, one_of, digit, times, up_to, maybe, digits_between, dot_octet, mask_re, ip_re, at_end,
  accepts,
}
use pna.Model.Pattern.Language.{Language, accepts-Language}

-- A digit, as the class `\d` has it.
fits-IsDigit : (c : ℕ) → is_digit c ≡ true → IsDigit c
fits-IsDigit c h = ground arith

times_digits : (n : ℕ) (s : Text) → Language (times n (one_of digit)) s → All IsDigit s
times_digits zero s h = rw h tt
times_digits (suc n) s (a, b, (c, d, ea), hb, e) = subst (All IsDigit) (sym e) (
    All-append IsDigit a b (subst (All IsDigit) (sym ea) (fits-IsDigit c d, tt))
      (times_digits n b hb))

up_to_digits : (n : ℕ) (s : Text) → Language (up_to n (one_of digit)) s → All IsDigit s
up_to_digits zero s h = rw h tt
up_to_digits (suc n) s (inl h) = rw h tt
up_to_digits (suc n) s (inr (a, b, (c, d, ea), hb, e)) = subst (All IsDigit) (sym e) (
    All-append IsDigit a b (subst (All IsDigit) (sym ea) (fits-IsDigit c d, tt))
      (up_to_digits n b hb))

-- `\d{1,n}` spells a number.
abbrev Numeral : Text → Type 0
Numeral s = All IsDigit s × (s ≢ [])

one_digit_more : (n : ℕ) (s : Text) → Language (digits_between 1 n) s → Numeral s
one_digit_more n s (a, b, (a', x, (c, d, ea'), hx, ea), hb, e) =
    let front : a ≡ c ∷ [] = rw (ea, ea', hx) in
    let whole : s ≡ c ∷ b = e ∙ ap (λ t. t ++ b) front in
    (
      subst (All IsDigit) (sym whole) (fits-IsDigit c d, up_to_digits (n - 1) b hb),
      rw whole (cons-ne-nil c b),
    )

-- Four numerals with dots between them.
abbrev Dotted : Text → Type 0
Dotted ip =
    (a : Text) × (b : Text) × (c : Text) × (d : Text) × Numeral a
    × Numeral b
    × Numeral c
    × Numeral d
    × (ip ≡ a ++ (b'.' ∷ (b ++ (b'.' ∷ (c ++ (b'.' ∷ d))))))

dot-Numeral : (s : Text) → Language dot_octet s → (d : Text) × Numeral d × (s ≡ b'.' ∷ d)
dot-Numeral s (a, d, (c, e, ea), hd, es) =
    let dot : c ≡ b'.' = ground arith in (d, one_digit_more 3 d hd, rw (es, ea, dot))

ip_re-Dotted :
    (s : Text)
    → Language ip_re s
    → (ip : Text) × (rest : Text) × Dotted ip
      × Language (seq (maybe mask_re) at_end) rest
      × (s ≡ ip ++ rest)
ip_re-Dotted s (a, s1, ha, (b, s2, hb, (c, s3, hc, (d, rest, hd, hr, e4), e3), e2), e1) =
    let (b', nb, eb) = dot-Numeral b hb in
    let (c', nc, ec) = dot-Numeral c hc in
    let (d', nd, ed) = dot-Numeral d hd in
    (
      a ++ (b'.' ∷ (b' ++ (b'.' ∷ (c' ++ (b'.' ∷ d'))))),
      rest,
      (a, b', c', d', one_digit_more 3 a ha, nb, nc, nd, refl),
      hr,
      rw (e1, e2, e3, e4, eb, ec, ed) (simp append_assoc),
    )

scan_digits_total : (s : Text) (n : ℕ) → All IsDigit s → (m : ℕ) × (scan_digits s n ≡ ok m)
unfolding scan_digits
scan_digits_total [] n h = (n, refl)
scan_digits_total (c ∷ s) n (h, hs) =
    let (m, e) = scan_digits_total s (n * 10 + (c - b'0')) hs in (m, ground arith)

unsigned_total : (s : Text) → Numeral s → (m : ℕ) × (unsigned s ≡ ok m)
unfolding unsigned
unsigned_total [] (h, ne) = absurd (ne refl)
unsigned_total (c ∷ s) (h, ne) = scan_digits_total (c ∷ s) 0 h

int-Numeral : (s : Text) → Numeral s → (m : ℕ) × (int s ≡ ok (pos m))
int-Numeral s (h, ne) = let (m, e) = unsigned_total s (h, ne) in (m, rw (int_digits s h, e))

Lacks-digits : (sep : ℕ) (s : Text) → sep < b'0' → All IsDigit s → Lacks sep s
Lacks-digits sep [] h ds = tt
Lacks-digits sep (c ∷ s) h (d, ds) = (omega arith, Lacks-digits sep s h ds)

-- The address of an accepted filter is read.
ip2int-Dotted : (ip : Text) → Dotted ip → (n : ℤ) × (ip2int ip ≡ ok n)
unfolding ip2int
ip2int-Dotted ip (a, b, c, d, na, nb, nc, nd, e) =
    let (ka, ia) = int-Numeral a na in
    let (kb, ib) = int-Numeral b nb in
    let (kc, ic) = int-Numeral c nc in
    let (kd, id) = int-Numeral d nd in
    let parts : split b'.' ip ≡ a ∷ b ∷ c ∷ d ∷ [] = rw (
      e,
      split-append b'.' a _ (Lacks-digits b'.' a (omega arith) na.0),
      split-append b'.' b _ (Lacks-digits b'.' b (omega arith) nb.0),
      split-append b'.' c _ (Lacks-digits b'.' c (omega arith) nc.0),
      split_lacking b'.' d (Lacks-digits b'.' d (omega arith) nd.0),
    ) in
    (
      scale 256 (scale 256 (scale 256 (pos ka) +ℤ pos kb) +ℤ pos kc) +ℤ pos kd,
      rw (parts, ia, ib, ic, id),
    )

int_tailed :
    (m t : Text)
    → Numeral m
    → Language at_end t
    → (n : ℤ) × (int (m ++ t) ≡ ok n) × Lacks b'/' (m ++ t)
int_tailed m t (h, ne) (inl e) =
    let (n, i) = int-Numeral m (h, ne) in
    (pos n, rw (e, append-nil, i), rw (e, append-nil) (Lacks-digits b'/' m (omega arith) h))
int_tailed m t (h, ne) (inr (c, e, w)) =
    let line : c ≡ 10 = ground arith in
    let (n, i) = int-Numeral m (h, ne) in
    (
      pos n,
      rw (w, line) (int_line m h ne ∙ i),
      rw (w, line)
          (All-append (λ x. x ≢ b'/') m (10 ∷ []) (Lacks-digits b'/' m (omega arith) h)
            (omega arith, tt)),
    )

Dotted-Lacks : (ip : Text) → Dotted ip → Lacks b'/' ip
Dotted-Lacks ip (a, b, c, d, na, nb, nc, nd, e) =
    let part = λ (x : Text) (n : Numeral x). Lacks-digits b'/' x (omega arith) n.0 in
    let after = λ (x rest : Text) (n : Numeral x) (h : Lacks b'/' rest).
      All-append (λ k. k ≢ b'/') x (b'.' ∷ rest) (part x n) (omega arith, h) in
    subst (Lacks b'/') (sym e) (after a _ na (after b _ nb (after c _ nc (part d nd))))

Lacks-end : (t : Text) → Language at_end t → Lacks b'/' t
Lacks-end t (inl e) = rw e tt
Lacks-end t (inr (c, e, w)) = let line : c ≡ 10 = ground arith in rw (w, line) (omega arith, tt)

-- An address without a mask: one part.
reject_address_plain :
    (f : Text) (value : ℕ) → Lacks b'/' f → (b : Bool) × (reject_address f value ≡ ok b)
unfolding reject_address
reject_address_plain f value h = (not (int2ip value == f), rw (split_lacking b'/' f h))

-- An address with a mask: two parts.
reject_address_masked :
    (ip m : Text) (value : ℕ) {n w : ℤ}
    → Lacks b'/' ip
    → ip2int ip ≡ ok n
    → Lacks b'/' m
    → int m ≡ ok w
    → (b : Bool) × (reject_address (ip ++ (b'/' ∷ m)) value ≡ ok b)
unfolding reject_address
reject_address_masked ip m value {n} {w} hi en hm ew = (
  not (bit_and value (netmask w) == and_mask n (netmask w)),
  rw (split-append b'/' ip m hi, split_lacking b'/' m hm, en, ew),
)

-- A value that the expression for addresses accepts can be compared with any address: neither
-- `ip2int` nor `int` raises.
pub reject_address_total :
    (f : Text) (value : ℕ) → accepts ip_re f ≡ true → (b : Bool) × (reject_address f value ≡ ok b)
reject_address_total f value h =
    let (ip, rest, dotted, (x, y, hx, hy, er), e) =
      ip_re-Dotted f ((accepts-Language ip_re f).0 h) in
    elim hx [
      | inl none_x ↦
          let plain : f ≡ ip ++ y = rw (e, er, none_x) in
          reject_address_plain f value (
            subst (Lacks b'/') (sym plain)
              (All-append (λ c. c ≢ b'/') ip y (Dotted-Lacks ip dotted) (Lacks-end y hy)))
      | inr (s, m, (c, ec, es), hm, em) ↦
          let slash : c ≡ b'/' = ground arith in
          let masked : f ≡ ip ++ (b'/' ∷ (m ++ y)) = rw (e, er, em, es, slash) in
          let (n, en) = ip2int-Dotted ip dotted in
          let (w, ew, lacks) = int_tailed m y (one_digit_more 2 m hm) hy in
          subst (λ t. (b : Bool) × (reject_address t value ≡ ok b)) (sym masked)
            (reject_address_masked ip (m ++ y) value (Dotted-Lacks ip dotted) en lacks ew)
    ]
