-- ===== src/Model/Pattern.antt =====
-- util/intop/model.py: the regular expressions of `PNAModel`, and `regex.match(text)` as a test.
pub mod Language
use pna.Base.{
  ℕ, zero, suc, ◌-◌, List, [], ◌∷◌, Bool, true, false, ◌&&◌, ◌||◌, ◌==◌, nat_eq, if◌then◌else◌,
  String, string_eq, Option,
}
use pna.Base.Dict.{Dict, lookup}
use pna.Base.Text.{Text, is_digit}

-- `\d`, or one character
pub data Class : Type 0 where
  digit : Class
  exactly : ℕ → Class

pub data Re : Type 0 where
  never empty : Re
  one_of : Class → Re
  seq alt : Re → Re → Re
  star : Re → Re

abbrev pub fits : Class → ℕ → Bool
fits digit c = is_digit c
fits (exactly d) c = c == d

unfoldable pub nullable : Re → Bool
nullable never = false
nullable empty = true
nullable (one_of k) = false
nullable (seq r s) = nullable r && nullable s
nullable (alt r s) = nullable r || nullable s
nullable (star r) = true

-- What may follow a first character.
unfoldable pub deriv : ℕ → Re → Re
unfolding nullable
deriv c never = never
deriv c empty = never
deriv c (one_of k) = if fits k c then empty else never
deriv c (seq r s) =
    let rest = seq (deriv c r) s in if nullable r then alt rest (deriv c s) else rest
deriv c (alt r s) = alt (deriv c r) (deriv c s)
deriv c (star r) = seq (deriv c r) (star r)

-- Whether the whole text is in the language.
unfoldable pub accepts : Re → Text → Bool
unfolding deriv
accepts r [] = nullable r
accepts r (c ∷ s) = accepts (deriv c r) s

-- `r?`, `r{m}`, and `r{m,n}` as m copies and n - m optional ones
abbrev pub maybe : Re → Re
maybe r = alt empty r

abbrev pub times : ℕ → Re → Re
times zero r = empty
times (suc n) r = seq r (times n r)

abbrev pub up_to : ℕ → Re → Re
up_to zero r = empty
up_to (suc n) r = maybe (seq r (up_to n r))

abbrev pub digits_between : ℕ → ℕ → Re
digits_between m n = seq (times m (one_of digit)) (up_to (n - m) (one_of digit))

-- `$`, which allows a line feed at the end
abbrev pub at_end : Re
at_end = maybe (one_of (exactly 10))

-- `OCTET` and `MASK`
abbrev pub octet_re : Re
octet_re = digits_between 1 3

abbrev pub dot_octet : Re
dot_octet = seq (one_of (exactly b'.')) octet_re

abbrev pub mask_re : Re
mask_re = seq (one_of (exactly b'/')) (digits_between 1 2)

-- '^(OCTET\.OCTET\.OCTET\.OCTET)(MASK)?$'
abbrev pub ip_re : Re
ip_re = seq octet_re (seq dot_octet (seq dot_octet (seq dot_octet (seq (maybe mask_re) at_end))))

-- '^(\d{1,5})\-?(\d{1,5})?(\,\d{1,5})*$'
abbrev pub port_re : Re
port_re = seq (digits_between 1 5) (
    seq (maybe (one_of (exactly b'-'))) (
      seq (maybe (digits_between 1 5))
        (seq (star (seq (one_of (exactly b',')) (digits_between 1 5))) at_end)))

abbrev pub two_digits : Re
two_digits = maybe (digits_between 1 2)

-- '^(\d{4})(\d{1,2})?(\d{1,2})?(\d{1,2})?(\d{1,2})?(\d{1,2})?$'
abbrev pub time_re : Re
time_re =
    seq (times 4 (one_of digit))
      (seq two_digits (seq two_digits (seq two_digits (seq two_digits (seq two_digits at_end)))))

-- '^(\d+)$'
abbrev pub latest_re : Re
latest_re = seq (seq (one_of digit) (star (one_of digit))) at_end

-- The class attributes `filters` and `filter_res`, side by side.
abbrev pub filter_res : Dict String Re
filter_res =
    ("local-ip", ip_re)
    ∷ ("remote-ip", ip_re)
    ∷ ("source-port", port_re)
    ∷ ("destination-port", port_re)
    ∷ ("begin-time", time_re)
    ∷ ("end-time", time_re)
    ∷ ("latest", latest_re)
    ∷ []

-- `filter_res[filters.index(name)]`; `none` is the ValueError of `index`.
abbrev pub regex_of : String → Option Re
regex_of name = lookup name filter_res
