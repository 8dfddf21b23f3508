-- ===== src/Npr/Order.antt =====
-- The byte order of the message.
use pna.Base.{
  ℕ, ◌+◌, ◌*◌, ◌/◌, ◌%◌, ◌^◌, ◌<◌, ◌≡◌, ◌≢◌, refl, ap, sym, ◌∙◌, [], ◌∷◌, ◌++◌, All, length, ltb,
  true, false, nat_eq, text_eq, ◌==◌, Result, ok, arith,
}
use pna.Base.Text.{Text, split}
use pna.Base.Value.{num, Tuple}
use pna.Struct.{Bytes, value_of, bytes_of, pack, u_int4}
use pna.Npr.{reversed, htonl, message, run, sends, index_of, actions}

abbrev pub IsByte : ℕ → Type 0
IsByte b = b < 256

bytes_of-value_of : (bs : Bytes) → All IsByte bs → bytes_of (length bs) (value_of bs) ≡ bs
unfolding bytes_of value_of
bytes_of-value_of [] h = refl
bytes_of-value_of (b ∷ bs) (h, hs) =
    let low : (b + 256 * value_of bs) % 256 ≡ b = omega arith in
    let high : (b + 256 * value_of bs) / 256 ≡ value_of bs = omega arith in
    rw (low, high, bytes_of-value_of bs hs)

module _ (a b c d : ℕ) (ha : a < 256) (hb : b < 256) (hc : c < 256) (hd : d < 256) where
  -- The number that four bytes spell, in either order.
  htonl-value_of : htonl (value_of (a ∷ b ∷ c ∷ d ∷ [])) ≡ value_of (d ∷ c ∷ b ∷ a ∷ [])
  unfolding htonl
  htonl-value_of =
      ap (λ bs. value_of (reversed bs))
        (bytes_of-value_of (a ∷ b ∷ c ∷ d ∷ []) (ha, (hb, (hc, (hd, tt)))))

  bytes_of-htonl : bytes_of 4 (value_of (a ∷ b ∷ c ∷ d ∷ [])) ≡ a ∷ b ∷ c ∷ d ∷ []
  bytes_of-htonl = bytes_of-value_of (a ∷ b ∷ c ∷ d ∷ []) (ha, (hb, (hc, (hd, tt))))

  value_of-small : value_of (a ∷ b ∷ c ∷ d ∷ []) < 4294967296
  unfolding value_of
  value_of-small = omega arith

pack_two :
    (m n : ℕ)
    → m < 4294967296
    → n < 4294967296
    → pack {R = Tuple} (u_int4 ∷ u_int4 ∷ []) (num m ∷ num n ∷ [])
      ≡ ok (bytes_of 4 m ++ bytes_of 4 n)
unfolding pack bytes_of
pack_two m n hm hn =
    let small_m : ltb m (256 ^ 4) ≡ true = ground arith in
    let small_n : ltb n (256 ^ 4) ≡ true = ground arith in rw (small_m, small_n)

value_of_one : (n : ℕ) → value_of (n ∷ 0 ∷ 0 ∷ 0 ∷ []) ≡ n
unfolding value_of
value_of_one n = omega arith

message_lem :
    (type a b c d : ℕ)
    → type < 256
    → a < 256
    → b < 256
    → c < 256
    → d < 256
    → message type (htonl (value_of (a ∷ b ∷ c ∷ d ∷ [])))
      ≡ ok (sends (0 ∷ 0 ∷ 0 ∷ type ∷ a ∷ b ∷ c ∷ d ∷ []))
unfolding message
message_lem type a b c d ht ha hb hc hd =
    let zero_byte : 0 < 256 = omega arith in
    let first : htonl type ≡ value_of (0 ∷ 0 ∷ 0 ∷ type ∷ []) =
      ap htonl (sym (value_of_one type))
      ∙ htonl-value_of type 0 0 0 ht zero_byte zero_byte zero_byte in
    let second : htonl (htonl (value_of (a ∷ b ∷ c ∷ d ∷ []))) ≡ value_of (a ∷ b ∷ c ∷ d ∷ []) =
      ap htonl (htonl-value_of a b c d ha hb hc hd) ∙ htonl-value_of d c b a hd hc hb ha in
    rw (
      first,
      second,
      pack_two _ _ (value_of-small 0 0 0 type zero_byte zero_byte zero_byte ht)
          (value_of-small a b c d ha hb hc hd),
      bytes_of-htonl 0 0 0 type zero_byte zero_byte zero_byte ht,
      bytes_of-htonl a b c d ha hb hc hd,
    )

module _ (inet_aton : Text → Result Bytes) (ip : Text) (a b c d : ℕ) where
  -- For every action other than clear_all, of a number type below 256, and an address text with
  -- four parts that inet_aton turns into four bytes: the script sends the number of the action in
  -- network byte order and then these four bytes.
  pub run_message :
      (prog action : Text) (type : ℕ)
      → length (split b'.' ip) ≡ 4
      → inet_aton ip ≡ ok (a ∷ b ∷ c ∷ d ∷ [])
      → a < 256
      → b < 256
      → c < 256
      → d < 256
      → index_of action actions 0 ≡ ok type
      → type < 256
      → type ≢ 3
      → run inet_aton (prog ∷ action ∷ ip ∷ []) ≡ ok (sends (0 ∷ 0 ∷ 0 ∷ type ∷ a ∷ b ∷ c ∷ d ∷ []))
  unfolding run
  run_message prog action type parts address ha hb hc hd known small other =
      let four : (length (split b'.' ip) == 4) ≡ true = ground arith in
      let not_three : (type == 3) ≡ false = ground (arith, nat_eq.beq_iff type 3) in
      rw (known, not_three, four, address) (message_lem type a b c d small ha hb hc hd)
