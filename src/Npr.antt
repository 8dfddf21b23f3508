-- ===== src/Npr.antt =====
-- util/scripts/npr.py: the message that the script sends to the router. `socket.inet_aton` is the C
-- library's, and a parameter.
mod Tests
pub mod Order
use pna.Base.{
  ℕ, ◌+◌, List, [], ◌∷◌, ◌++◌, Bool, true, false, not, leb, ◌==◌, nat_eq, text_eq, if◌then◌else◌,
  length, get_elem?, Option, none, some, Result, ok, err, type_error, value_error, or_raise,
  index_error, ◌>>=◌,
}
use pna.Base.Text.{Text, codes, split}
use pna.Base.Value.{Value, num, Tuple}
use pna.Struct.{Bytes, u_int4, value_of, bytes_of, pack}

-- `actions`
abbrev pub actions : List Text
actions = [] ∷ codes "block" ∷ codes "unblock" ∷ codes "clear_all" ∷ codes "whitelist" ∷ []

-- `actions.index(t)`
unfoldable pub index_of : Text → List Text → ℕ → Result ℕ
index_of t [] n = err value_error
index_of t (a ∷ others) n = let rest = index_of t others (n + 1) in if a == t then ok n else rest

abbrev pub reversed : Bytes → Bytes
reversed [] = []
reversed (b ∷ bs) = reversed bs ++ b ∷ []

-- `socket.htonl`, on a little-endian machine
unfoldable pub htonl : ℕ → ℕ
htonl n = value_of (reversed (bytes_of 4 n))

-- The script prints its usage, or sends a message.
pub data Sent : Type 0 where
  usage : Sent
  sends : Bytes → Sent

unfoldable pub message : ℕ → ℕ → Result Sent
unfolding htonl
message type value = do
  msg ← pack {R = Tuple} (u_int4 ∷ u_int4 ∷ []) (num (htonl type) ∷ num (htonl value) ∷ [])
  ok (sends msg)

module _ (inet_aton : Text → Result Bytes) where
  -- The value of an address; any other text makes `socket.htonl(value)` raise TypeError.
  unfoldable pub address_value : Text → Result ℕ
  unfolding htonl
  address_value value =
      if length (split b'.' value) == 4
      then (do bytes ← inet_aton value; ok (htonl (value_of bytes)))
      else err type_error

  -- The script, on `sys.argv`.
  unfoldable pub run : List Text → Result Sent
  unfolding index_of address_value message
  run argv = if not (leb 2 (length argv)) then ok usage else (do
    action ← or_raise (get_elem? argv 1) index_error
    type ← index_of action actions 0
    if type == 3 then message type 0 else if not (length argv == 3) then ok usage else (do
      ip ← or_raise (get_elem? argv 2) index_error
      value ← address_value ip
      message type value))
