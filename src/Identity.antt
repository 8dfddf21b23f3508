-- ===== src/Identity.antt =====
-- util/intop/identity.py: `PNAParseLogger.unparse`, which writes logs of the old format.
mod Tests
pub mod Frames
pub mod Main
use pna.Base.{ℕ, List, [], ◌∷◌, ◌++◌, length, String, Result, ok, ◌>>=◌, string_eq}
use pna.Base.Value.{Value, num, Tuple, Entry, Log, get, get_rows}
use pna.Struct.{Bytes, Code, u_int1, u_int2, u_int4, pad_byte, pack}

-- 'HHIIIIIBxxx', 'IIII' and 'II'
abbrev pub tuple_format : List Code
tuple_format =
    u_int2 ∷ u_int2 ∷ u_int4 ∷ u_int4 ∷ u_int4 ∷ u_int4 ∷ u_int4 ∷ u_int1 ∷ pad_byte ∷ pad_byte
    ∷ pad_byte ∷ []

abbrev pub entry_format : List Code
entry_format = u_int4 ∷ u_int4 ∷ u_int4 ∷ u_int4 ∷ []

abbrev pub item_format : List Code
item_format = u_int4 ∷ u_int4 ∷ []

unfoldable pub pack_tuple : Tuple → Result Bytes
pack_tuple t = do
  a ← get "local-port" t
  b ← get "remote-port" t
  c ← get "npkts-in" t
  d ← get "npkts-out" t
  e ← get "nbytes-in" t
  f ← get "nbytes-out" t
  g ← get "begin-time" t
  h ← get "first-direction" t
  pack tuple_format (a ∷ b ∷ c ∷ d ∷ e ∷ f ∷ g ∷ h ∷ [])

-- The loops over `tcp_tuples` and `udp_tuples`
unfoldable pub pack_tuples : List Tuple → Bytes → Result Bytes
unfolding pack_tuple
pack_tuples [] so_far = ok so_far
pack_tuples (t ∷ ts) so_far = do packed ← pack_tuple t; pack_tuples ts (so_far ++ packed)

-- The loop over `watch_data`
unfoldable pub pack_entries : List Entry → Bytes → Result Bytes
unfolding pack_tuples
pack_entries [] entry_data = ok entry_data
pack_entries (entry ∷ entries) entry_data = do
  lip ← get "local-ip" entry
  rip ← get "remote-ip" entry
  ntcp ← get "ntcp" entry
  nudp ← get "nudp" entry
  tcp_tuples ← get_rows "tcp-tuples" entry
  udp_tuples ← get_rows "udp-tuples" entry
  tcp_data ← pack_tuples tcp_tuples []
  udp_data ← pack_tuples udp_tuples []
  packed ← pack entry_format (lip ∷ rip ∷ ntcp ∷ nudp ∷ [])
  pack_entries entries (entry_data ++ packed ++ (tcp_data ++ udp_data))

unfoldable pub unparse_items : List Log → Bytes → Result Bytes
unfolding pack_entries
unparse_items [] file_data = ok file_data
unparse_items (item ∷ items) file_data = do
  end_time ← get "end-time" item
  watch_data ← get_rows "watch-data" item
  entry_data ← pack_entries watch_data []
  packed ← pack item_format (end_time ∷ num (length entry_data) ∷ [])
  unparse_items items (file_data ++ packed ++ entry_data)

unfoldable pub unparse : List Log → Result Bytes
unfolding unparse_items
unparse raw_data = unparse_items raw_data []
