-- ===== src/LogFile.antt =====
-- util/intop/parse.py: the class `PNALogParser`, which reads a binary log.
pub mod Loop
pub mod Settle
pub mod Variants
pub mod Ends
pub mod Total
pub mod RoundTrip
mod Tests
use pna.Base.{
  ℕ, zero, suc, ◌+◌, List, [], ◌∷◌, ◌++◌, map, Option, none, some, Bool, true, ◌||◌, not, take,
  length, get_elem?, ltb, ◌==◌, if◌then◌else◌, text_eq, nat_eq, string_eq, Result, ok, err, stuck,
  Error, version_error, index_error, or_raise, ◌>>=◌, String,
}
use pna.Base.Dict.{Dict, insert, of_pairs}
use pna.Base.Text.{codes}
use pna.Base.Value.{Value, num, Tuple, Entry, get, get_num}
use pna.Struct.{Bytes, Code, char, u_int1, u_int2, u_int4, unpack_from, calc_size}

-- 'v1a', or 'v%d' % n; so 'v1' is `numbered 1` and 'v2' is `numbered 2`.
pub data Version : Type 0 where
  v1a : Version
  numbered : ℕ → Version

abbrev pub Names : Type 0
Names = List (String × Code)

abbrev pub header_v1a : Names
header_v1a = ("start_time", u_int4) ∷ ("end_time", u_int4) ∷ ("nentries", u_int4) ∷ []

abbrev pub header_v2 : Names
header_v2 =
    ("magic0", char)
    ∷ ("magic1", char)
    ∷ ("magic2", char)
    ∷ ("version", u_int1)
    ∷ ("start_time", u_int4)
    ∷ ("end_time", u_int4)
    ∷ ("nentries", u_int4)
    ∷ []

-- `PNALogParser._header[version]`: there is no header for 'v1'.
abbrev pub header_fields : Version → Result Names
header_fields v1a = ok header_v1a
header_fields (numbered n) = if n == 2 then ok header_v2 else err (version_error n)

abbrev pub entry_v1 : Names
entry_v1 =
    ("local_ip", u_int4)
    ∷ ("remote_ip", u_int4)
    ∷ ("local_port", u_int2)
    ∷ ("remote_port", u_int2)
    ∷ ("packets_out", u_int4)
    ∷ ("packets_in", u_int4)
    ∷ ("octets_out", u_int4)
    ∷ ("octets_in", u_int4)
    ∷ ("begin_time", u_int4)
    ∷ ("l4_protocol", u_int1)
    ∷ ("first_direction", u_int1)
    ∷ ("blank0", u_int1)
    ∷ ("blank1", u_int1)
    ∷ []

abbrev pub entry_v1a : Names
entry_v1a =
    ("local_ip", u_int4)
    ∷ ("remote_ip", u_int4)
    ∷ ("local_port", u_int2)
    ∷ ("remote_port", u_int2)
    ∷ ("local_netid", u_int2)
    ∷ ("remote_netid", u_int2)
    ∷ ("packets_out", u_int4)
    ∷ ("packets_in", u_int4)
    ∷ ("octets_out", u_int4)
    ∷ ("octets_in", u_int4)
    ∷ ("begin_time", u_int4)
    ∷ ("l4_protocol", u_int1)
    ∷ ("first_direction", u_int1)
    ∷ ("blank0", u_int1)
    ∷ ("blank1", u_int1)
    ∷ []

abbrev pub entry_v2 : Names
entry_v2 =
    ("local_ip", u_int4)
    ∷ ("remote_ip", u_int4)
    ∷ ("local_port", u_int2)
    ∷ ("remote_port", u_int2)
    ∷ ("local_netid", u_int2)
    ∷ ("remote_netid", u_int2)
    ∷ ("packets_out", u_int4)
    ∷ ("packets_in", u_int4)
    ∷ ("octets_out", u_int4)
    ∷ ("octets_in", u_int4)
    ∷ ("local_flags", u_int2)
    ∷ ("remote_flags", u_int2)
    ∷ ("begin_time", u_int4)
    ∷ ("end_time", u_int4)
    ∷ ("l4_protocol", u_int1)
    ∷ ("first_direction", u_int1)
    ∷ ("blank0", u_int1)
    ∷ ("blank1", u_int1)
    ∷ []

-- `PNALogParser._entry[version]`
abbrev pub entry_fields : Version → Result Names
entry_fields v1a = ok entry_v1a
entry_fields (numbered n) =
    if n == 1 then ok entry_v1 else if n == 2 then ok entry_v2 else err (version_error n)

-- The attributes of the object. The names and the format of a `Struct` are kept as one list.
pub record Parser : Type 0 where
  pub bytes : Bytes
  pub position : ℕ
  pub version : Version
  pub hdr_fields : Names
  pub ent_fields : Names
  pub header : Entry
  pub entries_seen : ℕ

abbrev pub names_of : Names → List String
names_of = map (λ f. f.0)

abbrev pub format_of : Names → List Code
format_of = map (λ f. f.1)

-- `zip`, which stops at the shorter list
abbrev pub pair_up : List String → List (Value Tuple) → List (String × Value Tuple)
pair_up (k ∷ ks) (v ∷ vs) = (k, v) ∷ pair_up ks vs
pair_up _ _ = []

abbrev pub as_dict : Names → List (Value Tuple) → Entry
as_dict fields values = of_pairs (pair_up (names_of fields) values) []

-- `_set_header_type` and `_set_entry_type`
unfoldable pub set_header_type : Parser → Result Parser
set_header_type p = do fields ← header_fields p.version; ok (record p { hdr_fields = fields })

unfoldable pub set_entry_type : Parser → Result Parser
set_entry_type p = do fields ← entry_fields p.version; ok (record p { ent_fields = fields })

-- A method that moves the reading position returns the object beside its result.
unfoldable pub parse_header : Parser → Result (Entry × Parser)
parse_header p = do
  values ← unpack_from (format_of p.hdr_fields) p.bytes p.position
  ok (
    as_dict p.hdr_fields values,
    record p { position = p.position + calc_size (format_of p.hdr_fields) },
  )

-- What `__init__` makes of the first four bytes.
unfoldable pub detect_version : Bytes → Result Version
detect_version bytes =
    if take 3 bytes == codes "PNA"
    then (do n ← or_raise (get_elem? bytes 3) index_error; ok (numbered n))
    else ok v1a

-- "peek at the first entry to determine v1 or v1a"
unfoldable pub peek_version : Parser → Result Parser
unfolding set_entry_type
peek_version p = do
  values ← unpack_from (format_of p.ent_fields) p.bytes p.position
  let entry = as_dict p.ent_fields values
  blank0 ← get_num "blank0" entry
  blank1 ← get_num "blank1" entry
  if not (blank0 == 0) || not (blank1 == 0)
      then set_entry_type (record p { version = numbered 1 })
      else ok p

-- `if self.version == 'v1a'`
unfoldable pub settle_version : Version → Parser → Result Parser
unfolding peek_version
settle_version v1a p = peek_version p
settle_version (numbered n) p = ok p

-- `PNALogParser(filename)`, on the bytes that the file holds.
unfoldable pub init : Bytes → Result Parser
unfolding detect_version set_header_type set_entry_type parse_header settle_version
init bytes = do
  v ← detect_version bytes
  p1 ← set_header_type (record {
    bytes = bytes;
    position = 0;
    version = v;
    hdr_fields = [];
    ent_fields = [];
    header = [];
    entries_seen = 0;
  })
  p2 ← set_entry_type p1
  (fields, p3) ← parse_header p2
  settle_version p3.version (record p3 { header = fields })

-- The class attribute `EXTERNAL_NETID`, and `socket.IPPROTO_IPIP`.
abbrev pub external_netid : ℕ
external_netid = 65535

abbrev pub ipproto_ipip : ℕ
ipproto_ipip = 4

-- `version == 'v1'`: the net ids are made up.
unfoldable pub add_netids : Version → Entry → Entry
add_netids v1a e = e
add_netids (numbered n) e =
    if n == 1
    then insert "remote_netid" (num external_netid) (insert "local_netid" (num 1) e)
    else e

-- `version in ('v1', 'v1a')`
unfoldable pub is_old : Version → Bool
is_old v1a = true
is_old (numbered n) = n == 1

-- The fields that an old entry lacks; its end is the log's end.
unfoldable pub complete : Parser → Entry → Result Entry
unfolding add_netids is_old
complete p e =
    if is_old p.version
    then (do
      end ← get "end_time" p.header
      let e1 = insert "l3_protocol" (num ipproto_ipip) e
      let e2 = insert "local_flags" (num 0) e1
      let e3 = insert "remote_flags" (num 0) e2
      ok (add_netids p.version (insert "end_time" end e3)))
    else ok e

unfoldable pub parse_entry : Parser → Result (Entry × Parser)
parse_entry p = do
  values ← unpack_from (format_of p.ent_fields) p.bytes p.position
  let p' = record p { position = p.position + calc_size (format_of p.ent_fields) }
  entry ← complete p' (as_dict p.ent_fields values)
  ok (entry, p')

-- `while self.position < self.data_len`
abbrev pub more : Parser → Bool
more p = ltb p.position (length p.bytes)

-- The loop of `parse`. Each round takes a byte at least, so the number of bytes is enough fuel.
unfoldable pub parse_loop : ℕ → Parser → List Entry → Result (List Entry × Parser)
parse_loop zero p sessions = if more p then stuck else ok (sessions, p)
parse_loop (suc fuel) p sessions =
    let round = do (entry, p') ← parse_entry p; parse_loop fuel p' (sessions ++ entry ∷ [])
    in if more p then round else ok (sessions, p)

unfoldable pub parse : Parser → Result (List Entry × Parser)
unfolding parse_loop
parse p = parse_loop (length p.bytes) p []

-- `PNALogParser(filename).parse()`, on the bytes that the file holds.
unfoldable pub read_log : Bytes → Result (List Entry)
read_log bytes = do p ← init bytes; (sessions, _) ← parse p; ok sessions

-- `parse_cb`: the callback changes a state of the caller's, and may raise.
module _ {S : Type 0} (callback : S → Entry → Result S) where
  unfoldable pub parse_cb_loop : ℕ → Parser → S → Result (S × Parser)
  parse_cb_loop zero p s = if more p then stuck else ok (s, p)
  parse_cb_loop (suc fuel) p s =
      let round = do (entry, p') ← parse_entry p; s' ← callback s entry; parse_cb_loop fuel p' s'
      in if more p then round else ok (s, p)

  unfoldable pub parse_cb : Parser → S → Result (S × Parser)
  unfolding parse_cb_loop
  parse_cb p s = parse_cb_loop (length p.bytes) p s

-- `parse_iter`: one call of the generator's `next`; `none` is `StopIteration`.
unfoldable pub next_entry : Parser → Result (Option Entry × Parser)
next_entry p =
    if more p then (do (entry, p') ← parse_entry p; ok (some entry, p')) else ok (none, p)
