-- ===== src/Samples.antt =====
-- Small logs of version 2 and of version 1, for the tests.
use pna.Base.{List, [], ◌∷◌, ◌++◌, map}
use pna.Base.Value.{Value, num, Tuple, Entry}
use pna.Struct.{Bytes}
use pna.LogFile.{Parser, numbered, header_v2, entry_v2, as_dict}
use pna.LogFile.RoundTrip.{values_v2}

abbrev pub session : List (Value Tuple)
session = map num (
    167772161 ∷ 167772162 ∷ 1024 ∷ 80 ∷ 1 ∷ 2 ∷ 3 ∷ 4 ∷ 5 ∷ 6 ∷ 2 ∷ 3 ∷ 101 ∷ 109 ∷ 6 ∷ 1 ∷ 0 ∷ 0
    ∷ [])

abbrev pub header_bytes : Bytes
header_bytes = 80 ∷ 78 ∷ 65 ∷ 2 ∷ 100 ∷ 0 ∷ 0 ∷ 0 ∷ 110 ∷ 0 ∷ 0 ∷ 0 ∷ 1 ∷ 0 ∷ 0 ∷ 0 ∷ []

abbrev pub session_bytes : Bytes
session_bytes =
    1 ∷ 0 ∷ 0 ∷ 10 ∷ 2 ∷ 0 ∷ 0 ∷ 10 ∷ 0 ∷ 4 ∷ 80 ∷ 0 ∷ 1 ∷ 0 ∷ 2 ∷ 0 ∷ 3 ∷ 0 ∷ 0 ∷ 0 ∷ 4 ∷ 0 ∷ 0 ∷ 0
    ∷ 5 ∷ 0 ∷ 0 ∷ 0 ∷ 6 ∷ 0 ∷ 0 ∷ 0 ∷ 2 ∷ 0 ∷ 3 ∷ 0 ∷ 101 ∷ 0 ∷ 0 ∷ 0 ∷ 109 ∷ 0 ∷ 0 ∷ 0 ∷ 6 ∷ 1 ∷ 0
    ∷ 0 ∷ []

abbrev pub log_bytes : Bytes
log_bytes = header_bytes ++ session_bytes

-- The object that reads it, before and after the session.
abbrev pub reader : Parser
reader = record {
  bytes = log_bytes;
  position = 16;
  version = numbered 2;
  hdr_fields = header_v2;
  ent_fields = entry_v2;
  header = as_dict header_v2 (values_v2 100 110 1);
  entries_seen = 0;
}

abbrev pub read_reader : Parser
read_reader = record reader { position = 64 }

abbrev pub session_entry : Entry
session_entry = as_dict entry_v2 session
