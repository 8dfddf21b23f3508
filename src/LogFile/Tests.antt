-- ===== src/LogFile/Tests.antt =====
-- The reader of parse.py on small logs.
use pna.Base.{
  suc, length, ℕ, ◌+◌, ◌≡◌, ◌≢◌, refl, [], ◌∷◌, ◌++◌, replicate, take, text_eq, Result, ok, err,
  stuck, struct_error, ◌>>=◌, subst, arith, string_eq,
}
use pna.Base.Text.{codes}
use pna.Base.Value.{num, Entry, get_num}
use pna.Struct.{unpack_from, calc_size, Bytes, pack}
use pna.LogFile.{numbered, init, parse, read_log, entry_v1, parse_entry, complete}
use pna.LogFile.Loop.{outcome, parse_whole}
use pna.LogFile.Settle.{old_parser, init_short, init_long}
use pna.LogFile.Variants.{drain, drain-parse, feed, parse_cb-feed}
use pna.LogFile.Ends.{loops_end}
use pna.LogFile.{parse_cb}
use pna.LogFile.Total.{IsReady, Starts, init-Starts}
use pna.LogFile.RoundTrip.{write_v2, read_log-write_v2}
use pna.Samples.{session, session_entry, log_bytes, reader, read_reader}

written : write_v2 100 110 1 (session ∷ []) ≡ ok log_bytes
unfolding write_v2 pack
written = refl

read_log-write_v2_example : read_log log_bytes ≡ ok (session_entry ∷ [])
read_log-write_v2_example = read_log-write_v2 100 110 1 (session ∷ []) written

parse_whole_example : parse reader ≡ outcome reader (num 110) [] 1 0
unfolding calc_size
parse_whole_example = parse_whole reader (num 110) refl 1 0 (omega arith) refl

parse-reader : parse reader ≡ ok (session_entry ∷ [], read_reader)
unfolding parse unpack_from parse_entry complete
parse-reader = refl

-- A callback that counts
abbrev counts : ℕ → Entry → Result ℕ
counts n entry = ok (n + 1)

-- A log with a byte missing
loops_end_example :
    (read_log (take 63 log_bytes) ≢ stuck)
    × ((init (take 63 log_bytes) >>= λ p. parse_cb counts p 0) ≢ stuck)
    × ((init (take 63 log_bytes) >>= λ p. drain (suc (length p.bytes)) p []) ≢ stuck)
loops_end_example = loops_end counts 0 (take 63 log_bytes) (λ t e h. cc)

parse_cb-feed_example :
    parse_cb counts reader 0 ≡ (feed counts 0 (session_entry ∷ []) >>= λ n. ok (n, read_reader))
parse_cb-feed_example = parse_cb-feed counts reader read_reader (session_entry ∷ []) 0 parse-reader

init-reader : init log_bytes ≡ ok reader
unfolding init unpack_from
init-reader = refl

reader-IsReady : IsReady reader
reader-IsReady = subst Starts init-reader (init-Starts log_bytes)

-- A callback that adds up packets.
abbrev add_packets : ℕ → Entry → Result ℕ
add_packets n e = get_num "packets_in" e >>= λ p. ok (n + p)

drain-parse_example : drain 65 reader [] ≡ ok (session_entry ∷ [], read_reader)
drain-parse_example = drain-parse reader read_reader (session_entry ∷ []) parse-reader

-- Version 1 logs: a header alone, and one with two entries.
abbrev old_header : Bytes
old_header = 100 ∷ 0 ∷ 0 ∷ 0 ∷ 110 ∷ 0 ∷ 0 ∷ 0 ∷ 0 ∷ 0 ∷ 0 ∷ 0 ∷ []

init_short_example : init old_header ≡ err struct_error
init_short_example = init_short old_header refl (omega arith)

abbrev old_log : Bytes
old_log = old_header ++ replicate 72 5

init_long_example :
    init old_log ≡ ok (record (old_parser old_log) { version = numbered 1; ent_fields = entry_v1 })
init_long_example = init_long old_log refl 5 5 (replicate 32 5) (omega arith) refl

-- A log that says it has version 1
abbrev version_1 : Bytes
version_1 = codes "PNA" ++ (1 ∷ [])
