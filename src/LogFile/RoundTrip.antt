-- ===== src/LogFile/RoundTrip.antt =====
-- A log that is written field by field, with `struct.pack`, is read back by parse.py.
use pna.Base.{
  ℕ, ◌+◌, ◌*◌, ◌<◌, ◌≡◌, refl, sym, ap, ◌∙◌, List, [], ◌∷◌, ◌++◌, map, append_assoc, length,
  length-append, drop, drop_of_append, arith, Result, ok, err, stuck, >>=-eq-ok, ok-injective,
  ◌>>=◌, text_eq, string_eq,
}
use pna.Base.Text.{codes}
use pna.Base.Value.{Value, num, text, Tuple, get}
use pna.Struct.{Bytes, calc_size, pack, pack_from, u_int4}
use pna.Struct.RoundTrip.{length-pack, unpack-pack, unpack_from-pack}
use pna.LogFile.{
  numbered, Names, Parser, header_v2, entry_v2, format_of, as_dict, init, parse, read_log,
}
use pna.LogFile.Loop.{entry_size, filled, entry_at, entries_from, outcome, parse_whole}

-- The entries of a log, one after the other.
unfoldable pub write_entries : Names → List (List (Value Tuple)) → Result Bytes
write_entries fields [] = ok []
write_entries fields (vs ∷ vss) = do
  first ← pack (format_of fields) vs
  others ← write_entries fields vss
  ok (first ++ others)

module _ (fields : Names) where
  write_entries-cons :
      (vs : List (Value Tuple)) (vss : List (List (Value Tuple))) {bs : Bytes}
      → write_entries fields (vs ∷ vss) ≡ ok bs
      → (first : Bytes) × (others : Bytes) × (pack (format_of fields) vs ≡ ok first)
        × (write_entries fields vss ≡ ok others)
        × (bs ≡ first ++ others)
  unfolding write_entries
  write_entries-cons vs vss h =
      let (first, packed, later) = >>=-eq-ok (pack (format_of fields) vs) _ h in
      let (others, written, whole) = >>=-eq-ok (write_entries fields vss) _ later in
      (first, others, packed, written, ground arith)

  length-write_entries :
      (vss : List (List (Value Tuple))) {bs : Bytes}
      → write_entries fields vss ≡ ok bs
      → length bs ≡ length vss * calc_size (format_of fields)
  unfolding write_entries
  length-write_entries [] h = ground arith
  length-write_entries (vs ∷ vss) h =
      let (first, others, packed, written, whole) = write_entries-cons vs vss h in
      rw whole (
        omega (
          arith,
          length-append first others,
          length-pack (format_of fields) vs packed,
          length-write_entries vss written,
        ))

-- Read from where they were written, the entries come back with the fields of the version.
entries_from-write_entries :
    (p : Parser) (end : Value Tuple) (vss : List (List (Value Tuple))) (before : Bytes) {bs : Bytes}
    → write_entries p.ent_fields vss ≡ ok bs
    → p.bytes ≡ before ++ bs
    → entries_from p end (length before) (length vss)
      ≡ map (λ vs. filled p.version end (as_dict p.ent_fields vs)) vss
unfolding entries_from entry_at
entries_from-write_entries p end [] before h e = refl
entries_from-write_entries p end (vs ∷ vss) before h e =
    let (first, others, packed, written, whole) = write_entries-cons p.ent_fields vs vss h in
    let later : length (before ++ first) ≡ length before + entry_size p =
      omega (arith, length-append before first, length-pack (format_of p.ent_fields) vs packed) in
    let here : drop (length before) p.bytes ≡ first ++ others =
      rw (e, whole) (drop_of_append (length before) before (first ++ others) refl) in
    let next =
      entries_from-write_entries p end vss (before ++ first) written
        (rw (e, whole) (sym (append_assoc before first others))) in
    rw (here, unpack-pack (format_of p.ent_fields) vs others packed, ← later, next)

-- A reader that stands at the first entry returns every entry, in order.
parse-write_entries :
    (p : Parser) (end : Value Tuple) (vss : List (List (Value Tuple))) (before : Bytes) {bs : Bytes}
    → get "end_time" p.header ≡ ok end
    → 0 < entry_size p
    → write_entries p.ent_fields vss ≡ ok bs
    → p.bytes ≡ before ++ bs
    → p.position ≡ length before
    → parse p
      ≡ ok (
        map (λ vs. filled p.version end (as_dict p.ent_fields vs)) vss,
        record p { position = length p.bytes },
      )
unfolding outcome
parse-write_entries p end vss before {bs} known big written e start =
    let size_of : length p.bytes ≡ p.position + (length vss * entry_size p + 0) =
      rw (e, start)
        (omega (arith, length-append before bs, length-write_entries p.ent_fields vss written)) in
    let read = entries_from-write_entries p end vss before written e in
    parse_whole p end known (length vss) 0 big size_of
    ∙ ap (λ es. ok (es, record p { position = length p.bytes }))
        (ap (λ k. entries_from p end k (length vss)) start ∙ read)

abbrev pub values_v2 : ℕ → ℕ → ℕ → List (Value Tuple)
values_v2 start end count =
    text (codes "P")
    ∷ text (codes "N")
    ∷ text (codes "A")
    ∷ num 2
    ∷ num start
    ∷ num end
    ∷ num count
    ∷ []

-- A version 2 log: the header, then the entries.
unfoldable pub write_v2 : ℕ → ℕ → ℕ → List (List (Value Tuple)) → Result Bytes
unfolding write_entries
write_v2 start end count vss = do
  head ← pack (format_of header_v2) (values_v2 start end count)
  body ← write_entries entry_v2 vss
  ok (head ++ body)

abbrev pub parser_v2 : Bytes → ℕ → ℕ → ℕ → Parser
parser_v2 bytes start end count = record {
  bytes = bytes;
  position = 16;
  version = numbered 2;
  hdr_fields = header_v2;
  ent_fields = entry_v2;
  header = as_dict header_v2 (values_v2 start end count);
  entries_seen = 0;
}

-- Four bytes that are written in turn, before the rest.
starts_with_four :
    (m : Result Bytes) (a b c d : ℕ) {head : Bytes}
    → (m >>= (λ x. ok (d ∷ x)) >>= (λ x. ok (c ∷ x)) >>= (λ x. ok (b ∷ x)) >>= (λ x. ok (a ∷ x)))
      ≡ ok head
    → (tail : Bytes) × (head ≡ a ∷ b ∷ c ∷ d ∷ tail)
starts_with_four (ok x) a b c d h = (x, ground arith)
starts_with_four (err e) a b c d h = cc
starts_with_four stuck a b c d h = cc

init_v2 :
    (start end count : ℕ) {head : Bytes} (body : Bytes)
    → pack (format_of header_v2) (values_v2 start end count) ≡ ok head
    → init (head ++ body) ≡ ok (parser_v2 (head ++ body) start end count)
unfolding init pack calc_size
init_v2 start end count {head} body h =
    let (tail, shape) =
      starts_with_four
        (pack_from {R = Tuple} 4 (u_int4 ∷ u_int4 ∷ u_int4 ∷ [])
          (num start ∷ num end ∷ num count ∷ []))
        80 78 65 2 h in
    let read = unpack_from-pack (format_of header_v2) (values_v2 start end count) [] body h in
    rw shape (rw (rw shape at read))

read_log_v2 :
    (start end count : ℕ) (vss : List (List (Value Tuple))) {head body : Bytes}
    → pack (format_of header_v2) (values_v2 start end count) ≡ ok head
    → write_entries entry_v2 vss ≡ ok body
    → read_log (head ++ body) ≡ ok (map (as_dict entry_v2) vss)
unfolding read_log filled calc_size
read_log_v2 start end count vss {head} {body} packed written =
    let p = parser_v2 (head ++ body) start end count in
    rw (init_v2 start end count body packed) (
      rw (
        parse-write_entries p (num end) vss head refl (omega arith) written refl
          (sym (length-pack (format_of header_v2) (values_v2 start end count) packed))))

-- Whatever version 2 log is written field by field with struct.pack, the reader gives back every
-- entry in order, each with the names of the format and the values that were written.
pub read_log-write_v2 :
    (start end count : ℕ) (vss : List (List (Value Tuple))) {bytes : Bytes}
    → write_v2 start end count vss ≡ ok bytes
    → read_log bytes ≡ ok (map (as_dict entry_v2) vss)
unfolding write_v2
read_log-write_v2 start end count vss {bytes} h =
    let header = pack (format_of header_v2) (values_v2 start end count) in
    let (head, packed, later) = >>=-eq-ok header _ h in
    let (body, written, whole) = >>=-eq-ok (write_entries entry_v2 vss) _ later in
    let same : head ++ body ≡ bytes = ground arith in
    rw (← same) (read_log_v2 start end count vss packed written)

-- The object that reads such a log, and what `parse` makes of it.
pub init-write_v2 :
    (start end count : ℕ) (vss : List (List (Value Tuple))) {bytes : Bytes}
    → write_v2 start end count vss ≡ ok bytes
    → (init bytes ≡ ok (parser_v2 bytes start end count))
      × (parse (parser_v2 bytes start end count)
          ≡ ok (
            map (as_dict entry_v2) vss,
            record (parser_v2 bytes start end count) { position = length bytes },
          ))
unfolding write_v2 filled calc_size
init-write_v2 start end count vss {bytes} h =
    let header = pack (format_of header_v2) (values_v2 start end count) in
    let (head, packed, later) = >>=-eq-ok header _ h in
    let (body, written, whole) = >>=-eq-ok (write_entries entry_v2 vss) _ later in
    let same : head ++ body ≡ bytes = ok-injective whole in
    let size = sym (length-pack (format_of header_v2) (values_v2 start end count) packed) in
    rw (← same) (
      init_v2 start end count body packed,
      parse-write_entries (parser_v2 (head ++ body) start end count) (num end) vss head refl
          (omega arith) written refl size,
    )
