-- ===== src/Identity/Frames.antt =====
-- A file of the old format can be cut into its items again by the lengths that it holds.
use pna.Base.{
  ℕ, zero, suc, ◌+◌, ◌*◌, ◌≡◌, refl, sym, ap, ◌∙◌, List, [], ◌∷◌, ◌++◌, append_assoc, append-nil,
  length, length-append, take, drop, take_of_append, drop_of_append, arith, Result, ok, err, stuck,
  type_error, ◌>>=◌, >>=-eq-ok, ok-injective, string_eq,
}
use pna.Base.Value.{Value, num, Tuple, Entry, Log, get, get_rows}
use pna.Struct.{Bytes, pack, unpack_from, calc_size}
use pna.Struct.RoundTrip.{length-pack, unpack_from-pack}
use pna.Identity.{
  tuple_format, entry_format, item_format, pack_tuple, pack_tuples, pack_entries, unparse_items,
  unparse,
}

-- The end time of an item, and the bytes of its entries.
abbrev pub Frame : Type 0
Frame = Value Entry × Bytes

-- What the items say.
unfoldable pub frames_of : List Log → Result (List Frame)
frames_of [] = ok []
frames_of (item ∷ items) = do
  end_time ← get "end-time" item
  watch_data ← get_rows "watch-data" item
  entry_data ← pack_entries watch_data []
  rest ← frames_of items
  ok ((end_time, entry_data) ∷ rest)

-- A reader of the frames, for at most so many of them.
abbrev pub first_frame : Bytes → Result (Value Entry × ℕ)
first_frame bytes = do
  values ← unpack_from item_format bytes 0
  elim values [
    | [] ↦ err type_error
    | v ∷ vs ↦ elim vs [
      | [] ↦ err type_error
      | w ∷ _ ↦ elim w [ num n ↦ ok (v, n) | _ ↦ err type_error ]
    ]
  ]

unfoldable pub read_frames : ℕ → Bytes → Result (List Frame)
read_frames zero [] = ok []
read_frames zero (b ∷ bytes) = stuck
read_frames (suc fuel) bytes = do
  (end_time, size) ← first_frame bytes
  rest ← read_frames fuel (drop (8 + size) bytes)
  ok ((end_time, take size (drop 8 bytes)) ∷ rest)

-- One frame as bytes.
frame_bytes : Frame → Result Bytes
frame_bytes (end_time, body) = do
  packed ← pack item_format (end_time ∷ num (length body) ∷ [])
  ok (packed ++ body)

frames_bytes : List Frame → Result Bytes
unfolding frame_bytes
frames_bytes [] = ok []
frames_bytes (f ∷ fs) = do first ← frame_bytes f; rest ← frames_bytes fs; ok (first ++ rest)

frames_of-cons :
    (item : Log) (items : List Log) {t : Value Entry} {w : List Entry} {b : Bytes} {fs : List Frame}
    → get "end-time" item ≡ ok t
    → get_rows "watch-data" item ≡ ok w
    → pack_entries w [] ≡ ok b
    → frames_of items ≡ ok fs
    → frames_of (item ∷ items) ≡ ok ((t, b) ∷ fs)
unfolding frames_of
frames_of-cons item items e1 e2 e3 e4 = rw (e1, e2, e3, e4)

frames_bytes-cons :
    (t : Value Entry) (b : Bytes) (fs : List Frame) {packed more : Bytes}
    → pack item_format (t ∷ num (length b) ∷ []) ≡ ok packed
    → frames_bytes fs ≡ ok more
    → frames_bytes ((t, b) ∷ fs) ≡ ok ((packed ++ b) ++ more)
unfolding frames_bytes frame_bytes
frames_bytes-cons t b fs e1 e2 = rw (e1, e2)

append_regroup : (d p b m : Bytes) → d ++ p ++ b ++ m ≡ d ++ ((p ++ b) ++ m)
append_regroup d p b m = simp append_assoc

unparse_items_lem :
    (items : List Log) (done : Bytes) {bs : Bytes}
    → unparse_items items done ≡ ok bs
    → (fs : List Frame) × (more : Bytes) × (frames_of items ≡ ok fs)
      × (length fs ≡ length items)
      × (frames_bytes fs ≡ ok more)
      × (bs ≡ done ++ more)
unfolding unparse_items frames_of frames_bytes
unparse_items_lem [] done h =
    ([], [], refl, refl, refl, sym (ok-injective h) ∙ sym (append-nil done))
unparse_items_lem (item ∷ items) done {bs} h =
    let (end_time, e1, h1) = >>=-eq-ok (get "end-time" item) _ h in
    let (watch_data, e2, h2) = >>=-eq-ok (get_rows "watch-data" item) _ h1 in
    let (body, e3, h3) = >>=-eq-ok (pack_entries watch_data []) _ h2 in
    let (packed, e4, h4) = >>=-eq-ok (pack item_format (end_time ∷ num (length body) ∷ [])) _ h3 in
    let (fs, more, e5, e6, e7, e8) = unparse_items_lem items (done ++ packed ++ body) h4 in
    (
      (end_time, body) ∷ fs,
      (packed ++ body) ++ more,
      frames_of-cons item items e1 e2 e3 e5,
      ap suc e6,
      frames_bytes-cons end_time body fs e4 e7,
      e8 ∙ append_regroup done packed body more,
    )

first_frame_lem :
    (end_time : Value Entry) (n : ℕ) (rest : Bytes) {packed : Bytes}
    → pack item_format (end_time ∷ num n ∷ []) ≡ ok packed
    → first_frame (packed ++ rest) ≡ ok (end_time, n)
first_frame_lem end_time n rest h = rw (unpack_from-pack item_format _ [] rest h)

length-item :
    (end_time : Value Entry) (n : ℕ) {packed : Bytes}
    → pack item_format (end_time ∷ num n ∷ []) ≡ ok packed
    → length packed ≡ 8
unfolding calc_size
length-item end_time n h = length-pack item_format _ h

drop-both :
    (n : ℕ) (front body rest : Bytes)
    → length front ≡ n
    → drop (n + length body) (front ++ (body ++ rest)) ≡ rest
drop-both n front body rest h =
    ap (drop (n + length body)) (sym (append_assoc front body rest))
    ∙ drop_of_append (n + length body) (front ++ body) rest
        (omega (arith, length-append front body))

read_frames_lem :
    (fs : List Frame) {bs : Bytes} → frames_bytes fs ≡ ok bs → read_frames (length fs) bs ≡ ok fs
unfolding frames_bytes frame_bytes read_frames
read_frames_lem [] h = let none_left : [] ≡ _ = ok-injective h in rw (← none_left)
read_frames_lem ((end_time, body) ∷ fs) {bs} h =
    let (first, e1, h1) = >>=-eq-ok (frame_bytes (end_time, body)) _ h in
    let (rest, e2, whole) = >>=-eq-ok (frames_bytes fs) _ h1 in
    let (packed, e3, front) =
      >>=-eq-ok (pack item_format (end_time ∷ num (length body) ∷ [])) _ e1 in
    let parts : bs ≡ packed ++ (body ++ rest) =
      sym (ok-injective whole)
      ∙ ap (λ l. l ++ rest) (sym (ok-injective front))
      ∙ append_assoc packed body rest in
    let behind : drop 8 (packed ++ (body ++ rest)) ≡ body ++ rest =
      drop_of_append 8 packed (body ++ rest) (length-item end_time (length body) e3) in
    let after : drop (8 + length body) (packed ++ (body ++ rest)) ≡ rest =
      drop-both 8 packed body rest (length-item end_time (length body) e3) in
    rw (
      parts,
      first_frame_lem end_time (length body) (body ++ rest) e3,
      after,
      read_frames_lem fs e2,
      behind,
      take_of_append (length body) body rest refl,
    )

-- A file that unparse writes is read back, frame by frame with the lengths it holds, as the end
-- times of its items and the bytes of their entries, in order and with nothing left over.
pub unparse_frames :
    (items : List Log) (bs : Bytes)
    → unparse items ≡ ok bs
    → (fs : List Frame) × (frames_of items ≡ ok fs) × (read_frames (length items) bs ≡ ok fs)
unfolding unparse
unparse_frames items bs h =
    let (fs, more, e1, e2, e3, e4) = unparse_items_lem items [] h in
    (fs, e1, rw (← e2, e4) (read_frames_lem fs e3))

-- The sizes: 28 bytes for each tuple, and 16 for each entry.
abbrev pub count_ok : Result (List Tuple) → ℕ
count_ok (ok l) = length l
count_ok _ = 0

abbrev pub tuples_of : Entry → ℕ
tuples_of e = count_ok (get_rows "tcp-tuples" e) + count_ok (get_rows "udp-tuples" e)

abbrev pub all_tuples : List Entry → ℕ
all_tuples [] = 0
all_tuples (e ∷ es) = tuples_of e + all_tuples es

tuples_of_lem :
    (e : Entry) {tcp udp : List Tuple}
    → get_rows "tcp-tuples" e ≡ ok tcp
    → get_rows "udp-tuples" e ≡ ok udp
    → tuples_of e ≡ length tcp + length udp
tuples_of_lem e e1 e2 = λ i. count_ok (e1 i) + count_ok (e2 i)

length-pack_tuple : (t : Tuple) {bs : Bytes} → pack_tuple t ≡ ok bs → length bs ≡ 28
unfolding pack_tuple calc_size
length-pack_tuple t h =
    let (a, _, h1) = >>=-eq-ok (get "local-port" t) _ h in
    let (b, _, h2) = >>=-eq-ok (get "remote-port" t) _ h1 in
    let (c, _, h3) = >>=-eq-ok (get "npkts-in" t) _ h2 in
    let (d, _, h4) = >>=-eq-ok (get "npkts-out" t) _ h3 in
    let (e, _, h5) = >>=-eq-ok (get "nbytes-in" t) _ h4 in
    let (f, _, h6) = >>=-eq-ok (get "nbytes-out" t) _ h5 in
    let (g, _, h7) = >>=-eq-ok (get "begin-time" t) _ h6 in
    let (d2, _, h8) = >>=-eq-ok (get "first-direction" t) _ h7 in length-pack tuple_format _ h8

length-pack_tuples :
    (ts : List Tuple) (done : Bytes) {bs : Bytes}
    → pack_tuples ts done ≡ ok bs
    → length bs ≡ length done + 28 * length ts
unfolding pack_tuples
length-pack_tuples [] done h = omega (arith, ap length (ok-injective h))
length-pack_tuples (t ∷ ts) done h =
    let (packed, e, later) = >>=-eq-ok (pack_tuple t) _ h in
    omega (
      arith,
      length-pack_tuples ts (done ++ packed) later,
      length-append done packed,
      length-pack_tuple t e,
    )

entry_length :
    (done packed tcp udp : Bytes) (m n es ts : ℕ) {k whole : ℕ}
    → length packed ≡ 16
    → length tcp ≡ 0 + 28 * m
    → length udp ≡ 0 + 28 * n
    → k ≡ m + n
    → whole ≡ length (done ++ packed ++ (tcp ++ udp)) + (16 * es + 28 * ts)
    → whole ≡ length done + (16 * suc es + 28 * (k + ts))
entry_length done packed tcp udp m n es ts h1 h2 h3 h4 h5 = omega (
  arith,
  length-append (done ++ packed) (tcp ++ udp),
  length-append done packed,
  length-append tcp udp,
)

-- The entries of an item take 16 bytes each, and 28 more for each of their tuples.
pub length-pack_entries :
    (es : List Entry) (done bs : Bytes)
    → pack_entries es done ≡ ok bs
    → length bs ≡ length done + (16 * length es + 28 * all_tuples es)
unfolding pack_entries calc_size
length-pack_entries [] done bs h = omega (arith, ap length (ok-injective h))
length-pack_entries (entry ∷ es) done bs h =
    let (lip, _, h1) = >>=-eq-ok (get "local-ip" entry) _ h in
    let (rip, _, h2) = >>=-eq-ok (get "remote-ip" entry) _ h1 in
    let (ntcp, _, h3) = >>=-eq-ok (get "ntcp" entry) _ h2 in
    let (nudp, _, h4) = >>=-eq-ok (get "nudp" entry) _ h3 in
    let (tcp, e5, h5) = >>=-eq-ok (get_rows "tcp-tuples" entry) _ h4 in
    let (udp, e6, h6) = >>=-eq-ok (get_rows "udp-tuples" entry) _ h5 in
    let (tcp_data, e7, h7) = >>=-eq-ok (pack_tuples tcp []) _ h6 in
    let (udp_data, e8, h8) = >>=-eq-ok (pack_tuples udp []) _ h7 in
    let (packed, e9, h9) = >>=-eq-ok (pack entry_format (lip ∷ rip ∷ ntcp ∷ nudp ∷ [])) _ h8 in
    let tuples : tuples_of entry ≡ length tcp + length udp = tuples_of_lem entry e5 e6 in
    let sixteen : length packed ≡ 16 = length-pack entry_format _ e9 in
    entry_length done packed tcp_data udp_data (length tcp) (length udp) (length es) (all_tuples es)
      sixteen (length-pack_tuples tcp [] e7) (length-pack_tuples udp [] e8) tuples
      (length-pack_entries es (done ++ packed ++ (tcp_data ++ udp_data)) bs h9)
