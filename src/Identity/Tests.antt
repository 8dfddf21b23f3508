-- ===== src/Identity/Tests.antt =====
-- identity.py on one item with one entry.
use pna.Base.Text.{codes}
use pna.Identity.Main.{Files, convert, main, main_stops}
use pna.Base.{Result, err, type_error, text_eq, ◌≡◌, refl, List, [], ◌∷◌, ok, string_eq}
use pna.Base.Value.{num, rows, Tuple, Entry, Log}
use pna.Struct.{Bytes, pack}
use pna.Identity.{unparse, pack_entries}
use pna.Identity.Frames.{Frame, frames_of, read_frames, unparse_frames}

abbrev port_tuple : Tuple
port_tuple =
    ("local-port", num 1)
    ∷ ("remote-port", num 2)
    ∷ ("npkts-in", num 3)
    ∷ ("npkts-out", num 4)
    ∷ ("nbytes-in", num 5)
    ∷ ("nbytes-out", num 6)
    ∷ ("begin-time", num 7)
    ∷ ("first-direction", num 1)
    ∷ []

abbrev watch_entry : Entry
watch_entry =
    ("local-ip", num 9)
    ∷ ("remote-ip", num 8)
    ∷ ("ntcp", num 1)
    ∷ ("nudp", num 0)
    ∷ ("tcp-tuples", rows (port_tuple ∷ []))
    ∷ ("udp-tuples", rows [])
    ∷ []

abbrev items : List Log
items = (("end-time", num 100) ∷ ("watch-data", rows (watch_entry ∷ [])) ∷ []) ∷ []

abbrev entry_bytes : Bytes
entry_bytes =
    9 ∷ 0 ∷ 0 ∷ 0 ∷ 8 ∷ 0 ∷ 0 ∷ 0 ∷ 1 ∷ 0 ∷ 0 ∷ 0 ∷ 0 ∷ 0 ∷ 0 ∷ 0 ∷ 1 ∷ 0 ∷ 2 ∷ 0 ∷ 3 ∷ 0 ∷ 0 ∷ 0
    ∷ 4 ∷ 0 ∷ 0 ∷ 0 ∷ 5 ∷ 0 ∷ 0 ∷ 0 ∷ 6 ∷ 0 ∷ 0 ∷ 0 ∷ 7 ∷ 0 ∷ 0 ∷ 0 ∷ 1 ∷ 0 ∷ 0 ∷ 0 ∷ []

packed_entries : pack_entries (watch_entry ∷ []) [] ≡ ok entry_bytes
unfolding pack_entries pack
packed_entries = refl

abbrev file_bytes : Bytes
file_bytes = 100 ∷ 0 ∷ 0 ∷ 0 ∷ 44 ∷ 0 ∷ 0 ∷ 0 ∷ entry_bytes

unparsed : unparse items ≡ ok file_bytes
unfolding unparse pack
unparsed = refl

unparse_frames_example :
    (fs : List Frame) × (frames_of items ≡ ok fs) × (read_frames 1 file_bytes ≡ ok fs)
unparse_frames_example = unparse_frames items file_bytes unparsed

-- The text of the file stands for the items.
abbrev eval : Bytes → Result (List Log)
eval text = ok items

abbrev files : Files
files = (codes "a.dict", codes "[]") ∷ []

abbrev written : Files
written = elim (convert eval (codes "a.dict") files) [ ok f ↦ f | _ ↦ files ]

converted : main eval (codes "a.dict" ∷ []) files ≡ (written, ok tt)
unfolding main unparse pack
converted = refl

main_stops_example :
    main eval (codes "a.dict" ∷ codes "b.log" ∷ codes "c.dict" ∷ []) files
    ≡ (written, err type_error)
main_stops_example =
    main_stops eval (codes "a.dict" ∷ []) (codes "c.dict" ∷ []) (codes "b.log") files written
      converted refl
