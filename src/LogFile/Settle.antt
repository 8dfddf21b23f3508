-- ===== src/LogFile/Settle.antt =====
-- How parse.py tells the versions of a log apart.
use native.Mathlib.Decide.{dec_lt}
use pna.Base.{
  ℕ, ◌+◌, ◌≤◌, ◌<◌, ◌≡◌, refl, ◌∙◌, List, [], ◌∷◌, take, drop, drop-drop, length, arith, true,
  false, ◌&&◌, ok, err, struct_error, index_error, version_error, get_elem?, none, some, ◌≢◌, ◌==◌,
  text_eq, nat_eq, string_eq, if◌then◌else◌,
}
use pna.Base.Text.{codes}
use pna.Base.Value.{Tuple}
use pna.Struct.{Bytes, calc_size, unpack}
use pna.Struct.Bounds.{unpack_from_fits, unpack_from_short}
use pna.LogFile.{
  numbered, v1a, Parser, header_v1a, header_v2, entry_v1, entry_v1a, entry_v2, format_of, as_dict,
  init, peek_version,
}

-- The object behind a header of version 1, before the peek.
abbrev pub old_parser : Bytes → Parser
old_parser bytes = record {
  bytes = bytes;
  position = 12;
  version = v1a;
  hdr_fields = header_v1a;
  ent_fields = entry_v1a;
  header = as_dict header_v1a (unpack 0 (format_of header_v1a) bytes);
  entries_seen = 0;
}

abbrev pub HasMagic : Bytes → Type 0
HasMagic bytes = (take 3 bytes == codes "PNA") ≡ true

-- One `drop` after the other.
abbrev drops : List ℕ → Bytes → Bytes
drops [] bs = bs
drops (n ∷ ns) bs = drops ns (drop n bs)

abbrev total : List ℕ → ℕ
total [] = 0
total (n ∷ ns) = n + total ns

drops-drop : (ns : List ℕ) (bs : Bytes) → drops ns bs ≡ drop (total ns) bs
drops-drop [] bs = refl
drops-drop (n ∷ ns) bs = drops-drop ns (drop n bs) ∙ drop-drop (total ns) n bs

abbrev before_blanks : List ℕ
before_blanks = 12 ∷ 4 ∷ 4 ∷ 2 ∷ 2 ∷ 2 ∷ 2 ∷ 4 ∷ 4 ∷ 4 ∷ 4 ∷ 4 ∷ 1 ∷ 1 ∷ []

peek_long :
    (bytes : Bytes) (b0 b1 : ℕ) (rest : Bytes)
    → 52 ≤ length bytes
    → drop 50 bytes ≡ b0 ∷ b1 ∷ rest
    → peek_version (old_parser bytes)
      ≡ ok (
          if b0 == 0 && b1 == 0
          then old_parser bytes
          else record (old_parser bytes) { version = numbered 1; ent_fields = entry_v1 })
unfolding peek_version calc_size unpack
peek_long bytes b0 b1 rest long at =
    let blanks : drops before_blanks bytes ≡ b0 ∷ b1 ∷ rest = drops-drop before_blanks bytes ∙ at in
    rw (unpack_from_fits {R = Tuple} (format_of entry_v1a) bytes 12 long) (rw blanks (ground arith))

module _ (bytes : Bytes) (plain : (take 3 bytes == codes "PNA") ≡ false) where
  init_plain : 12 ≤ length bytes → init bytes ≡ peek_version (old_parser bytes)
  unfolding init calc_size
  init_plain h =
      let fits = unpack_from_fits {R = Tuple} (format_of header_v1a) bytes 0 h in rw (plain, fits)

  init_headless : length bytes < 12 → init bytes ≡ err struct_error
  unfolding init calc_size
  init_headless h =
      let short = unpack_from_short {R = Tuple} (format_of header_v1a) bytes 0 h in
      rw (plain, short)

  peek_short : length bytes < 52 → peek_version (old_parser bytes) ≡ err struct_error
  unfolding peek_version calc_size
  peek_short h = rw (unpack_from_short {R = Tuple} (format_of entry_v1a) bytes 12 h)

  -- A log that does not begin with "PNA" and has fewer than 52 bytes, such as one of version 1 with
  -- no entry, is refused with struct.error.
  pub init_short : length bytes < 52 → init bytes ≡ err struct_error
  init_short h = elim (dec_lt (length bytes) 12) [
    | yes headless ↦ init_headless headless
    | no long ↦ rw (init_plain (omega arith)) (peek_short h)
  ]

  -- In a log that does not begin with "PNA" and has at least 52 bytes, the two bytes at offset 50
  -- decide: zeroes mean v1a, anything else v1, and the first entry starts behind the header in
  -- both.
  pub init_long :
      (b0 b1 : ℕ) (rest : Bytes)
      → 52 ≤ length bytes
      → drop 50 bytes ≡ b0 ∷ b1 ∷ rest
      → init bytes
        ≡ ok (
            if b0 == 0 && b1 == 0
            then old_parser bytes
            else record (old_parser bytes) { version = numbered 1; ent_fields = entry_v1 })
  init_long b0 b1 rest long at = rw (init_plain (omega arith)) (peek_long bytes b0 b1 rest long at)

module _ (bytes : Bytes) (magic : (take 3 bytes == codes "PNA") ≡ true) where
  -- A log that begins with "PNA" and does not say version 2 is refused with a KeyError at the name
  -- of its version.
  pub init_unknown :
      (n : ℕ) → get_elem? bytes 3 ≡ some n → n ≢ 2 → init bytes ≡ err (version_error n)
  unfolding init
  init_unknown n at other = rw (magic, at) (ground arith)

  pub init_cut : get_elem? bytes 3 ≡ none → init bytes ≡ err index_error
  unfolding init
  init_cut at = rw (magic, at)

  pub init_magic :
      get_elem? bytes 3 ≡ some 2
      → 16 ≤ length bytes
      → init bytes
        ≡ ok (record {
          bytes = bytes;
          position = 16;
          version = numbered 2;
          hdr_fields = header_v2;
          ent_fields = entry_v2;
          header = as_dict header_v2 (unpack 0 (format_of header_v2) bytes);
          entries_seen = 0;
        })
  unfolding init calc_size
  init_magic at long =
      rw (magic, at, unpack_from_fits {R = Tuple} (format_of header_v2) bytes 0 long)

  pub init_magic_short :
      get_elem? bytes 3 ≡ some 2 → length bytes < 16 → init bytes ≡ err struct_error
  unfolding init calc_size
  init_magic_short at short =
      rw (magic, at, unpack_from_short {R = Tuple} (format_of header_v2) bytes 0 short)
