-- ===== src/LogFile/Loop.antt =====
-- What the loops of parse.py return: one entry for each whole record behind the header.
use pna.Base.{
  ℕ, zero, suc, ◌+◌, ◌*◌, ◌≤◌, ◌<◌, ◌≡◌, refl, ap, List, [], ◌∷◌, ◌++◌, append_assoc, append-nil,
  length, drop, nat_eq, string_eq, if◌then◌else◌, arith, Result, ok, err, struct_error, ◌>>=◌, ◌∙◌,
}
use pna.Base.Dict.{insert}
use pna.Base.Value.{Value, num, Tuple, Entry, get}
use pna.Struct.{calc_size, unpack}
use pna.Struct.Bounds.{unpack_from_fits, unpack_from_short}
use pna.LogFile.{
  Version, Parser, format_of, as_dict, is_old, add_netids, complete, ipproto_ipip, parse_entry,
  parse_loop, parse,
}

-- The bytes of one entry.
abbrev pub entry_size : Parser → ℕ
entry_size p = calc_size (format_of p.ent_fields)

-- The fields of an entry once the log's end time is known.
unfoldable pub filled : Version → Value Tuple → Entry → Entry
unfolding add_netids is_old
filled v end e =
    if is_old v
    then add_netids v (
        insert "end_time" end (
          insert "remote_flags" (num 0)
            (insert "local_flags" (num 0) (insert "l3_protocol" (num ipproto_ipip) e))))
    else e

-- The entry that starts at an offset of the file.
unfoldable pub entry_at : Parser → Value Tuple → ℕ → Entry
entry_at p end offset =
    filled p.version end
      (as_dict p.ent_fields (unpack 0 (format_of p.ent_fields) (drop offset p.bytes)))

-- The first n entries from an offset on.
unfoldable pub entries_from : Parser → Value Tuple → ℕ → ℕ → List Entry
entries_from p end offset zero = []
entries_from p end offset (suc n) =
    entry_at p end offset ∷ entries_from p end (offset + entry_size p) n

abbrev pub moved : Parser → ℕ → Parser
moved p position = record p { position = position }

complete-filled :
    (p : Parser) {end : Value Tuple}
    → get "end_time" p.header ≡ ok end
    → (e : Entry) → complete p e ≡ ok (filled p.version end e)
unfolding complete filled
complete-filled p known e = rw known (ground arith)

-- A whole entry is read, and the position moves behind it.
pub parse_entry_whole :
    (p : Parser) (end : Value Tuple)
    → get "end_time" p.header ≡ ok end
    → p.position + entry_size p ≤ length p.bytes
    → parse_entry p ≡ ok (entry_at p end p.position, moved p (p.position + entry_size p))
unfolding parse_entry entry_at
parse_entry_whole p end known fits =
    rw (unpack_from_fits (format_of p.ent_fields) p.bytes p.position fits)
      (rw (complete-filled (moved p (p.position + entry_size p)) known _))

pub parse_entry_part :
    (p : Parser) → length p.bytes < p.position + entry_size p → parse_entry p ≡ err struct_error
unfolding parse_entry
parse_entry_part p short =
    rw (unpack_from_short {R = Tuple} (format_of p.ent_fields) p.bytes p.position short)

-- What `parse` returns of n whole entries with r bytes behind them.
unfoldable pub outcome : Parser → Value Tuple → List Entry → ℕ → ℕ → Result (List Entry × Parser)
outcome p end done n zero = ok (done ++ entries_from p end p.position n, moved p (length p.bytes))
outcome p end done n (suc r) = err struct_error

entries_from-moved :
    (p : Parser) (end : Value Tuple) (position offset n : ℕ)
    → entries_from (moved p position) end offset n ≡ entries_from p end offset n
unfolding entries_from entry_at
entries_from-moved p end position offset zero = refl
entries_from-moved p end position offset (suc n) =
    ap (◌∷◌ (entry_at p end offset)) (entries_from-moved p end position (offset + entry_size p) n)

outcome_cons :
    (p : Parser) (end : Value Tuple) (done : List Entry) (n r : ℕ)
    → outcome (moved p (p.position + entry_size p)) end (done ++ entry_at p end p.position ∷ []) n r
      ≡ outcome p end done (suc n) r
unfolding outcome entries_from
outcome_cons p end done n zero =
    rw (entries_from-moved p end (p.position + entry_size p) (p.position + entry_size p) n)
      (simp append_assoc)
outcome_cons p end done n (suc r) = refl

parse_loop_done :
    (fuel : ℕ) (p : Parser) (done : List Entry)
    → length p.bytes ≤ p.position
    → parse_loop fuel p done ≡ ok (done, p)
unfolding parse_loop
parse_loop_done zero p done h = ground arith
parse_loop_done (suc fuel) p done h = ground arith

parse_loop_step :
    (fuel : ℕ) (p : Parser) (done : List Entry)
    → p.position < length p.bytes
    → parse_loop (suc fuel) p done ≡ (parse_entry p >>= λ r. parse_loop fuel r.1 (done ++ r.0 ∷ []))
unfolding parse_loop
parse_loop_step fuel p done h = ground arith

parse_loop_lem :
    (fuel : ℕ) (p : Parser) (end : Value Tuple) (done : List Entry) (n r : ℕ)
    → get "end_time" p.header ≡ ok end
    → r < entry_size p
    → length p.bytes ≡ p.position + (n * entry_size p + r)
    → n * entry_size p + r ≤ fuel
    → parse_loop fuel p done ≡ outcome p end done n r
unfolding outcome entries_from
parse_loop_lem fuel p end done zero zero known small whole enough =
    let stop : length p.bytes ≡ p.position = omega arith in
    rw (parse_loop_done fuel p done (omega arith), append-nil, stop)
parse_loop_lem zero p end done zero (suc r) known small whole enough = absurd (omega arith)
parse_loop_lem (suc fuel) p end done zero (suc r) known small whole enough =
    rw (parse_loop_step fuel p done (omega arith), parse_entry_part p (omega arith))
parse_loop_lem zero p end done (suc n) r known small whole enough = absurd (grind arith)
parse_loop_lem (suc fuel) p end done (suc n) r known small whole enough =
    let fits : p.position + entry_size p ≤ length p.bytes = grind arith in
    rw (parse_loop_step fuel p done (omega arith), parse_entry_whole p end known fits)
      (parse_loop_lem fuel (moved p (p.position + entry_size p)) end
          (done ++ entry_at p end p.position ∷ []) n r known small (grind arith) (grind arith)
        ∙ outcome_cons p end done n r)

module _ (p : Parser) (end : Value Tuple) (known : get "end_time" p.header ≡ ok end) where
  -- For an object whose header has an end time, parse ends: if whole entries fill the file behind
  -- the position it returns them all in order, and if a part of an entry is left over it raises
  -- struct.error.
  pub parse_whole :
      (n r : ℕ)
      → r < entry_size p
      → length p.bytes ≡ p.position + (n * entry_size p + r)
      → parse p ≡ outcome p end [] n r
  unfolding parse
  parse_whole n r small whole =
      parse_loop_lem (length p.bytes) p end [] n r known small whole (omega arith)
