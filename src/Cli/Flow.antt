-- ===== src/Cli/Flow.antt =====
-- util/intop/cli.py: `CommandLineInterface.flow_format`, the table of flows. The local time zone is a
-- parameter: `time.strftime(time_fmt, time.localtime(t))`.
pub mod Table
use Prim.Native.Nat.{bit_or}
use pna.Base.{
  ℕ, zero, suc, ◌+◌, ◌-◌, ◌/◌, ◌%◌, List, [], ◌∷◌, ◌++◌, Bool, true, false, if◌then◌else◌, ltb,
  length, replicate, String, string_eq, Result, ok, ◌>>=◌,
}
use pna.Base.Text.{Text, codes, show}
use pna.Base.Text.Format.{Column, pad}
use pna.Base.Value.{Tuple, Entry, Log, get_num, get_rows}
use pna.Model.Address.{int2ip}

abbrev pub columns : List Column
columns =
    (true, 17)
    ∷ (true, 17)
    ∷ (true, 5)
    ∷ (true, 15)
    ∷ (true, 5)
    ∷ (true, 5)
    ∷ (true, 15)
    ∷ (true, 5)
    ∷ (false, 3)
    ∷ (true, 2)
    ∷ (true, 10)
    ∷ (true, 22)
    ∷ []

-- `fmt % texts`, with a blank between two columns
unfoldable pub line : List Column → List Text → Text
line (c ∷ d ∷ cs) (t ∷ ts) = pad c t ++ (b' ' ∷ line (d ∷ cs) ts)
line (c ∷ []) (t ∷ ts) = pad c t
line _ _ = []

-- `display`
abbrev pub display : List Text
display =
    codes "Start"
    ∷ codes "End"
    ∷ codes "Sif"
    ∷ codes "SrcIPaddress"
    ∷ codes "SrcP"
    ∷ codes "Dif"
    ∷ codes "DstIPaddress"
    ∷ codes "DstP"
    ∷ codes "P"
    ∷ codes "Fl"
    ∷ codes "Pkts"
    ∷ codes "Octets"
    ∷ []

abbrev pub hex_digit : ℕ → ℕ
hex_digit d = if ltb d 10 then b'0' + d else b'a' + (d - 10)

-- The digits in base 16; a digit takes one unit of fuel, and the number is enough.
unfoldable pub hex_digits : ℕ → ℕ → Text
hex_digits zero n = hex_digit n ∷ []
hex_digits (suc fuel) n =
    let front = hex_digits fuel (n / 16) in
    if ltb n 16 then hex_digit n ∷ [] else front ++ hex_digit (n % 16) ∷ []

-- `hex(n)`
unfoldable pub hex : ℕ → Text
unfolding hex_digits
hex n = b'0' ∷ b'x' ∷ hex_digits n n

module _ (local_time : ℕ → Text) where
  -- `entry`
  unfoldable pub entry_texts : Text → ℕ → ℕ → ℕ → ℕ → ℕ → ℕ → ℕ → ℕ → ℕ → ℕ → ℕ → ℕ → List Text
  unfolding hex
  entry_texts end_text local_ip remote_ip proto begin_time local_port remote_port pi po oi oo lf
        rf =
      local_time begin_time
      ∷ end_text
      ∷ codes "0"
      ∷ int2ip local_ip
      ∷ show local_port
      ∷ codes "0"
      ∷ int2ip remote_ip
      ∷ show remote_port
      ∷ show proto
      ∷ hex (bit_or lf rf)
      ∷ show (pi + po)
      ∷ show (oi + oo)
      ∷ []

  unfoldable pub flow_texts : Text → Entry → Result (List Text)
  unfolding entry_texts
  flow_texts end_text f = do
    local_ip ← get_num "local_ip" f
    remote_ip ← get_num "remote_ip" f
    proto ← get_num "l4_protocol" f
    begin_time ← get_num "begin_time" f
    local_port ← get_num "local_port" f
    remote_port ← get_num "remote_port" f
    packets_in ← get_num "packets_in" f
    packets_out ← get_num "packets_out" f
    octets_in ← get_num "octets_in" f
    octets_out ← get_num "octets_out" f
    local_flags ← get_num "local_flags" f
    remote_flags ← get_num "remote_flags" f
    ok (
        entry_texts end_text local_ip remote_ip proto begin_time local_port remote_port packets_in
          packets_out octets_in octets_out local_flags remote_flags)

  unfoldable pub flow_lines : Text → List Entry → Result (List Text)
  unfolding flow_texts line
  flow_lines end_text [] = ok []
  flow_lines end_text (f ∷ fs) = do
    texts ← flow_texts end_text f
    rest ← flow_lines end_text fs
    ok (line columns texts ∷ rest)

  -- The column 'End' shows the start of the log.
  unfoldable pub log_lines : List Log → Result (List Text)
  unfolding flow_lines
  log_lines [] = ok []
  log_lines (log ∷ logs) = do
    start_time ← get_num "start_time" log
    flows ← get_rows "flows" log
    first ← flow_lines (local_time start_time) flows
    rest ← log_lines logs
    ok (first ++ rest)

  -- The lines that are printed.
  unfoldable pub flow_format : List Log → Result (List Text)
  unfolding log_lines
  flow_format items = do rest ← log_lines items; ok (line columns display ∷ rest)
