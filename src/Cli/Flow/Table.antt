-- ===== src/Cli/Flow/Table.antt =====
-- The table of flows of logs that were read.
use Prim.Native.Nat.{bit_or}
use pna.Base.{
  ℕ, ◌+◌, ◌≡◌, refl, ap, sym, subst, >>=-eq-ok, ok-injective, List, [], ◌∷◌, ◌++◌, map, All,
  All-append, true, false, string_eq, String, Result, ok, ◌>>=◌,
}
use pna.Base.Text.{Text, codes, show}
use pna.Base.Text.Format.{pad}
use pna.Base.Value.{Value, rows, Entry, Log, get_num, get_rows, as_log}
use pna.Base.Dict.{Dict, insert}
use pna.Model.Address.{int2ip}
use pna.Struct.{Bytes}
use pna.LogFile.{Parser, init, parse}
use pna.LogFile.Total.{HasNumber, HasNumbers, IsReady, Starts, init-Starts, parse-HasNumbers}
use pna.Model.State.{PnaModel, add_file}
use pna.Model.State.Loaded.{item-number, flows_of_item}
use pna.Model.Filter.Keeps.{rows_at, renamed}
use pna.Cli.{add_files}
use pna.Cli.Flow.{columns, line, hex, entry_texts, flow_texts, flow_lines, log_lines, flow_format}

-- A log with a start and with flows that have the numbers of a table.
pub record IsTable (log : Log) : Type 0 where
  pub start : HasNumber log "start_time"
  pub flows : get_rows "flows" log ≡ ok (rows_at "flows" log)
  pub all_numbers : All HasNumbers (rows_at "flows" log)

abbrev num_or : Result ℕ → ℕ
num_or (ok n) = n
num_or _ = 0

-- The number of a key
abbrev pub number : {R : Type 0} → String → Dict String (Value R) → ℕ
number k e = num_or (get_num k e)

abbrev pub header : Text
header =
    codes
      "Start             End               Sif   SrcIPaddress    SrcP  Dif   DstIPaddress    DstP    P Fl Pkts       Octets                "

-- A text in a column with a blank behind it.
abbrev left_cell : ℕ → Text → Text → Text
left_cell width t rest = pad (true, width) t ++ (b' ' ∷ rest)

-- The line of a flow, of a log with this start: the local address is the source.
abbrev pub flow_row : (ℕ → Text) → ℕ → Entry → Text
flow_row local_time start f = left_cell 17 (local_time (number "begin_time" f)) (
    left_cell 17 (local_time start) (
      left_cell 5 (codes "0") (
        left_cell 15 (int2ip (number "local_ip" f)) (
          left_cell 5 (show (number "local_port" f)) (
            left_cell 5 (codes "0") (
              left_cell 15 (int2ip (number "remote_ip" f)) (
                left_cell 5 (show (number "remote_port" f)) (
                  pad (false, 3) (show (number "l4_protocol" f))
                  ++ (b' '
                      ∷ left_cell 2
                          (hex (bit_or (number "local_flags" f) (number "remote_flags" f)))
                          (left_cell 10 (show (number "packets_in" f + number "packets_out" f)) (
                            pad (true, 22)
                              (show (number "octets_in" f + number "octets_out" f)))))))))))))

-- The lines of the flows of all logs, in order.
abbrev pub all_rows : (ℕ → Text) → List Log → List Text
all_rows local_time [] = []
all_rows local_time (log ∷ logs) =
    map (flow_row local_time (number "start_time" log)) (rows_at "flows" log)
    ++ all_rows local_time logs

module _ (local_time : ℕ → Text) where
  flow_row_lem :
      (start : ℕ) (f : Entry)
      → HasNumbers f
      → (do texts ← flow_texts local_time (local_time start) f; ok (line columns texts))
        ≡ ok (flow_row local_time start f)
  unfolding flow_texts entry_texts line
  flow_row_lem start f h =
      let (
        (a, ea),
        (
          (b, eb),
          (
            (c, ec),
            (
              (d, ed),
              (
                (e, ee),
                ((g, eg), ((i, ei), ((j, ej), ((k, ek), ((l, el), ((m, em), ((n, en), _))))))),
              ),
            ),
          ),
        ),
      ) =
        h in
      rw (ea, eb, ec, ed, ee, eg, ei, ej, ek, el, em, en) refl

  flow_lines_lem :
      (start : ℕ) (fs : List Entry)
      → All HasNumbers fs
      → flow_lines local_time (local_time start) fs ≡ ok (map (flow_row local_time start) fs)
  unfolding flow_lines
  flow_lines_lem start [] h = refl
  flow_lines_lem start (f ∷ fs) (h, hs) =
      let (texts, e, later) =
        >>=-eq-ok (flow_texts local_time (local_time start) f) _ (flow_row_lem start f h) in
      let same = ok-injective later in rw (e, flow_lines_lem start fs hs, same) refl

  log_lines_lem :
      (logs : List Log)
      → All IsTable logs
      → log_lines local_time logs ≡ ok (all_rows local_time logs)
  unfolding log_lines
  log_lines_lem [] h = refl
  log_lines_lem (log ∷ logs) (h, hs) =
      let (t, et) = h.start in
      rw (et, h.flows, flow_lines_lem t (rows_at "flows" log) h.all_numbers, log_lines_lem logs hs)
        refl

  pub flow_format_lem :
      (logs : List Log)
      → All IsTable logs
      → flow_format local_time logs ≡ ok (header ∷ all_rows local_time logs)
  unfolding flow_format line
  flow_format_lem logs h = rw (log_lines_lem logs h) refl

-- What add_file appends is a log for a table, also when do_filter has renamed it.
appended-IsTable :
    (p : Parser) (flows : List Entry)
    → IsReady p
    → All HasNumbers flows
    → IsTable (renamed (insert "flows" (rows flows) (as_log p.header)))
appended-IsTable p flows ready h =
    let (n, e) = item-number p.header flows ready.started_at in
    record {
      start = (n, rw e);
      flows = refl;
      all_numbers = rw (flows_of_item (as_log p.header) flows) h;
    }

-- A log of the model that do_filter returns fit for a table.
abbrev pub IsShown : Log → Type 0
IsShown log = IsTable (renamed log)

shown-tables : (logs : List Log) → All IsShown logs → All IsTable (map renamed logs)
shown-tables [] h = tt
shown-tables (log ∷ logs) (h, hs) = (h, shown-tables logs hs)

add_file-IsShown :
    (bytes : Bytes) (m m' : PnaModel)
    → All IsShown m.all_data
    → add_file bytes m ≡ ok m'
    → All IsShown m'.all_data
unfolding add_file
add_file-IsShown bytes m m' h r =
    let (p, made, later) = >>=-eq-ok (init bytes) _ r in
    let ready : IsReady p = subst Starts made (init-Starts bytes) in
    let ((flows, p'), parsed, later') = >>=-eq-ok (parse p) _ later in
    let item = appended-IsTable p flows ready (parse-HasNumbers p p' flows ready parsed) in
    let all : m.all_data ++ insert "flows" (rows flows) (as_log p.header) ∷ [] ≡ m'.all_data =
      ap (λ n. n.all_data) (ok-injective later') in
    subst (All IsShown) all (All-append IsShown m.all_data _ h (item, tt))

add_files-IsShown :
    (files : List Bytes) (m m' : PnaModel)
    → All IsShown m.all_data
    → add_files files m ≡ ok m'
    → All IsShown m'.all_data
unfolding add_files
add_files-IsShown [] m m' h r = subst (λ n. All IsShown n.all_data) (ok-injective r) h
add_files-IsShown (file ∷ files) m m' h r =
    let (n, added, later) = >>=-eq-ok (add_file file m) _ r in
    add_files-IsShown files n m' (add_file-IsShown file m n h added) later

-- For a model without logs and any files that add_file reads, flow_format of the logs that
-- do_filter makes of them returns the header and the lines of their flows.
pub flow_format-add_files :
    (local_time : ℕ → Text) (files : List Bytes) (m m' : PnaModel)
    → m.all_data ≡ []
    → add_files files m ≡ ok m'
    → flow_format local_time (map renamed m'.all_data)
      ≡ ok (header ∷ all_rows local_time (map renamed m'.all_data))
flow_format-add_files local_time files m m' none_yet r =
    flow_format_lem local_time (map renamed m'.all_data) (
      shown-tables m'.all_data
        (add_files-IsShown files m m' (subst (All IsShown) (sym none_yet) tt) r))
