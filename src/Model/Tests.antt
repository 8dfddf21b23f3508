-- ===== src/Model/Tests.antt =====
-- model.py on small inputs: addresses, filters, groups and ranks.
use pna.Base.{
  ℕ, ◌-◌, ◌/◌, ◌^◌, ◌≡◌, refl, List, [], ◌∷◌, ◌++◌, map, Bool, false, not, ◌==◌, nat_eq, text_eq,
  string_eq, Result, ok, arith, if◌then◌else◌, leb,
}
use pna.Base.Int.{pos}
use pna.Base.Text.{codes, show}
use pna.Base.Value.{num, rows, Tuple, Entry, Log}
use pna.Model.Address.{int2ip, ip2int, reject_address}
use pna.Model.Address.RoundTrip.{ip2int-int2ip}
use pna.Model.Address.Network.{reject_address_network}
use pna.Model.Pattern.{accepts, latest_re}
use pna.Model.Filter.{Filters, filter_reject, do_filter}
use pna.Model.Filter.Keeps.{renamed, IsLog, do_filter_keeps}
use pna.Model.Filter.Total.{AllFit, filter_reject_total}
use pna.Model.Rank.{ranked, read_keys}
use pna.Model.Rank.Ordered.{rows_of, with_key, IsDescending, ranked_lem}

ip2int-int2ip_example : ip2int (int2ip 3232235777) ≡ ok (pos 3232235777)
ip2int-int2ip_example = ip2int-int2ip 3232235777 (omega arith)

-- 192.168.1.1 against 192.168.0.0/16
reject_address_network_example :
    reject_address (int2ip 3232235520 ++ (b'/' ∷ show 16)) 3232235777
    ≡ ok (not (3232235777 / 2 ^ (32 - 16) == 3232235520 / 2 ^ (32 - 16)))
reject_address_network_example =
    reject_address_network 3232235520 16 3232235777 (omega arith) (omega arith) (omega arith)

abbrev network_filter : Filters
network_filter = ("local-ip", codes "10.0.0.0/8") ∷ []

network_filter-AllFit : AllFit network_filter
unfolding accepts
network_filter-AllFit = (refl, tt)

filter_reject_total_example :
    (b : Bool) × (filter_reject {R = Tuple} network_filter "local-ip" (num 167772161) ≡ ok b)
filter_reject_total_example =
    filter_reject_total Tuple network_filter "local-ip" 167772161 network_filter-AllFit

abbrev small_flow : Entry
small_flow = ("local_ip", num 5) ∷ ("remote_ip", num 6) ∷ ("begin_time", num 7) ∷ []

abbrev small_log : Log
small_log =
    ("start_time", num 1)
    ∷ ("end_time", num 2)
    ∷ ("nentries", num 1)
    ∷ ("flows", rows (small_flow ∷ []))
    ∷ []

small_log-IsLog : IsLog small_log
small_log-IsLog = record {
  start_time = refl;
  end_time = refl;
  nentries = refl;
  flows = refl;
  all_flows = (record { local_ip = refl; remote_ip = refl; begin_time = refl }, tt);
}

do_filter_keeps_example : do_filter network_filter (small_log ∷ []) ≡ ok (renamed small_log ∷ [])
do_filter_keeps_example = do_filter_keeps network_filter (small_log ∷ []) tt (small_log-IsLog, tt)

abbrev latest_filter : Filters
latest_filter = ("latest", codes "x") ∷ []

latest_refused : accepts latest_re (codes "x") ≡ false
unfolding accepts
latest_refused = refl

abbrev itself : ℕ → Result ℕ
itself n = ok n

abbrev numbers : List ℕ
numbers = 3 ∷ 9 ∷ 4 ∷ 9 ∷ 2 ∷ []

abbrev keyed_numbers : List (ℕ × ℕ)
keyed_numbers = map (λ n. (n, n)) numbers

numbers_read : read_keys itself numbers ≡ ok keyed_numbers
unfolding read_keys
numbers_read = refl

ranked_lem_example :
    (out : List (ℕ × ℕ)) × (ranked itself 3 numbers ≡ ok (rows_of itself out))
    × (read_keys itself (rows_of itself out) ≡ ok out)
    × IsDescending out
    × ((n : ℕ) → with_key n out ≡ (if leb 3 n then with_key n keyed_numbers else []))
ranked_lem_example = ranked_lem itself 3 numbers keyed_numbers numbers_read
