-- ===== src/LogFile/Ends.antt =====
-- The loops of parse.py end, on every file.
use native.Mathlib.Decide.{dec_lt}
use pna.Base.{
  ℕ, zero, suc, ◌+◌, ◌-◌, ◌≤◌, ◌<◌, ◌≡◌, ◌≢◌, refl, List, [], length, false, arith, Result, ok, err,
  stuck, ◌>>=◌, Bool-cases, inl, inr,
}
use pna.Base.Value.{Value, Tuple, Entry, get}
use pna.LogFile.{Parser, more, init, parse_cb_loop, parse_cb, next_entry, read_log}
use pna.LogFile.Loop.{entry_size, parse_entry_whole, parse_entry_part, moved, entry_at}
use pna.LogFile.Total.{IsReady, Starts, init-Starts, read_log-ne-stuck}
use pna.LogFile.Variants.{drain}

bind-ne-stuck :
    {A B : Type 0} (r : Result A) (f : A → Result B)
    → r ≢ stuck
    → ((a : A) → f a ≢ stuck)
    → (r >>= f) ≢ stuck
bind-ne-stuck (ok a) f hr hf = hf a
bind-ne-stuck (err x) f hr hf = λ e. cc
bind-ne-stuck stuck f hr hf = λ e. absurd (hr refl)

module _ {S : Type 0} (callback : S → Entry → Result S)
    (ends : (t : S) (e : Entry) → callback t e ≢ stuck) where
  parse_cb_loop-ne-stuck :
      (fuel : ℕ) (p : Parser) (end : Value Tuple) (s : S)
      → get "end_time" p.header ≡ ok end
      → 0 < entry_size p
      → length p.bytes - p.position ≤ fuel
      → parse_cb_loop callback fuel p s ≢ stuck
  unfolding parse_cb_loop
  parse_cb_loop-ne-stuck zero p end s known sized enough =
      let off : more p ≡ false = ground arith in rw off (λ e. cc)
  parse_cb_loop-ne-stuck (suc fuel) p end s known sized enough = elim (Bool-cases (more p)) [
    | inr off ↦ rw off (λ e. cc)
    | inl on ↦ rw on (elim (dec_lt (length p.bytes) (p.position + entry_size p)) [
      | yes short ↦ rw (parse_entry_part p short) (λ e. cc)
      | no fits ↦ rw (parse_entry_whole p end known (omega arith)) (
          bind-ne-stuck (callback s (entry_at p end p.position)) _ (ends s _) (λ t.
            parse_cb_loop-ne-stuck fuel (moved p (p.position + entry_size p)) end t known sized
              (ground arith)))
    ])
  ]

drain-ne-stuck :
    (fuel : ℕ) (p : Parser) (end : Value Tuple) (seen : List Entry)
    → get "end_time" p.header ≡ ok end
    → 0 < entry_size p
    → length p.bytes - p.position < fuel
    → drain fuel p seen ≢ stuck
unfolding drain next_entry
drain-ne-stuck zero p end seen known sized enough = absurd (omega arith)
drain-ne-stuck (suc fuel) p end seen known sized enough = elim (Bool-cases (more p)) [
  | inr off ↦ rw off (λ e. cc)
  | inl on ↦ rw on (elim (dec_lt (length p.bytes) (p.position + entry_size p)) [
    | yes short ↦ rw (parse_entry_part p short) (λ e. cc)
    | no fits ↦
        rw (parse_entry_whole p end known (omega arith)) (
          drain-ne-stuck fuel (moved p (p.position + entry_size p)) end _ known sized
            (ground arith))
  ])
]

started :
    {B : Type 0} (r : Result Parser) (f : Parser → Result B)
    → Starts r
    → ((p : Parser) → IsReady p → f p ≢ stuck)
    → (r >>= f) ≢ stuck
started (ok p) f h hf = hf p h
started (err x) f h hf = λ e. cc
started stuck f h hf = absurd h

-- Whatever bytes a file holds, making the object ends, and so do parse, parse_cb with a callback
-- that ends, and a loop over parse_iter, each on the new object: the fuel that the loops are given
-- is enough.
pub loops_end :
    {S : Type 0} (callback : S → Entry → Result S) (s : S) (bytes : List ℕ)
    → ((t : S) (e : Entry) → callback t e ≢ stuck)
    → (read_log bytes ≢ stuck)
      × ((init bytes >>= λ p. parse_cb callback p s) ≢ stuck)
      × ((init bytes >>= λ p. drain (suc (length p.bytes)) p []) ≢ stuck)
unfolding parse_cb
loops_end callback s bytes ends = (
  read_log-ne-stuck bytes,
  started (init bytes) _ (init-Starts bytes) (λ p h.
      parse_cb_loop-ne-stuck callback ends (length p.bytes) p h.end s h.known h.sized
        (omega arith)),
  started (init bytes) _ (init-Starts bytes)
      (λ p h. drain-ne-stuck (suc (length p.bytes)) p h.end [] h.known h.sized (omega arith)),
)
