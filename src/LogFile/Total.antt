-- ===== src/LogFile/Total.antt =====
-- Reading a log ends, on every file.
use native.Mathlib.Decide.{dec_lt, ℕ_discrete}
use pna.Base.{
  ℕ, zero, suc, ◌+◌, ◌/◌, ◌%◌, ◌≤◌, ◌<◌, ◌≡◌, ◌≢◌, refl, ap, ◌∙◌, ◌&&◌, ◌-◌, List, [], ◌∷◌, take,
  drop, length, arith, Bool, get_elem?, Option-cases, Bool-cases, inl, inr, true, false, Result, ok,
  err, stuck, String, struct_error, ok-injective, subst, All, ◌>>=◌, ◌==◌, text_eq, nat_eq,
  string_eq, if◌then◌else◌, some,
}
use pna.Base.Dict.{Dict}
use pna.Base.Text.{codes}
use pna.Base.Value.{Value, Tuple, Entry, get, get_num, Has}
use pna.Struct.{Bytes, calc_size, unpack}
use pna.LogFile.{Parser, numbered, init, parse, read_log, entry_v1}
use pna.LogFile.Loop.{entry_size, outcome, parse_whole, entry_at, filled, entries_from}
use pna.LogFile.Settle.{
  init_short, init_long, init_unknown, init_cut, init_magic, init_magic_short, old_parser,
}

-- What the tools read of an entry.
abbrev pub HasFlow : Entry → Type 0
HasFlow e = Has "local_ip" e × Has "remote_ip" e × Has "begin_time" e

-- The numbers of an entry that a table of flows shows.
abbrev pub numbers : List String
numbers =
    "local_ip" ∷ "remote_ip" ∷ "l4_protocol" ∷ "begin_time" ∷ "local_port" ∷ "remote_port"
    ∷ "packets_in" ∷ "packets_out" ∷ "octets_in" ∷ "octets_out" ∷ "local_flags" ∷ "remote_flags"
    ∷ []

abbrev pub HasNumber : {R : Type 0} → Dict String (Value R) → String → Type 0
HasNumber e k = (n : ℕ) × (get_num k e ≡ ok n)

-- What every object that was made has: the fields of its header, entries with the fields of a flow
-- and with bytes, and a position in the file.
pub record IsReady (p : Parser) : Type 0 where
  pub end : Value Tuple
  pub known : get "end_time" p.header ≡ ok end
  pub started : Has "start_time" p.header
  pub counted : Has "nentries" p.header
  pub flow : (end : Value Tuple) (offset : ℕ) → HasFlow (entry_at p end offset)
  pub shown : (end : Value Tuple) (offset : ℕ) → All (HasNumber (entry_at p end offset)) numbers
  pub started_at : HasNumber p.header "start_time"
  pub sized : 0 < entry_size p
  pub inside : p.position ≤ length p.bytes

-- The outcome of `init`: an object that is ready, or an exception.
abbrev pub Starts : Result Parser → Type 0
Starts (ok p) = IsReady p
Starts (err e) = Unit
Starts stuck = ⊥

Starts-old :
    (bytes : Bytes) (b : Bool)
    → 52 ≤ length bytes
    → Starts (
        ok (
          if b
          then old_parser bytes
          else record (old_parser bytes) { version = numbered 1; ent_fields = entry_v1 }))
unfolding calc_size unpack entry_at filled
Starts-old bytes true long = record {
  end = _;
  known = refl;
  started = refl;
  counted = refl;
  flow = λ end offset. (refl, refl, refl);
  shown = λ end offset. (
    (_, refl),
    (
      (_, refl),
      (
        (_, refl),
        (
          (_, refl),
          (
            (_, refl),
            (
              (_, refl),
              ((_, refl), ((_, refl), ((_, refl), ((_, refl), ((_, refl), ((_, refl), tt)))))),
            ),
          ),
        ),
      ),
    ),
  );
  started_at = (_, refl);
  sized = omega arith;
  inside = omega arith;
}
Starts-old bytes false long = record {
  end = _;
  known = refl;
  started = refl;
  counted = refl;
  flow = λ end offset. (refl, refl, refl);
  shown = λ end offset. (
    (_, refl),
    (
      (_, refl),
      (
        (_, refl),
        (
          (_, refl),
          (
            (_, refl),
            (
              (_, refl),
              ((_, refl), ((_, refl), ((_, refl), ((_, refl), ((_, refl), ((_, refl), tt)))))),
            ),
          ),
        ),
      ),
    ),
  );
  started_at = (_, refl);
  sized = omega arith;
  inside = omega arith;
}

-- Two bytes, where there are two.
two_of :
    (n : ℕ) (bs : Bytes)
    → n + 2 ≤ length bs
    → (b0 : ℕ) × (b1 : ℕ) × (rest : Bytes) × (drop n bs ≡ b0 ∷ b1 ∷ rest)
two_of zero [] h = absurd (omega arith)
two_of zero (x ∷ []) h = absurd (omega arith)
two_of zero (x ∷ y ∷ bs) h = (x, y, bs, refl)
two_of (suc n) [] h = absurd (omega arith)
two_of (suc n) (x ∷ bs) h = two_of n bs (omega arith)

Starts-plain : (bytes : Bytes) → (take 3 bytes == codes "PNA") ≡ false → Starts (init bytes)
Starts-plain bytes plain = elim (dec_lt (length bytes) 52) [
  | yes short ↦ rw (init_short bytes plain short) tt
  | no long ↦
      let (b0, b1, rest, at) = two_of 50 bytes (omega arith) in
      rw (init_long bytes plain b0 b1 rest (omega arith) at)
        (Starts-old bytes (b0 == 0 && b1 == 0) (omega arith))
]

Starts-v2 :
    (bytes : Bytes)
    → (take 3 bytes == codes "PNA") ≡ true
    → get_elem? bytes 3 ≡ some 2
    → Starts (init bytes)
unfolding calc_size unpack entry_at filled
Starts-v2 bytes magic at = elim (dec_lt (length bytes) 16) [
  | yes short ↦ rw (init_magic_short bytes magic at short) tt
  | no long ↦ rw (init_magic bytes magic at (omega arith)) (record {
    end = _;
    known = refl;
    started = refl;
    counted = refl;
    flow = λ end offset. (refl, refl, refl);
    shown = λ end offset. (
      (_, refl),
      (
        (_, refl),
        (
          (_, refl),
          (
            (_, refl),
            (
              (_, refl),
              (
                (_, refl),
                ((_, refl), ((_, refl), ((_, refl), ((_, refl), ((_, refl), ((_, refl), tt)))))),
              ),
            ),
          ),
        ),
      ),
    );
    started_at = (_, refl);
    sized = omega arith;
    inside = omega arith;
  })
]

Starts-magic : (bytes : Bytes) → (take 3 bytes == codes "PNA") ≡ true → Starts (init bytes)
Starts-magic bytes magic = elim (Option-cases (get_elem? bytes 3)) [
  | inl cut ↦ rw (init_cut bytes magic cut) tt
  | inr (n, at) ↦ elim (ℕ_discrete n 2) [
    | yes two ↦ Starts-v2 bytes magic (at ∙ ap some two)
    | no other ↦ rw (init_unknown bytes magic n at other) tt
  ]
]

-- Whatever bytes a file holds, making the object ends, and an object that was made is ready: its
-- header has the times and the count, its entries have bytes and the fields of a flow, and its
-- position is in the file.
pub init-Starts : (bytes : Bytes) → Starts (init bytes)
init-Starts bytes = elim (Bool-cases (take 3 bytes == codes "PNA")) [
  | inl magic ↦ Starts-magic bytes magic
  | inr plain ↦ Starts-plain bytes plain
]

-- `parse` of an object that is ready: an ending, with the position at the end of the file if no
-- exception was raised.
abbrev pub Ends : Parser → Result (List Entry × Parser) → Type 0
Ends p (ok (sessions, p')) = p'.position ≡ length p.bytes
Ends p (err e) = e ≡ struct_error
Ends p stuck = ⊥

outcome-Ends : (p : Parser) (end : Value Tuple) (n r : ℕ) → Ends p (outcome p end [] n r)
unfolding outcome
outcome-Ends p end n zero = refl
outcome-Ends p end n (suc r) = refl

pub parse-Ends : (p : Parser) → IsReady p → Ends p (parse p)
parse-Ends p ready =
    let left = length p.bytes - p.position in
    let n = left / entry_size p in
    let r = left % entry_size p in
    rw (parse_whole p ready.end ready.known n r (grind arith) (grind arith))
      (outcome-Ends p ready.end n r)

module _ (Q : Entry → Type 0) (p : Parser)
    (every : (end : Value Tuple) (offset : ℕ) → Q (entry_at p end offset)) where
  entries_from-All : (end : Value Tuple) (offset n : ℕ) → All Q (entries_from p end offset n)
  unfolding entries_from
  entries_from-All end offset zero = tt
  entries_from-All end offset (suc n) =
      (every end offset, entries_from-All end (offset + entry_size p) n)

  outcome-All :
      (p' : Parser) (end : Value Tuple) (n r : ℕ) (flows : List Entry)
      → outcome p end [] n r ≡ ok (flows, p')
      → All Q flows
  unfolding outcome
  outcome-All p' end n zero flows h =
      let same : entries_from p end p.position n ≡ flows = ap (λ x. x.0) (ok-injective h) in
      subst (All Q) same (entries_from-All end p.position n)
  outcome-All p' end n (suc r) flows h = cc

  parse-All :
      (p' : Parser) (flows : List Entry) → IsReady p → parse p ≡ ok (flows, p') → All Q flows
  parse-All p' flows ready h =
      let left = length p.bytes - p.position in
      let n = left / entry_size p in
      let r = left % entry_size p in
      let whole = parse_whole p ready.end ready.known n r (grind arith) (grind arith) in
      outcome-All p' ready.end n r flows (rw whole at h)

-- Every entry that parse of a ready object returns has the addresses and the begin time of a flow.
pub parse-HasFlow :
    (p p' : Parser) (flows : List Entry) → IsReady p → parse p ≡ ok (flows, p') → All HasFlow flows
parse-HasFlow p p' flows ready h = parse-All HasFlow p ready.flow p' flows ready h

-- And the numbers of a table.
abbrev pub HasNumbers : Entry → Type 0
HasNumbers e = All (HasNumber e) numbers

pub parse-HasNumbers :
    (p p' : Parser) (flows : List Entry)
    → IsReady p
    → parse p ≡ ok (flows, p')
    → All HasNumbers flows
parse-HasNumbers p p' flows ready h = parse-All HasNumbers p ready.shown p' flows ready h

-- Whatever bytes a file holds, making the object and parse end.
pub read_log-ne-stuck : (bytes : Bytes) → read_log bytes ≢ stuck
unfolding read_log
read_log-ne-stuck bytes = go (init bytes) (init-Starts bytes)
  where
    last : (p : Parser) (r : Result (List Entry × Parser)) → Ends p r → (r >>= λ x. ok x.0) ≢ stuck
    last p (ok x) h e = cc
    last p (err x) h e = cc
    last p stuck h e = h

    go : (r : Result Parser) → Starts r → (r >>= λ p. parse p >>= λ x. ok x.0) ≢ stuck
    go (ok p) h = last p (parse p) (parse-Ends p h)
    go (err x) h = λ e. cc
    go stuck h = absurd h
