-- ===== src/Model/State/Loaded.antt =====
-- The logs that `add_file` puts into the object.
use pna.Base.{
  ℕ, ◌∙◌, ◌≡◌, refl, ap, subst, List, [], ◌∷◌, ◌++◌, All, All-append, false, ◌==◌, string_eq,
  String, Option, none, some, ok, err, Error, key_error, >>=-eq-ok, ok-injective, inl, inr,
  Bool-cases,
}
use pna.Base.Dict.{Dict, lookup, insert, lookup-insert}
use pna.Base.Value.{
  num, text, as_num, Tuple, Value, rows, Entry, Log, get, get_rows, field, Has, map_rows, map_dict,
  as_log, as_entry,
}
use pna.Struct.{Bytes}
use pna.LogFile.{Parser, init, parse}
use pna.LogFile.Total.{HasNumber, IsReady, HasFlow, Starts, init-Starts, parse-HasFlow}
use pna.Model.Filter.Keeps.{IsFlow, IsLog, rows_at}
use pna.Model.State.{PnaModel, add_file}

HasFlow-IsFlow : (flows : List Entry) → All HasFlow flows → All IsFlow flows
HasFlow-IsFlow [] h = tt
HasFlow-IsFlow (flow ∷ flows) ((l, r, b), hs) =
    (record { local_ip = l; remote_ip = r; begin_time = b }, HasFlow-IsFlow flows hs)

abbrev some_or {ℓ} : {A : Type ℓ} → A → Option A → A
some_or a none = a
some_or a (some b) = b

some-injective {ℓ} : {A : Type ℓ} {a b : A} → some a ≡ some b → a ≡ b
some-injective {a} h = ap (some_or a) h

lookup-map_dict :
    {R S : Type 0} (f : R → S) (k : String) (d : Dict String (Value R)) (v : Value R)
    → lookup k d ≡ some v
    → lookup k (map_dict f d) ≡ some (map_rows f v)
lookup-map_dict f k [] v h = cc
lookup-map_dict f k ((j, w) ∷ d) v h = elim (Bool-cases (j == k)) [
  | inl same ↦ let first : w ≡ v = some-injective (rw same at h) in rw (same, first)
  | inr other ↦ rw other (lookup-map_dict f k d v (rw other at h))
]

some_of_ok :
    {V : Type 0} (o : Option V) (e : Error) (w : V)
    → elim o [ none ↦ err e | some v ↦ ok v ] ≡ ok w
    → o ≡ some w
some_of_ok none e w h = cc
some_of_ok (some v) e w h = ap some (ok-injective h)

module _ {R : Type 0} where
  found :
      (k : String) (d : Dict String (Value R)) (v : Value R) → get k d ≡ ok v → lookup k d ≡ some v
  found k d v h = some_of_ok (lookup k d) (key_error k) v h

  found-Has : (k : String) (d : Dict String (Value R)) (v : Value R) → lookup k d ≡ some v → Has k d
  found-Has k d v h = rw (Has, get, field, h)

Has-item :
    (k : String) (header : Entry) (flows : List Entry)
    → ("flows" == k) ≡ false
    → Has k header
    → Has k (insert "flows" (rows flows) (as_log header))
Has-item k header flows other h =
    found-Has k (insert "flows" (rows flows) (as_log header)) (map_rows as_entry (field k header)) (
      rw (lookup-insert "flows" k (rows flows) (as_log header), other)
        (lookup-map_dict as_entry k header (field k header) (found k header (field k header) h)))

flows-item :
    (header : Log) (flows : List Entry)
    → lookup "flows" (insert "flows" (rows flows) header) ≡ some (rows flows)
flows-item header flows = lookup-insert "flows" "flows" (rows flows) header

number_of_ok : (v : Value Tuple) (n : ℕ) → as_num v ≡ ok n → v ≡ num n
number_of_ok (num k) n h = ap num (ok-injective h)
number_of_ok (text t) n h = cc
number_of_ok (rows l) n h = cc

-- A number of the header is one of the log.
pub item-number :
    (header : Entry) (flows : List Entry)
    → HasNumber header "start_time"
    → (n : ℕ) × (field "start_time" (insert "flows" (rows flows) (as_log header)) ≡ num n)
item-number header flows (n, h) =
    let (v, e, is) = >>=-eq-ok (get "start_time" header) as_num h in
    let there : lookup "start_time" header ≡ some (num n) =
      found "start_time" header v e ∙ ap some (number_of_ok v n is) in
    let copied : lookup "start_time" (insert "flows" (rows flows) (as_log header)) ≡ some (num n) =
      lookup-insert "flows" "start_time" (rows flows) (as_log header)
      ∙ lookup-map_dict as_entry "start_time" header (num n) there in
    (n, rw (field, copied))

pub flows_of_item :
    (header : Log) (flows : List Entry)
    → rows_at "flows" (insert "flows" (rows flows) header) ≡ flows
flows_of_item header flows = rw (rows_at, field, flows-item header flows)

item-IsLog :
    (p : Parser) (flows : List Entry)
    → IsReady p
    → All HasFlow flows
    → IsLog (insert "flows" (rows flows) (as_log p.header))
item-IsLog p flows ready h = record {
  start_time = Has-item "start_time" p.header flows refl ready.started;
  end_time =
      Has-item "end_time" p.header flows refl
        (found-Has "end_time" p.header ready.end (found "end_time" p.header ready.end ready.known));
  nentries = Has-item "nentries" p.header flows refl ready.counted;
  flows = rw (get_rows, get, rows_at, field, flows-item (as_log p.header) flows);
  all_flows =
      rw (get_rows, get, rows_at, field, flows-item (as_log p.header) flows)
        (HasFlow-IsFlow flows h);
}

-- Every log has the fields that `do_filter` reads, in every flow.
abbrev pub IsLoaded : PnaModel → Type 0
IsLoaded m = All IsLog m.all_data

-- Add_file of any file that it reads without an exception keeps all logs well-formed: with the
-- fields that do_filter reads, in every flow.
pub add_file-IsLoaded :
    (bytes : Bytes) (m m' : PnaModel) → IsLoaded m → add_file bytes m ≡ ok m' → IsLoaded m'
unfolding add_file
add_file-IsLoaded bytes m m' h r =
    let (p, made, later) = >>=-eq-ok (init bytes) _ r in
    let ready : IsReady p = subst Starts made (init-Starts bytes) in
    let ((flows, p'), parsed, later') = >>=-eq-ok (parse p) _ later in
    let item = item-IsLog p flows ready (parse-HasFlow p p' flows ready parsed) in
    let all : m.all_data ++ insert "flows" (rows flows) (as_log p.header) ∷ [] ≡ m'.all_data =
      ap (λ n. n.all_data) (ok-injective later') in
    subst (All IsLog) all (All-append IsLog m.all_data _ h (item, tt))
