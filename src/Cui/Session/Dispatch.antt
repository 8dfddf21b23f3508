-- ===== src/Cui/Session/Dispatch.antt =====
-- At most one handler runs for a key.
use pna.Base.{
  ◌≡◌, refl, subst, sym, List, [], ◌∷◌, Bool, true, false, not, ◌&&◌, nat_eq, text_eq,
  if◌then◌else◌, Option, none, some, Result, ok, err, stuck, ◌>>=◌, Bool-cases, inl, inr,
}
use pna.Cui.Keys.{Key, same_key, among}
use pna.Cui.Keys.Same.{same_key_eq}
use pna.Cui.Session.{
  Session, Action, Control, runs, waits, exits, run_action, Handlers, handlers, dispatch,
  handle_control,
}

-- The first handler of a key.
abbrev pub action_of : Handlers → Key → Option Action
action_of [] key = none
action_of ((keys, action) ∷ rest) key = if among key keys then some action else action_of rest key

-- The key is in no entry of the table.
abbrev absent : Handlers → Key → Bool
absent [] key = true
absent ((keys, action) ∷ rest) key = not (among key keys) && absent rest key

abbrev all_absent : Handlers → List Key → Bool
all_absent rest [] = true
all_absent rest (j ∷ js) = absent rest j && all_absent rest js

-- No key is in two entries.
abbrev apart : Handlers → Bool
apart [] = true
apart ((keys, action) ∷ rest) = all_absent rest keys && apart rest

both : (a b : Bool) → (a && b) ≡ true → (a ≡ true) × (b ≡ true)
both true true h = (refl, refl)
both true false h = cc
both false b h = cc

among-absent :
    (rest : Handlers) (key : Key) (keys : List Key)
    → among key keys ≡ true
    → all_absent rest keys ≡ true
    → absent rest key ≡ true
among-absent rest key [] h all = cc
among-absent rest key (j ∷ js) h all =
    let (this, others) = both (absent rest j) (all_absent rest js) all in
    elim (Bool-cases (same_key key j)) [
      | inl same ↦ subst (λ k. absent rest k ≡ true) (sym (same_key_eq key j same)) this
      | inr other ↦ among-absent rest key js (rw other at h) others
    ]

absent-dispatch :
    (rest : Handlers) (key : Key) (inputs : List (Option Key)) (s : Session)
    → absent rest key ≡ true
    → dispatch rest key inputs s ≡ ok (runs s)
unfolding dispatch
absent-dispatch [] key inputs s h = refl
absent-dispatch ((keys, action) ∷ rest) key inputs s h = elim (Bool-cases (among key keys)) [
  | inl there ↦ absurd (cc)
  | inr missing ↦
      let later : absent rest key ≡ true = rw missing at h in
      rw missing (absent-dispatch rest key inputs s later)
]

then_absent :
    (rest : Handlers) (key : Key) (inputs : List (Option Key)) (r : Result Control)
    → absent rest key ≡ true
    → (r >>= λ c. elim c [
      | runs t ↦ dispatch rest key inputs t
      | waits ↦ ok waits
      | exits ↦ ok exits
    ])
      ≡ r
then_absent rest key inputs (ok (runs t)) h = absent-dispatch rest key inputs t h
then_absent rest key inputs (ok waits) h = refl
then_absent rest key inputs (ok exits) h = refl
then_absent rest key inputs (err e) h = refl
then_absent rest key inputs stuck h = refl

abbrev pub on_action : Option Action → List (Option Key) → Session → Result Control
on_action none inputs s = ok (runs s)
on_action (some action) inputs s = run_action action inputs s

apart-dispatch :
    (table : Handlers) (key : Key) (inputs : List (Option Key)) (s : Session)
    → apart table ≡ true
    → dispatch table key inputs s ≡ on_action (action_of table key) inputs s
unfolding dispatch
apart-dispatch [] key inputs s h = refl
apart-dispatch ((keys, action) ∷ rest) key inputs s h =
    let (this, others) = both (all_absent rest keys) (apart rest) h in
    elim (Bool-cases (among key keys)) [
      | inl there ↦ rw there (
          then_absent rest key inputs (run_action action inputs s)
            (among-absent rest key keys there this))
      | inr missing ↦ rw missing (apart-dispatch rest key inputs s others)
    ]

-- For every key at most one handler runs: handle_control does what the first entry with the key
-- does, and nothing where there is none.
pub handle_control-action_of :
    (key : Key) (inputs : List (Option Key)) (s : Session)
    → handle_control (some key) inputs s ≡ on_action (action_of handlers key) inputs s
unfolding handle_control
handle_control-action_of key inputs s = apart-dispatch handlers key inputs s refl
