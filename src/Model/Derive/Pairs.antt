-- ===== src/Model/Derive/Pairs.antt =====
-- The keys of `derive_point_to_points` name the pair of addresses, and what a dict with them has of a
-- pair.
use pna.Base.{
  ℕ, ◌+◌, ◌≤◌, ◌≡◌, refl, ap, sym, ◌∙◌, List, [], ◌∷◌, All, All-append, text_eq, nat_eq, ◌==◌, ◌&&◌,
  Bool, true, false, if◌then◌else◌, Option, none, some, arith, ok, >>=-eq-ok, ok-injective, subst,
  Bool-cases, inl, inr, Option-cases,
}
use pna.Base.Dict.{Dict, lookup, insert}
use pna.Base.Text.{Text, split}
use pna.Base.Text.Split.{Lacks, split_lacking, split-append}
use pna.Base.Value.{Entry, Log, get_num, get_rows}
use pna.Model.Address.RoundTrip.{int2ip-Lacks}
use pna.Model.Derive.{
  Name, count, add_counts, PointToPoint, pair_key, counts_of, combine_pair, values, entry_counts,
  add_tuples, no_sums,
}
use pna.Model.Derive.Fold.{
  sum, part, sum-insert, count-add_counts, count_none, entries_counts, logs_counts,
}
use pna.Model.Derive.Totals.{pair_count, one}

-- The pair is `local` and `remote`.
abbrev pub same_pair : Text → Text → PointToPoint → Bool
same_pair l r e = e.local_ip == l && e.remote_ip == r

-- A measure of an entry or a row, if it is of the pair.
abbrev pub at_pair : Text → Text → (PointToPoint → ℕ) → PointToPoint → ℕ
at_pair l r f e = if same_pair l r e then f e else 0

-- The addresses do not hold the sign between them.
abbrev pub IsPair : PointToPoint → Type 0
IsPair e = Lacks b'>' e.local_ip × Lacks b'>' e.remote_ip

split-pair_key :
    (e : PointToPoint) → IsPair e → split b'>' (pair_key e) ≡ e.local_ip ∷ e.remote_ip ∷ []
unfolding pair_key
split-pair_key e (l, r) =
    split-append b'>' e.local_ip e.remote_ip l
    ∙ ap (λ t. e.local_ip ∷ t) (split_lacking b'>' e.remote_ip r)

abbrev first_or : List Text → Text
first_or [] = []
first_or (t ∷ ts) = t

abbrev second_or : List Text → Text
second_or (s ∷ t ∷ ts) = t
second_or _ = []

pub pair_key-injective :
    (a b : PointToPoint)
    → IsPair a
    → IsPair b
    → pair_key a ≡ pair_key b
    → (a.local_ip ≡ b.local_ip) × (a.remote_ip ≡ b.remote_ip)
pair_key-injective a b ha hb e =
    let same : a.local_ip ∷ a.remote_ip ∷ [] ≡ b.local_ip ∷ b.remote_ip ∷ [] =
      sym (split-pair_key a ha) ∙ (ap (split b'>') e ∙ split-pair_key b hb) in
    (ap first_or same, ap second_or same)

same_pair-key :
    (l r : Text) (a b : PointToPoint)
    → IsPair a
    → IsPair b
    → pair_key a ≡ pair_key b
    → same_pair l r a ≡ same_pair l r b
same_pair-key l r a b ha hb e =
    let (local, remote) = pair_key-injective a b ha hb e in rw (local, remote) refl

same_pair_eq :
    (l r : Text) (e : PointToPoint) → same_pair l r e ≡ true → (e.local_ip ≡ l) × (e.remote_ip ≡ r)
same_pair_eq l r e h = ground (arith, text_eq.beq_iff e.local_ip l, text_eq.beq_iff e.remote_ip r)

entry_counts-IsPair : (entry : Entry) (e : PointToPoint) → entry_counts entry ≡ ok e → IsPair e
unfolding entry_counts
entry_counts-IsPair entry e h =
    let (local, _, h1) = >>=-eq-ok (get_num "local-ip" entry) _ h in
    let (remote, _, h2) = >>=-eq-ok (get_num "remote-ip" entry) _ h1 in
    let (ntcp, _, h3) = >>=-eq-ok (get_num "ntcp" entry) _ h2 in
    let (nudp, _, h4) = >>=-eq-ok (get_num "nudp" entry) _ h3 in
    let (tcps, _, h5) = >>=-eq-ok (get_rows "tcp-tuples" entry) _ h4 in
    let (udps, _, h6) = >>=-eq-ok (get_rows "udp-tuples" entry) _ h5 in
    let (tcp, _, h7) = >>=-eq-ok (add_tuples no_sums tcps) _ h6 in
    let (udp, _, h8) = >>=-eq-ok (add_tuples (record tcp { pkts = 0; bytes = 0 }) udps) _ h7 in
    subst IsPair (ok-injective h8) (
      int2ip-Lacks b'>' local (inr (omega arith)) (λ x. absurd (omega arith)),
      int2ip-Lacks b'>' remote (inr (omega arith)) (λ x. absurd (omega arith)),
    )

entries_counts-IsPair :
    (entries : List Entry) (es : List PointToPoint) → entries_counts entries ≡ ok es → All IsPair es
unfolding entries_counts
entries_counts-IsPair [] es h = subst (All IsPair) (ok-injective h) tt
entries_counts-IsPair (entry ∷ entries) es h =
    let (e, read, later) = >>=-eq-ok (entry_counts entry) _ h in
    let (es', reads, whole) = >>=-eq-ok (entries_counts entries) _ later in
    subst (All IsPair) (ok-injective whole)
      (entry_counts-IsPair entry e read, entries_counts-IsPair entries es' reads)

pub logs_counts-IsPair :
    (items : List Log) (es : List PointToPoint) → logs_counts items ≡ ok es → All IsPair es
unfolding logs_counts
logs_counts-IsPair [] es h = subst (All IsPair) (ok-injective h) tt
logs_counts-IsPair (item ∷ items) es h =
    let (watch, _, later) = >>=-eq-ok (get_rows "watch-data" item) _ h in
    let (fs, first, later') = >>=-eq-ok (entries_counts watch) _ later in
    let (gs, rest, whole) = >>=-eq-ok (logs_counts items) _ later' in
    subst (All IsPair) (ok-injective whole) (
      All-append IsPair fs gs (entries_counts-IsPair watch fs first)
        (logs_counts-IsPair items gs rest))

-- Every row stands under its key.
abbrev pub Stored : Dict Text PointToPoint → Type 0
Stored [] = Unit
Stored ((k, v) ∷ d) = ((pair_key v ≡ k) × IsPair v) × Stored d

abbrev Found : Text → Option PointToPoint → Type 0
Found k none = Unit
Found k (some v) = (pair_key v ≡ k) × IsPair v

insert-Stored :
    (k : Text) (v : PointToPoint) (d : Dict Text PointToPoint)
    → (pair_key v ≡ k) × IsPair v
    → Stored d
    → Stored (insert k v d)
insert-Stored k v [] h hs = (h, tt)
insert-Stored k v ((j, w) ∷ d) h (hw, hs) = elim (Bool-cases (j == k)) [
  | inl same ↦ rw same ((h.0 ∙ sym ((text_eq.beq_iff j k).0 same), h.1), hs)
  | inr other ↦ rw other (hw, insert-Stored k v d h hs)
]

lookup-Found : (k : Text) (d : Dict Text PointToPoint) → Stored d → Found k (lookup k d)
lookup-Found k [] h = tt
lookup-Found k ((j, w) ∷ d) (hw, hs) = elim (Bool-cases (j == k)) [
  | inl same ↦ rw same (hw.0 ∙ (text_eq.beq_iff j k).0 same, hw.1)
  | inr other ↦ rw other (lookup-Found k d hs)
]

pub combine_pair-Stored :
    (d : Dict Text PointToPoint) (e : PointToPoint)
    → IsPair e
    → Stored d
    → Stored (combine_pair d e)
unfolding combine_pair pair_key
combine_pair-Stored d e h hs = insert-Stored (pair_key e) _ d (refl, h) hs

-- One if there is any.
abbrev pub once : ℕ → ℕ
once n = if n == 0 then 0 else 1

balance :
    (b : Bool) (new old was p o x : ℕ)
    → new + was ≡ old + (if b then p else 0)
    → was ≡ (if b then o else 0)
    → p ≡ o + x
    → new ≡ old + (if b then x else 0)
balance true new old was p o x h1 h2 h3 = omega arith
balance false new old was p o x h1 h2 h3 = omega arith

balance_away : (new was old : ℕ) → new + was ≡ old + 0 → was ≡ 0 → old ≤ 1 → new ≡ once (old + 0)
balance_away new was old h1 h2 h3 = ground (arith, nat_eq.beq_iff (old + 0) 0)

balance_new : (new was old : ℕ) → new + was ≡ old + 1 → was ≡ 0 → old ≡ 0 → new ≡ once (old + 1)
balance_new new was old h1 h2 h3 = ground (arith, nat_eq.beq_iff (old + 1) 0)

balance_old :
    (new was old : ℕ) → new + was ≡ old + 1 → was ≡ 1 → was ≤ old → old ≤ 1 → new ≡ once (old + 1)
balance_old new was old h1 h2 h3 h4 = ground (arith, nat_eq.beq_iff (old + 1) 0)

pair_key_cong :
    (a b : PointToPoint)
    → a.local_ip ≡ b.local_ip
    → a.remote_ip ≡ b.remote_ip
    → pair_key a ≡ pair_key b
unfolding pair_key
pair_key_cong a b l r = rw (l, r) refl

module _ (l r : Text) where
  part-at_pair :
      (f : PointToPoint → ℕ) (e : PointToPoint) (o : Option PointToPoint)
      → IsPair e
      → Found (pair_key e) o
      → part (at_pair l r f) o ≡ (if same_pair l r e then part f o else 0)
  part-at_pair f e none h found = ground arith
  part-at_pair f e (some w) h (key, hw) = rw (same_pair-key l r w e hw h key) refl

  part-counts_of :
      (n : Name) (o : Option PointToPoint) → part (pair_count n) o ≡ count n (counts_of o)
  part-counts_of n none = sym (count_none n)
  part-counts_of n (some p) = refl

  -- What an entry adds to the row of a pair.
  pub combine_pair-at_pair :
      (n : Name) (d : Dict Text PointToPoint) (e : PointToPoint)
      → IsPair e
      → Stored d
      → sum (at_pair l r (pair_count n)) (values (combine_pair d e))
        ≡ sum (at_pair l r (pair_count n)) (values d) + at_pair l r (pair_count n) e
  unfolding combine_pair
  combine_pair-at_pair n d e h hs =
      let old = lookup (pair_key e) d in
      let v = record e { counts = add_counts (counts_of old) e.counts } in
      let whole = sum-insert (at_pair l r (pair_count n)) (pair_key e) v d in
      let before = part-at_pair (pair_count n) e old h (lookup-Found (pair_key e) d hs) in
      let adds = count-add_counts n (counts_of old) e.counts in
      let was = part-counts_of n old in
      balance (same_pair l r e) _ _ _ _ (count n (counts_of old)) (count n e.counts) whole
        (before ∙ ap (λ c. if same_pair l r e then c else 0) was) adds

  -- No row of a pair without a key
  lookup-none :
      (e : PointToPoint) (d : Dict Text PointToPoint)
      → same_pair l r e ≡ true
      → Stored d
      → lookup (pair_key e) d ≡ none
      → sum (at_pair l r one) (values d) ≡ 0
  lookup-none e [] same hs missing = refl
  lookup-none e ((j, w) ∷ d) same ((key, hw), hs) missing = elim (Bool-cases (j == pair_key e)) [
    | inl here ↦ let found : some w ≡ none = rw here at missing in cc
    | inr other ↦
        let rest = lookup-none e d same hs (rw other at missing) in
        elim (Bool-cases (same_pair l r w)) [
          | inl here ↦
              let (le, re) = same_pair_eq l r e same in
              let (lw, rw') = same_pair_eq l r w here in
              let keys : j ≡ pair_key e =
                sym key ∙ pair_key_cong w e (lw ∙ sym le) (rw' ∙ sym re) in
              let yes' = (text_eq.beq_iff j (pair_key e)).1 keys in cc
          | inr away ↦ rw (away, rest) refl
        ]
  ]

  part-le-sum :
      (f : PointToPoint → ℕ) (k : Text) (d : Dict Text PointToPoint)
      → part f (lookup k d) ≤ sum f (values d)
  part-le-sum f k [] = omega arith
  part-le-sum f k ((j, w) ∷ d) = elim (Bool-cases (j == k)) [
    | inl here ↦ rw here (omega arith)
    | inr other ↦ rw other (omega (arith, part-le-sum f k d))
  ]

  -- An entry makes the one row of its pair, if there is none yet.
  pub combine_pair-once :
      (d : Dict Text PointToPoint) (e : PointToPoint)
      → IsPair e
      → Stored d
      → sum (at_pair l r one) (values d) ≤ 1
      → sum (at_pair l r one) (values (combine_pair d e))
        ≡ once (sum (at_pair l r one) (values d) + at_pair l r one e)
  unfolding combine_pair
  combine_pair-once d e h hs few =
      let old = lookup (pair_key e) d in
      let v = record e { counts = add_counts (counts_of old) e.counts } in
      let whole = sum-insert (at_pair l r one) (pair_key e) v d in
      let before = part-at_pair one e old h (lookup-Found (pair_key e) d hs) in
      elim (Bool-cases (same_pair l r e)) [
        | inr away ↦
            let no_part : part (at_pair l r one) old ≡ 0 = rw away at before in
            let same = rw away at whole in rw away (balance_away _ _ _ same no_part few)
        | inl here ↦
            let now = rw here at whole in
            rw here (elim (Option-cases old) [
              | inl missing ↦
                  balance_new _ _ _ now (ap (part (at_pair l r one)) missing)
                    (lookup-none e d here hs missing)
              | inr (w, found) ↦
                  let was : part (at_pair l r one) old ≡ 1 =
                    rw here at before ∙ ap (part one) found in
                  balance_old _ _ _ now was (part-le-sum (at_pair l r one) (pair_key e) d) few
            ])
      ]
