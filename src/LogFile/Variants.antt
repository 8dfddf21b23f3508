-- ===== src/LogFile/Variants.antt =====
-- `parse_cb` and `parse_iter` deliver what `parse` returns.
use mathlib.Core.Path.{fun_ext}
use pna.Base.{
  ℕ, ◌≤◌, zero, suc, ◌≡◌, ◌∙◌, ap, subst, ok-injective, List, [], ◌∷◌, ◌++◌, append_assoc,
  append-nil, arith, length, none, some, Result, ok, stuck, >>=-eq-ok, >>=_assoc, sym, ◌<◌, ◌>>=◌,
  Bool-cases, inl, inr, true, false,
}
use pna.Base.Value.{Entry}
use pna.LogFile.{Parser, parse_entry, more, parse_loop, parse, parse_cb_loop, parse_cb, next_entry}

-- The rounds of a loop over the entries, from one position of the reader to another.
pub data Reads : Parser → List Entry → Parser → Type 0 where
  finish : {p : Parser} → more p ≡ false → Reads p [] p
  round :
      {p p' q : Parser} {e : Entry} {es : List Entry}
      → more p ≡ true
      → parse_entry p ≡ ok (e, p')
      → Reads p' es q
      → Reads p (e ∷ es) q

Reads-finish :
    {p q : Parser} {done all : List Entry}
    → more p ≡ false
    → ◌≡◌ {A = Result (List Entry × Parser)} (ok (done, p)) (ok (all, q))
    → Reads p [] q
Reads-finish {p} off h = subst (Reads p []) (ap (λ x. x.1) (ok-injective h)) (finish off)

parse_loop-Reads :
    (fuel : ℕ) (p : Parser) (done all : List Entry) (q : Parser)
    → parse_loop fuel p done ≡ ok (all, q)
    → (es : List Entry) × Reads p es q × (all ≡ done ++ es) × (length es ≤ fuel)
unfolding parse_loop
parse_loop-Reads zero p done all q h = elim (Bool-cases (more p)) [
  | inl on ↦ absurd (ground arith)
  | inr off ↦ ([], Reads-finish off (rw off at h), ground (arith, append-nil done), omega arith)
]
parse_loop-Reads (suc fuel) p done all q h = elim (Bool-cases (more p)) [
  | inl on ↦
      let (x, read, later) = >>=-eq-ok (parse_entry p) _ (rw on at h) in
      let (es, reads, whole, enough) = parse_loop-Reads fuel x.1 (done ++ x.0 ∷ []) all q later in
      (x.0 ∷ es, round on read reads, whole ∙ append_assoc done (x.0 ∷ []) es, omega arith)
  | inr off ↦ ([], Reads-finish off (rw off at h), ground (arith, append-nil done), omega arith)
]

module _ {S : Type 0} (callback : S → Entry → Result S) where
  -- The callback on each entry in turn; the first exception ends it.
  unfoldable pub feed : S → List Entry → Result S
  feed s [] = ok s
  feed s (e ∷ es) = do s' ← callback s e; feed s' es

  parse_cb_loop-feed :
      (fuel : ℕ) {p q : Parser} {es : List Entry} (s : S)
      → Reads p es q
      → length es ≤ fuel
      → parse_cb_loop callback fuel p s ≡ (feed s es >>= λ s'. ok (s', q))
  unfolding parse_cb_loop feed
  parse_cb_loop-feed zero s (finish off) enough = rw off
  parse_cb_loop-feed (suc fuel) s (finish off) enough = rw off
  parse_cb_loop-feed zero s (round on read reads) enough = absurd (omega arith)
  parse_cb_loop-feed (suc fuel) s (round {e = e} {es = es} on read reads) enough =
      rw (on, read)
        (ap (◌>>=◌ (callback s e)) (fun_ext λ s'. parse_cb_loop-feed fuel s' reads (omega arith))
          ∙ sym (>>=_assoc (callback s e) (λ s'. feed s' es) (λ s'. ok (s', _))))

  -- If parse returns the entries es, parse_cb calls the callback on es in order, and ends or raises
  -- as the callback does.
  pub parse_cb-feed :
      (p q : Parser) (es : List Entry) (s : S)
      → parse p ≡ ok (es, q)
      → parse_cb callback p s ≡ (feed s es >>= λ s'. ok (s', q))
  unfolding parse parse_cb
  parse_cb-feed p q es s h =
      let (es', reads, same, enough) = parse_loop-Reads (length p.bytes) p [] es q h in
      rw same (parse_cb_loop-feed (length p.bytes) s reads enough)

-- The loop of a client, `for entry in parser.parse_iter()`.
unfoldable pub drain : ℕ → Parser → List Entry → Result (List Entry × Parser)
drain zero p seen = stuck
drain (suc fuel) p seen = next_entry p >>= λ x. elim x.0 [
  | none ↦ ok (seen, x.1)
  | some e ↦ drain fuel x.1 (seen ++ e ∷ [])
]

drain-Reads :
    (fuel : ℕ) {p q : Parser} {es : List Entry} (seen : List Entry)
    → Reads p es q
    → length es < fuel
    → drain fuel p seen ≡ ok (seen ++ es, q)
unfolding drain next_entry
drain-Reads zero seen reads enough = absurd (omega arith)
drain-Reads (suc fuel) seen (finish off) enough = rw (off, append-nil)
drain-Reads (suc fuel) seen (round {q = q} {e = e} {es = es} on read reads) enough =
    rw (on, read)
      (drain-Reads fuel (seen ++ e ∷ []) reads (omega arith)
        ∙ ap (λ l. ok (l, q)) (append_assoc seen (e ∷ []) es))

-- If parse returns the entries es, a loop over parse_iter sees exactly es and leaves the reader at
-- the same place; one round more than the file has bytes is enough for it.
pub drain-parse :
    (p q : Parser) (es : List Entry)
    → parse p ≡ ok (es, q)
    → drain (suc (length p.bytes)) p [] ≡ ok (es, q)
unfolding parse
drain-parse p q es h =
    let (es', reads, same, enough) = parse_loop-Reads (length p.bytes) p [] es q h in
    rw same (drain-Reads (suc (length p.bytes)) [] reads (omega arith))
