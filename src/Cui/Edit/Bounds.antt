-- ===== src/Cui/Edit/Bounds.antt =====
-- What the edit field keeps, whatever keys are pressed.
use pna.Base.{
  ℕ, zero, suc, ◌+◌, ◌-◌, ◌≤◌, ◌<◌, ◌≡◌, ◌==◌, nat_eq, refl, subst, List, [], ◌∷◌, ◌++◌, All,
  All-append, Bool, true, false, if◌then◌else◌, ltb, take, drop, length, length-append, length-take,
  length-drop, Result, ok, >>=-eq-ok, ok-injective, Option, none, some, arith, Bool-cases, inl, inr,
}
use pna.Base.Text.{Text}
use pna.Cui.Keys.{
  Key, letter, among, key_up, key_down, key_left, key_right, key_enter, esc, bs, del, nak,
}
use pna.Cui.Edit.{
  Line, Step, going, returns, delete_at, in_chars, key_text, insert_key, edit_key, edit_loop,
  get_value,
}

All-take : {A : Type 0} (P : A → Type 0) (n : ℕ) (xs : List A) → All P xs → All P (take n xs)
All-take P zero xs h = tt
All-take P (suc n) [] h = tt
All-take P (suc n) (x ∷ xs) (h, hs) = (h, All-take P n xs hs)

All-drop : {A : Type 0} (P : A → Type 0) (n : ℕ) (xs : List A) → All P xs → All P (drop n xs)
All-drop P zero xs h = h
All-drop P (suc n) [] h = tt
All-drop P (suc n) (x ∷ xs) (h, hs) = All-drop P n xs hs

length-delete_at : (p : ℕ) (v : Text) → p < length v → length (delete_at p v) + 1 ≡ length v
length-delete_at p v h =
    omega (arith, length-append (take p v) (drop (p + 1) v), length-take p v, length-drop (p + 1) v)

module _ (P : ℕ → Type 0) (most : ℕ) where
  -- The cursor is in the line or right behind it, the line is not too long, and all its characters
  -- are good.
  abbrev pub IsLine : Line → Type 0
  IsLine l = (l.position ≤ length l.value) × (length l.value ≤ most) × All P l.value

  abbrev pub IsStep : Step → Type 0
  IsStep (going l) = IsLine l
  IsStep (returns v) = (length v ≤ most) × All P v

  -- A key of which the field accepts the text is one good character.
  abbrev pub IsTyped : Text → Key → Type 0
  IsTyped chars key =
      in_chars key chars ≡ ok true → (length (key_text key) ≡ 1) × All P (key_text key)

  abbrev pub Holds : Result Step → Type 0
  Holds r = (s : Step) → r ≡ ok s → IsStep s

  Holds-ok : (s : Step) → IsStep s → Holds (ok s)
  Holds-ok s h t e = subst IsStep (ok-injective e) h

  delete_at-All : (p : ℕ) (v : Text) → All P v → All P (delete_at p v)
  delete_at-All p v h =
      All-append P (take p v) (drop (p + 1) v) (All-take P p v h) (All-drop P (p + 1) v h)

  inserted-IsLine :
      (key : Key) (l : Line)
      → IsLine l
      → length l.value < most
      → (length (key_text key) ≡ 1) × All P (key_text key)
      → IsLine (record {
        value = take l.position l.value ++ (key_text key ++ drop l.position l.value);
        position = l.position + 1;
      })
  inserted-IsLine key l (h1, h2, h3) room (one, good) =
      let front = take l.position l.value in
      let back = drop l.position l.value in
      let size : length (front ++ (key_text key ++ back)) ≡ length l.value + 1 = omega (
        arith,
        length-append front (key_text key ++ back),
        length-append (key_text key) back,
        length-take l.position l.value,
        length-drop l.position l.value,
      ) in
      (
        omega (arith, size),
        omega (arith, size),
        All-append P front (key_text key ++ back) (All-take P l.position l.value h3)
            (All-append P (key_text key) back good (All-drop P l.position l.value h3)),
      )

  insert_key-Holds :
      (width : ℕ) (chars : Text) (key : Key) (l : Line)
      → width - 2 ≤ most
      → IsTyped chars key
      → IsLine l
      → Holds (insert_key width chars key l)
  unfolding insert_key
  insert_key-Holds width chars key l wide typed h =
      elim (Bool-cases (ltb (length l.value) (width - 2))) [
        | inl room ↦ rw room (λ s e.
            let (accepted, reads, whole) = >>=-eq-ok (in_chars key chars) _ e in
            put accepted s reads whole (ground arith))
        | inr full ↦ rw full (Holds-ok (going l) h)
      ]
    where
      put :
          (accepted : Bool) (s : Step)
          → in_chars key chars ≡ ok accepted
          → ok (
              going (
                if accepted
                then record {
                  value = take l.position l.value ++ (key_text key ++ drop l.position l.value);
                  position = l.position + 1;
                }
                else l))
            ≡ ok s
          → length l.value < most
          → IsStep s
      put true s reads e room =
          subst IsStep (ok-injective e) (inserted-IsLine key l h room (typed reads))
      put false s reads e room = subst IsStep (ok-injective e) h

  if-Holds : (b : Bool) {x y : Result Step} → Holds x → Holds y → Holds (if b then x else y)
  if-Holds true hx hy = hx
  if-Holds false hx hy = hy

  if-IsLine :
      (b : Bool) (x y : Line)
      → (b ≡ true → IsLine x)
      → (b ≡ false → IsLine y)
      → IsLine (if b then x else y)
  if-IsLine true x y hx hy = hx refl
  if-IsLine false x y hx hy = hy refl

  right-IsLine :
      (l : Line)
      → IsLine l
      → IsLine
          (if ltb l.position (length l.value) then record l { position = l.position + 1 } else l)
  right-IsLine l (h1, h2, h3) =
      if-IsLine (ltb l.position (length l.value)) _ _ (λ e. (ground arith, h2, h3))
        (λ e. (h1, h2, h3))

  backspace-IsLine :
      (l : Line)
      → IsLine l
      → IsLine (
          if l.position == 0
          then l
          else record { value = delete_at (l.position - 1) l.value; position = l.position - 1 })
  backspace-IsLine l (h1, h2, h3) =
      if-IsLine (l.position == 0) _ _ (λ e. (h1, h2, h3))
        (λ e.
          let inside : l.position - 1 < length l.value =
            ground (arith, nat_eq.beq_iff l.position 0) in
          let size = length-delete_at (l.position - 1) l.value inside in
          (omega arith, omega arith, delete_at-All (l.position - 1) l.value h3))

  delete-IsLine :
      (l : Line)
      → IsLine l
      → IsLine (
          if l.position == length l.value
          then l
          else record l { value = delete_at l.position l.value })
  delete-IsLine l (h1, h2, h3) =
      if-IsLine (l.position == length l.value) _ _ (λ e. (h1, h2, h3))
        (λ e.
          let inside : l.position < length l.value =
            ground (arith, nat_eq.beq_iff l.position (length l.value)) in
          let size = length-delete_at l.position l.value inside in
          (omega arith, omega arith, delete_at-All l.position l.value h3))

  module _ (width : ℕ) (initial chars : Text) (wide : width - 2 ≤ most) where
    edit_key-Holds :
        (key : Key) (l : Line)
        → (length initial ≤ most) × All P initial
        → IsTyped chars key
        → IsLine l
        → Holds (edit_key width initial chars key l)
    unfolding edit_key
    edit_key-Holds key l start typed (h1, h2, h3) =
        if-Holds (among key (letter 13 ∷ letter 10 ∷ key_enter ∷ [])) (Holds-ok _ (h2, h3)) (
          if-Holds (among key (letter b'q' ∷ letter b'Q' ∷ esc ∷ [])) (Holds-ok _ start) (
            if-Holds (among key (key_up ∷ [])) (Holds-ok _ (omega arith, h2, h3)) (
              if-Holds (among key (key_down ∷ [])) (Holds-ok _ (omega arith, h2, h3)) (
                if-Holds (among key (key_left ∷ [])) (Holds-ok _ (omega arith, h2, h3)) (
                  if-Holds (among key (key_right ∷ [])) (Holds-ok _ (right-IsLine l (h1, h2, h3))) (
                    if-Holds (among key (bs ∷ [])) (Holds-ok _ (backspace-IsLine l (h1, h2, h3))) (
                      if-Holds (among key (del ∷ [])) (Holds-ok _ (delete-IsLine l (h1, h2, h3))) (
                        if-Holds (among key (nak ∷ [])) (Holds-ok _ (omega arith, omega arith, tt))
                          (insert_key-Holds width chars key l wide typed (h1, h2, h3))))))))))

    abbrev pub AllTyped : List (Option Key) → Type 0
    AllTyped [] = Unit
    AllTyped (none ∷ keys) = AllTyped keys
    AllTyped (some key ∷ keys) = IsTyped chars key × AllTyped keys

    go_on :
        (keys : List (Option Key))
        → ((l' : Line) → IsLine l' → Holds (edit_loop width initial chars keys l'))
        → (step s : Step) → IsStep step
        → elim step [
          | going l' ↦ edit_loop width initial chars keys l'
          | returns v ↦ ok (returns v)
        ]
          ≡ ok s
        → IsStep s
    go_on keys loop (going l') s h e = loop l' h s e
    go_on keys loop (returns v) s h e = subst IsStep (ok-injective e) h

    edit_loop-Holds :
        (keys : List (Option Key)) (l : Line)
        → (length initial ≤ most) × All P initial
        → AllTyped keys
        → IsLine l
        → Holds (edit_loop width initial chars keys l)
    unfolding edit_loop
    edit_loop-Holds [] l start typed h = Holds-ok (going l) h
    edit_loop-Holds (none ∷ keys) l start typed h = edit_loop-Holds keys l start typed h
    edit_loop-Holds (some key ∷ keys) l start (typed, all_typed) h = λ s e.
        let (step, one, later) = >>=-eq-ok (edit_key width initial chars key l) _ e in
        go_on keys (λ l'. edit_loop-Holds keys l' start all_typed) step s
          (edit_key-Holds key l start typed h step one) later

    -- Whatever keys are pressed, if each key that the field accepts as text is one good character,
    -- and the initial value is good and fits (has at most most characters, where most is at least
    -- the width less 2): while the field waits, the cursor is in the line or right behind it, and
    -- the value that it holds or returns fits and is good.
    pub get_value_bounds :
        (keys : List (Option Key)) (s : Step)
        → length initial ≤ most
        → All P initial
        → AllTyped keys
        → get_value width initial chars keys ≡ ok s
        → IsStep s
    unfolding get_value
    get_value_bounds keys s fits good typed e =
        edit_loop-Holds keys (record { value = initial; position = length initial }) (fits, good)
          typed (omega arith, fits, good) s e
