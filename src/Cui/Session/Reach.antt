-- ===== src/Cui/Session/Reach.antt =====
-- What can happen to a session, as steps in any order, and its invariant by induction on them.
use pna.Base.{◌≡◌, List, [], ◌∷◌, ◌++◌, Option, ok, >>=-eq-ok, ok-injective, subst, ap}
use pna.Struct.{Bytes}
use pna.Cui.Keys.{Key}
use pna.Cui.Session.{
  Session, write_view, Control, runs, waits, exits, handle_control, receive, Event, arrives, round,
  interact,
}
use pna.Cui.Session.Invariant.{IsSession, write_view-IsSession, receive-IsSession}
use pna.Cui.Session.Handlers.{ArePlain, handle_control-Holds}

-- The window is drawn, a key is handled, or the thread of the watcher adds a file.
pub data Step : Session → Session → Type 0 where
  drawn : {s t : Session} → write_view s ≡ ok t → Step s t
  handled :
      {s t : Session} (key : Option Key) (inputs : List (Option Key))
      → ArePlain inputs
      → handle_control key inputs s ≡ ok (runs t)
      → Step s t
  added : {s : Session} (file : Bytes) → Step s (receive file s)

-- Any number of steps.
pub data Reach : Session → Session → Type 0 where
  here : {s : Session} → Reach s s
  then : {s t u : Session} → Step s t → Reach t u → Reach s u

Step-IsSession : {s t : Session} → Step s t → IsSession s → IsSession t
Step-IsSession {s} {t} (drawn e) h = (write_view-IsSession s t e h).0
Step-IsSession {s} {t} (handled key inputs plain e) h =
    handle_control-Holds key inputs s (runs t) plain h e
Step-IsSession {s} (added file) h = receive-IsSession file s h

-- Whatever is reached
pub Reach-IsSession : {s t : Session} → Reach s t → IsSession s → IsSession t
Reach-IsSession here h = h
Reach-IsSession (then step rest) h = Reach-IsSession rest (Step-IsSession step h)

-- The dialogs of all rounds
abbrev pub AllRoundsPlain : List Event → Type 0
AllRoundsPlain [] = Unit
AllRoundsPlain (arrives file ∷ events) = AllRoundsPlain events
AllRoundsPlain (round key inputs ∷ events) = ArePlain inputs × AllRoundsPlain events

abbrev session_or : Session → Control → Session
session_or s c = elim c [ runs t ↦ t | waits ↦ s | exits ↦ s ]

same_session : {s t : Session} → runs s ≡ runs t → s ≡ t
same_session {s} e = ap (session_or s) e

on_control :
    (events : List Event) (key : Option Key) (inputs : List (Option Key)) (u t : Session)
    → ArePlain inputs
    → ((v : Session) → interact events v ≡ ok (runs t) → Reach v t)
    → (c : Control) → handle_control key inputs u ≡ ok c
    → elim c [ runs v ↦ interact events v | waits ↦ ok waits | exits ↦ ok exits ] ≡ ok (runs t)
    → Reach u t
on_control events key inputs u t plain next (runs v) did e =
    then (handled key inputs plain did) (next v e)
on_control events key inputs u t plain next waits did e = cc
on_control events key inputs u t plain next exits did e = cc

-- The loop takes these steps.
pub interact-Reach :
    (events : List Event) (s t : Session)
    → AllRoundsPlain events
    → interact events s ≡ ok (runs t)
    → Reach s t
unfolding interact
interact-Reach [] s t plain e = subst (Reach s) (same_session (ok-injective e)) here
interact-Reach (arrives file ∷ events) s t plain e =
    then (added file) (interact-Reach events (receive file s) t plain e)
interact-Reach (round key inputs ∷ events) s t (plain, more) e =
    let (u, drew, later) = >>=-eq-ok (write_view s) _ e in
    let (c, did, last) = >>=-eq-ok (handle_control key inputs u) _ later in
    then (drawn drew)
      (on_control events key inputs u t plain (λ v. interact-Reach events v t more) c did last)

-- Where the settings and the logs of a session are good (the values of all filters are ones that
-- their expressions accept, the threshold is at most 4294967295, the logs have the fields that
-- do_filter reads) and its selection is at least -1, they are so at every point that the loop
-- reaches, whatever keys are pressed, in the dialogs too (no key that the field of the threshold
-- takes being more than one character), and whatever files arrive between the rounds.
pub interact-IsSession :
    (events : List Event) (s t : Session)
    → AllRoundsPlain events
    → IsSession s
    → interact events s ≡ ok (runs t)
    → IsSession t
interact-IsSession events s t plain h e = Reach-IsSession (interact-Reach events s t plain e) h

append_control :
    (events more : List Event) (t : Session) (c : Control)
    → ((v : Session)
        → interact events v ≡ ok (runs t)
        → interact (events ++ more) v ≡ interact more t)
    → elim c [ runs v ↦ interact events v | waits ↦ ok waits | exits ↦ ok exits ] ≡ ok (runs t)
    → elim c [ runs v ↦ interact (events ++ more) v | waits ↦ ok waits | exits ↦ ok exits ]
      ≡ interact more t
append_control events more t (runs v) next e = next v e
append_control events more t waits next e = cc
append_control events more t exits next e = cc

-- What happens later happens to the session that was reached.
pub interact-append :
    (events more : List Event) (s t : Session)
    → interact events s ≡ ok (runs t)
    → interact (events ++ more) s ≡ interact more t
unfolding interact
interact-append [] more s t e = ap (interact more) (same_session (ok-injective e))
interact-append (arrives file ∷ events) more s t e =
    interact-append events more (receive file s) t e
interact-append (round key inputs ∷ events) more s t e =
    let (u, drew, later) = >>=-eq-ok (write_view s) _ e in
    let (c, did, last) = >>=-eq-ok (handle_control key inputs u) _ later in
    rw (drew, did) (append_control events more t c (λ v. interact-append events more v t) last)
