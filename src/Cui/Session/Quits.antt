-- ===== src/Cui/Session/Quits.antt =====
-- The loop of a session in which no log was added ends when it is quit.
use pna.Base.{◌≡◌, ◌≢◌, refl, ap, sym, subst, ◌∙◌, List, [], ◌∷◌, ◌++◌, true, Option, some, ok}
use pna.Model.State.Idle.{IsIdle}
use pna.Cui.Keys.{Key, letter, among, esc}
use pna.Cui.Keys.Same.{among-All}
use pna.Cui.Session.{
  Session, write_view, quit_action, Control, runs, waits, exits, handlers, handle_control, Event,
  arrives, round, interact, run_action,
}
use pna.Cui.Session.Invariant.{IsSession, IsCurrent, Holds, write_view-IsSession}
use pna.Cui.Session.Handlers.{handle_control-Holds}
use pna.Cui.Session.Dispatch.{action_of, handle_control-action_of}
use pna.Cui.Session.Idle.{IsBlank, IsReadable, GoesTo, write_view-Blanks, handle_control-Goes}
use pna.Cui.Session.Escape.{closed}
use pna.Cui.Session.Closes.{handle_control-closed}

-- No file arrives, and the dialogs of all rounds are left with Ctrl-U, Enter, ESC and ESC.
abbrev pub AreClosed : List Event → Type 0
AreClosed [] = Unit
AreClosed (arrives file ∷ events) = ⊥
AreClosed (round key inputs ∷ events) =
    ((front : List (Option Key)) × (inputs ≡ closed front)) × IsReadable inputs × AreClosed events

abbrev pub quit_keys : List Key
quit_keys = letter b'q' ∷ letter b'Q' ∷ esc ∷ []

quits-action_of :
    (key : Key) → among key quit_keys ≡ true → action_of handlers key ≡ some quit_action
quits-action_of key h =
    among-All (λ k. action_of handlers k ≡ some quit_action) key quit_keys
      (refl, (refl, (refl, tt))) h

-- Drawing an idle session
drawn :
    (s : Session)
    → IsSession s
    → IsIdle s.model
    → (t : Session) × (write_view s ≡ ok t) × IsBlank t × IsSession t × IsCurrent t
drawn s h idle =
    let (t, e, blank) = write_view-Blanks s idle in
    let (h', current) = write_view-IsSession s t e h in (t, e, blank, h', current)

quit_round :
    (key : Key) (inputs : List (Option Key)) (s : Session)
    → among key quit_keys ≡ true
    → IsSession s
    → IsIdle s.model
    → interact (round (some key) inputs ∷ []) s ≡ ok exits
unfolding interact run_action
quit_round key inputs s quits h idle =
    let (t, e, _) = write_view-Blanks s idle in
    rw (e, handle_control-action_of key inputs t, quits-action_of key quits)

-- With no log added, nothing in a valid cache but an empty table, and a session as in the
-- invariant, the loop ends with sys.exit(0) at q, Q or ESC after any rounds in which every dialog
-- was left with Ctrl-U, Enter, ESC and ESC, provided that the keys in dialogs which are numbers are
-- ones an edit field handles, and that no key which the field of the threshold takes is more than
-- one character.
pub interact_quits :
    (events : List Event) (s : Session) (key : Key) (inputs : List (Option Key))
    → AreClosed events
    → IsSession s
    → IsIdle s.model
    → among key quit_keys ≡ true
    → interact (events ++ round (some key) inputs ∷ []) s ≡ ok exits
unfolding interact
interact_quits [] s key inputs closing h idle quits = quit_round key inputs s quits h idle
interact_quits (arrives file ∷ events) s key inputs closing h idle quits = absurd closing
interact_quits (round k typed ∷ events) s key inputs ((front, ends), readable, more) h idle quits =
    let (t, e, blank, h', current) = drawn s h idle in
    let (c, did, goes) = handle_control-Goes typed t readable k h' blank current in
    let keeps = handle_control-Holds k typed t c readable.0 h' did in
    let not_waits =
      subst (λ i. handle_control k i t ≢ ok waits) (sym ends)
        (handle_control-closed k front t h') in
    rw (e, did)
      (after c keeps goes (λ same. not_waits (did ∙ ap ok same))
        (λ u hu idle'. interact_quits events u key inputs more hu idle' quits))
  where
    after :
        (c : Control)
        → Holds c
        → GoesTo c
        → c ≢ waits
        → ((u : Session)
            → IsSession u
            → IsIdle u.model
            → interact (events ++ round (some key) inputs ∷ []) u ≡ ok exits)
        → elim c [
          | runs u ↦ interact (events ++ round (some key) inputs ∷ []) u
          | waits ↦ ok waits
          | exits ↦ ok exits
        ]
          ≡ ok exits
    after (runs u) keeps goes n next = next u keeps goes.0
    after waits keeps goes n next = absurd (n refl)
    after exits keeps goes n next = refl
