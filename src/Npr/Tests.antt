-- ===== src/Npr/Tests.antt =====
-- The message of npr.py for one address.
use pna.Base.{◌≡◌, refl, [], ◌∷◌, Result, ok, arith}
use pna.Base.Text.{Text, codes, split}
use pna.Struct.{Bytes}
use pna.Npr.{run, sends, index_of}
use pna.Npr.Order.{run_message}

-- An `inet_aton` that knows one address
abbrev one_address : Text → Result Bytes
one_address t = ok (10 ∷ 1 ∷ 2 ∷ 3 ∷ [])

known_action :
    index_of
      (codes "unblock")
      (([] ∷ codes "block" ∷ codes "unblock" ∷ codes "clear_all" ∷ codes "whitelist" ∷ []))
      0
    ≡ ok 2
unfolding index_of
known_action = refl

run_message_example :
    run one_address (codes "npr.py" ∷ codes "unblock" ∷ codes "10.1.2.3" ∷ [])
    ≡ ok (sends (0 ∷ 0 ∷ 0 ∷ 2 ∷ 10 ∷ 1 ∷ 2 ∷ 3 ∷ []))
unfolding split
run_message_example =
    run_message one_address (codes "10.1.2.3") 10 1 2 3 (codes "npr.py") (codes "unblock") 2 refl
      refl (omega arith) (omega arith) (omega arith) (omega arith) known_action (omega arith)
      (λ e. absurd (omega arith))
