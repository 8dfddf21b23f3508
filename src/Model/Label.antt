-- ===== src/Model/Label.antt =====
-- util/intop/model.py: `PNAModel.stringify`, the labels of the display.
use pna.Base.{
  ℕ, ◌+◌, ◌-◌, [], ◌∷◌, Bool, false, ◌&&◌, ◌||◌, leb, if◌then◌else◌, String, none, some, string_eq,
}
use pna.Base.Dict.{Dict, lookup}
use pna.Base.Text.{Text, codes}

abbrev pub known_strings : Dict String Text
known_strings =
    ("sort-key", codes "Sort Key")
    ∷ ("local-ip", codes "Local IP")
    ∷ ("remote-ip", codes "Remote IP")
    ∷ ("source-port", codes "Source Port")
    ∷ ("destination-port", codes "Destination Port")
    ∷ ("begin-time", codes "Beginning Time")
    ∷ ("end-time", codes "Ending Time")
    ∷ ("tcp-tuples", codes "TCP Ports")
    ∷ ("udp-tuples", codes "UDP Ports")
    ∷ ("latest", codes "Latest Time")
    ∷ ("ntcp", codes "# TCP Ports")
    ∷ ("nudp", codes "# UDP Ports")
    ∷ ("tcp-ports", codes "# TCP Ports")
    ∷ ("tcp-packets", codes "# TCP Packets")
    ∷ ("tcp-octets", codes "# TCP Octets")
    ∷ ("udp-ports", codes "# UDP Ports")
    ∷ ("udp-packets", codes "# UDP Packets")
    ∷ ("udp-octets", codes "# UDP Octets")
    ∷ ("all-ports", codes "# All Ports")
    ∷ ("all-packets", codes "# All Packets")
    ∷ ("all-octets", codes "# All Octets")
    ∷ []

abbrev pub is_lower : ℕ → Bool
is_lower c = leb b'a' c && leb c b'z'

abbrev pub is_upper : ℕ → Bool
is_upper c = leb b'A' c && leb c b'Z'

-- `str.title()`, of the text behind a letter or behind something else
unfoldable pub title_from : Bool → Text → Text
title_from behind [] = []
title_from behind (c ∷ s) =
    (if behind then (if is_upper c then c + 32 else c) else (if is_lower c then c - 32 else c))
    ∷ title_from (is_lower c || is_upper c) s

unfoldable pub stringify : String → Text
unfolding title_from
stringify s = elim (lookup s known_strings) [
  | some label ↦ label
  | none ↦ title_from false (codes s)
]
