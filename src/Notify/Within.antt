-- ===== src/Notify/Within.antt =====
-- The thread of a notification that the constructor of Server/NotifyMessage.cc has built.
use server_simple.Base.{ℕ, ◌+◌, ◌≡◌, Option, some, List, [], ◌∷◌, ◌++◌, length}
use server_simple.Notify.{
  Notify, Json, Built, built, thrown, asserted, json_name, to_string, get_message,
}

-- Message number `k` of a packet. One that is missing is empty.
abbrev pub message_of : Json → ℕ → Option (List ℕ)
message_of json k = get_message (json.member (json_name ++ to_string k))

-- The messages are those of the packet, from number `i` on.
abbrev AreMessages : Json → ℕ → List (List ℕ) → Type 0
AreMessages json i [] = Unit
AreMessages json i (m ∷ ms) = (message_of json i ≡ some m) × AreMessages json (i + 1) ms

-- As many messages as rounds, since one name stands for all numbers of the packet.
abbrev Fits : Json → Built → Type 0
Fits json (built n) =
    (length n.messages ≡ n.number_of_repeat)
    × (n.number_message ≡ n.number_of_repeat)
    × AreMessages json 0 n.messages
Fits json thrown = Unit
Fits json asserted = Unit
