-- ===== src/Tests/Talks.antt =====
-- A conversation of two messages, in segments that cut the first.
use server_simple.Base.{◌≡◌, refl, some, List, [], ◌∷◌, ◌++◌, arith}
use server_simple.Socket.{segment}
use server_simple.Registry.{start_notification, find}
use server_simple.Notify.{new_notify}
use server_simple.Session.{Thd}
use server_simple.Session.Respond.{respond}
use server_simple.Connection.{Life, handle_one_connection, closed}
use server_simple.Connection.Talk.{Message, frames, converse, Talks}
use server_simple.Connection.Talk.Sound.{IsReady, handle_one_connection-Talks}
use server_simple.Tests.Data.{a_net, a_thd, a_registry, env, shared}

-- A start of a notification, with the text "{}", and CCOM_QUIT.
abbrev messages : List Message
messages =
    record { head = 3 ∷ 0 ∷ 0 ∷ 0 ∷ []; command = 2; args = 123 ∷ 125 ∷ [] }
    ∷ record { head = 1 ∷ 0 ∷ 0 ∷ 0 ∷ []; command = 1; args = [] }
    ∷ []

abbrev talking : Thd
talking = a_thd (
    a_net (segment (3 ∷ 0 ∷ []) ∷ segment (0 ∷ 0 ∷ 2 ∷ 123 ∷ 125 ∷ 1 ∷ 0 ∷ 0 ∷ 0 ∷ 1 ∷ []) ∷ [])
      (some 3 ∷ []))

talking-IsReady : IsReady talking 8 (frames messages ++ [])
talking-IsReady = record {
  clear = record { plain = refl; empty = refl };
  can_read = record {
    plain = refl;
    at_start = refl;
    capped = omega arith;
    some_room = omega arith;
    one_packet = omega arith;
    spare = omega arith;
  };
  fed = record { fd = 5; open_sd = refl; data_only = tt };
  no_failure = refl;
  linked = refl;
  alive = refl;
  size_is = refl;
  to_come = refl;
}

-- One reply, to the start.
one_reply : (converse env messages a_registry).0 ≡ 123 ∷ 125 ∷ 0 ∷ []
unfolding converse respond start_notification find new_notify
one_reply = refl

handle_one_connection-Talks_example :
    (life : Life) × (handle_one_connection env talking shared ≡ closed life)
    × Talks env shared [] [] life (converse env messages a_registry)
handle_one_connection-Talks_example =
    handle_one_connection-Talks env talking shared 8 messages [] talking-IsReady (omega arith)
      (omega arith)
