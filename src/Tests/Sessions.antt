-- ===== src/Tests/Sessions.antt =====
-- Commands at small connections.
use server_simple.Base.{
  c_string, ℕ, ◌≤◌, ◌<◌, ◌≡◌, refl, true, false, none, some, [], ◌∷◌, length, replicate, arith,
}
use server_simple.Socket.{segment, failure, set_option, read}
use server_simple.Socket.Laws.{stream}
use server_simple.Vio.{vio_timeout, vio_read}
use server_simple.Net.{Net, net_set_read_timeout}
use server_simple.Net.Read.{my_net_read, my_real_read, read_loop}
use server_simple.Net.Read.Outcome.{CanRead}
use server_simple.Net.Read.Deliver.{IsArriving}
use server_simple.Notify.{Json, string}
use server_simple.Registry.{crashed}
use server_simple.Session.{
  Thd, ccom_hand_shaking, ccom_start_notification, new_command, dispatch_command, do_command,
}
use server_simple.Session.Save.{save_token, save_token_lem, Answered, insert_query}
use server_simple.Session.Ends.{Ends}
use server_simple.Session.Dispatch.{dispatch_command-Ends}
use server_simple.Session.Receive.{do_command-Ends}
use server_simple.Connection.{handle_one_connection}
use server_simple.Connection.Ends.{Closed, handle_one_connection-Closed}
use server_simple.Tests.Data.{a_net, a_thd, env, shared}

-- A start of a notification, with the text "{}", and the beginning of another packet.
abbrev arriving : Thd
arriving =
    a_thd
      (a_net (segment (3 ∷ 0 ∷ []) ∷ segment (0 ∷ 0 ∷ 2 ∷ 123 ∷ 125 ∷ 9 ∷ []) ∷ []) (some 3 ∷ []))

arriving-CanRead : CanRead arriving.net
arriving-CanRead = record {
  plain = refl;
  at_start = refl;
  capped = omega arith;
  some_room = omega arith;
  one_packet = omega arith;
  spare = omega arith;
}

new_command-IsArriving :
    IsArriving (new_command arriving.net) (3 ∷ 0 ∷ 0 ∷ 0 ∷ []) (2 ∷ 123 ∷ 125 ∷ []) (9 ∷ [])
unfolding net_set_read_timeout vio_timeout set_option
new_command-IsArriving = record {
  fed = record { fd = 5; open_sd = refl; data_only = tt };
  on_the_way = refl;
  head_size = refl;
  number = refl;
  len = refl;
  small = omega arith;
}

do_command-Ends_example :
    (n : Net) × (stream n.vio.kernel.incoming ≡ 9 ∷ [])
    × (n.vio.kernel.sent ≡ [])
    × (n.error ≡ 0)
    × Ends env ccom_start_notification
        (env.parse (c_string (123 ∷ 125 ∷ [])))
        (record arriving { net = n })
        shared
        (do_command env arriving shared)
do_command-Ends_example =
    do_command-Ends env arriving shared (3 ∷ 0 ∷ 0 ∷ 0 ∷ []) 2 (123 ∷ 125 ∷ []) (9 ∷ [])
      (record { plain = refl; empty = refl }) arriving-CanRead new_command-IsArriving refl
      (omega arith)

-- A hand shake, the reply to which goes out in part.
abbrev shaking : Thd
shaking = a_thd (a_net [] (some 2 ∷ some 1 ∷ []))

dispatch_command-Ends_example :
    Ends env ccom_hand_shaking
      (env.parse (c_string (1 ∷ [])))
      shaking
      shared
      (dispatch_command env ccom_hand_shaking shaking shared (1 ∷ []))
dispatch_command-Ends_example =
    dispatch_command-Ends env ccom_hand_shaking shaking shared (1 ∷ [])
      (record { plain = refl; empty = refl }) refl (omega arith)

-- A connection that breaks in the header.
abbrev broken : Thd
broken = a_thd (a_net (segment (3 ∷ 0 ∷ []) ∷ failure ∷ []) [])

read_fails : (my_net_read env.memory (new_command broken.net)).0 ≡ none
unfolding my_net_read my_real_read read_loop vio_read read net_set_read_timeout vio_timeout
    set_option
read_fails = refl

-- A token of 145 bytes.
abbrev long_json : Json
long_json = record {
  has_parse_error = false;
  is_object = true;
  member = λ name. some (string (replicate 145 65));
}

save_token_example :
    (length (replicate {A = ℕ} 145 65) < 145
      → Answered
          (env.database.run_query (insert_query (replicate 145 65)))
          0
          (save_token env.database long_json 0))
    × (145 ≤ length (replicate {A = ℕ} 145 65) → (save_token env.database long_json 0).0 ≡ crashed)
save_token_example = save_token_lem env.database long_json 0 (replicate 145 65) refl refl refl

handle_one_connection_example : Closed shared (handle_one_connection env arriving shared)
handle_one_connection_example =
    handle_one_connection-Closed env arriving shared (record { plain = refl; empty = refl })
      arriving-CanRead (omega arith)
