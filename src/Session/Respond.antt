-- ===== src/Session/Respond.antt =====
-- The commands of Server/net_connect.cc without their connection: what a message of a client is
-- answered, and what it makes of the table of notifications.
pub mod Sound
use server_simple.Base.{
  ℕ, ◌^◌, ◌<◌, ◌≡◌, refl, ap, Bool, true, false, not, ◌&&◌, ◌||◌, Bool-cases, inl, inr, Option,
  none, some, List, [], ◌∷◌, ◌++◌, if◌then◌else◌, c_string,
}
use server_simple.Notify.{Json, json_name, as_int}
use server_simple.Registry.{
  Registry, Call, blocked, crashed, returned, ret_ok, ret_not_json_format, start_notification,
  stop_notification,
}
use server_simple.Session.Save.{save_token}
use server_simple.Session.{
  Command, ccom_sleep, ccom_quit, ccom_start_notification, ccom_stop_notification, ccom_save_token,
  ccom_hand_shaking, ccom_end, Thd, Shared, Env, Outcome, finished, hangs, crashes, is_silent,
  members, ret_checking, ret_not_service_time, net_end_statement, finish, bad_packet, with_status,
  needs_json, ready, counted, no_error, with_registry, start_command, stop_command, save_command,
  run_command, dispatch_command, send_key_to_client,
}
use server_simple.Session.Reply.{IsClear, Puts, Puts-nothing}
use server_simple.Session.Ends.{key_of, counted_back, reply_Puts, forgiven}
use server_simple.Session.Dispatch.{key_sent}

-- The bytes of an answer and whether the connection is closed after it; or nothing, since a mutex is
-- waited for, or the process is gone. In the first two the table after it.
pub data Response : Type 0 where
  answers : Bool → List ℕ → Registry → Response
  waits : Registry → Response
  dies : Response

-- The public key for CCOM_HAND_SHAKING, and the reply.
abbrev pub said : Env → Command → ℕ → ℕ → List ℕ
said env command status user_id =
    key_of env command
    ++ (if is_silent command then [] else env.render (members env status user_id) ++ (0 ∷ []))

abbrev pub refused : Env → Command → Registry → Response
refused env command reg = answers true (said env command ret_not_json_format 0) reg

abbrev pub by_call : Env → Command → ℕ → Call → Registry → Response
by_call env command user_id blocked reg = waits reg
by_call env command user_id crashed reg = dies
by_call env command user_id (returned status) reg =
    answers false (said env command status user_id) reg

abbrev pub to_start : Env → Json → Option ℕ → Registry → Response
to_start env json none reg = refused env ccom_start_notification reg
to_start env json (some id) reg =
    let (call, started) = start_notification reg json env.started in
    if env.check_exists
    then by_call env ccom_start_notification 0 (returned ret_checking) reg
    else if env.not_service
    then by_call env ccom_start_notification 0 (returned ret_not_service_time) reg
    else by_call env ccom_start_notification 0 call started

abbrev pub to_stop : Env → Option ℕ → Registry → Response
to_stop env none reg = refused env ccom_stop_notification reg
to_stop env (some id) reg =
    let (call, stopped) = stop_notification reg id in
    by_call env ccom_stop_notification 0 call stopped

abbrev pub to_command_of : Env → Command → Json → Registry → Response
to_command_of env ccom_sleep json reg = answers false (said env ccom_sleep 0 0) reg
to_command_of env ccom_quit json reg = answers true [] reg
to_command_of env ccom_end json reg = answers true [] reg
to_command_of env ccom_hand_shaking json reg =
    answers false (said env ccom_hand_shaking ret_ok 0) reg
to_command_of env ccom_start_notification json reg =
    to_start env json (as_int (json.member json_name)) reg
to_command_of env ccom_stop_notification json reg = to_stop env (as_int (json.member json_name)) reg
to_command_of env ccom_save_token json reg =
    let (call, user_id) = save_token env.database json 0 in
    by_call env ccom_save_token user_id call reg

-- The answer to a command with this text.
unfoldable pub respond : Env → Command → Json → Registry → Response
respond env command json reg =
    if needs_json command && (json.has_parse_error || not json.is_object)
    then refused env command reg
    else to_command_of env command json reg
