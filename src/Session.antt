-- ===== src/Session.antt =====
-- Server/net_connect.cc as it is compiled, with ENABLE_DATA_ENCRYPTION_IN_COMMUNICATION 0: what
-- sends the reply, the handlers of the commands, `dispatch_command` and `do_command`.
pub mod Data
pub mod Save
pub mod Reply
pub mod Ends
pub mod Dispatch
pub mod Receive
pub mod Fail
pub mod Effect
pub mod Respond
use server_simple.Base.{
  c_string, ℕ, zero, suc, ◌+◌, ◌-◌, ◌%◌, ◌^◌, Bool, true, false, not, ◌&&◌, ◌||◌, Option, none,
  some, List, [], ◌∷◌, ◌++◌, ltb, leb, ◌==◌, if◌then◌else◌, length, take, drop, write_at, get_or,
}
use server_simple.Vio.{Vio}
use server_simple.Net.{Net, net_set_read_timeout, net_read_timeout}
use server_simple.Net.Write.{net_real_write, net_flush, failed}
use server_simple.Net.Read.{my_net_read}
use server_simple.Notify.{Json, Value, int, string, other, json_name, as_int}
use server_simple.Registry.{
  Registry, Call, blocked, crashed, returned, ret_ok, ret_not_json_format, start_notification,
  stop_notification,
}
use server_simple.Session.Save.{save_token}
pub use Data.*

-- `netRealWrite`, and `netFlush` after its success.
pub write_and_flush : Net → List ℕ → Net
write_and_flush net bytes =
    let (w, n) = net_real_write net bytes in if failed w then n else (net_flush n).1

unfoldable pub net_end_statement : Env → Thd → Thd
unfolding write_and_flush
net_end_statement env thd = record thd {
  net = if is_silent thd.command then thd.net else write_and_flush thd.net (reply env thd);
}

-- `sendKeytoClient`: the shared key is kept, and the public key sent. `packet` points to 32 bytes
-- of the buffer.
unfoldable pub send_key_to_client : Env → Thd → List ℕ → Thd
unfolding write_and_flush
send_key_to_client env thd packet = record thd {
  net =
      write_and_flush (record thd.net { aes_key = env.shared_key (take 32 packet) }) env.public_key;
}

-- How `dispatch_command` and `do_command` end: with the C result, or waiting for LOCK_SetupNoti for
-- as long as it is held, or stopped by an assertion or by a write out of bounds.
pub data Outcome : Type 0 where
  finished : Bool → Thd → Shared → Outcome
  hangs : Shared → Outcome
  crashes : Outcome

-- The two critical sections of LOCK_thread_count.
abbrev pub counted : Shared → Shared
counted shared = record shared { thread_running = (shared.thread_running + 1) % 2 ^ 32 }

abbrev pub uncounted : Shared → Shared
uncounted shared = record shared {
  thread_running = (shared.thread_running + (2 ^ 32 - 1)) % 2 ^ 32;
}

-- The label `here`.
pub finish : Env → Bool → Thd → Shared → Outcome
finish env error thd shared =
    finished error (record (net_end_statement env thd) { command = ccom_sleep }) (uncounted shared)

abbrev pub no_error : Net → Net
no_error net = record net { error = 0 }

-- A packet that is not what its command needs.
pub bad_packet : Env → Thd → Shared → Outcome
unfolding finish
bad_packet env thd shared =
    finish env true (record thd { net = no_error thd.net; server_status = ret_not_json_format })
      shared

-- After a call that gives the status.
pub with_status : Env → Thd → Shared → Call → Outcome
unfolding finish
with_status env thd shared blocked = hangs shared
with_status env thd shared crashed = crashes
with_status env thd shared (returned status) =
    finish env false (record thd { server_status = status }) shared

abbrev pub with_registry : Shared → Registry → Shared
with_registry shared registry = record shared { registry = registry }

pub start_command : Env → Thd → Shared → Json → Option ℕ → Outcome
unfolding with_status bad_packet
start_command env thd shared json none = bad_packet env thd shared
start_command env thd shared json (some id) =
    let (call, registry) = start_notification shared.registry json env.started in
    if env.check_exists
    then with_status env thd shared (returned ret_checking)
    else if env.not_service
    then with_status env thd shared (returned ret_not_service_time)
    else with_status env thd (with_registry shared registry) call

pub stop_command : Env → Thd → Shared → Option ℕ → Outcome
unfolding with_status bad_packet
stop_command env thd shared none = bad_packet env thd shared
stop_command env thd shared (some id) =
    let (call, registry) = stop_notification shared.registry id in
    with_status env thd (with_registry shared registry) call

pub save_command : Env → Thd → Shared → Json → Outcome
unfolding with_status
save_command env thd shared json =
    let (call, id) = save_token env.database json thd.user_id in
    with_status env (record thd { user_id = id }) shared call

-- The `switch`. `packet` are the bytes from the argument on, `json` the text up to the first 0.
pub run_command : Env → Command → Thd → Shared → List ℕ → Json → Outcome
unfolding finish with_status start_command stop_command save_command
run_command env ccom_sleep thd shared packet json = finish env false thd shared
run_command env ccom_quit thd shared packet json =
    finish env true (record thd { net = no_error thd.net }) shared
run_command env ccom_start_notification thd shared packet json =
    start_command env thd shared json (as_int (json.member json_name))
run_command env ccom_stop_notification thd shared packet json =
    stop_command env thd shared (as_int (json.member json_name))
run_command env ccom_save_token thd shared packet json = save_command env thd shared json
run_command env ccom_hand_shaking thd shared packet json =
    with_status env (send_key_to_client env thd packet) shared (returned ret_ok)
run_command env ccom_end thd shared packet json =
    finish env true (record thd { net = no_error thd.net }) shared

abbrev pub needs_json : Command → Bool
needs_json ccom_start_notification = true
needs_json ccom_stop_notification = true
needs_json ccom_save_token = true
needs_json ccom_sleep = false
needs_json ccom_quit = false
needs_json ccom_hand_shaking = false
needs_json ccom_end = false

-- The state in which the command is run.
abbrev pub ready : Command → Thd → Thd
ready command thd = record thd {
  enable_slow_log = true;
  user_id = 0;
  command = command;
  server_status = 0;
}

-- `packet` are the buffer's bytes from the argument on.
unfoldable pub dispatch_command : Env → Command → Thd → Shared → List ℕ → Outcome
unfolding bad_packet run_command
dispatch_command env command thd shared packet =
    let json = env.parse (c_string packet) in
    if needs_json command && (json.has_parse_error || not json.is_object)
    then bad_packet env (ready command thd) (counted shared)
    else run_command env command (ready command thd) (counted shared) packet json

-- After `myNetRead`: on packet_error the reply is sent, and the connection ended unless the error is
-- 3; an empty packet is made one CCOM_SLEEP.
unfoldable pub command_from : Env → Thd → Shared → List ℕ → Outcome
unfolding dispatch_command
command_from env thd shared [] = dispatch_command env ccom_sleep thd shared []
command_from env thd shared (b ∷ packet) = dispatch_command env (to_command b) thd shared packet

unfoldable pub after_read : Env → Thd → Shared → Option ℕ → Net → Outcome
unfolding net_end_statement command_from
after_read env thd shared none net =
    let answered = net_end_statement env (record thd { net = net }) in
    if answered.net.error == 3
    then finished false (record answered { net = no_error answered.net }) shared
    else finished true answered shared
after_read env thd shared (some len) net =
    let size = if len == 0 then 1 else len in
    let first = if len == 0 then write_at net.buff net.read_pos (0 ∷ []) else net.buff in
    let n = record net { buff = write_at first (net.read_pos + size) (0 ∷ []) } in
    command_from env (record thd { net = net_set_read_timeout n net_read_timeout }) shared
      (drop n.read_pos n.buff)

-- The read timeout is set, and the packet numbers start again at 0.
abbrev pub new_command : Net → Net
new_command net =
    record (net_set_read_timeout (record net { pkt_nr = 0; compress_pkt_nr = 0 })
      net_read_timeout) { pkt_nr = 0 }

unfoldable pub do_command : Env → Thd → Shared → Outcome
unfolding after_read
do_command env thd shared =
    let (len, net) = my_net_read env.memory (new_command thd.net) in
    after_read env thd shared len net
