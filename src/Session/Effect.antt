-- ===== src/Session/Effect.antt =====
-- What one command does to what the threads share.
use server_simple.Base.{
  c_string, ℕ, ◌+◌, ◌%◌, ◌^◌, ◌≡◌, ◌⊎◌, inl, inr, refl, true, if-cases, Option, none, some, List,
  [], ◌∷◌, ◌==◌, ◌&&◌, ◌||◌, not, if◌then◌else◌, write_at, drop,
}
use server_simple.Net.{Net, net_set_read_timeout, net_read_timeout}
use server_simple.Net.Read.{my_net_read}
use server_simple.Notify.{Json, json_name, as_int}
use server_simple.Registry.{
  Registry, Call, blocked, crashed, returned, Request, start, stop, perform, start_notification,
  stop_notification,
}
use server_simple.Registry.Map.{start_notification-waits, stop_notification-waits}
use server_simple.Session.{
  Command, ccom_sleep, ccom_quit, ccom_start_notification, ccom_stop_notification, ccom_save_token,
  ccom_hand_shaking, ccom_end, Thd, Shared, Env, Outcome, finished, hangs, crashes, start_command,
  stop_command, save_command, run_command, needs_json, ready, counted, dispatch_command,
  with_status, finish, bad_packet, command_from, after_read, do_command, to_command, new_command,
  net_end_statement, send_key_to_client,
}
use server_simple.Session.Save.{save_token, save_token-ends}

-- At most one request of the table.
abbrev pub Touches : Registry → Registry → Type 0
Touches reg out = (out ≡ reg) ⊎ ((r : Request) × (out ≡ (perform reg r).1))

abbrev pub Effect : Shared → Outcome → Type 0
Effect shared (finished error out after) = Touches shared.registry after.registry
Effect shared (hangs after) =
    Touches shared.registry after.registry
    × (shared.registry.locked ≡ true)
    × (after.thread_running ≡ (shared.thread_running + 1) % 2 ^ 32)
Effect shared crashes = Unit {0}

with_status-Effect :
    (env : Env) (thd : Thd) (shared s : Shared) (call : Call)
    → Touches shared.registry s.registry
    → s.thread_running ≡ (shared.thread_running + 1) % 2 ^ 32
    → (call ≡ blocked → shared.registry.locked ≡ true)
    → Effect shared (with_status env thd s call)
unfolding with_status finish
with_status-Effect env thd shared s blocked t e w = (t, w refl, e)
with_status-Effect env thd shared s crashed t e w = tt
with_status-Effect env thd shared s (returned status) t e w = t

start_command-Effect :
    (env : Env) (thd : Thd) (shared : Shared) (json : Json) (o : Option ℕ)
    → Effect shared (start_command env thd (counted shared) json o)
unfolding start_command bad_packet finish
start_command-Effect env thd shared json none = inl refl
start_command-Effect env thd shared json (some id) =
    if-cases (Effect shared) env.check_exists
      (λ h.
        with_status-Effect env thd shared (counted shared) (returned 1) (inl refl) refl (λ x. cc))
      (λ h.
        if-cases (Effect shared) env.not_service
          (λ h'.
            with_status-Effect env thd shared (counted shared) (returned 10) (inl refl) refl
              (λ x. cc))
          (λ h'.
            with_status-Effect env thd shared _
              (start_notification shared.registry json env.started).0
              (inr (start json env.started, refl)) refl
              (start_notification-waits shared.registry json env.started)))

stop_command-Effect :
    (env : Env) (thd : Thd) (shared : Shared) (o : Option ℕ)
    → Effect shared (stop_command env thd (counted shared) o)
unfolding stop_command bad_packet finish
stop_command-Effect env thd shared none = inl refl
stop_command-Effect env thd shared (some id) =
    with_status-Effect env thd shared _ (stop_notification shared.registry id).0
      (inr (stop id, refl)) refl (stop_notification-waits shared.registry id).0

run_command-Effect :
    (env : Env) (command : Command) (thd : Thd) (shared : Shared) (packet : List ℕ) (json : Json)
    → Effect shared (run_command env command thd (counted shared) packet json)
unfolding run_command save_command finish
run_command-Effect env ccom_sleep thd shared packet json = inl refl
run_command-Effect env ccom_quit thd shared packet json = inl refl
run_command-Effect env ccom_start_notification thd shared packet json =
    start_command-Effect env thd shared json (as_int (json.member json_name))
run_command-Effect env ccom_stop_notification thd shared packet json =
    stop_command-Effect env thd shared (as_int (json.member json_name))
run_command-Effect env ccom_save_token thd shared packet json =
    let (call, id) = save_token env.database json thd.user_id in
    with_status-Effect env (record thd { user_id = id }) shared (counted shared) call (inl refl)
      refl (λ x. absurd (save_token-ends env.database json thd.user_id x))
run_command-Effect env ccom_hand_shaking thd shared packet json =
    with_status-Effect env (send_key_to_client env thd packet) shared (counted shared) (returned 0)
      (inl refl) refl (λ x. cc)
run_command-Effect env ccom_end thd shared packet json = inl refl

dispatch_command-Effect :
    (env : Env) (command : Command) (thd : Thd) (shared : Shared) (packet : List ℕ)
    → Effect shared (dispatch_command env command thd shared packet)
unfolding dispatch_command bad_packet finish
dispatch_command-Effect env command thd shared packet =
    let json = env.parse (c_string packet) in
    if-cases (Effect shared) (needs_json command && (json.has_parse_error || not json.is_object))
      (λ h. inl refl) (λ h. run_command-Effect env command (ready command thd) shared packet json)

command_from-Effect :
    (env : Env) (thd : Thd) (shared : Shared) (packet : List ℕ)
    → Effect shared (command_from env thd shared packet)
unfolding command_from
command_from-Effect env thd shared [] = dispatch_command-Effect env ccom_sleep thd shared []
command_from-Effect env thd shared (b ∷ packet) =
    dispatch_command-Effect env (to_command b) thd shared packet

after_read-Effect :
    (env : Env) (thd : Thd) (shared : Shared) (r : Option ℕ) (net : Net)
    → Effect shared (after_read env thd shared r net)
unfolding after_read
after_read-Effect env thd shared none net =
    if-cases (Effect shared) ((net_end_statement env (record thd { net = net })).net.error == 3)
      (λ h. inl refl) (λ h. inl refl)
after_read-Effect env thd shared (some len) net =
    let size = if len == 0 then 1 else len in
    let first = if len == 0 then write_at net.buff net.read_pos (0 ∷ []) else net.buff in
    let n = record net { buff = write_at first (net.read_pos + size) (0 ∷ []) } in
    command_from-Effect env (record thd { net = net_set_read_timeout n net_read_timeout }) shared
      (drop n.read_pos n.buff)

-- Whatever a connection sends, one command asks the table of notifications for at most one start or
-- stop; it waits only where LOCK_SetupNoti is held, and is counted in `thread_running` then.
pub do_command-Effect :
    (env : Env) (thd : Thd) (shared : Shared) → Effect shared (do_command env thd shared)
unfolding do_command
do_command-Effect env thd shared =
    let (len, net) = my_net_read env.memory (new_command thd.net) in
    after_read-Effect env thd shared len net
