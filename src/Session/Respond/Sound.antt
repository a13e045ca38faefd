-- ===== src/Session/Respond/Sound.antt =====
-- The commands of a connection give the answers of `respond`.
use server_simple.Base.{
  ℕ, ◌^◌, ◌<◌, ◌≡◌, refl, ap, Bool, true, false, not, ◌&&◌, ◌||◌, Bool-cases, inl, inr, Option,
  none, some, List, [], c_string,
}
use server_simple.Notify.{Json, json_name, as_int}
use server_simple.Registry.{
  Registry, Call, blocked, crashed, returned, ret_ok, ret_not_json_format, start_notification,
  stop_notification,
}
use server_simple.Session.Save.{save_token}
use server_simple.Session.{
  Command, ccom_sleep, ccom_quit, ccom_start_notification, ccom_stop_notification, ccom_save_token,
  ccom_hand_shaking, ccom_end, Thd, Shared, Env, Outcome, finished, hangs, crashes, ret_checking,
  ret_not_service_time, net_end_statement, finish, bad_packet, with_status, needs_json, ready,
  counted, no_error, with_registry, start_command, stop_command, save_command, run_command,
  dispatch_command, send_key_to_client,
}
use server_simple.Session.Reply.{IsClear, Puts, Puts-nothing}
use server_simple.Session.Ends.{key_of, counted_back, reply_Puts, forgiven}
use server_simple.Session.Dispatch.{key_sent}
use server_simple.Session.Respond.{
  Response, answers, waits, dies, said, refused, by_call, to_start, to_stop, to_command_of, respond,
}

-- The command on a connection answers so, with the shared counter restored.
abbrev pub Responds : Thd → Shared → Response → Outcome → Type 0
Responds thd shared (answers closes bytes reg) o =
    (out : Thd) × (o ≡ finished closes out (record shared { registry = reg }))
    × Puts thd.net bytes out.net
    × (out.killed ≡ thd.killed)
Responds thd shared (waits reg) o = o ≡ hangs (with_registry (counted shared) reg)
Responds thd shared dies o = o ≡ crashes

module _ (env : Env) (command : Command) (json : Json) (thd : Thd) (shared : Shared)
    (clear : IsClear thd.net) (no_failure : thd.net.error ≡ 0)
    (small : shared.thread_running < 2 ^ 32) where
  finish-Responds :
      (closes : Bool) (n : Thd) (reg : Registry)
      → Puts thd.net (key_of env command) n.net
      → n.command ≡ command
      → n.killed ≡ thd.killed
      → Responds thd shared
          (answers closes (said env command n.server_status n.user_id) reg)
          (finish env closes n (with_registry (counted shared) reg))
  unfolding finish net_end_statement
  finish-Responds closes n reg p same alive = (
    record (net_end_statement env n) { command = ccom_sleep },
    ap
        (λ (r : ℕ).
          finished closes (record (net_end_statement env n) { command = ccom_sleep })
            (record shared { registry = reg; thread_running = r }))
        (counted_back shared.thread_running small),
    reply_Puts env command json thd shared clear no_failure small n p same,
    alive,
  )

  with_status-Responds :
      (n : Thd) (reg : Registry) (call : Call)
      → Puts thd.net (key_of env command) n.net
      → n.command ≡ command
      → n.killed ≡ thd.killed
      → Responds thd shared
          (by_call env command n.user_id call reg)
          (with_status env n (with_registry (counted shared) reg) call)
  unfolding with_status
  with_status-Responds n reg blocked p same alive = refl
  with_status-Responds n reg crashed p same alive = refl
  with_status-Responds n reg (returned status) p same alive =
      finish-Responds false (record n { server_status = status }) reg p same alive

  refused-Responds :
      key_of env command ≡ []
      → Responds thd shared
          (refused env command shared.registry)
          (bad_packet env (ready command thd) (counted shared))
  unfolding bad_packet
  refused-Responds none_sent =
      finish-Responds true
        (record (ready command thd) { net = no_error thd.net; server_status = ret_not_json_format })
        shared.registry (forgiven env command json thd shared clear no_failure small none_sent) refl
        refl

module _ (env : Env) (json : Json) (thd : Thd) (shared : Shared) (clear : IsClear thd.net)
    (no_failure : thd.net.error ≡ 0) (small : shared.thread_running < 2 ^ 32) where
  start_command-Responds :
      (o : Option ℕ)
      → Responds thd shared
          (to_start env json o shared.registry)
          (start_command env (ready ccom_start_notification thd) (counted shared) json o)
  unfolding start_command
  start_command-Responds none =
      refused-Responds env ccom_start_notification json thd shared clear no_failure small refl
  start_command-Responds (some id) =
      let ended = λ (reg : Registry) (call : Call).
        with_status-Responds env ccom_start_notification json thd shared clear no_failure small
          (ready ccom_start_notification thd) reg call (Puts-nothing thd.net clear) refl refl in
      elim (Bool-cases env.check_exists) [
        | inl checking ↦ simp checking (ended shared.registry (returned ret_checking))
        | inr serving ↦ simp serving (elim (Bool-cases env.not_service) [
          | inl closed ↦ simp closed (ended shared.registry (returned ret_not_service_time))
          | inr on_time ↦ simp on_time (
              ended (start_notification shared.registry json env.started).1
                (start_notification shared.registry json env.started).0)
        ])
      ]

  stop_command-Responds :
      (o : Option ℕ)
      → Responds thd shared
          (to_stop env o shared.registry)
          (stop_command env (ready ccom_stop_notification thd) (counted shared) o)
  unfolding stop_command
  stop_command-Responds none =
      refused-Responds env ccom_stop_notification json thd shared clear no_failure small refl
  stop_command-Responds (some id) =
      with_status-Responds env ccom_stop_notification json thd shared clear no_failure small
        (ready ccom_stop_notification thd) (stop_notification shared.registry id).1
        (stop_notification shared.registry id).0 (Puts-nothing thd.net clear) refl refl

  run_command-Responds :
      (command : Command) (packet : List ℕ)
      → Responds thd shared
          (to_command_of env command json shared.registry)
          (run_command env command (ready command thd) (counted shared) packet json)
  unfolding run_command save_command send_key_to_client
  run_command-Responds ccom_sleep packet =
      finish-Responds env ccom_sleep json thd shared clear no_failure small false
        (ready ccom_sleep thd) shared.registry (Puts-nothing thd.net clear) refl refl
  run_command-Responds ccom_quit packet =
      finish-Responds env ccom_quit json thd shared clear no_failure small true
        (record (ready ccom_quit thd) { net = no_error thd.net }) shared.registry
        (forgiven env ccom_quit json thd shared clear no_failure small refl) refl refl
  run_command-Responds ccom_end packet =
      finish-Responds env ccom_end json thd shared clear no_failure small true
        (record (ready ccom_end thd) { net = no_error thd.net }) shared.registry
        (forgiven env ccom_end json thd shared clear no_failure small refl) refl refl
  run_command-Responds ccom_start_notification packet =
      start_command-Responds (as_int (json.member json_name))
  run_command-Responds ccom_stop_notification packet =
      stop_command-Responds (as_int (json.member json_name))
  run_command-Responds ccom_save_token packet =
      with_status-Responds env ccom_save_token json thd shared clear no_failure small
        (record (ready ccom_save_token thd) { user_id = (save_token env.database json 0).1 })
        shared.registry (save_token env.database json 0).0 (Puts-nothing thd.net clear) refl refl
  run_command-Responds ccom_hand_shaking packet =
      with_status-Responds env ccom_hand_shaking json thd shared clear no_failure small
        (send_key_to_client env (ready ccom_hand_shaking thd) packet) shared.registry
        (returned ret_ok) (key_sent env thd packet clear) refl refl

no_key :
    (env : Env) (command : Command) (json : Json)
    → (needs_json command && (json.has_parse_error || not json.is_object)) ≡ true
    → key_of env command ≡ []
no_key env ccom_sleep json bad = refl
no_key env ccom_quit json bad = refl
no_key env ccom_start_notification json bad = refl
no_key env ccom_stop_notification json bad = refl
no_key env ccom_save_token json bad = refl
no_key env ccom_hand_shaking json bad = cc
no_key env ccom_end json bad = refl

-- A command on a connection without an error, and with nothing in its write buffer, does what `respond`
-- says of its text, and nothing else to what the threads share: it sends the answer, whole, or in part
-- with the error 2, asks for the connection to be closed or not, and leaves the table; or it waits for
-- the mutex, or the process is gone.
pub dispatch_command-Responds :
    (env : Env) (command : Command) (thd : Thd) (shared : Shared) (packet : List ℕ)
    → IsClear thd.net
    → thd.net.error ≡ 0
    → shared.thread_running < 2 ^ 32
    → Responds thd shared
        (respond env command (env.parse (c_string packet)) shared.registry)
        (dispatch_command env command thd shared packet)
unfolding dispatch_command respond
dispatch_command-Responds env command thd shared packet clear no_failure small =
    let json = env.parse (c_string packet) in
    elim (Bool-cases (needs_json command && (json.has_parse_error || not json.is_object))) [
      | inl bad ↦ simp bad (
          refused-Responds env command json thd shared clear no_failure small
            (no_key env command json bad))
      | inr good ↦
          simp good (run_command-Responds env json thd shared clear no_failure small command packet)
    ]
