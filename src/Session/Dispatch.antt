-- ===== src/Session/Dispatch.antt =====
-- How a command ends.
use server_simple.Base.{
  c_string, ℕ, ◌^◌, ◌<◌, ◌≡◌, refl, inl, inr, true, false, not, ◌&&◌, ◌||◌, Bool-cases, if-cases,
  Option, none, some, List, [],
}
use server_simple.Notify.{Json, json_name, as_int}
use server_simple.Registry.{Registry, Call, returned, start_notification, stop_notification, ret_ok}
use server_simple.Registry.Map.{start_notification-waits, stop_notification-waits}
use server_simple.Session.{
  Command, ccom_sleep, ccom_quit, ccom_start_notification, ccom_stop_notification, ccom_save_token,
  ccom_hand_shaking, ccom_end, Thd, Shared, Env, send_key_to_client, start_command, stop_command,
  save_command, run_command, needs_json, ready, counted, no_error, dispatch_command,
}
use server_simple.Session.Reply.{IsClear, Puts, write_and_flush-Puts, Puts-nothing}
use server_simple.Session.Save.{save_token, save_token-ends}
use server_simple.Session.Ends.{
  closes, key_of, Ends, finish-Ends, with_status-Ends, forgiven, bad_packet-Ends,
}

module _ (env : Env) (json : Json) (thd : Thd) (shared : Shared) (clear : IsClear thd.net)
    (no_failure : thd.net.error ≡ 0) (small : shared.thread_running < 2 ^ 32)
    (parsed : (json.has_parse_error || not json.is_object) ≡ false) where
  start_command-Ends :
      (o : Option ℕ)
      → as_int (json.member json_name) ≡ o
      → Ends env ccom_start_notification json thd shared
          (start_command env (ready ccom_start_notification thd) (counted shared) json o)
  unfolding start_command
  start_command-Ends none e =
      let closed : closes ccom_start_notification json ≡ true = simp (parsed, e) in
      bad_packet-Ends env ccom_start_notification json thd shared clear no_failure small closed refl
  start_command-Ends (some id) e =
      let go_on : closes ccom_start_notification json ≡ false = simp (parsed, e) in
      let ended = λ (registry : Registry) (call : Call).
        with_status-Ends env ccom_start_notification json thd shared clear no_failure small
          (ready ccom_start_notification thd) registry call go_on (Puts-nothing thd.net clear)
          refl in
      elim (Bool-cases env.check_exists) [
        | inl checking ↦ simp checking (ended shared.registry (returned 1) (λ x. cc) (λ x. cc))
        | inr serving ↦ simp serving (elim (Bool-cases env.not_service) [
          | inl closed ↦ simp closed (ended shared.registry (returned 10) (λ x. cc) (λ x. cc))
          | inr on_time ↦ simp on_time (
              ended (start_notification shared.registry json env.started).1
                (start_notification shared.registry json env.started).0
                (λ x. (start_notification-waits shared.registry json env.started x, inl refl))
                (λ x. inl refl))
        ])
      ]

  stop_command-Ends :
      (o : Option ℕ)
      → as_int (json.member json_name) ≡ o
      → Ends env ccom_stop_notification json thd shared
          (stop_command env (ready ccom_stop_notification thd) (counted shared) o)
  unfolding stop_command
  stop_command-Ends none e =
      let closed : closes ccom_stop_notification json ≡ true = simp (parsed, e) in
      bad_packet-Ends env ccom_stop_notification json thd shared clear no_failure small closed refl
  stop_command-Ends (some id) e =
      let go_on : closes ccom_stop_notification json ≡ false = simp (parsed, e) in
      let (waits, fails) = stop_notification-waits shared.registry id in
      with_status-Ends env ccom_stop_notification json thd shared clear no_failure small
        (ready ccom_stop_notification thd) (stop_notification shared.registry id).1
        (stop_notification shared.registry id).0 go_on (Puts-nothing thd.net clear) refl
        (λ x. (waits x, inr refl)) (λ x. absurd (fails x))

pub key_sent :
    (env : Env) (thd : Thd) (packet : List ℕ)
    → IsClear thd.net
    → Puts thd.net env.public_key (send_key_to_client env (ready ccom_hand_shaking thd) packet).net
unfolding send_key_to_client
key_sent env thd packet c =
    let p = write_and_flush-Puts _ env.public_key (record { plain = c.plain; empty = c.empty }) in
    record {
      rest = p.rest;
      stream = p.stream;
      received = p.received;
      ends = p.ends;
      clear = p.clear;
      incoming = p.incoming;
      same_sd = p.same_sd;
      same_has_vio = p.same_has_vio;
      same_max = p.same_max;
      can_read = λ r. p.can_read (record {
        plain = r.plain;
        at_start = r.at_start;
        capped = r.capped;
        some_room = r.some_room;
        one_packet = r.one_packet;
        spare = r.spare;
      });
    }

module _ (env : Env) (json : Json) (thd : Thd) (shared : Shared) (packet : List ℕ)
    (clear : IsClear thd.net) (no_failure : thd.net.error ≡ 0)
    (small : shared.thread_running < 2 ^ 32) where
  run_command-Ends :
      (command : Command)
      → (needs_json command && (json.has_parse_error || not json.is_object)) ≡ false
      → Ends env command json thd shared
          (run_command env command (ready command thd) (counted shared) packet json)
  unfolding run_command save_command send_key_to_client
  run_command-Ends ccom_sleep ok =
      finish-Ends env ccom_sleep json thd shared clear no_failure small false (ready ccom_sleep thd)
        shared.registry refl (Puts-nothing thd.net clear) refl
  run_command-Ends ccom_quit ok =
      finish-Ends env ccom_quit json thd shared clear no_failure small true
        (record (ready ccom_quit thd) { net = no_error thd.net }) shared.registry refl
        (forgiven env ccom_quit json thd shared clear no_failure small refl) refl
  run_command-Ends ccom_start_notification ok =
      start_command-Ends env json thd shared clear no_failure small ok _ refl
  run_command-Ends ccom_stop_notification ok =
      stop_command-Ends env json thd shared clear no_failure small ok _ refl
  run_command-Ends ccom_save_token ok =
      let go_on : closes ccom_save_token json ≡ false = simp ok in
      with_status-Ends env ccom_save_token json thd shared clear no_failure small
        (record (ready ccom_save_token thd) {
          user_id = (save_token env.database json (ready ccom_save_token thd).user_id).1;
        })
        shared.registry (save_token env.database json (ready ccom_save_token thd).user_id).0 go_on
        (Puts-nothing thd.net clear) refl (λ x. absurd (save_token-ends env.database json 0 x))
        (λ x. inr refl)
  run_command-Ends ccom_hand_shaking ok =
      with_status-Ends env ccom_hand_shaking json thd shared clear no_failure small
        (send_key_to_client env (ready ccom_hand_shaking thd) packet) shared.registry
        (returned ret_ok) refl (key_sent env thd packet clear) refl (λ x. cc) (λ x. cc)
  run_command-Ends ccom_end ok =
      finish-Ends env ccom_end json thd shared clear no_failure small true
        (record (ready ccom_end thd) { net = no_error thd.net }) shared.registry refl
        (forgiven env ccom_end json thd shared clear no_failure small refl) refl

  no_key :
      (command : Command)
      → (needs_json command && (json.has_parse_error || not json.is_object)) ≡ true
      → (key_of env command ≡ []) × (closes command json ≡ true)
  no_key ccom_sleep bad = (refl, cc)
  no_key ccom_quit bad = (refl, cc)
  no_key ccom_start_notification bad = (refl, simp bad)
  no_key ccom_stop_notification bad = (refl, simp bad)
  no_key ccom_save_token bad = (refl, simp bad)
  no_key ccom_hand_shaking bad = cc
  no_key ccom_end bad = (refl, cc)

-- Whatever its packet holds, a command on a connection without an error, and with nothing in its
-- write buffer, ends in one of three ways. It finishes: then `thread_running` is as before, the
-- command is CCOM_SLEEP again, the result is TRUE exactly for CCOM_QUIT, CCOM_END and a packet that
-- is not the JSON the command needs, and exactly one reply, or for CCOM_QUIT and CCOM_END none, goes
-- to the socket (after the public key for CCOM_HAND_SHAKING) whole, or in part with the error 2. It
-- waits for good: then it starts or stops a notification while LOCK_SetupNoti is held. Or it crashes:
-- then it starts a notification or saves a token.
pub dispatch_command-Ends :
    (env : Env) (command : Command) (thd : Thd) (shared : Shared) (packet : List ℕ)
    → IsClear thd.net
    → thd.net.error ≡ 0
    → shared.thread_running < 2 ^ 32
    → Ends env command
        (env.parse (c_string packet))
        thd
        shared
        (dispatch_command env command thd shared packet)
unfolding dispatch_command
dispatch_command-Ends env command thd shared packet clear no_failure small =
    let json = env.parse (c_string packet) in
    if-cases (Ends env command json thd shared)
      (needs_json command && (json.has_parse_error || not json.is_object))
      (λ bad.
        let (silent, closed) =
          no_key env json thd shared packet clear no_failure small command bad in
        bad_packet-Ends env command json thd shared clear no_failure small closed silent)
      (run_command-Ends env json thd shared packet clear no_failure small command)
