-- ===== src/Session/Ends.antt =====
-- How a command may end, and the ends that the handlers share.
use server_simple.Base.{
  ℕ, ◌+◌, ◌-◌, ◌%◌, ◌^◌, ◌<◌, ◌≡◌, refl, sym, ap, ◌∙◌, ◌⊎◌, inl, inr, Bool, true, false, not, ◌&&◌,
  ◌||◌, Bool-cases, Option, none, some, List, [], ◌++◌, append-nil, if◌then◌else◌, arith, subst,
}
use server_simple.Notify.{Json, json_name, as_int}
use server_simple.Registry.{Registry, Call, blocked, crashed, returned, ret_not_json_format}
use server_simple.Session.{
  Command, ccom_sleep, ccom_quit, ccom_start_notification, ccom_stop_notification, ccom_save_token,
  ccom_hand_shaking, ccom_end, Thd, Shared, Env, Outcome, finished, hangs, crashes, is_silent,
  reply, net_end_statement, finish, bad_packet, with_status, needs_json, ready, counted, no_error,
  with_registry,
}
use server_simple.Session.Reply.{IsClear, Puts, Puts-nothing, Puts-then}

abbrev pub needs_user : Command → Bool
needs_user ccom_start_notification = true
needs_user ccom_stop_notification = true
needs_user ccom_save_token = false
needs_user ccom_sleep = false
needs_user ccom_quit = false
needs_user ccom_hand_shaking = false
needs_user ccom_end = false

abbrev pub is_missing : Option ℕ → Bool
is_missing none = true
is_missing (some id) = false

-- Whether the connection is to be closed after a command.
abbrev pub closes : Command → Json → Bool
closes command json =
    (is_silent command)
    || ((needs_json command && (json.has_parse_error || not json.is_object))
        || (needs_user command && is_missing (as_int (json.member json_name))))

abbrev pub key_of : Env → Command → List ℕ
key_of env ccom_hand_shaking = env.public_key
key_of env ccom_start_notification = []
key_of env ccom_stop_notification = []
key_of env ccom_save_token = []
key_of env ccom_sleep = []
key_of env ccom_quit = []
key_of env ccom_end = []

-- What a command sends, `out` having the status and the user to report: for the hand shake the
-- public key, and for every command but the two that end the connection one reply.
abbrev pub answer : Env → Command → Thd → List ℕ
answer env command out = key_of env command ++ (if is_silent command then [] else reply env out)

-- How the command may end.
abbrev pub Ends : Env → Command → Json → Thd → Shared → Outcome → Type 0
Ends env command json thd shared (finished error out shared') =
    (error ≡ closes command json)
    × Puts thd.net (answer env command out) out.net
    × (out.command ≡ ccom_sleep)
    × (shared'.thread_running ≡ shared.thread_running)
Ends env command json thd shared (hangs shared') =
    (shared.registry.locked ≡ true)
    × ((command ≡ ccom_start_notification) ⊎ (command ≡ ccom_stop_notification))
Ends env command json thd shared crashes =
    (command ≡ ccom_start_notification) ⊎ (command ≡ ccom_save_token)

pub counted_back : (r : ℕ) → r < 2 ^ 32 → ((r + 1) % 2 ^ 32 + (2 ^ 32 - 1)) % 2 ^ 32 ≡ r
counted_back r h = ground arith

module _ (env : Env) (command : Command) (json : Json) (thd : Thd) (shared : Shared)
    (clear : IsClear thd.net) (no_failure : thd.net.error ≡ 0)
    (small : shared.thread_running < 2 ^ 32) where
  pub reply_Puts :
      (n : Thd)
      → Puts thd.net (key_of env command) n.net
      → n.command ≡ command
      → Puts thd.net (answer env command n) (net_end_statement env n).net
  unfolding net_end_statement
  reply_Puts n p same = elim (Bool-cases (is_silent command)) [
    | inl silent ↦
        let quiet : is_silent n.command ≡ true = ap is_silent same ∙ silent in
        rw (silent, quiet, append-nil (key_of env command)) p
    | inr speaks ↦
        let loud : is_silent n.command ≡ false = ap is_silent same ∙ speaks in
        rw (speaks, loud) (Puts-then thd.net n.net (key_of env command) (reply env n) p)
  ]

  pub finish-Ends :
      (error : Bool) (n : Thd) (registry : Registry)
      → error ≡ closes command json
      → Puts thd.net (key_of env command) n.net
      → n.command ≡ command
      → Ends env command json thd shared
          (finish env error n (with_registry (counted shared) registry))
  unfolding finish net_end_statement
  finish-Ends error n registry e p same =
      (e, reply_Puts n p same, refl, counted_back shared.thread_running small)

  pub with_status-Ends :
      (n : Thd) (registry : Registry) (call : Call)
      → closes command json ≡ false
      → Puts thd.net (key_of env command) n.net
      → n.command ≡ command
      → (call ≡ blocked
          → (shared.registry.locked ≡ true)
            × ((command ≡ ccom_start_notification) ⊎ (command ≡ ccom_stop_notification)))
      → (call ≡ crashed → (command ≡ ccom_start_notification) ⊎ (command ≡ ccom_save_token))
      → Ends env command json thd shared
          (with_status env n (with_registry (counted shared) registry) call)
  unfolding with_status
  with_status-Ends n registry blocked open_yet p same waits fails = waits refl
  with_status-Ends n registry crashed open_yet p same waits fails = fails refl
  with_status-Ends n registry (returned status) open_yet p same waits fails =
      finish-Ends false (record n { server_status = status }) registry (sym open_yet) p same

  pub forgiven : key_of env command ≡ [] → Puts thd.net (key_of env command) (no_error thd.net)
  forgiven none_sent =
      subst (λ bytes. Puts thd.net bytes (no_error thd.net)) (sym none_sent)
        (record {
          rest = [];
          stream = refl;
          received = refl;
          ends = inl (refl, sym no_failure);
          clear = record { plain = clear.plain; empty = clear.empty };
          incoming = refl;
          same_sd = refl;
          same_has_vio = refl;
          same_max = refl;
          can_read = λ r. record {
            plain = r.plain;
            at_start = r.at_start;
            capped = r.capped;
            some_room = r.some_room;
            one_packet = r.one_packet;
            spare = r.spare;
          };
        })

  pub untouched : key_of env command ≡ [] → Puts thd.net (key_of env command) thd.net
  untouched none_sent =
      subst (λ bytes. Puts thd.net bytes thd.net) (sym none_sent) (Puts-nothing thd.net clear)

  pub bad_packet-Ends :
      closes command json ≡ true
      → key_of env command ≡ []
      → Ends env command json thd shared (bad_packet env (ready command thd) (counted shared))
  unfolding bad_packet
  bad_packet-Ends closed none_sent =
      finish-Ends true
        (record (ready command thd) { net = no_error thd.net; server_status = ret_not_json_format })
        shared.registry (sym closed) (forgiven none_sent) refl
