-- ===== src/Session/Data.antt =====
-- What the commands of Server/net_connect.cc work on: `struct st_thd` of Server/my_pthread.h, what
-- threads share, the commands, and the text of a reply.
use server_simple.Base.{
  c_string, ℕ, zero, suc, Bool, true, false, Option, none, some, List, [], ◌∷◌, ◌++◌, ◌==◌,
  if◌then◌else◌, take,
}
use server_simple.Net.{Net}
use server_simple.Notify.{Json, Value, int, string, json_name}
use server_simple.Registry.{Registry}
use server_simple.Session.Save.{Database}

-- `enum client_command`
pub data Command : Type 0 where
  ccom_sleep ccom_quit ccom_start_notification ccom_stop_notification : Command
  ccom_save_token ccom_hand_shaking ccom_end : Command

-- The cast of the first byte, with `command >= CCOM_END` made CCOM_END.
abbrev pub to_command : ℕ → Command
to_command zero = ccom_sleep
to_command (suc zero) = ccom_quit
to_command (suc (suc zero)) = ccom_start_notification
to_command (suc (suc (suc zero))) = ccom_stop_notification
to_command (suc (suc (suc (suc zero)))) = ccom_save_token
to_command (suc (suc (suc (suc (suc zero))))) = ccom_hand_shaking
to_command (suc (suc (suc (suc (suc (suc n)))))) = ccom_end

-- `struct st_thd`, less the fields that no code reads; `killed` is whether it is KILL_CON.
pub record Thd : Type 0 where
  pub net : Net
  pub user_id : ℕ
  pub server_status : ℕ
  pub command : Command
  pub thread_id : ℕ
  pub killed : Bool
  pub enable_slow_log : Bool

-- What threads share: the notifications and `thread_running`, an unsigned int.
pub record Shared : Type 0 where
  pub registry : Registry
  pub thread_running : ℕ

-- What is not part of the repository. `parse` and `render` are rapidjson's reader and writer,
-- `check_exists` and `not_service` what `access` says of the two files, `check_contents` the bytes of
-- the first if it can be opened, `started` whether a notification gets its semaphore and its
-- thread, `database` the database, and the two keys are those of curve25519.
pub record Env : Type 0 where
  pub parse : List ℕ → Json
  pub render : List (List ℕ × Value) → List ℕ
  pub check_exists : Bool
  pub check_contents : Option (List ℕ)
  pub not_service : Bool
  pub started : Bool
  pub database : Database
  pub public_key : List ℕ
  pub shared_key : List ℕ → List ℕ
  -- Whether `realloc` can give that many bytes.
  pub memory : ℕ → Bool

abbrev pub is_silent : Command → Bool
is_silent ccom_quit = true
is_silent ccom_end = true
is_silent ccom_sleep = false
is_silent ccom_start_notification = false
is_silent ccom_stop_notification = false
is_silent ccom_save_token = false
is_silent ccom_hand_shaking = false

-- RET_NOT_SERVICE_BY_CHECKING_SERVER and RET_NOT_SERVICE_TIME of JsonDefine.h.
abbrev pub ret_checking : ℕ
ret_checking = 1

abbrev pub ret_not_service_time : ℕ
ret_not_service_time = 10

-- The contents of the file, of which 256 bytes at most are read into a buffer of that size.
abbrev contents_member : Option (List ℕ) → List (List ℕ × Value)
contents_member none = []
contents_member (some bytes) = (json_name, string (c_string (take 256 bytes))) ∷ []

-- The members of a reply.
abbrev pub members : Env → ℕ → ℕ → List (List ℕ × Value)
members env status user_id =
    (json_name, int status)
    ∷ ((if status == ret_checking then contents_member env.check_contents else [])
        ++ (if user_id == 0 then [] else (json_name, int user_id) ∷ []))

-- The text and its 0.
abbrev pub reply : Env → Thd → List ℕ
reply env thd = env.render (members env thd.server_status thd.user_id) ++ (0 ∷ [])
