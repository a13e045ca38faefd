-- ===== src/Registry.antt =====
-- The notifications of Server/server.cc: `mapNotifyMessageHandle`, its mutex LOCK_SetupNoti,
-- `StartNotification` and `StopNotification`.
pub mod Map
pub mod Deadlock
pub mod Valid
pub mod Lookup
pub mod Abstract
pub mod Lifetime
use server_simple.Base.{
  ℕ, zero, suc, ◌+◌, Bool, true, false, Option, none, some, List, [], ◌∷◌, ltb, ◌==◌, if◌then◌else◌,
  length, codes,
}
use server_simple.Notify.{
  Notify, Json, Value, Built, new_notify, built, thrown, asserted, clean_up, as_int,
}

-- `locked` is whether some thread holds LOCK_SetupNoti between the calls, `limit` is
-- USER_USE_START_NUMBER, and `deleted` are the objects that were deleted, as they were then.
pub record Registry : Type 0 where
  pub locked : Bool
  pub limit : ℕ
  pub handles : List (ℕ × Notify)
  pub deleted : List Notify

-- The return codes of JsonDefine.h.
abbrev pub ret_ok : ℕ
ret_ok = 0

abbrev pub ret_already_started : ℕ
ret_already_started = 6

abbrev pub ret_not_json_format : ℕ
ret_not_json_format = 7

abbrev pub ret_max_user : ℕ
ret_max_user = 8

-- How a call ends: it waits for the mutex, an assertion of rapidjson stops the process, or it
-- returns.
pub data Call : Type 0 where
  blocked crashed : Call
  returned : ℕ → Call

-- The entry of a key, and `erase`.
unfoldable pub find {ℓ} : {A : Type ℓ} → ℕ → List (ℕ × A) → Option A
find id [] = none
find id ((k, n) ∷ handles) = if k == id then some n else find id handles

unfoldable pub erase {ℓ} : {A : Type ℓ} → ℕ → List (ℕ × A) → List (ℕ × A)
erase id [] = []
erase id ((k, n) ∷ handles) = let rest = erase id handles in if k == id then rest else (k, n) ∷ rest

-- The string "userIndex".
abbrev pub user_index_name : List ℕ
user_index_name = codes "userIndex"

-- `mapNotifyMessageHandle[id] = new NotifyMessage(packet)` and its `catch`.
pub insert_new : Registry → ℕ → Built → Call × Registry
insert_new reg id (built n) = (returned ret_ok, record reg { handles = (id, n) ∷ reg.handles })
insert_new reg id thrown = (returned ret_max_user, record reg { handles = erase id reg.handles })
insert_new reg id asserted = (crashed, reg)

pub start_if_absent : Registry → Json → Bool → ℕ → Option Notify → Call × Registry
unfolding insert_new
start_if_absent reg json started id none = insert_new reg id (new_notify json started)
start_if_absent reg json started id (some n) = (returned ret_already_started, reg)

-- `datastring["userIndex"].GetInt()` is only defined on an int.
pub start_user : Registry → Json → Bool → Option ℕ → Call × Registry
unfolding start_if_absent
start_user reg json started none = (crashed, reg)
start_user reg json started (some id) = start_if_absent reg json started id (find id reg.handles)

-- `StartNotification`; `started` is whether the constructor gets its semaphore and its thread. Where
-- the map is full the function returns without `pthread_mutex_unlock`.
unfoldable pub start_notification : Registry → Json → Bool → Call × Registry
unfolding start_user
start_notification reg json started =
    let body =
      if json.is_object
      then start_user reg json started (as_int (json.member user_index_name))
      else (crashed, reg) in
    if reg.locked
    then (blocked, reg)
    else if ltb reg.limit (length reg.handles)
    then (returned ret_max_user, record reg { locked = true })
    else body

pub stop_found : Registry → ℕ → Option Notify → Registry
stop_found reg id none = reg
stop_found reg id (some n) = record reg {
  handles = erase id reg.handles;
  deleted = clean_up n ∷ reg.deleted;
}

-- `StopNotification`. It returns nothing, which is 0 here.
unfoldable pub stop_notification : Registry → ℕ → Call × Registry
unfolding stop_found
stop_notification reg id =
    if reg.locked then (blocked, reg) else (returned 0, stop_found reg id (find id reg.handles))

-- A call, and calls one after the other.
pub data Request : Type 0 where
  start : Json → Bool → Request
  stop : ℕ → Request

abbrev pub perform : Registry → Request → Call × Registry
perform reg (start json started) = start_notification reg json started
perform reg (stop id) = stop_notification reg id

abbrev pub perform_all : Registry → List Request → List Call × Registry
perform_all reg [] = ([], reg)
perform_all reg (r ∷ rs) =
    let (c, reg') = perform reg r in let (cs, reg'') = perform_all reg' rs in (c ∷ cs, reg'')
