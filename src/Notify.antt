-- ===== src/Notify.antt =====
-- Server/NotifyMessage.cc and Server/NotifyMessage.h: one notification, its constructor, its times
-- and its thread. The JSON reader, the clock, the database and the push service are not part of
-- the repository, and are arguments here.
pub mod Alarm
pub mod Thread
pub mod Within
pub mod Database
pub mod Request
pub mod Posts
use server_simple.Base.{
  ℕ, zero, suc, ◌+◌, ◌-◌, ◌*◌, ◌/◌, ◌%◌, ◌^◌, Bool, true, false, not, ◌&&◌, ◌||◌, Option, none,
  some, List, [], ◌∷◌, ◌++◌, ltb, leb, ◌==◌, if◌then◌else◌, length, get_elem?, codes,
}

-- What `rapidjson` says of a member: an int as its 32 bits, a string as the C string that `GetString`
-- gives, or something else.
pub data Value : Type 0 where
  int : ℕ → Value
  string : List ℕ → Value
  other : Value

-- A text that `rapidjson` has parsed.
pub record Json : Type 0 where
  pub has_parse_error : Bool
  pub is_object : Bool
  pub member : List ℕ → Option Value

-- Every JSON_NAME_… of JsonDefine.h is "test".
abbrev pub json_name : List ℕ
json_name = codes "test"

-- `HasMember(name) && IsInt()` and then `GetInt()`.
abbrev pub as_int : Option Value → Option ℕ
as_int (some (int n)) = some n
as_int (some (string s)) = none
as_int (some other) = none
as_int none = none

abbrev pub int_or : ℕ → Option ℕ → ℕ
int_or default none = default
int_or default (some n) = n

pub record Notify : Type 0 where
  pub user_index : ℕ
  pub hour : ℕ
  pub minute : ℕ
  pub interval : ℕ
  pub number_of_repeat : ℕ
  pub number_message : ℕ
  pub messages : List (List ℕ)
  pub thread_exit : Bool
  pub first_started : Bool
  pub id_start_alarm_from_db : ℕ
  pub tokens : List ℕ
  pub device_type : List ℕ
  -- How often `sem_post` was called on `mSemaphpore`.
  pub posts : ℕ

-- `to_string` of an unsigned number; `fuel` digits are written at most.
unfoldable pub decimal : ℕ → ℕ → List ℕ
decimal zero n = []
decimal (suc fuel) n =
    let before = decimal fuel (n / 10) in if n == 0 then [] else before ++ ((48 + n % 10) ∷ [])

-- An int has ten digits at most.
unfoldable pub to_string : ℕ → List ℕ
unfolding decimal
to_string n = if n == 0 then 48 ∷ [] else decimal 10 n

-- `GetString()` is only defined on a string.
abbrev pub get_message : Option Value → Option (List ℕ)
get_message none = some []
get_message (some (string s)) = some s
get_message (some (int n)) = none
get_message (some other) = none

add_message : Option (List ℕ) → Option (List (List ℕ)) → Option (List (List ℕ))
add_message (some m) (some ms) = some (m ∷ ms)
add_message none ms = none
add_message (some m) none = none

-- The constructor's loop over the messages, `left` of them from number `i` on.
pub read_messages : Json → ℕ → ℕ → Option (List (List ℕ))
unfolding add_message
read_messages json zero i = some []
read_messages json (suc left) i =
    add_message (get_message (json.member (json_name ++ to_string i)))
      (read_messages json left (i + 1))

-- How a constructor call ends: with an object, with `throw 0`, or in an assertion of rapidjson, for
-- a member that is not what is asked for.
pub data Built : Type 0 where
  built : Notify → Built
  thrown asserted : Built

with_messages : Json → ℕ → Bool → Option (List (List ℕ)) → Built
with_messages json id started none = asserted
with_messages json id started (some ms) =
    if started
    then built (record {
      user_index = id;
      hour = int_or 0 (as_int (json.member json_name));
      minute = int_or 10 (as_int (json.member json_name));
      interval = int_or 10 (as_int (json.member json_name));
      number_of_repeat = int_or 10 (as_int (json.member json_name));
      number_message = int_or 0 (as_int (json.member json_name));
      messages = ms;
      thread_exit = false;
      first_started = true;
      id_start_alarm_from_db = 0;
      tokens = [];
      device_type = [];
      posts = 0;
    })
    else thrown

with_user : Json → Bool → Option ℕ → Built
unfolding with_messages read_messages
with_user json started none = asserted
with_user json started (some id) =
    with_messages json id started (read_messages json (int_or 0 (as_int (json.member json_name))) 0)

-- `NotifyMessage(packet)`; `started` is whether `sem_init` and `pthread_create` succeed.
unfoldable pub new_notify : Json → Bool → Built
unfolding with_user
new_notify json started =
    if json.is_object then with_user json started (as_int (json.member json_name)) else asserted

-- `CleanUp`, less the database task that does nothing.
unfoldable pub clean_up : Notify → Notify
clean_up n = record n { thread_exit = true; posts = n.posts + 1 }

-- The deadline that `WaitTime` sets, in seconds, `now` being the clock. The product is an unsigned
-- int.
unfoldable pub wait_time : Notify → ℕ → ℕ × Notify
wait_time n now =
    if n.first_started
    then (now + ((n.hour * 60 * 60 + n.minute * 60) % 2 ^ 32), record n { first_started = false })
    else (now + ((n.interval * 60) % 2 ^ 32), n)

-- `>=` of a C int with `k`, the int being given by its 32 bits.
abbrev at_least : ℕ → ℕ → Bool
at_least k bits = leb k bits && ltb bits (2 ^ 31)

-- The time of the alarm that DB_TASK_START_ALARM records, from the hour and the minute of the
-- local time.
unfoldable pub alarm_time : Notify → ℕ → ℕ → ℕ × ℕ
alarm_time n tm_hour tm_min =
    let hours = (tm_hour + n.hour) % 2 ^ 32 in
    let mins = (tm_min + n.minute) % 2 ^ 32 in
    let wrapped = if at_least 24 hours then hours - 24 else hours in
    if at_least 60 mins then ((wrapped + 1) % 2 ^ 32, mins - 60) else (wrapped, mins)

-- What `PushMessage` does: it returns at once, it pushes a body, or it reads `mMessages` out of its
-- bounds.
pub data Push : Type 0 where
  skipped : Push
  pushed : List ℕ → Push
  out_of_bounds : Push

body_at : Option (List ℕ) → Push
body_at none = out_of_bounds
body_at (some m) = pushed m

unfoldable pub push_message : Notify → ℕ → Push
unfolding body_at
push_message n index =
    if ltb (length n.messages) index || (length n.messages == 0)
    then skipped
    else body_at (get_elem? n.messages index)

-- `MysqlDealTask` as far as its result goes: `reached` is whether the database answers.
unfoldable pub mysql_deal_task : Notify → Bool → Bool → ℕ → Bool
mysql_deal_task n reached is_insert index =
    if n.thread_exit
    then true
    else if is_insert && ((n.number_message == 0) || leb n.number_message index)
    then true
    else reached

-- The loop of `thread_start`, `left` rounds from round `index` on. `stopped i` is whether
-- `mThreadExit` is set after the wait of round `i`, and `reached i` whether the database answers then.
-- The pushes are given in order.
unfoldable pub thread_loop : Notify → (ℕ → Bool) → (ℕ → Bool) → ℕ → ℕ → Bool → List Push
thread_loop n stopped reached zero index just_one = []
thread_loop n stopped reached (suc left) index just_one =
    let asks = leb n.number_message index && not just_one in
    let rest = thread_loop n stopped reached left (index + 1) (just_one || asks) in
    if stopped index
    then []
    else if asks && not (mysql_deal_task n (reached index) false index)
    then []
    else if mysql_deal_task n (reached index) true index
    then push_message n index ∷ rest
    else []

-- `thread_start`: the alarm is recorded first, and nothing is pushed if that fails.
unfoldable pub thread_start : Notify → Bool → (ℕ → Bool) → (ℕ → Bool) → List Push
thread_start n recorded stopped reached =
    if mysql_deal_task n recorded false 0
    then thread_loop n stopped reached n.number_of_repeat 0 false
    else []
