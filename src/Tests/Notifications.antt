-- ===== src/Tests/Notifications.antt =====
-- Notifications, and the counters of the server.
use mathlib.Core.Quot
use mathlib.Core.Quot.{Quot}
use server_simple.Registry.Abstract.{Same}
use server_simple.Registry.Abstract.Table.{Table, calls, table_after, stop_comm}
use server_simple.Base.{
  Bool-cases, inl, inr, ◌==◌, false, ℕ, ◌+◌, ◌*◌, ◌%◌, ◌≤◌, ◌<◌, ◌≡◌, refl, true, false, none, some,
  [], ◌∷◌, if◌then◌else◌, ◌==◌, arith,
}
use server_simple.Notify.{Json, int, string, json_name, Notify, alarm_time}
use server_simple.Notify.Alarm.{alarm_time_lem}
use server_simple.Notify.Request.{same_text}
use server_simple.Registry.{
  Registry, blocked, returned, ret_max_user, find, start_notification, stop_notification, start,
  stop, perform_all,
}
use server_simple.Registry.Map.{Starts, start_notification-Starts, on_stop, stop_notification_lem}
use server_simple.Registry.Valid.{IsValid, perform_all-IsValid}
use server_simple.Registry.Deadlock.{perform_all-full}
use server_simple.Server.{
  Server, admitted, running, leaving, World, Steps, admits, launches, leaves, done, later, let_in,
  launch, uncount,
}
use server_simple.Server.Counts.{IsCounted, Steps-IsCounted}
use server_simple.Tests.Data.{parse, a_registry}

-- One message, and two pushes.
abbrev a_notify : Notify
a_notify = record {
  user_index = 7;
  hour = 23;
  minute = 30;
  interval = 10;
  number_of_repeat = 2;
  number_message = 1;
  messages = (104 ∷ 105 ∷ []) ∷ [];
  thread_exit = false;
  first_started = true;
  id_start_alarm_from_db = 0;
  tokens = [];
  device_type = [];
  posts = 0;
}

-- A packet with "test" 1 and the message "hi", and the object that is built from it.
abbrev a_packet : Json
a_packet = record {
  has_parse_error = false;
  is_object = true;
  member =
      λ name. if same_text name json_name then some (int 1) else some (string (104 ∷ 105 ∷ []));
}

abbrev built_notify : Notify
built_notify = record {
  user_index = 1;
  hour = 1;
  minute = 1;
  interval = 1;
  number_of_repeat = 1;
  number_message = 1;
  messages = (104 ∷ 105 ∷ []) ∷ [];
  thread_exit = false;
  first_started = true;
  id_start_alarm_from_db = 0;
  tokens = [];
  device_type = [];
  posts = 0;
}

-- At 0:40 the alarm after 23 hours and 30 minutes is recorded for 24:10.
alarm_at_24 : alarm_time a_notify 0 40 ≡ (24, 10)
unfolding alarm_time
alarm_at_24 = refl

alarm_time_example :
    let (hour, minute) = alarm_time a_notify 0 40 in
    ((hour * 60 + minute) % 1440 ≡ (0 * 60 + 40 + 23 * 60 + 30) % 1440)
    × (minute < 60)
    × (hour ≤ 24)
alarm_time_example =
    alarm_time_lem a_notify 0 40 (omega arith) (omega arith) (omega arith) (omega arith)

start_notification-Starts_example :
    Starts a_registry
      (parse (123 ∷ []))
      true
      (start_notification a_registry (parse (123 ∷ [])) true)
start_notification-Starts_example =
    start_notification-Starts a_registry (parse (123 ∷ [])) true refl (omega arith)

-- User 7 has a notification, user 8 too, and the limit is 1.
abbrev full : Registry
full = record a_registry { handles = (7, a_notify) ∷ (8, a_notify) ∷ [] }

stop_notification_example :
    let (call, out) = stop_notification full 7 in
    (call ≡ returned 0)
    × ((key : ℕ) → find key out.handles ≡ (if 7 == key then none else find key full.handles))
    × (out.deleted ≡ on_stop [] (find 7 full.handles))
    × (out.locked ≡ false)
stop_notification_example = stop_notification_lem full 7 refl

full-IsValid : IsValid full
unfolding find
full-IsValid = record { distinct = (refl, (refl, tt)); bounded = omega arith }

perform_all-IsValid_example :
    IsValid (perform_all full (stop 7 ∷ start (parse (123 ∷ [])) true ∷ stop 8 ∷ [])).1
perform_all-IsValid_example =
    perform_all-IsValid full (stop 7 ∷ start (parse (123 ∷ [])) true ∷ stop 8 ∷ []) full-IsValid

-- The same table in the other order.
abbrev full_reversed : Registry
full_reversed = record a_registry { handles = (8, a_notify) ∷ (7, a_notify) ∷ [] }

either_order :
    (key : ℕ)
    → (if 7 == key then some a_notify else if 8 == key then some a_notify else none)
      ≡ (if 8 == key then some a_notify else if 7 == key then some a_notify else none)
either_order key = elim (Bool-cases (7 == key)) [
  | inl seven ↦ let not_eight : (8 == key) ≡ false = ground arith in rw (seven, not_eight) refl
  | inr other ↦ rw other refl
]

full-Same : Same full full_reversed
unfolding find
full-Same = record { locked = refl; limit = refl; size = refl; entries = either_order }

full_reversed-IsValid : IsValid full_reversed
unfolding find
full_reversed-IsValid = record { distinct = (refl, (refl, tt)); bounded = omega arith }

abbrev a_table : Table
a_table = Quot.mk (full, full-IsValid)

one_table : a_table ≡ Quot.mk (full_reversed, full_reversed-IsValid)
one_table = Quot.sound full-Same

stop_comm_example :
    let later = start (parse (123 ∷ [])) true ∷ [] in
    (calls (stop 7 ∷ stop 8 ∷ later) a_table ≡ calls (stop 8 ∷ stop 7 ∷ later) a_table)
    × (table_after (stop 7 ∷ stop 8 ∷ later) a_table
        ≡ table_after (stop 8 ∷ stop 7 ∷ later) a_table)
stop_comm_example = stop_comm 7 8 (start (parse (123 ∷ [])) true ∷ []) a_table

perform_all-full_example :
    perform_all full (start (parse (123 ∷ [])) true ∷ stop 7 ∷ [])
    ≡ (returned ret_max_user ∷ blocked ∷ [], record full { locked = true })
perform_all-full_example =
    perform_all-full full (parse (123 ∷ [])) true (stop 7 ∷ []) refl (omega arith)

abbrev server : Server
server = record {
  connection_count = 0;
  max_used_connections = 0;
  thread_count = 0;
  thread_id = 1;
  max_connections = 1;
  abort_loop = false;
}

abbrev idle : World
idle = record { server = server; threads = [] }

abbrev one_in : World
one_in = record {
  server = record server { connection_count = 1; max_used_connections = 1 };
  threads = admitted ∷ [];
}

abbrev one_running : World
one_running = record {
  server = record (one_in.server) { thread_id = 2; thread_count = 1 };
  threads = running ∷ [];
}

abbrev one_leaving : World
one_leaving = record {
  server = record (one_running.server) { connection_count = 0 };
  threads = leaving ∷ [];
}

run : Steps idle one_leaving
unfolding let_in launch uncount
run = later (admits refl) (later (launches [] [] refl) (later (leaves [] [] refl) done))

Steps-IsCounted_example : IsCounted one_leaving
Steps-IsCounted_example = Steps-IsCounted idle one_leaving run (record {
  connections = refl;
  threads = refl;
  limit = omega arith;
  bounded = omega arith;
  used = omega arith;
  used_bounded = omega arith;
})
