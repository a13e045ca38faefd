-- ===== src/Tests/Alarms.antt =====
-- The database, the requests and the threads of notifications.
use server_simple.Base.{
  ℕ, ◌-◌, ◌^◌, ◌<◌, ◌≡◌, refl, true, false, some, [], ◌∷◌, length, codes, arith,
}
use server_simple.Notify.{Notify, push_message, thread_loop, mysql_deal_task, to_string, decimal}
use server_simple.Notify.Database.{
  Mysql, row, dealt, start_alarm, print_int, start_query, token_query, deal_task,
}
use server_simple.Notify.Database.Decimal.{read_int}
use server_simple.Notify.Database.Deals.{Deals, deal_task-Deals}
use server_simple.Notify.Database.Queries.{queries-Fit}
use server_simple.Notify.Request.{Request, push_request, post}
use server_simple.Notify.Posts.{run_thread}
use server_simple.Notify.Posts.Sent.{run_thread-Posts}
use server_simple.Registry.{find, erase}
use server_simple.Registry.Lifetime.{
  Object, Objects, Steps, starts, stops, done, later, start_object, stop_object, end_worker,
}
use server_simple.Registry.Lifetime.Sound.{
  IsSound, Steps-IsSound, Dangles, ends-Dangles, IsOrphan, ends-IsOrphan,
}

abbrev a_notify : Notify
a_notify = record {
  user_index = 7;
  hour = 1;
  minute = 30;
  interval = 10;
  number_of_repeat = 2;
  number_message = 1;
  messages = (104 ∷ 105 ∷ []) ∷ [];
  thread_exit = false;
  first_started = true;
  id_start_alarm_from_db = 0;
  tokens = [];
  device_type = codes "android";
  posts = 0;
}

-- One row with a token and a type.
abbrev a_mysql : Mysql
a_mysql = record {
  handle = true;
  connects = true;
  insert = λ query. some 3;
  select = λ query. row (some (codes "abc") ∷ some (codes "ios") ∷ []);
}

a_query :
    start_query a_notify (23, 5)
    ≡ codes "INSERT INTO StartAlarm VALUES (0,7,CONCAT( 23 ,':',5),10,2,0,now(),0)"
unfolding start_query to_string decimal
a_query = refl

minus_one : print_int (2 ^ 32 - 1) ≡ codes "-1"
unfolding to_string decimal
minus_one = refl

minus_one_read : read_int (codes "-1") ≡ 2 ^ 32 - 1
minus_one_read = refl

queries-Fit_example :
    (length (start_query a_notify (23, 5)) < 1024) × (length (token_query a_notify) < 1024)
queries-Fit_example = queries-Fit a_notify (23, 5)

a_task :
    deal_task a_mysql start_alarm false (21, 35) a_notify 0
    ≡ dealt true
        (record a_notify {
          id_start_alarm_from_db = 3;
          tokens = codes "abc";
          device_type = codes "ios";
        })
        false
unfolding deal_task
a_task = refl

deal_task-Deals_example :
    Deals a_mysql start_alarm true a_notify 0
      (deal_task a_mysql start_alarm true (21, 35) a_notify 0)
deal_task-Deals_example = deal_task-Deals a_mysql start_alarm true (21, 35) a_notify 0

-- The first push of the thread, to the device that the database has.
abbrev to_device : Request
to_device =
    push_request (record a_notify { tokens = codes "abc"; device_type = codes "ios" })
      (104 ∷ 105 ∷ [])

a_run :
    run_thread a_mysql false (21, 35) a_notify (λ i. false) (λ i. true) (λ i. true)
    ≡ some (some to_device ∷ [])
unfolding run_thread deal_task thread_loop post push_message push_request to_string decimal
    mysql_deal_task
a_run = refl

run_thread-Posts_example :
    (0 < 2)
    × (some to_device
        ≡ post
            (record a_notify { tokens = codes "abc"; device_type = codes "ios" })
            true
            (push_message a_notify 0))
run_thread-Posts_example =
    run_thread-Posts a_mysql (21, 35) a_notify (λ i. false) (λ i. true) (λ i. true) (codes "abc")
      (codes "ios") (some to_device ∷ []) 0 (some to_device) refl refl refl refl a_run refl

abbrev no_objects : Objects
no_objects = record { next = 0; table = []; workers = [] }

no_objects-IsSound : IsSound no_objects
unfolding find
no_objects-IsSound = record {
  has_worker = λ key o e. cc;
  one_key = λ j k o p e f same. cc;
  kept = λ key o e. cc;
  made = λ t i. absurd i;
  apart = tt;
}

-- User 7 starts a notification, stops it, and starts another; then one is started under the key 5 by a
-- packet that has user 9.
abbrev restarted : Objects
restarted = start_object (start_object (stop_object (start_object no_objects 7 7) 7) 7 7) 5 9

restarts : Steps no_objects restarted
unfolding find erase
restarts =
    later (starts 7 7 refl)
      (later (stops 7) (later (starts 7 7 refl) (later (starts 5 9 refl) done)))

abbrev object : ℕ → ℕ → Object
object number user = record { number = number; user = user }

Steps-IsSound_example : IsSound restarted
Steps-IsSound_example = Steps-IsSound no_objects restarted restarts no_objects-IsSound

ends-Dangles_example :
    Dangles (end_worker restarted (object 2 9 ∷ object 1 7 ∷ []) (object 0 7) []) (object 1 7)
unfolding find erase
ends-Dangles_example =
    ends-Dangles restarted (object 2 9 ∷ object 1 7 ∷ []) [] (object 0 7) (object 1 7)
      Steps-IsSound_example refl refl refl (omega arith)

ends-IsOrphan_example :
    let ended = end_worker restarted [] (object 2 9) (object 1 7 ∷ object 0 7 ∷ []) in
    (find 5 ended.table ≡ some (object 2 9)) × IsOrphan ended (object 2 9)
unfolding find erase
ends-IsOrphan_example =
    ends-IsOrphan restarted [] (object 1 7 ∷ object 0 7 ∷ []) (object 2 9) 5 Steps-IsSound_example
      refl refl (omega arith)
