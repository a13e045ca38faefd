-- ===== src/Tests/Clients.antt =====
-- The test client against the server.
use server_simple.Base.{
  length, ◌+◌, ◌≤◌, ◌<◌, ◌⊎◌, ◌≡◌, refl, true, false, some, [], ◌∷◌, arith, codes,
}
use server_simple.Socket.{segment}
use server_simple.Session.{Thd}
use server_simple.Client.{token_frame, start_alarm, json_text}
use server_simple.Client.Threads.{
  Thread, alarms, counted, ended, Clients, before_loop, create, count_up, finish, Steps, creates,
  counts, finishes, done, later,
}
use server_simple.Client.Threads.Count.{AreFrom, working}
use server_simple.Client.Threads.Reports.{IsStarted, AllCounted, Steps-Reports}
use server_simple.Notify.{to_string, decimal}
use server_simple.Tests.Data.{a_net, a_thd}

-- The text "{}" in one segment with CCOM_QUIT.
abbrev served : Thd
served = a_thd (
    a_net (segment (3 ∷ 0 ∷ 0 ∷ 0 ∷ 4 ∷ 123 ∷ 125 ∷ 0 ∷ 1 ∷ 0 ∷ 0 ∷ 0 ∷ 1 ∷ []) ∷ []) (some 3 ∷ []))

frame : token_frame (codes "{}") ≡ 3 ∷ 0 ∷ 0 ∷ 0 ∷ 4 ∷ 123 ∷ 125 ∷ 0 ∷ []
unfolding token_frame
frame = refl

the_text : json_text 12 ≡ codes "{\"TOKEN\":\"Test_dk101fjAdffPA91bHZo7d12\"}"
unfolding to_string decimal
the_text = refl

not_connected : start_alarm 12 false true true ≡ []
unfolding start_alarm
not_connected = refl

abbrev first : Thread
first = record { index = 1; phase = alarms }

abbrev first_counted : Thread
first_counted = record { index = 1; phase = counted }

abbrev second : Thread
second = record { index = 2; phase = alarms }

abbrev second_counted : Thread
second_counted = record { index = 2; phase = counted }

-- Two clients that both count before one of them looks at the count.
abbrev two_threads : Clients
two_threads = create 2 (create 2 before_loop)

abbrev one_counted : Clients
one_counted = count_up [] first (second ∷ []) two_threads

abbrev both_counted : Clients
both_counted = count_up (first_counted ∷ []) second [] one_counted

abbrev one_ended : Clients
one_ended = finish 2 [] first_counted (second_counted ∷ []) both_counted

abbrev both_ended : Clients
both_ended = finish 2 (record { index = 1; phase = ended } ∷ []) second_counted [] one_ended

two_reports : both_ended.reports ≡ 2
unfolding create count_up finish
two_reports = refl

two_clients : Steps 2 before_loop both_ended
unfolding create count_up finish
two_clients = later {d = create 2 before_loop} (creates (omega arith)) (
    later {d = two_threads} (creates (omega arith)) (
      later {d = one_counted} (counts [] (second ∷ []) first refl refl) (
        later {d = both_counted} (counts (first_counted ∷ []) [] second refl refl) (
          later {d = one_ended} (finishes [] (second_counted ∷ []) first_counted refl refl) (
            later {d = both_ended}
              (finishes (record { index = 1; phase = ended } ∷ []) [] second_counted refl refl)
              done)))))

Steps-Reports_example :
    AreFrom 1 both_ended.threads
    × (length both_ended.threads ≤ 2)
    × (both_ended.reports + working both_ended.threads ≤ length both_ended.threads)
    × ((both_ended.reports ≡ 0) ⊎ AllCounted 2 both_ended)
    × ((both_ended.next ≤ 2) ⊎ (0 < working both_ended.threads + both_ended.reports))
    × (((both_ended.next ≤ 2) × (both_ended.outside ≡ 0))
        ⊎ (IsStarted 2 both_ended × (both_ended.outside ≡ 1)))
Steps-Reports_example = Steps-Reports 2 both_ended (omega arith) two_clients
