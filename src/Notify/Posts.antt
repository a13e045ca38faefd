-- ===== src/Notify/Posts.antt =====
-- The thread of Server/NotifyMessage.cc with its database and its requests: `thread_start` from
-- DB_TASK_START_ALARM to its last push.
pub mod Sent
use server_simple.Base.{ℕ, suc, ◌+◌, Bool, true, false, Option, none, some, List, [], ◌∷◌}
use server_simple.Notify.{Notify, Push, skipped, pushed, out_of_bounds, thread_loop}
use server_simple.Notify.Database.{Mysql, Dealt, dealt, null_column, start_alarm, deal_task}
use server_simple.Notify.Request.{Request, post}

-- The requests of the pushes, from round `i` on; `curl i` is whether there is a handle in that
-- round. A read of `mMessages` out of its bounds is undefined, and nothing is said from there on; the
-- constructor builds no object that comes to it.
abbrev pub posts : Notify → (ℕ → Bool) → ℕ → List Push → List (Option Request)
posts n curl i [] = []
posts n curl i (skipped ∷ ps) = post n (curl i) skipped ∷ posts n curl (suc i) ps
posts n curl i (pushed m ∷ ps) = post n (curl i) (pushed m) ∷ posts n curl (suc i) ps
posts n curl i (out_of_bounds ∷ ps) = []

-- After the alarm was recorded. The result `none` is for an assignment of NULL.
abbrev pub after_start :
    Dealt → (ℕ → Bool) → (ℕ → Bool) → (ℕ → Bool) → Option (List (Option Request))
after_start null_column stopped reached curl = none
after_start (dealt false n open_connection) stopped reached curl = some []
after_start (dealt true n open_connection) stopped reached curl =
    some (posts n curl 0 (thread_loop n stopped reached n.number_of_repeat 0 false))

-- `stopped i` and `reached i` are as in `thread_loop`, `stopped_first` is whether `mThreadExit` is set
-- while the alarm is recorded.
unfoldable pub run_thread :
    Mysql
    → Bool
    → ℕ × ℕ
    → Notify
    → (ℕ → Bool)
    → (ℕ → Bool)
    → (ℕ → Bool)
    → Option (List (Option Request))
run_thread db stopped_first tm n stopped reached curl =
    after_start (deal_task db start_alarm stopped_first tm n 0) stopped reached curl
