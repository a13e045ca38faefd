-- ===== src/System.antt =====
-- All connections of the server at once: the commands of Server/net_connect.cc on what their threads
-- share. Commands overlap: while one is between its two counts in `thread_running`, others begin, work on
-- the table of notifications, and end. A critical section of LOCK_SetupNoti is one step; the two of
-- LOCK_thread_count are two steps each, the read and the write.
pub mod Phases
pub mod Moves
pub mod Invariant
use server_simple.Base.{ℕ, Bool, true, false, Option, none, List, [], ◌∷◌, ◌++◌, ◌≡◌, ◌≢◌}
use server_simple.Registry.{Registry, stop_notification}
use server_simple.Net.Read.{my_net_read}
use server_simple.Session.{
  Thd, Shared, Env, finished, hangs, do_command, new_command, counted, uncounted, with_registry,
}
use server_simple.Net.Read.Outcome.{CanRead}
use server_simple.Session.Reply.{IsClear}
use server_simple.Connection.{keeps_on}

-- Where the thread of a connection is: between two commands; holding LOCK_thread_count, with the value of
-- `thread_running` that it has read and has not yet counted up; in the command, before it has taken
-- LOCK_SetupNoti, with the connection as it was before its packet was read; waiting for LOCK_SetupNoti
-- for as long as it is held; behind the command, with its result; and holding LOCK_thread_count again,
-- with the value that it has read and has not yet counted down.
pub data Phase : Type 0 where
  idle : Thd → Phase
  counting : Env → Thd → ℕ → Phase
  running : Env → Thd → Phase
  waiting : Phase
  ending : Bool → Thd → Phase
  uncounting : Bool → Thd → ℕ → Phase

-- `count_locked` is whether somebody holds LOCK_thread_count.
pub record System : Type 0 where
  pub shared : Shared
  pub count_locked : Bool
  pub active : List Phase

-- The packet that a command begins with, or packet_error.
abbrev pub heard : Env → Thd → Option ℕ
heard env thd = (my_net_read env.memory (new_command thd.net)).0

-- A connection after a command with this result: its loop is left, or it goes on.
abbrev pub settle : Bool → Thd → List Phase
settle true out = []
settle false out = idle out ∷ []

-- A new connection as `netInit` sets it up; a connection whose loop ends; a read that fails, which is
-- not counted; a command, whose counts are a read and a write each, and which does between them to the
-- table what `do_command` does to it, the reply included, or waits; and the end of a notification's
-- thread.
pub data Step : System → System → Type 0 where
  arrives :
      {s : System}
      → (thd : Thd) → IsClear thd.net
      → CanRead thd.net
      → Step s (record s { active = idle thd ∷ s.active })
  leaves :
      {s : System}
      → (xs ys : List Phase) (thd : Thd) → s.active ≡ xs ++ (idle thd ∷ ys)
      → keeps_on thd ≡ false
      → Step s (record s { active = xs ++ ys })
  no_packet :
      {s : System}
      → (xs ys : List Phase) (thd out : Thd) (env : Env) (error : Bool) (after : Shared)
      → s.active ≡ xs ++ (idle thd ∷ ys)
      → keeps_on thd ≡ true
      → heard env thd ≡ none
      → do_command env thd s.shared ≡ finished error out after
      → Step s (record s { shared = after; active = xs ++ (settle error out ++ ys) })
  begins :
      {s : System}
      → (xs ys : List Phase) (thd : Thd) (env : Env) → s.active ≡ xs ++ (idle thd ∷ ys)
      → keeps_on thd ≡ true
      → heard env thd ≢ none
      → s.count_locked ≡ false
      → Step s (record s {
        count_locked = true;
        active = xs ++ (counting env thd s.shared.thread_running ∷ ys);
      })
  counts :
      {s : System}
      → (xs ys : List Phase) (thd : Thd) (env : Env) (read : ℕ)
      → s.active ≡ xs ++ (counting env thd read ∷ ys)
      → Step s (record {
        shared = counted (record s.shared { thread_running = read });
        count_locked = false;
        active = xs ++ (running env thd ∷ ys);
      })
  acts :
      {s : System}
      → (xs ys : List Phase) (thd out : Thd) (env : Env) (error : Bool) (after : Shared)
      → s.active ≡ xs ++ (running env thd ∷ ys)
      → do_command env thd s.shared ≡ finished error out after
      → Step s (record s {
        shared = with_registry s.shared after.registry;
        active = xs ++ (ending error out ∷ ys);
      })
  waits :
      {s : System}
      → (xs ys : List Phase) (thd : Thd) (env : Env) (after : Shared)
      → s.active ≡ xs ++ (running env thd ∷ ys)
      → do_command env thd s.shared ≡ hangs after
      → Step s (record s {
        shared = with_registry s.shared after.registry;
        active = xs ++ (waiting ∷ ys);
      })
  ends :
      {s : System}
      → (xs ys : List Phase) (out : Thd) (error : Bool) → s.active ≡ xs ++ (ending error out ∷ ys)
      → s.count_locked ≡ false
      → Step s (record s {
        count_locked = true;
        active = xs ++ (uncounting error out s.shared.thread_running ∷ ys);
      })
  uncounts :
      {s : System}
      → (xs ys : List Phase) (out : Thd) (error : Bool) (read : ℕ)
      → s.active ≡ xs ++ (uncounting error out read ∷ ys)
      → Step s (record {
        shared = uncounted (record s.shared { thread_running = read });
        count_locked = false;
        active = xs ++ (settle error out ++ ys);
      })
  alarm_ends :
      {s : System}
      → (id : ℕ)
      → Step s
          (record s { shared = with_registry s.shared (stop_notification s.shared.registry id).1 })

pub data Steps : System → System → Type 0 where
  done : {s : System} → Steps s s
  later : {r s t : System} → Step r s → Steps s t → Steps r t
