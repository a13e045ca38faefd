-- ===== src/Client/Threads.antt =====
-- `main` and `thread_start` of ClientTest/clientTest.cc: the threads and what they share. `clients` is
-- MAX_CLIENT_NUMBER. What a thread does in `StartAlarm` is in Client; where it calls exit, nothing
-- follows, and so it is where pthread_create fails. The write behind the end of `indexCount` is
-- counted, and taken to change nothing else.
pub mod Count
pub mod Reports
use server_simple.Base.{ℕ, ◌+◌, ◌≤◌, ◌≡◌, List, [], ◌∷◌, ◌++◌, leb, if◌then◌else◌}

-- Before the mutex is taken, between its release and the test of `thread_Count`, and after this.
pub data Phase : Type 0 where
  alarms : Phase
  counted : Phase
  ended : Phase

-- `index` is read from the cell of `indexCount` that only this thread is given.
pub record Thread : Type 0 where
  pub index : ℕ
  pub phase : Phase

-- `next` is the `i` of `main`, `outside` the writes behind the end of `indexCount`, and `reports` how
-- often the log has "Test Thread Finished".
pub record Clients : Type 0 where
  pub next : ℕ
  pub outside : ℕ
  pub thread_count : ℕ
  pub reports : ℕ
  pub threads : List Thread

abbrev pub before_loop : Clients
before_loop = record { next = 1; outside = 0; thread_count = 0; reports = 0; threads = [] }

-- A round of the loop of `main`, with a thread that can be created.
unfoldable pub create : ℕ → Clients → Clients
create clients c = record c {
  next = c.next + 1;
  outside = if leb clients c.next then c.outside + 1 else c.outside;
  threads = c.threads ++ (record { index = c.next; phase = alarms } ∷ []);
}

-- What a thread does under the mutex; it stands between `before` and `behind`.
unfoldable pub count_up : List Thread → Thread → List Thread → Clients → Clients
count_up before t behind c = record c {
  thread_count = c.thread_count + 1;
  threads = before ++ (record t { phase = counted } ∷ behind);
}

-- The rest, without the mutex.
unfoldable pub finish : ℕ → List Thread → Thread → List Thread → Clients → Clients
finish clients before t behind c = record c {
  reports = if leb clients c.thread_count then c.reports + 1 else c.reports;
  threads = before ++ (record t { phase = ended } ∷ behind);
}

pub data Step (clients : ℕ) : Clients → Clients → Type 0 where
  creates : {c : Clients} → c.next ≤ clients → Step clients c (create clients c)
  counts :
      {c : Clients} (before behind : List Thread) (t : Thread)
      → c.threads ≡ before ++ (t ∷ behind)
      → t.phase ≡ alarms
      → Step clients c (count_up before t behind c)
  finishes :
      {c : Clients} (before behind : List Thread) (t : Thread)
      → c.threads ≡ before ++ (t ∷ behind)
      → t.phase ≡ counted
      → Step clients c (finish clients before t behind c)

pub data Steps (clients : ℕ) : Clients → Clients → Type 0 where
  done : {c : Clients} → Steps clients c c
  later : {c d e : Clients} → Step clients c d → Steps clients d e → Steps clients c e
