-- ===== src/Registry/Lifetime.antt =====
-- The objects of the table in Server/server.cc against the threads of Server/NotifyMessage.cc that use
-- them. The key of an entry is the member "userIndex" of the packet, `mUserIndex` its member "test"; a
-- thread gets a pointer to its object, and ends with `StopNotification(mUserIndex)`.
pub mod Sound
use server_simple.Base.{ℕ, ◌+◌, none, List, [], ◌∷◌, ◌++◌, ◌≡◌, ◌⊎◌}
use server_simple.Registry.{find, erase}

-- A `NotifyMessage` and its `mUserIndex`. Objects are numbered as they are made. A thread is given by
-- its object, of which it keeps the user in its local `id`.
pub record Object : Type 0 where
  pub number : ℕ
  pub user : ℕ

-- The objects that are alive are those of the table, since `StopNotification` deletes and erases in one
-- critical section; `workers` are the objects of the threads that have not ended.
pub record Objects : Type 0 where
  pub next : ℕ
  pub table : List (ℕ × Object)
  pub workers : List Object

-- `new NotifyMessage(packet)` under a key that was not there, with its thread.
abbrev pub start_object : Objects → ℕ → ℕ → Objects
start_object w key user = record {
  next = w.next + 1;
  table = (key, record { number = w.next; user = user }) ∷ w.table;
  workers = record { number = w.next; user = user } ∷ w.workers;
}

-- `delete` and `erase`. The destructor detaches the thread and does not wait for it.
abbrev pub stop_object : Objects → ℕ → Objects
stop_object w key = record w { table = erase key w.table }

-- The end of a thread between the others.
abbrev pub end_worker : Objects → List Object → Object → List Object → Objects
end_worker w xs t ys = stop_object (record w { workers = xs ++ ys }) t.user

-- One critical section of `StartNotification` or `StopNotification`, the second for a client or at the
-- end of a thread.
pub data Step : Objects → Objects → Type 0 where
  starts :
      {w : Objects} → (key user : ℕ) → find key w.table ≡ none → Step w (start_object w key user)
  stops : {w : Objects} → (key : ℕ) → Step w (stop_object w key)
  ends :
      {w : Objects}
      → (xs ys : List Object) (t : Object) → w.workers ≡ xs ++ (t ∷ ys)
      → Step w (end_worker w xs t ys)

pub data Steps : Objects → Objects → Type 0 where
  done : {w : Objects} → Steps w w
  later : {u v w : Objects} → Step u v → Steps v w → Steps u w

-- Which threads there are.
abbrev pub In : Object → List Object → Type 0
In t [] = ⊥
In t (u ∷ us) = (u ≡ t) ⊎ In t us
