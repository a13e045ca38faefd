-- ===== src/Server.antt =====
-- The connections of Server/server.cc: `create_new_thread`, `create_thread_to_handle_connection`,
-- `close_connection`, `cleanup` and `unlink_thd`, with what the threads share.
pub mod Counts
use server_simple.Base.{
  ℕ, suc, ◌+◌, ◌-◌, ◌%◌, ◌^◌, Bool, true, false, ◌||◌, List, [], ◌∷◌, ◌++◌, ltb, leb, ◌≡◌,
  if◌then◌else◌,
}
use server_simple.Socket.{Socket}
use server_simple.Vio.{Vio, vio_close, vio_delete}
use server_simple.Net.{Net}
use server_simple.Session.{Thd}

-- The counters: unsigned ints but for `max_used_connections`, `thread_id` and `max_connections`, which
-- are unsigned longs.
pub record Server : Type 0 where
  pub connection_count : ℕ
  pub max_used_connections : ℕ
  pub thread_count : ℕ
  pub thread_id : ℕ
  pub max_connections : ℕ
  pub abort_loop : Bool

abbrev pub up : ℕ → ℕ
up n = (n + 1) % 2 ^ 32

abbrev pub down : ℕ → ℕ
down n = (n + (2 ^ 32 - 1)) % 2 ^ 32

-- The critical section of `create_new_thread` under LOCK_connection_count: whether the connection is
-- let in.
unfoldable pub let_in : Server → Bool × Server
let_in s =
    let count = up s.connection_count in
    if leb ((s.max_connections + 1) % 2 ^ 64) s.connection_count || s.abort_loop
    then (false, s)
    else (
      true,
      record s {
        connection_count = count;
        max_used_connections =
            if ltb s.max_used_connections count then count else s.max_used_connections;
      },
    )

-- The critical section under LOCK_thread_count, from `create_new_thread` to the end of
-- `pthread_create` in `create_thread_to_handle_connection`; `created` is whether that succeeds. The
-- first result is the thread's id.
unfoldable pub launch : Server → Bool → ℕ × Server
launch s created = (
  s.thread_id,
  record s {
    thread_id = (s.thread_id + 1) % 2 ^ 64;
    thread_count = if created then up s.thread_count else down (up s.thread_count);
  },
)

-- `--connection_count` of `unlink_thd`, and of the failure branch.
unfoldable pub uncount : Server → Server
uncount s = record s { connection_count = down s.connection_count }

-- `thread_count--` of `unlink_thd`.
unfoldable pub unlink : Server → Server
unlink s = record s { thread_count = down s.thread_count }

-- `close_connection`
unfoldable pub close_connection : Thd → Thd
close_connection thd =
    let closed = record (thd.net) { vio = (vio_close thd.net.vio).1 } in
    record thd { killed = true; net = if thd.net.has_vio then closed else thd.net }

-- `cleanup`: `vioDelete`, which leaves the kernel's side, and `netEnd`, which frees the buffer.
unfoldable pub cleanup : Thd → Socket × List ℕ
cleanup thd = (vio_delete thd.net.vio, [])

-- Where a connection that was let in stands: before `launch`; with its thread; after a failed
-- `pthread_create`; after `--connection_count` of `unlink_thd`.
pub data Phase : Type 0 where
  admitted running failed leaving : Phase

pub record World : Type 0 where
  pub server : Server
  pub threads : List Phase

-- One critical section of any thread. The main thread lets a connection in, or rejects it, and
-- launches it; the thread that is launched ends by itself.
pub data Step : World → World → Type 0 where
  rejects : {w : World} → (let_in w.server).0 ≡ false → Step w w
  admits :
      {w : World}
      → (let_in w.server).0 ≡ true
      → Step w (record { server = (let_in w.server).1; threads = admitted ∷ w.threads })
  launches :
      {w : World}
      → (xs ys : List Phase) → w.threads ≡ xs ++ (admitted ∷ ys)
      → Step w (record { server = (launch w.server true).1; threads = xs ++ (running ∷ ys) })
  fails :
      {w : World}
      → (xs ys : List Phase) → w.threads ≡ xs ++ (admitted ∷ ys)
      → Step w (record { server = (launch w.server false).1; threads = xs ++ (failed ∷ ys) })
  gives_up :
      {w : World}
      → (xs ys : List Phase) → w.threads ≡ xs ++ (failed ∷ ys)
      → Step w (record { server = uncount w.server; threads = xs ++ ys })
  leaves :
      {w : World}
      → (xs ys : List Phase) → w.threads ≡ xs ++ (running ∷ ys)
      → Step w (record { server = uncount w.server; threads = xs ++ (leaving ∷ ys) })
  ends :
      {w : World}
      → (xs ys : List Phase) → w.threads ≡ xs ++ (leaving ∷ ys)
      → Step w (record { server = unlink w.server; threads = xs ++ ys })

pub data Steps : World → World → Type 0 where
  done : {w : World} → Steps w w
  later : {u v w : World} → Step u v → Steps v w → Steps u w
