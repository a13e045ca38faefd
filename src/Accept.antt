-- ===== src/Accept.antt =====
-- The accept loop of Server/server.cc: `handle_connections_sockets`, with `create_new_thread` and the
-- end of a connection's thread, and what of the system's resources each of them holds.
pub mod Holds
pub mod Resources
pub mod Path
pub mod Served
use server_simple.Base.{
  ℕ, zero, suc, ◌+◌, ◌-◌, ◌%◌, ◌^◌, Bool, true, false, not, ◌&&◌, Option, none, some, List, [], ◌∷◌,
  ◌++◌, ◌==◌, if◌then◌else◌, ◌≡◌,
}
use server_simple.Socket.{Socket}
use server_simple.Vio.{Vio, VioType, vio_new, is_closed}
use server_simple.Net.{Net, zero_net, net_init}
use server_simple.Session.{Thd, Env, Shared, ccom_sleep}
use server_simple.Connection.{Life, ended, handle_one_connection}
use server_simple.Server.{Server, let_in, launch, uncount, unlink, close_connection}

-- How many descriptors are open, and how many THDs, Vios and packet buffers are allocated, for
-- connections.
pub record Held : Type 0 where
  pub sockets : ℕ
  pub thds : ℕ
  pub vios : ℕ
  pub buffers : ℕ

-- `error_count` is an unsigned int; `threads` are the connections as they were given to their threads.
pub record Machine : Type 0 where
  pub server : Server
  pub held : Held
  pub error_count : ℕ
  pub threads : List Thd

-- What the system answers in one round: whether `select` succeeds, the descriptors that `accept`
-- gives, whether `getsockname` succeeds, whether the three calls of `malloc` and `pthread_create` do.
pub record Answers : Type 0 where
  pub selected : Bool
  pub accept : ℕ → Option (ℕ × Socket)
  pub named : Bool
  pub thd_allocated : Bool
  pub vio_allocated : Bool
  pub buffer_allocated : Bool
  pub created : Bool

-- How a turn ends. A round of the loop: `select` fails, `abort_loop` is set, no descriptor, no name, no THD, no Vio, no
-- buffer, too many connections, no thread, or a connection with its thread. And: a thread is over.
pub data Round : Type 0 where
  no_select aborted no_socket no_name no_thd no_vio no_buffer refused no_thread served over : Round

-- MAX_ACCEPT_RETRY
abbrev pub max_accept_retry : ℕ
max_accept_retry = 10

-- The loop around `accept`, with `left` tries from number `retry` on.
unfoldable pub accept_retry : (ℕ → Option (ℕ × Socket)) → ℕ → ℕ → Option (ℕ × Socket)
accept_retry accept zero retry = none
accept_retry accept (suc left) retry =
    let next = accept_retry accept left (retry + 1) in
    elim (accept retry) [ none ↦ next | some new_sock ↦ some new_sock ]

-- `memset(thd, 0, sizeof(THD))`
abbrev pub zero_thd : Thd
zero_thd = record {
  net = zero_net;
  user_id = 0;
  server_status = 0;
  command = ccom_sleep;
  thread_id = 0;
  killed = false;
  enable_slow_log = false;
}

-- `closesocket` on the descriptor, and `free` of the THD.
abbrev pub close_socket : Held → Held
close_socket h = record h { sockets = h.sockets - 1 }

abbrev pub free_thd : Held → Held
free_thd h = record h { thds = h.thds - 1 }

-- What `vioClose` gives back.
abbrev pub close_vio : Held → Vio → Held
close_vio h vio = if is_closed vio.type then h else close_socket h

-- What `close_connection` gives back.
abbrev pub close_thd : Held → Thd → Held
close_thd h thd = if thd.net.has_vio then close_vio h thd.net.vio else h

-- What `cleanup` gives back: `vioDelete` does nothing on NULL, and `netEnd` frees the buffer.
abbrev pub cleanup_held : Held → Thd → Held
cleanup_held h thd =
    let deleted = record (close_vio h thd.net.vio) { vios = h.vios - 1 } in
    let h' = if thd.net.has_vio then deleted else h in record h' { buffers = h'.buffers - 1 }

-- `create_thread_to_handle_connection`, after `thread_id++` and `thread_count++`.
unfoldable pub start_thread : Machine → Thd → Bool → Round × Machine
start_thread m thd created =
    let (id, s) = launch m.server created in
    let numbered = record thd { thread_id = id } in
    if created
    then (served, record m { server = s; threads = numbered ∷ m.threads })
    else (no_thread, record m { server = uncount s; held = free_thd (close_thd m.held numbered) })

unfoldable pub create_new_thread : Machine → Thd → Bool → Round × Machine
unfolding start_thread
create_new_thread m thd created =
    let (admitted, s) = let_in m.server in
    if admitted
    then start_thread (record m { server = s }) thd created
    else (refused, record m { held = free_thd (close_thd m.held thd) })

-- `netInit` on the new Vio, and the branch after its failure: `thd->net.vio` is `vio_tmp` exactly if
-- `netInit` has set it.
unfoldable pub with_vio : Machine → Answers → Vio → Round × Machine
unfolding create_new_thread net_init
with_vio m a vio =
    let (failed, net) = net_init a.buffer_allocated zero_net vio in
    let h = record (m.held) { vios = m.held.vios + 1 } in
    let deleted = record (close_vio h vio) { vios = h.vios - 1 } in
    if failed
    then (
      no_buffer,
      record m { held = free_thd (if not net.has_vio then deleted else close_socket h) },
    )
    else create_new_thread (record m { held = record h { buffers = h.buffers + 1 } })
        (record zero_thd { net = net }) a.created

unfoldable pub with_thd : Machine → Answers → Option Vio → Round × Machine
unfolding with_vio
with_thd m a none = (no_vio, record m { held = free_thd (close_socket m.held) })
with_thd m a (some vio) = with_vio m a vio

-- The body of the loop from the result of `accept` on. VIO_TYPE_SOCKET and VIO_LOCALHOST.
unfoldable pub with_socket : Machine → Answers → Option (ℕ × Socket) → Round × Machine
unfolding with_thd
with_socket m a none = (no_socket, record m { error_count = (m.error_count + 1) % 2 ^ 32 })
with_socket m a (some (new_sock, kernel)) =
    let h = record (m.held) { sockets = m.held.sockets + 1 } in
    let vio_tmp = vio_new a.vio_allocated new_sock VioType.socket true kernel in
    let with_thd = with_thd (record m { held = record h { thds = h.thds + 1 } }) a vio_tmp in
    if not a.named
    then (no_name, record m { held = close_socket h })
    else if a.thd_allocated
    then with_thd
    else (no_thd, record m { held = close_socket h })

unfoldable pub accept_round : Machine → Answers → Round × Machine
unfolding with_socket
accept_round m a =
    if not a.selected
    then (no_select, m)
    else if m.server.abort_loop
    then (aborted, m)
    else with_socket m a (accept_retry a.accept max_accept_retry 0)

-- What a thread gives back until the end of `unlink_thd`, `thd` being the connection that it got and
-- `thd'` what `close_connection` left.
unfoldable pub end_held : Held → Thd → Thd → Held
end_held h thd thd' =
    let left = if is_closed thd'.net.vio.type then close_vio h thd.net.vio else h in
    free_thd (cleanup_held left thd')

-- One round of the accept loop, or the end of one thread, which no code gives a NULL `vio`.
pub data Turn : Machine → Machine → Round → Type 0 where
  accepts : {m : Machine} → (a : Answers) → Turn m (accept_round m a).1 (accept_round m a).0
  ends :
      {m : Machine}
      → (xs ys : List Thd) (thd thd' : Thd) (env : Env) (before after : Shared)
      → m.threads ≡ xs ++ (thd ∷ ys)
      → handle_one_connection env thd before ≡ ended thd' after
      → thd'.net.has_vio ≡ true
      → Turn m
          (record m {
            server = unlink (uncount m.server);
            held = end_held m.held thd thd';
            threads = xs ++ ys;
          })
          over

pub data Turns : Machine → Machine → List Round → Type 0 where
  stay : {m : Machine} → Turns m m []
  turn :
      {l m n : Machine} {r : Round} {rs : List Round}
      → Turn l m r
      → Turns m n rs
      → Turns l n (r ∷ rs)
