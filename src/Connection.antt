-- ===== src/Connection.antt =====
-- `handle_one_connection` of Server/net_connect.cc: the thread of a connection.
pub mod Rounds
pub mod Ends
pub mod Talk
use server_simple.Base.{ℕ, zero, suc, Bool, true, false, not, ◌&&◌, ◌==◌, if◌then◌else◌, length}
use server_simple.Socket.Laws.{stream}
use server_simple.Vio.{Vio, vio_keepalive}
use server_simple.Net.{Net}
use server_simple.Session.{Thd, Shared, Env, Outcome, finished, hangs, crashes, do_command}
use server_simple.Server.{close_connection}

-- How the thread ends: by `end_thread`, waiting for LOCK_SetupNoti, or with the process. The last case
-- is for rounds that run out.
pub data Life : Type 0 where
  ended : Thd → Shared → Life
  waits : Shared → Life
  stopped out_of_rounds : Life

-- The condition of the `while` loop.
abbrev pub keeps_on : Thd → Bool
keeps_on thd = (thd.net.error == 0) && (thd.net.has_vio && not thd.killed)

-- What follows a command, `next` being the rest of the loop.
pub after_command : Outcome → (Thd → Shared → Life) → Life
after_command (finished true thd shared) next = ended thd shared
after_command (finished false thd shared) next = next thd shared
after_command (hangs shared) next = waits shared
after_command crashes next = stopped

-- The rounds of the thread alone: nobody else changes `shared` between its commands, and `env` is the
-- same for all of them. System has the commands of all connections interleaved.
unfoldable pub serve : ℕ → Env → Thd → Shared → Life
unfolding after_command
serve zero env thd shared = if keeps_on thd then out_of_rounds else ended thd shared
serve (suc rounds) env thd shared =
    let served = after_command (do_command env thd shared) (serve rounds env) in
    if keeps_on thd then served else ended thd shared

pub closed : Life → Life
closed (ended thd shared) = ended (close_connection thd) shared
closed (waits shared) = waits shared
closed stopped = stopped
closed out_of_rounds = out_of_rounds

-- `init_new_connection_thread` is `init_dummy`, which returns 0. A round that goes on takes a packet,
-- so one more round than bytes are still to come is enough.
unfoldable pub handle_one_connection : Env → Thd → Shared → Life
unfolding closed
handle_one_connection env thd shared =
    let net = record (thd.net) { vio = (vio_keepalive thd.net.vio true).1 } in
    closed (
      serve (suc (length (stream thd.net.vio.kernel.incoming))) env (record thd { net = net })
        shared)
