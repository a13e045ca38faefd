-- ===== src/Startup.antt =====
-- `main` and `network_init` of Server/server.cc: what the accept loop starts from.
pub mod Runs
use server_simple.Base.{ℕ, Bool, true, false, not, Option, none, some, [], ◌==◌, ◌≡◌, if◌then◌else◌}
use server_simple.Accept.{Machine}

-- What the system answers, a descriptor being `none` for -1: `socket`, and whether `bind` and `listen`
-- succeed. Neither does for -1, which is EBADF.
pub record Network : Type 0 where
  pub socket : Option ℕ
  pub bind : Option ℕ → Bool
  pub listen : Option ℕ → Bool
  pub no_bind : bind none ≡ false

-- `ip_sock`, with the port and the length of the queue if it listens.
pub record Listener : Type 0 where
  pub ip_sock : Option ℕ
  pub port : Option ℕ
  pub queue : ℕ

-- `my_port`, and `back_log`, which nothing sets.
abbrev pub my_port : ℕ
my_port = 9877

abbrev pub back_log : ℕ
back_log = 0

-- Whether the descriptor is 0, as which the code takes a failure of `socket`.
abbrev pub is_zero : Option ℕ → Bool
is_zero none = false
is_zero (some fd) = fd == 0

-- From the test of `ip_sock` on; `none` is for `exit(1)`.
abbrev pub with_socket : ℕ → Network → Option ℕ → Option Listener
with_socket port net ip_sock =
    if is_zero ip_sock
    then none
    else if net.bind ip_sock
    then if net.listen ip_sock
      then some (record { ip_sock = ip_sock; port = some port; queue = back_log })
      else none
    else none

-- `network_init` on this port. Without one `ip_sock` stays 0.
unfoldable pub network_init : ℕ → Network → Option Listener
network_init port net =
    if port == 0
    then some (record { ip_sock = some 0; port = none; queue = 0 })
    else with_socket port net net.socket

-- The globals, as the program starts with them.
abbrev pub zero_machine : Machine
zero_machine = record {
  server = record {
    connection_count = 0;
    max_used_connections = 0;
    thread_count = 0;
    thread_id = 1;
    max_connections = 1000000;
    abort_loop = false;
  };
  held = record { sockets = 0; thds = 0; vios = 0; buffers = 0 };
  error_count = 0;
  threads = [];
}

-- What `main` gives to `handle_connections_sockets`, if it comes to it.
abbrev pub with_listener : Option Listener → Option (Listener × Machine)
with_listener none = none
with_listener (some l) = some (l, zero_machine)

unfoldable pub main : Network → Option (Listener × Machine)
main net = with_listener (network_init my_port net)
