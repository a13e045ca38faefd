-- ===== src/Tests/Accepts.antt =====
-- Rounds of the accept loop.
use server_simple.Base.{
  zero, suc, ◌+◌, ◌%◌, ◌^◌, ◌≤◌, ◌≡◌, refl, true, false, none, some, List, [], ◌∷◌, length, arith,
}
use server_simple.Server.{let_in, launch}
use server_simple.Server.Counts.{IsCounted}
use server_simple.Socket.{Socket, segment, set_nonblock}
use server_simple.Connection.Talk.{Message}
use server_simple.Vio.{VioType, vio_new, vio_init}
use server_simple.Net.{zero_net, net_init}
use server_simple.Accept.{
  Machine, Answers, Turns, accepts, stay, turn, accept_round, accept_retry, with_socket, with_thd,
  with_vio, create_new_thread, start_thread, zero_thd, served, no_buffer, refused,
}
use server_simple.Accept.Holds.{Holds, lost_vio, lost_buffer, sum}
use server_simple.Startup.{Network, Listener, network_init, zero_machine, main}
use server_simple.Startup.Runs.{Listens, main-Runs}
use server_simple.Accept.Resources.{Turns-Holds}
use server_simple.Accept.Path.{world, Turns-Counts}
use server_simple.Accept.Served.{Turns-Closed}
use server_simple.Session.{Thd}
use server_simple.Connection.{handle_one_connection}
use server_simple.Connection.Ends.{Closed}
use server_simple.Server.{Steps}
use server_simple.Tests.Data.{a_socket, env, shared}

-- No connection is allowed but the first one.
abbrev a_machine : Machine
a_machine = record {
  server = record {
    connection_count = 0;
    max_used_connections = 0;
    thread_count = 0;
    thread_id = 1;
    max_connections = 0;
    abort_loop = false;
  };
  held = record { sockets = 0; thds = 0; vios = 0; buffers = 0 };
  error_count = 0;
  threads = [];
}

-- A client that quits at once.
abbrev a_client : Socket
a_client = a_socket (segment (1 ∷ 0 ∷ 0 ∷ 0 ∷ 1 ∷ []) ∷ []) []

abbrev quit : List Message
quit = record { head = 1 ∷ 0 ∷ 0 ∷ 0 ∷ []; command = 1; args = [] } ∷ []

-- The second try of `accept` succeeds, and everything else; then not enough memory for the buffer.
abbrev answers : Answers
answers = record {
  selected = true;
  accept = λ retry. elim retry [ zero ↦ none | suc n ↦ some (5, a_client) ];
  named = true;
  thd_allocated = true;
  vio_allocated = true;
  buffer_allocated = true;
  created = true;
}

abbrev no_memory : Answers
no_memory = record answers { buffer_allocated = false }

abbrev first : Machine
first = (accept_round a_machine answers).1

abbrev second : Machine
second = (accept_round first answers).1

abbrev third : Machine
third = (accept_round second no_memory).1

abbrev three_rounds : Turns a_machine third (
    (accept_round a_machine answers).0
    ∷ (accept_round first answers).0
    ∷ (accept_round second no_memory).0
    ∷ [])
three_rounds = turn (accepts answers) (turn (accepts answers) (turn (accepts no_memory) stay))

rounds_end :
    ((accept_round a_machine answers).0 ≡ served)
    × ((accept_round first answers).0 ≡ refused)
    × ((accept_round second no_memory).0 ≡ no_buffer)
unfolding accept_round accept_retry with_socket with_thd with_vio create_new_thread start_thread
    net_init let_in vio_new launch
rounds_end = (refl, refl, refl)

-- The Vios of the second and the third connection are lost, and the buffer of the second one.
Turns-Holds_example : Holds 2 1 third
unfolding accept_round accept_retry with_socket with_thd with_vio create_new_thread start_thread
    net_init let_in vio_new launch
Turns-Holds_example =
    Turns-Holds 0 0 a_machine third _ three_rounds
      (record { sockets = refl; thds = refl; vios = refl; buffers = refl; each = tt })

a_machine-IsCounted : IsCounted (world a_machine)
a_machine-IsCounted = record {
  connections = refl;
  threads = refl;
  limit = omega arith;
  bounded = omega arith;
  used = omega arith;
  used_bounded = omega arith;
}

Turns-Counts_example :
    Steps (world a_machine) (world third)
    × (third.server.connection_count ≡ length third.threads)
    × (third.server.thread_count ≡ length third.threads % 2 ^ 32)
    × (length third.threads ≤ third.server.max_connections + 1)
Turns-Counts_example = Turns-Counts a_machine third _ three_rounds a_machine-IsCounted

-- The connection of the first round.
abbrev a_thread : Thd
a_thread = record zero_thd {
  net =
      (net_init true zero_net
        (record (vio_init VioType.socket (some 5) true (set_nonblock a_client false).1) {
          nonblock = (set_nonblock a_client false).1.nonblock;
        })).1;
  thread_id = 1;
}

first_thread : first.threads ≡ a_thread ∷ []
unfolding accept_round accept_retry with_socket with_thd with_vio create_new_thread start_thread
    net_init let_in vio_new launch
first_thread = refl

Turns-Closed_example : Closed shared (handle_one_connection env a_thread shared)
Turns-Closed_example =
    Turns-Closed a_machine first _ [] [] a_thread env shared (turn (accepts answers) stay) tt
      first_thread (omega arith)

-- All goes well, on descriptor 3.
abbrev network : Network
network = record {
  socket = some 3;
  bind = λ s. elim s [ none ↦ false | some fd ↦ true ];
  listen = λ s. true;
  no_bind = refl;
}

abbrev listener : Listener
listener = record { ip_sock = some 3; port = some 9877; queue = 0 }

comes_up : main network ≡ some (listener, zero_machine)
unfolding main network_init
comes_up = refl

abbrev after_one : Machine
after_one = (accept_round zero_machine answers).1

main-Runs_example :
    Listens network listener
    × (after_one.server.connection_count ≡ length after_one.threads)
    × (length after_one.threads ≤ after_one.server.max_connections + 1)
    × (after_one.held.sockets ≡ length after_one.threads)
    × (after_one.held.thds ≡ length after_one.threads)
    × (after_one.held.vios
        ≡ length after_one.threads + sum lost_vio ((accept_round zero_machine answers).0 ∷ []))
    × (after_one.held.buffers
        ≡ length after_one.threads + sum lost_buffer ((accept_round zero_machine answers).0 ∷ []))
main-Runs_example =
    main-Runs network listener zero_machine after_one ((accept_round zero_machine answers).0 ∷ [])
      comes_up (turn (accepts answers) stay)
