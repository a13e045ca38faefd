-- ===== src/Tests/Data.antt =====
-- Sockets, connections and an environment for the tests.
use server_simple.Base.{ℕ, true, false, Option, none, some, List, [], ◌∷◌, ◌==◌}
use server_simple.Socket.{Socket, Arrival}
use server_simple.Vio.{Vio, VioType}
use server_simple.Net.{Net}
use server_simple.Notify.{Json, int}
use server_simple.Registry.{Registry}
use server_simple.Session.{Thd, Env, Shared, ccom_sleep}

abbrev pub a_socket : List Arrival → List (Option ℕ) → Socket
a_socket incoming accepts = record {
  incoming = incoming;
  accepts = accepts;
  refuses = false;
  live = true;
  nonblock = false;
  received = [];
  sent = [];
  nodelay = false;
  keepalive = false;
  rcvtimeo = 0;
  sndtimeo = 0;
}

abbrev pub a_vio : List Arrival → List (Option ℕ) → Vio
a_vio incoming accepts = record {
  type = VioType.tcpip;
  sd = some 5;
  localhost = false;
  nonblock = false;
  read_buffer = none;
  read_pos = 0;
  read_end = 0;
  kernel = a_socket incoming accepts;
}

-- A connection with a packet buffer of 8 bytes, and the 7 spare ones.
abbrev pub a_net : List Arrival → List (Option ℕ) → Net
a_net incoming accepts = record {
  vio = a_vio incoming accepts;
  has_vio = true;
  buff = 0 ∷ 0 ∷ 0 ∷ 0 ∷ 0 ∷ 0 ∷ 0 ∷ 0 ∷ 0 ∷ 0 ∷ 0 ∷ 0 ∷ 0 ∷ 0 ∷ 0 ∷ [];
  write_pos = 0;
  read_pos = 0;
  where_b = 0;
  max_packet = 8;
  max_packet_size = 8;
  pkt_nr = 0;
  compress_pkt_nr = 0;
  read_timeout = 60;
  write_timeout = 60;
  retry_count = 10;
  reading_or_writing = 0;
  compress = false;
  error = 0;
  aes_key = [];
}

abbrev pub a_thd : Net → Thd
a_thd net = record {
  net = net;
  user_id = 0;
  server_status = 0;
  command = ccom_sleep;
  thread_id = 1;
  killed = false;
  enable_slow_log = false;
}

abbrev pub a_registry : Registry
a_registry = record { locked = false; limit = 1; handles = []; deleted = [] }

abbrev pub shared : Shared
shared = record { registry = a_registry; thread_running = 3 }

-- The text "{}" is an object with the int 7 under every name, another text is none.
abbrev pub parse : List ℕ → Json
parse [] = record { has_parse_error = true; is_object = false; member = λ name. none }
parse (c ∷ text) = record {
  has_parse_error = false;
  is_object = c == 123;
  member = λ name. some (int 0);
}

abbrev pub env : Env
env = record {
  parse = parse;
  render = λ members. 123 ∷ 125 ∷ [];
  check_exists = false;
  check_contents = none;
  not_service = false;
  started = true;
  database = record { handle = true; connects = true; run_query = λ q. some 9 };
  public_key = 1 ∷ 2 ∷ [];
  shared_key = λ k. k;
  memory = λ n. true;
}
