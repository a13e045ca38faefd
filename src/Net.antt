-- ===== src/Net.antt =====
-- Server/net_serv.cc and `struct stNet` of Server/net_comm.h: the packet layer. This file has the
-- state, its set-up and the buffer's growth; the children have the two directions.
pub mod Write
pub mod Read
pub mod Roundtrip
pub mod Init
pub mod Clear
use server_simple.Base.{
  ℕ, suc, ◌+◌, ◌-◌, ◌*◌, ◌/◌, ◌%◌, ◌^◌, Bool, true, false, List, [], ◌∷◌, ◌++◌, leb, if◌then◌else◌,
  none, max, take, replicate,
}
use server_simple.Socket.{Socket}
use server_simple.Vio.{Vio, VioType, vio_init, vio_timeout, vio_fastsend}

-- NET_BUFFER_LENGTH, MAX_ALLOWED_PACKET, MAX_PACKET_LENGTH, IO_SIZE, NET_HEADER_SIZE and
-- COMP_HEADER_SIZE, and the timeouts of the same file.
abbrev pub net_buffer_length : ℕ
net_buffer_length = 1024 * 2

abbrev pub max_allowed_packet : ℕ
max_allowed_packet = net_buffer_length

abbrev pub max_packet_length : ℕ
max_packet_length = 256 * 256 * 256 - 1

abbrev pub io_size : ℕ
io_size = 4096

abbrev pub net_header_size : ℕ
net_header_size = 4

abbrev pub comp_header_size : ℕ
comp_header_size = 3

abbrev pub net_read_timeout : ℕ
net_read_timeout = 60

abbrev pub net_write_timeout : ℕ
net_write_timeout = 60

-- `struct stNet`, less the fields that no code reads. Positions are offsets into `buff`, and
-- `buff_end` is `buff + max_packet` wherever it is set. `has_vio` is whether `vio` is not NULL.
pub record Net : Type 0 where
  pub vio : Vio
  pub has_vio : Bool
  pub buff : List ℕ
  pub write_pos : ℕ
  pub read_pos : ℕ
  pub where_b : ℕ
  pub max_packet : ℕ
  pub max_packet_size : ℕ
  pub pkt_nr : ℕ  -- unsigned int
  pub compress_pkt_nr : ℕ  -- unsigned int
  pub read_timeout : ℕ
  pub write_timeout : ℕ
  pub retry_count : ℕ
  pub reading_or_writing : ℕ
  pub compress : Bool
  pub error : ℕ
  pub aes_key : List ℕ

-- `++` on an unsigned int.
abbrev pub next_nr : ℕ → ℕ
next_nr n = (n + 1) % 2 ^ 32

-- `int3store`: three bytes, the lowest first.
abbrev pub int3store : ℕ → List ℕ
int3store n = (n % 256) ∷ (n / 256 % 256) ∷ (n / 65536 % 256) ∷ []

unfoldable pub net_set_read_timeout : Net → ℕ → Net
net_set_read_timeout net timeout = record net {
  read_timeout = timeout;
  vio = if net.has_vio then vio_timeout net.vio false timeout else net.vio;
}

unfoldable pub net_set_write_timeout : Net → ℕ → Net
net_set_write_timeout net timeout = record net {
  write_timeout = timeout;
  vio = if net.has_vio then vio_timeout net.vio true timeout else net.vio;
}

unfoldable pub net_local_init : Net → Net
unfolding net_set_read_timeout net_set_write_timeout
net_local_init net =
    record (net_set_write_timeout
      (net_set_read_timeout (record net { max_packet = net_buffer_length }) net_read_timeout)
      net_write_timeout) {
        retry_count = 10;
        max_packet_size = max net_buffer_length max_allowed_packet;
      }

-- The zeroed structure that `netInit` gets.
unfoldable pub zero_net : Net
unfolding vio_init
zero_net = record {
  vio = vio_init VioType.closed none false no_socket;
  has_vio = false;
  buff = [];
  write_pos = 0;
  read_pos = 0;
  where_b = 0;
  max_packet = 0;
  max_packet_size = 0;
  pkt_nr = 0;
  compress_pkt_nr = 0;
  read_timeout = 0;
  write_timeout = 0;
  retry_count = 0;
  reading_or_writing = 0;
  compress = false;
  error = 0;
  aes_key = replicate 32 0;
}
  where
    no_socket : Socket
    no_socket = record {
      incoming = [];
      accepts = [];
      refuses = true;
      live = false;
      nonblock = false;
      received = [];
      sent = [];
      nodelay = false;
      keepalive = false;
      rcvtimeo = 0;
      sndtimeo = 0;
    }

-- `netInit` with a `vio` that is not NULL; `allocated` is whether `malloc` succeeds. The result is
-- the C result, true for failure. The fresh bytes, which C leaves open, are 0.
unfoldable pub net_init : Bool → Net → Vio → Bool × Net
unfolding net_local_init
net_init allocated net vio =
    let n = net_local_init (record net { vio = vio; has_vio = true }) in
    if allocated
    then (
      false,
      record n {
        buff = replicate (n.max_packet + net_header_size + comp_header_size) 0;
        error = 0;
        pkt_nr = 0;
        compress_pkt_nr = 0;
        write_pos = 0;
        read_pos = 0;
        compress = false;
        reading_or_writing = 0;
        where_b = 0;
        vio = (vio_fastsend n.vio).1;
      },
    )
    else (true, record n { buff = [] })

-- `(length + IO_SIZE - 1) & ~(IO_SIZE - 1)` on a size_t.
abbrev pub round_up : ℕ → ℕ
round_up n = (n + io_size - 1) % 2 ^ 64 / io_size * io_size

-- `realloc`: the old bytes, then bytes that C leaves open.
abbrev pub resize : List ℕ → ℕ → List ℕ
resize buff n = take n (buff ++ replicate n 0)

-- `memory n` is whether `realloc` can give `n` bytes. The result is true for failure.
unfoldable pub net_realloc : (ℕ → Bool) → Net → ℕ → Bool × Net
net_realloc memory net length =
    let pkt_length = round_up length in
    let size = pkt_length + net_header_size + comp_header_size + 1 in
    if leb net.max_packet_size length
    then (true, record net { error = 1 })
    else if memory size
    then (false, record net { buff = resize net.buff size; write_pos = 0; max_packet = pkt_length })
    else (true, record net { error = 1 })
