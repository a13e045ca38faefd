-- ===== src/Vio.antt =====
-- Server/vio.cc, Server/viosocket.c and `struct st_vio` of Server/violite.h: the descriptor layer
-- over one socket. A `Vio *` is the record that it points to. Reads return the bytes that the C
-- code stores at `buf`, `none` for (size_t) -1.
pub mod Laws
pub mod Buffered
pub mod Reader
pub mod Peer
use server_simple.Base.{
  ℕ, ◌-◌, Bool, true, false, not, ◌&&◌, ◌||◌, Option, none, some, List, [], ◌==◌, ltb,
  if◌then◌else◌, min, length, take, slice, write_at, ◌+◌, replicate,
}
use server_simple.Socket
use server_simple.Socket.{Socket}

-- `enum enum_vio_type`.
pub data VioType : Type 0 where
  closed tcpip socket namedpipe ssl shared_memory : VioType

pub VioType-discrete : Discrete VioType
VioType-discrete = hlevel

-- VIO_READ_BUFFER_SIZE and VIO_UNBUFFERED_READ_MIN_SIZE
abbrev pub vio_read_buffer_size : ℕ
vio_read_buffer_size = 16384

abbrev pub vio_unbuffered_read_min_size : ℕ
vio_unbuffered_read_min_size = 2048

-- `struct st_vio`. `sd` is `none` for -1; `nonblock` is the O_NONBLOCK bit of `fcntl_mode`, the only
-- one that the code reads; the NULL read positions are 0; `kernel` is the socket behind `sd`.
pub record Vio : Type 0 where
  pub type : VioType
  pub sd : Option ℕ
  pub localhost : Bool
  pub nonblock : Bool
  pub read_buffer : Option (List ℕ)
  pub read_pos : ℕ
  pub read_end : ℕ
  pub kernel : Socket

abbrev pub is_closed : VioType → Bool
is_closed closed = true
is_closed _ = false

abbrev pub is_namedpipe : VioType → Bool
is_namedpipe namedpipe = true
is_namedpipe _ = false

-- HAVE_VIO_READ_BUFF is not defined, so VIO_BUFFERED_READ is cleared and no read buffer is taken.
unfoldable pub vio_init : VioType → Option ℕ → Bool → Socket → Vio
vio_init type sd localhost kernel = record {
  type = type;
  sd = sd;
  localhost = localhost;
  nonblock = false;
  read_buffer = none;
  read_pos = 0;
  read_end = 0;
  kernel = kernel;
}

unfoldable pub vio_reset : Vio → VioType → Option ℕ → Bool → Socket → Vio
unfolding vio_init
vio_reset vio type sd localhost kernel = vio_init type sd localhost kernel

-- `allocated` is whether `malloc` succeeds. F_SETFL is followed by F_GETFL.
unfoldable pub vio_new : Bool → ℕ → VioType → Bool → Socket → Option Vio
unfolding vio_init
vio_new allocated sd type localhost kernel =
    let (refused, k) = Socket.set_nonblock kernel false in
    if allocated
    then some (record (vio_init type (some sd) localhost k) { nonblock = k.nonblock })
    else none

vio_read_sd : Option ℕ → Vio → ℕ → Option (List ℕ) × Vio
vio_read_sd none vio size = (none, vio)
vio_read_sd (some sd) vio size =
    let (r, k) = Socket.read vio.kernel size in (r, record vio { kernel = k })

unfoldable pub vio_read : Vio → ℕ → Option (List ℕ) × Vio
unfolding vio_read_sd
vio_read vio size = vio_read_sd vio.sd vio size

vio_write_sd : Option ℕ → Vio → List ℕ → Option ℕ × Vio
vio_write_sd none vio bytes = (none, vio)
vio_write_sd (some sd) vio bytes =
    let (r, k) = Socket.write vio.kernel bytes in (r, record vio { kernel = k })

unfoldable pub vio_write : Vio → List ℕ → Option ℕ × Vio
unfolding vio_write_sd
vio_write vio bytes = vio_write_sd vio.sd vio bytes

-- What a NULL or a real read buffer holds.
abbrev pub buffer_bytes : Option (List ℕ) → List ℕ
buffer_bytes none = []
buffer_bytes (some buffer) = buffer

-- The middle branch of `vioReadBuff`, on what `vioRead` into the read buffer gave.
refill : Option (List ℕ) → Vio → ℕ → Option (List ℕ) × Vio
refill none vio size = (none, vio)
refill (some bytes) vio size =
    let filled = record vio {
      read_buffer = some (write_at (buffer_bytes vio.read_buffer) 0 bytes);
    } in
    if length bytes == 0
    then (some [], filled)
    else if ltb size (length bytes)
    then (
      some (slice (buffer_bytes filled.read_buffer) 0 size),
      record filled { read_pos = size; read_end = length bytes },
    )
    else (some (slice (buffer_bytes filled.read_buffer) 0 (length bytes)), filled)

unfoldable pub vio_read_buff : Vio → ℕ → Option (List ℕ) × Vio
unfolding refill
vio_read_buff vio size =
    let rc = min (vio.read_end - vio.read_pos) size in
    let (r, v) = vio_read vio vio_read_buffer_size in
    if ltb vio.read_pos vio.read_end
    then (
      some (slice (buffer_bytes vio.read_buffer) vio.read_pos rc),
      record vio { read_pos = vio.read_pos + rc },
    )
    else if ltb size vio_unbuffered_read_min_size
    then refill r v size
    else vio_read vio size

-- The result is `r` (true for -1), `*old_mode` and the new state.
unfoldable pub vio_blocking : Vio → Bool → Bool × Bool × Vio
vio_blocking vio set_blocking_mode =
    let old_mode = not vio.nonblock in
    let (failed, k) = Socket.set_nonblock vio.kernel (not set_blocking_mode) in
    elim vio.sd [
      | none ↦ (false, old_mode, vio)
      | some sd ↦
          if (set_blocking_mode && old_mode) || (not set_blocking_mode && vio.nonblock)
          then (false, old_mode, vio)
          else if failed
          then (true, old_mode, record vio { kernel = k })
          else (false, old_mode, record vio { nonblock = not set_blocking_mode; kernel = k })
    ]

pub vio_is_blocking : Vio → Bool
vio_is_blocking vio = not vio.nonblock

-- The result is whether the code returns -1.
unfoldable pub vio_fastsend : Vio → Bool × Vio
vio_fastsend vio =
    let (r, k) = Socket.set_option vio.kernel (record (vio.kernel) { nodelay = true }) in
    (r, record vio { kernel = k })

unfoldable pub vio_keepalive : Vio → Bool → Bool × Vio
vio_keepalive vio set_keep_alive =
    let (r, k) =
      Socket.set_option vio.kernel (record (vio.kernel) { keepalive = set_keep_alive }) in
    if is_namedpipe vio.type then (false, vio) else (r, record vio { kernel = k })

-- The receive timeout for `which` 0, the send timeout otherwise. A failure is only logged.
unfoldable pub vio_timeout : Vio → Bool → ℕ → Vio
vio_timeout vio which timeout =
    let changed =
      if which
      then record (vio.kernel) { sndtimeo = timeout }
      else record (vio.kernel) { rcvtimeo = timeout } in
    let (r, k) = Socket.set_option vio.kernel changed in record vio { kernel = k }

-- The result is whether the code returns -1.
unfoldable pub vio_close : Vio → Bool × Vio
vio_close vio =
    let (r, k) = Socket.hang_up vio.kernel in
    if is_closed vio.type
    then (false, record vio { sd = none })
    else (r, record vio { type = closed; sd = none; kernel = k })

-- `vioDelete` on a pointer that is not NULL: the socket is closed unless it already is, then the
-- memory goes. What is left is the kernel's side.
unfoldable pub vio_delete : Vio → Socket
unfolding vio_close
vio_delete vio = if is_closed vio.type then vio.kernel else (vio_close vio).1.kernel
