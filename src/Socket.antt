-- ===== src/Socket.antt =====
-- The kernel's side of a connection, which is not part of the repository: what `read`, `write`
-- and `setsockopt` answer on a stream socket. The answers are an argument of every run.
pub mod Laws
use server_simple.Base.{
  ℕ, min, Bool, false, Option, none, some, List, [], ◌∷◌, ◌++◌, length, take, drop, if◌then◌else◌,
}

-- One answer to a waiting `read`: a segment of the stream, or a failure. An empty segment is the
-- end of the stream. A segment longer than the read is delivered over several reads.
pub data Arrival : Type 0 where
  segment : List ℕ → Arrival
  failure : Arrival

pub record Socket : Type 0 where
  pub incoming : List Arrival
  -- The answers to the next `write` calls: `none` is -1, `some k` lets at most `k` bytes through.
  pub accepts : List (Option ℕ)
  -- Whether `setsockopt`, `fcntl`, `shutdown` and `close` fail.
  pub refuses : Bool
  -- Whether the descriptor is open, and its O_NONBLOCK flag.
  pub live : Bool
  pub nonblock : Bool
  -- Every byte taken from the socket, and every byte given to it, so far.
  pub received : List ℕ
  pub sent : List ℕ
  pub nodelay : Bool
  pub keepalive : Bool
  pub rcvtimeo : ℕ
  pub sndtimeo : ℕ

abbrev keep_rest : List ℕ → List Arrival → List Arrival
keep_rest [] arrivals = arrivals
keep_rest (b ∷ rest) arrivals = segment (b ∷ rest) ∷ arrivals

read_arrival : Socket → List Arrival → ℕ → Option (List ℕ) × Socket
read_arrival s [] n = (none, s)
read_arrival s (failure ∷ arrivals) n = (none, record s { incoming = arrivals })
read_arrival s (segment bytes ∷ arrivals) n = (
  some (take n bytes),
  record s { incoming = keep_rest (drop n bytes) arrivals; received = s.received ++ take n bytes },
)

-- `read(fd, buf, n)`. With nothing left to arrive the receive timeout expires, which is -1.
unfoldable pub read : Socket → ℕ → Option (List ℕ) × Socket
unfolding read_arrival
read s n = read_arrival s s.incoming n

write_answer : Socket → List (Option ℕ) → List ℕ → Option ℕ × Socket
write_answer s [] bytes = (none, s)
write_answer s (none ∷ answers) bytes = (none, record s { accepts = answers })
write_answer s (some k ∷ answers) bytes = (
  some (min k (length bytes)),
  record s { accepts = answers; sent = s.sent ++ take (min k (length bytes)) bytes },
)

-- `write(fd, buf, n)`, `bytes` being the `n` bytes.
unfoldable pub write : Socket → List ℕ → Option ℕ × Socket
unfolding write_answer
write s bytes = write_answer s s.accepts bytes

-- What a `read` has taken, as the caller sees it.
abbrev pub taken : Option (List ℕ) → List ℕ
taken none = []
taken (some bytes) = bytes

abbrev pub accepted : Option ℕ → ℕ
accepted none = 0
accepted (some k) = k

-- `fcntl(fd, F_SETFL, …)` as far as O_NONBLOCK goes; the result is whether it failed.
unfoldable pub set_nonblock : Socket → Bool → Bool × Socket
set_nonblock s mode = (s.refuses, if s.refuses then s else record s { nonblock = mode })

-- `setsockopt` for TCP_NODELAY, SO_KEEPALIVE, SO_RCVTIMEO and SO_SNDTIMEO.
unfoldable pub set_option : Socket → Socket → Bool × Socket
set_option s changed = (s.refuses, if s.refuses then s else changed)

-- `shutdown` and `close`: the descriptor is gone also where they report a failure.
unfoldable pub hang_up : Socket → Bool × Socket
hang_up s = (s.refuses, record s { live = false })
