-- ===== src/Vio/Peer.antt =====
-- What Server/viosocket.c says of the other end and of failures: `vioPeerAddr`, `vioInAddr`,
-- `vioShouldRetry` and `vioWasInterrupted`. `remote` of `struct st_vio` is a `struct sockaddr_in` that
-- no other function reads; it stands beside the record.
use server_simple.Base.{
  ℕ, ◌≡◌, refl, Bool, true, false, ◌||◌, Option, none, some, List, ◌++◌, codes, if◌then◌else◌,
}
use server_simple.Notify.{to_string}
use server_simple.Vio.{Vio}

-- `sin_addr` as its four bytes, in the order of the network, and `sin_port` in the order of the host.
pub record Address : Type 0 where
  pub ip : ℕ × ℕ × ℕ × ℕ
  pub port : ℕ

-- `my_inet_ntoa`: the four numbers with dots between them.
unfoldable pub my_inet_ntoa : ℕ × ℕ × ℕ × ℕ → List ℕ
my_inet_ntoa (a, b, c, d) =
    to_string a ++ codes "." ++ to_string b ++ codes "." ++ to_string c ++ codes "." ++ to_string d

abbrev named : Option Address → Address → Option (List ℕ × ℕ) × Address
named none remote = (none, remote)
named (some peer) remote = (some (my_inet_ntoa peer.ip, peer.port), peer)

-- `peer` is what `getpeername` answers, `none` for a failure. The result is what the code stores at
-- `buf` and `port`, `none` where it returns 1, and the new `remote`.
unfoldable pub vio_peer_addr : Option Address → Vio → Address → Option (List ℕ × ℕ) × Address
vio_peer_addr peer vio remote =
    if vio.localhost then (some (codes "127.0.0.1", 0), remote) else named peer remote

unfoldable pub vio_in_addr : Vio → Address → ℕ × ℕ × ℕ × ℕ
vio_in_addr vio remote = if vio.localhost then (0, 0, 0, 0) else remote.ip

-- `errno`, of which the code tells these from the others.
pub data Errno : Type 0 where
  eagain eintr ewouldblock etimedout other : Errno

abbrev pub is_eintr : Errno → Bool
is_eintr eintr = true
is_eintr _ = false

-- SOCKET_EAGAIN or SOCKET_EWOULDBLOCK.
abbrev pub is_later : Errno → Bool
is_later eagain = true
is_later ewouldblock = true
is_later _ = false

pub vio_should_retry : Errno → Bool
vio_should_retry en = is_later en || is_eintr en

-- SOCKET_ETIMEDOUT is SOCKET_EINTR.
pub vio_was_interrupted : Errno → Bool
unfolding vio_should_retry
vio_was_interrupted en = vio_should_retry en || is_eintr en

-- The two tests of a failure are the same one.
retry-interrupted : (en : Errno) → vio_was_interrupted en ≡ vio_should_retry en
unfolding vio_was_interrupted vio_should_retry
retry-interrupted eagain = refl
retry-interrupted eintr = refl
retry-interrupted ewouldblock = refl
retry-interrupted etimedout = refl
retry-interrupted other = refl

-- After `vioPeerAddr` of a connection that is not local, `vioInAddr` gives the address whose text
-- it stored.
in_addr-peer_addr :
    (peer : Address) (vio : Vio) (remote : Address)
    → vio.localhost ≡ false
    → (vio_peer_addr (some peer) vio remote).0
      ≡ some (my_inet_ntoa (vio_in_addr vio (vio_peer_addr (some peer) vio remote).1), peer.port)
unfolding vio_peer_addr vio_in_addr
in_addr-peer_addr peer vio remote away = simp away
