-- ===== src/Net/Clear.antt =====
-- `net_data_is_ready` and `netClear` of Server/net_serv.cc, as compiled without HAVE_POLL.
pub mod Drained
use server_simple.Base.{
  ℕ, zero, suc, Bool, true, false, Option, none, some, List, [], ◌∷◌, leb, if◌then◌else◌, length,
  write_at,
}
use server_simple.Socket.{Socket}
use server_simple.Socket.Laws.{stream}
use server_simple.Vio.{Vio, vio_read}
use server_simple.Net.{Net}

-- FD_SETSIZE
abbrev fd_setsize : ℕ
fd_setsize = 1024

-- 1, 0 and -1.
pub data Ready : Type 0 where
  ready not_ready unknown : Ready

-- What `select` said: a failure, or whether the descriptor is in the set.
abbrev from_select : Option Bool → Ready
from_select none = not_ready
from_select (some true) = ready
from_select (some false) = not_ready

-- `says` is what `select` says of the socket. The descriptor -1 is in no set.
unfoldable pub net_data_is_ready : (Socket → Option Bool) → Option ℕ → Socket → Ready
net_data_is_ready says none kernel = not_ready
net_data_is_ready says (some sd) kernel =
    if leb fd_setsize sd then unknown else from_select (says kernel)

-- What follows one `vioRead`, `next` being the rest of the loop.
unfoldable pub skip : Option (List ℕ) → Net → (Net → Option Net) → Option Net
skip none net next = some (record net { error = 2 })
skip (some []) net next = some (record net { error = 2 })
skip (some (b ∷ bytes)) net next = next (record net { buff = write_at net.buff 0 (b ∷ bytes) })

abbrev when_ready : Ready → Option Net → Option Net → Option Net
when_ready ready go stop = go
when_ready not_ready go stop = stop
when_ready unknown go stop = stop

-- The `while` loop, from its round `i` on; `says i` is what `select` says in round `i`. The result
-- `none` is for rounds that run out.
unfoldable pub drain : (ℕ → Socket → Option Bool) → ℕ → ℕ → Net → Option Net
unfolding skip
drain says zero i net = none
drain says (suc rounds) i net =
    let (count, vio) = vio_read net.vio net.max_packet in
    let body = skip count (record net { vio = vio }) (drain says rounds (suc i)) in
    when_ready (net_data_is_ready (says i) net.vio.sd net.vio.kernel) body (some net)

abbrev pub restart : Net → Net
restart net = record net { pkt_nr = 0; compress_pkt_nr = 0; write_pos = 0 }

abbrev reset : Option Net → Option Net
reset none = none
reset (some net) = some (restart net)

-- A round that goes on takes a byte at least, so one more round than there are bytes to come is enough.
unfoldable pub net_clear : (ℕ → Socket → Option Bool) → Net → Bool → Option Net
unfolding drain
net_clear says net clear_buffer = reset (
    if clear_buffer
    then drain says (suc (length (stream net.vio.kernel.incoming))) 0 net
    else some net)
