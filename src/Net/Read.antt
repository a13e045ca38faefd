-- ===== src/Net/Read.antt =====
-- The reading half of Server/net_serv.cc: `my_real_read` and `myNetRead`. The result `none` is
-- packet_error.
pub mod Loop
pub mod Outcome
pub mod Packet
pub mod Receive
pub mod Deliver
pub mod Arrive
use server_simple.Base.{
  ℕ, zero, suc, ◌+◌, ◌-◌, ◌*◌, ◌%◌, Bool, true, false, Option, none, some, List, [], ◌∷◌, leb, ◌==◌,
  if◌then◌else◌, length, get_or, write_at,
}
use server_simple.Vio.{Vio, vio_read}
use server_simple.Net.{
  Net, next_nr, max_packet_length, net_header_size, comp_header_size, net_realloc,
}

-- What follows one `vioRead` for `remain` bytes at `pos`, `next` being the rest of the loop.
read_some : Option (List ℕ) → Net → ℕ → ℕ → (Net → ℕ → ℕ → Bool × Net) → Bool × Net
read_some none net pos remain next = (false, record net { error = 2 })
read_some (some []) net pos remain next = (false, record net { error = 2 })
read_some (some (b ∷ bytes)) net pos remain next =
    next (record net { buff = write_at net.buff pos (b ∷ bytes) }) (pos + length (b ∷ bytes))
      (remain - length (b ∷ bytes))

-- `while (remain > 0)`: a round that goes on takes a byte at least, so as many rounds as bytes are
-- enough. The result is false where the code jumps to `end` with packet_error.
unfoldable pub read_loop : ℕ → Net → ℕ → ℕ → Bool × Net
unfolding read_some
read_loop fuel net pos zero = (true, net)
read_loop zero net pos (suc r) = (false, net)
read_loop (suc fuel) net pos (suc r) =
    let (got, vio) = vio_read net.vio (suc r) in
    read_some got (record net { vio = vio }) pos (suc r) (read_loop fuel)

-- `uint3korr`
abbrev pub uint3korr : List ℕ → ℕ → ℕ
uint3korr buff pos =
    get_or buff pos 0 + get_or buff (pos + 1) 0 * 256 + get_or buff (pos + 2) 0 * 65536

abbrev pub header_size : Net → ℕ
header_size net = if net.compress then net_header_size + comp_header_size else net_header_size

-- The second round of the `for` loop: `len` bytes over the header.
pub read_body : Net → ℕ → Option ℕ × Net
read_body net len =
    let (ok, n) = read_loop len net net.where_b len in (if ok then some len else none, n)

-- The buffer grows if the packet needs it. `*complen` stays 0.
pub grow : (ℕ → Bool) → Net → ℕ → Bool × Net
grow memory net helping =
    let (bad, n) = net_realloc memory net helping in
    if leb net.max_packet helping then (bad, n) else (false, net)

-- After the header: its packet number, its length, and the rest.
pub read_after_header : (ℕ → Bool) → Net → Option ℕ × Net
unfolding read_body grow
read_after_header memory net =
    let counted = record net {
      pkt_nr = next_nr net.pkt_nr;
      compress_pkt_nr = next_nr net.pkt_nr;
    } in
    let len = uint3korr net.buff net.where_b in
    let (bad, n) = grow memory counted (len + net.where_b) in
    if get_or net.buff (net.where_b + 3) 0 == (net.pkt_nr % 256)
    then if len == 0 then (some 0, counted) else if bad then (none, n) else read_body n len
    else (none, net)

pub after_header : (ℕ → Bool) → Bool × Net → Option ℕ × Net
unfolding read_after_header
after_header memory (true, net) = read_after_header memory net
after_header memory (false, net) = (none, net)

-- `memory n` is whether `realloc` can give `n` bytes.
unfoldable pub my_real_read : (ℕ → Bool) → Net → Option ℕ × Net
unfolding after_header
my_real_read memory net =
    let begun = record net { reading_or_writing = 1 } in
    let (len, n) =
      after_header memory (read_loop (header_size net) begun net.where_b (header_size net)) in
    (len, record n { reading_or_writing = 0 })

abbrev is_max : Option ℕ → Bool
is_max none = false
is_max (some len) = len == max_packet_length

abbrev add_length : Option ℕ → ℕ → Option ℕ
add_length none total = none
add_length (some len) total = some (len + total)

-- The loop over the packets of a multi-packet, `len` being the length of the last that was read.
-- Each round moves `where_b` on by MAX_PACKET_LENGTH.
read_more : ℕ → (ℕ → Bool) → Net → Option ℕ → ℕ → Option ℕ × Net
read_more zero memory net len total = (none, net)
read_more (suc fuel) memory net len total =
    let moved = record net { where_b = net.where_b + max_packet_length } in
    let (len', n) = my_real_read memory moved in
    let rest = read_more fuel memory n len' (total + max_packet_length) in
    if is_max len' then rest else (add_length len' (total + max_packet_length), n)

-- `net->read_pos` is set, and a 0 put behind the packet.
pub end_read : Option ℕ → Net → Net
end_read none net = record net { read_pos = net.where_b }
end_read (some len) net = record net {
  read_pos = net.where_b;
  buff = write_at net.buff (net.where_b + len) (0 ∷ []);
}

-- Rounds enough for a buffer of the greatest size.
abbrev packet_rounds : Net → ℕ
packet_rounds net = suc (net.max_packet + net.max_packet_size)

-- The loop for a multi-packet, if `len` is the length of the first packet of one.
pub read_rest : (ℕ → Bool) → Net → ℕ → Option ℕ → Option ℕ × Net
unfolding read_more
read_rest memory net save_pos len =
    let (all, n) = read_more (packet_rounds net) memory net len 0 in
    if is_max len then (all, record n { where_b = save_pos }) else (len, net)

unfoldable pub my_net_read : (ℕ → Bool) → Net → Option ℕ × Net
unfolding read_rest end_read
my_net_read memory net =
    let (len, n) = my_real_read memory net in
    let (all, m) = read_rest memory n net.where_b len in (all, end_read all m)
