-- ===== src/Net/Write.antt =====
-- The writing half of Server/net_serv.cc: `netRealWrite`, `net_write_buff`, `netFlush`, `myNetWrite`
-- and `netWriteCommand`. A pointer and a length are the list of the bytes.
pub mod Sent
pub mod Stream
pub mod Buffered
pub mod Flush
pub mod Frames
pub mod Command
use server_simple.Base.{
  ℕ, zero, suc, ◌+◌, ◌-◌, ◌%◌, Bool, true, false, not, ◌&&◌, ◌||◌, Option, none, some, List, [],
  ◌∷◌, ◌++◌, ltb, leb, ◌==◌, if◌then◌else◌, length, take, drop, write_at,
}
use server_simple.Vio.{Vio, vio_write}
use server_simple.Net.{Net, next_nr, int3store, max_packet_length, net_header_size}

-- What follows one `vioWrite` of `rest`, `next` being the rest of the loop.
sent_some : Option ℕ → Net → List ℕ → (Net → List ℕ → Net × List ℕ) → Net × List ℕ
sent_some none net rest next = (record net { error = 2 }, rest)
sent_some (some zero) net rest next = (record net { error = 2 }, rest)
sent_some (some (suc k)) net rest next = next net (drop (suc k) rest)

-- The loop of `netRealWrite` over the bytes from `pos` to `end`; each round but the last sends one
-- byte at least, so as many rounds as bytes are enough.
unfoldable pub write_loop : ℕ → Net → List ℕ → Net × List ℕ
unfolding sent_some
write_loop fuel net [] = (net, [])
write_loop zero net (b ∷ rest) = (net, b ∷ rest)
write_loop (suc fuel) net (b ∷ rest) =
    let (r, vio) = vio_write net.vio (b ∷ rest) in
    sent_some r (record net { vio = vio }) (b ∷ rest) (write_loop fuel)

-- The C result: 0, -1 or 1.
pub data Written : Type 0 where
  sent dead incomplete : Written

abbrev pub failed : Written → Bool
failed sent = false
failed dead = true
failed incomplete = true

abbrev pub is_empty : List ℕ → Bool
is_empty [] = true
is_empty (b ∷ bytes) = false

unfoldable pub net_real_write : Net → List ℕ → Written × Net
net_real_write net packet =
    let (n, rest) = write_loop (length packet) (record net { reading_or_writing = 2 }) packet in
    if net.error == 2
    then (dead, net)
    else (if is_empty rest then sent else incomplete, record n { reading_or_writing = 0 })

-- The compressed protocol's loop in `net_write_buff`: blocks of MAX_PACKET_LENGTH while more than
-- that is left. The result is whether a write failed, and what is left.
block_loop : ℕ → Net → List ℕ → Bool × Net × List ℕ
block_loop zero net packet = (false, net, packet)
block_loop (suc fuel) net packet =
    let (r, n) = net_real_write net (take max_packet_length packet) in
    let rest = block_loop fuel n (drop max_packet_length packet) in
    if ltb max_packet_length (length packet)
    then if failed r then (true, n, packet) else rest
    else (false, net, packet)

-- The end of `net_write_buff`: a packet that does not fit the buffer is sent, another is copied.
copy : Net → List ℕ → Bool × Net
copy net packet = (
  false,
  record net {
    buff = write_at net.buff net.write_pos packet;
    write_pos = net.write_pos + length packet;
  },
)

send_or_copy : Net → List ℕ → Bool × Net
unfolding copy
send_or_copy net packet =
    let (r, n) = net_real_write net packet in
    if ltb net.max_packet (length packet) then (failed r, n) else copy net packet

blocks_then_rest : Net → List ℕ → Bool × Net
unfolding block_loop send_or_copy
blocks_then_rest net packet =
    let (bad, n, rest) = block_loop (length packet) net packet in
    if net.compress
    then (if bad then (true, n) else send_or_copy n rest)
    else send_or_copy net packet

unfoldable pub left_length : Net → ℕ
left_length net =
    if net.compress && ltb max_packet_length net.max_packet
    then max_packet_length - net.write_pos
    else net.max_packet - net.write_pos

-- The buffer is filled up and sent, and then the rest of the packet.
fill_and_send : Net → List ℕ → Bool × Net
unfolding blocks_then_rest left_length
fill_and_send net packet =
    let filled = record net {
      buff = write_at net.buff net.write_pos (take (left_length net) packet);
    } in
    let (r, n) = net_real_write filled (take (net.write_pos + left_length net) filled.buff) in
    if failed r
    then (true, n)
    else blocks_then_rest (record n { write_pos = 0 }) (drop (left_length net) packet)

-- The result is true for failure.
unfoldable pub net_write_buff : Net → List ℕ → Bool × Net
unfolding fill_and_send copy
net_write_buff net packet =
    if ltb (left_length net) (length packet)
    then (if net.write_pos == 0 then blocks_then_rest net packet else fill_and_send net packet)
    else copy net packet

-- `netFlush` before the packet numbers are brought in step.
flush_buffer : Net → Bool × Net
flush_buffer net =
    let (r, n) = net_real_write net (take net.write_pos net.buff) in
    if net.write_pos == 0 then (false, net) else (failed r, record n { write_pos = 0 })

sync_nr : Net → Net
sync_nr net = if net.compress then record net { pkt_nr = net.compress_pkt_nr } else net

-- True for failure.
unfoldable pub net_flush : Net → Bool × Net
unfolding flush_buffer sync_nr
net_flush net = let (bad, n) = flush_buffer net in (bad, sync_nr n)

-- Calls of `net_write_buff` joined by `||`, up to the first that fails.
unfoldable pub write_all : Net → List (List ℕ) → Bool × Net
write_all net [] = (false, net)
write_all net (packet ∷ packets) =
    let (bad, n) = net_write_buff net packet in
    let rest = write_all n packets in if bad then (true, n) else rest

-- The header of a packet, and the packet number counted up.
abbrev pub header : ℕ → Net → List ℕ
header len net = int3store len ++ ((net.pkt_nr % 256) ∷ [])

abbrev pub counted : Net → Net
counted net = record net { pkt_nr = next_nr net.pkt_nr }

-- The loop of `myNetWrite` and the last packet. A round takes MAX_PACKET_LENGTH bytes, so as many
-- rounds as bytes are enough.
unfoldable pub write_packets : ℕ → Net → List ℕ → Bool × Net
write_packets zero net packet = write_all (counted net) (header (length packet) net ∷ packet ∷ [])
write_packets (suc fuel) net packet =
    let (bad, n) =
      write_all (counted net) (header max_packet_length net ∷ take max_packet_length packet ∷ []) in
    let rest = write_packets fuel n (drop max_packet_length packet) in
    if leb max_packet_length (length packet)
    then if bad then (true, n) else rest
    else write_all (counted net) (header (length packet) net ∷ packet ∷ [])

-- True for failure. With nowhere to write the result is success.
unfoldable pub my_net_write : Net → List ℕ → Bool × Net
my_net_write net packet =
    if net.has_vio then write_packets (length packet) net packet else (false, net)

-- `netWriteCommand`. `command` is the command byte in the first packet and nothing in the later
-- ones, `head` is the header's bytes in the first packet. The C code needs `head_len` below
-- MAX_PACKET_LENGTH - 1, where its subtraction does not wrap.
abbrev pub command_length : List ℕ → List ℕ → List ℕ → ℕ
command_length command head packet = length packet + length command + length head

abbrev pub first_part : List ℕ → List ℕ → ℕ
first_part command head = max_packet_length - length command - length head

write_last : Net → List ℕ → List ℕ → List ℕ → Bool × Net
write_last net command head packet =
    let (bad, n) =
      write_all (counted net)
        ((header (command_length command head packet) net ++ command) ∷ head ∷ packet ∷ []) in
    let flushed = net_flush n in if bad then (true, n) else flushed

write_commands : ℕ → Net → List ℕ → List ℕ → List ℕ → Bool × Net
unfolding write_last
write_commands zero net command head packet = write_last net command head packet
write_commands (suc fuel) net command head packet =
    let len = first_part command head in
    let (bad, n) =
      write_all (counted net)
        ((header max_packet_length net ++ command) ∷ head ∷ take len packet ∷ []) in
    let rest = write_commands fuel n [] [] (drop len packet) in
    if leb max_packet_length (command_length command head packet)
    then if bad then (true, n) else rest
    else write_last net command head packet

unfoldable pub net_write_command : Net → ℕ → List ℕ → List ℕ → Bool × Net
unfolding write_commands
net_write_command net command head packet =
    write_commands (suc (length packet)) net (command ∷ []) head packet
