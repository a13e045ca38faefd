-- ===== src/Net/Write/Command.antt =====
-- `netWriteCommand` against `myNetWrite`'s packet format.
use server_simple.Base.{
  ℕ, zero, suc, ◌+◌, ◌-◌, ◌≤◌, ◌<◌, ◌≡◌, sym, ap, subst, ◌∙◌, inl, inr, Bool, true, false, List, [],
  ◌∷◌, ◌++◌, append-nil, append_assoc, arith, length, take, drop, length-drop, length-append,
  take-append_ge, drop-append_ge, Bool-cases, leb, leb→le, leb→lt, if◌then◌else◌,
}
use server_simple.Net.{Net, max_packet_length}
use server_simple.Net.Write.{
  write_all, header, counted, write_last, write_commands, net_write_command, first_part,
  command_length, net_flush,
}
use server_simple.Net.Write.Stream.{stream, IsOpen, Appends, Appends-trans, empty_stream}
use server_simple.Net.Write.Flush.{net_flush-Flushes}
use server_simple.Net.Write.Buffered.{write_all-Appends}
use server_simple.Net.Write.Frames.{FrameWrites, frame_last, round}

-- The bytes that the packet of a command carries.
abbrev pub whole : List ℕ → List ℕ → List ℕ → List ℕ
whole command head packet = command ++ (head ++ packet)

length-whole :
    (command head packet : List ℕ)
    → length (whole command head packet) ≡ command_length command head packet
length-whole command head packet =
    omega (arith, length-append command (head ++ packet), length-append head packet)

-- A written packet whose last part was flushed.
abbrev Writes : Net → List ℕ → Bool × Net → Type 0
Writes net bytes (bad, out) = FrameWrites net bytes bad out × (bad ≡ false → out.write_pos ≡ 0)

three_writes :
    (net : Net) (len : ℕ) (command head packet : List ℕ)
    → IsOpen net
    → let (bad, n) = write_all (counted net) ((header len net ++ command) ∷ head ∷ packet ∷ []) in
      Appends (counted net) (header len net ++ whole command head packet) bad n
three_writes net len command head packet o =
    let packets = (header len net ++ command) ∷ head ∷ packet ∷ [] in
    subst
      (λ xs.
        Appends (counted net) xs (write_all (counted net) packets).0
          (write_all (counted net) packets).1)
      (ap (λ xs. (header len net ++ command) ++ (head ++ xs)) (append-nil packet)
        ∙ append_assoc (header len net) command (head ++ packet))
      (write_all-Appends (counted net) packets
        (record { plain = o.plain; in_buffer = o.in_buffer; allocated = o.allocated }))

-- The last packet is written, `bad` being the result, and then flushed.
then_flush :
    (net : Net) (bytes : List ℕ) (bad : Bool) (n : Net)
    → length bytes < max_packet_length
    → Appends (counted net) (header (length bytes) net ++ bytes) bad n
    → Writes net bytes (if bad then (true, n) else net_flush n)
then_flush net bytes true n h a = (frame_last net bytes true n h a, λ e. cc)
then_flush net bytes false n h a =
    let f = net_flush-Flushes n a.still_open in
    let all = header (length bytes) net ++ bytes in
    (
      frame_last net bytes _ _ h (
          subst (λ xs. Appends (counted net) xs (net_flush n).0 (net_flush n).1) (append-nil all)
            (Appends-trans (counted net) n all [] _ _ a f.appends)),
      λ e. (f.emptied e).0,
    )

write_last-Writes :
    (net : Net) (command head packet : List ℕ)
    → IsOpen net
    → command_length command head packet < max_packet_length
    → Writes net (whole command head packet) (write_last net command head packet)
unfolding write_last
write_last-Writes net command head packet o h =
    let e = length-whole command head packet in
    then_flush net (whole command head packet) _ _ (omega (arith, e)) (
      subst
        (λ len.
          let packets =
            (header (command_length command head packet) net ++ command) ∷ head ∷ packet ∷ [] in
          Appends (counted net) (header len net ++ whole command head packet)
            (write_all (counted net) packets).0 (write_all (counted net) packets).1)
        (sym e) (three_writes net (command_length command head packet) command head packet o))

module _ (command head packet : List ℕ) (h : length command + length head ≤ max_packet_length) where
  take-whole :
      take max_packet_length (whole command head packet)
      ≡ whole command head (take (first_part command head) packet)
  take-whole =
      take-append_ge max_packet_length command (head ++ packet) (omega arith)
      ∙ ap (◌++◌ command)
          (take-append_ge (max_packet_length - length command) head packet (omega arith))

  drop-whole :
      drop max_packet_length (whole command head packet) ≡ drop (first_part command head) packet
  drop-whole =
      drop-append_ge max_packet_length command (head ++ packet) (omega arith)
      ∙ drop-append_ge (max_packet_length - length command) head packet (omega arith)

  -- One round of the loop, `bad` being the result of its writes, and then the rest.
  command_round :
      (net : Net) (bad : Bool) (n : Net) (rest : Bool × Net)
      → max_packet_length ≤ command_length command head packet
      → Appends
          (counted net)
          (header max_packet_length net
            ++ whole command head (take (first_part command head) packet))
          bad
          n
      → (IsOpen n → Writes n (drop (first_part command head) packet) rest)
      → Writes net (whole command head packet) (if bad then (true, n) else rest)
  command_round net bad n rest long a next = (
    round net (whole command head packet) bad n rest
        (omega (arith, length-whole command head packet))
        (subst (λ xs. Appends (counted net) (header max_packet_length net ++ xs) bad n)
          (sym take-whole) a)
        (λ o. subst (λ xs. FrameWrites n xs rest.0 rest.1) (sym drop-whole) (next o).0),
    emptied bad a.still_open,
  )
    where
      emptied :
          (b : Bool)
          → IsOpen n
          → let (result, out) = if b then (true, n) else rest in result ≡ false → out.write_pos ≡ 0
      emptied true o = λ e. cc
      emptied false o = (next o).1

-- A step of `write_commands`, given the rest of the loop.
write_step :
    (net : Net) (command head packet : List ℕ) (rest : Bool × Net)
    → IsOpen net
    → length command + length head ≤ max_packet_length
    → let packets =
        (header max_packet_length net ++ command)
        ∷ head
        ∷ take (first_part command head) packet
        ∷ [] in
      let (bad, n) = write_all (counted net) packets in
      (IsOpen n → Writes n (drop (first_part command head) packet) rest)
      → Writes net (whole command head packet) (
          if leb max_packet_length (command_length command head packet)
          then if bad then (true, n) else rest
          else write_last net command head packet)
write_step net command head packet rest o h next =
    elim (Bool-cases (leb max_packet_length (command_length command head packet))) [
      | inl long ↦ rw long (
          command_round command head packet h net _ _ rest (leb→le _ _ long)
            (three_writes net max_packet_length command head (take (first_part command head) packet)
              o)
            next)
      | inr short ↦ rw short (write_last-Writes net command head packet o (leb→lt _ _ short))
    ]

later_packets :
    (fuel : ℕ) (net : Net) (packet : List ℕ)
    → IsOpen net
    → length packet ≤ fuel
    → Writes net packet (write_commands fuel net [] [] packet)
unfolding write_commands
later_packets zero net packet o h = write_last-Writes net [] [] packet o (omega arith)
later_packets (suc fuel) net packet o h =
    write_step net [] [] packet (write_commands fuel _ [] [] (drop max_packet_length packet)) o
      (omega arith)
      (λ opened.
        later_packets fuel _ (drop max_packet_length packet) opened
          (omega (arith, length-drop max_packet_length packet)))

-- What `netWriteCommand` does, against one packet of the command byte, the header and the bytes.
pub record CommandWrites (net : Net) (bytes : List ℕ) (bad : Bool) (out : Net) : Type 0 where
  pub frame : FrameWrites net bytes bad out
  pub flushed : bad ≡ false → out.vio.kernel.sent ≡ stream net ++ frame.bytes

flushed_all :
    (net : Net) (bytes : List ℕ) (r : Bool × Net)
    → Writes net bytes r
    → CommandWrites net bytes r.0 r.1
flushed_all net bytes r (frame, emptied) = record {
  frame = frame;
  flushed = λ e. sym (empty_stream r.1 (emptied e)) ∙ frame.success e;
}

-- With a header of fewer than MAX_PACKET_LENGTH bytes, `netWriteCommand` on an open connection
-- writes what `myNetWrite` would write for one packet of the command byte, the header and the
-- bytes, over the boundaries of the packets that it is cut into, and flushes it: when it reports
-- success the stream and the formatted packet are on the socket, and when it reports a failure the
-- error is 2 and a beginning of that is on the socket.
pub net_write_command-CommandWrites :
    (net : Net) (command : ℕ) (head packet : List ℕ)
    → IsOpen net
    → length head < max_packet_length
    → let (bad, out) = net_write_command net command head packet in
      CommandWrites net (command ∷ (head ++ packet)) bad out
unfolding net_write_command write_commands
net_write_command-CommandWrites net command head packet o h =
    let len = first_part (command ∷ []) head in
    flushed_all net (command ∷ (head ++ packet)) _ (
      write_step net (command ∷ []) head packet
        (write_commands (length packet) _ [] [] (drop len packet)) o (omega arith)
        (λ opened.
          later_packets (length packet) _ (drop len packet) opened
            (omega (arith, length-drop len packet))))
