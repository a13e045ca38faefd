-- ===== src/Net/Write/Frames.antt =====
-- `myNetWrite` and `netWriteCommand` against the packet format.
use server_simple.Base.{
  ℕ, zero, suc, ◌%◌, ◌≤◌, ◌<◌, ◌≡◌, refl, sym, ap, subst, ◌∙◌, inl, inr, Bool, true, false, List,
  [], ◌∷◌, ◌++◌, append-nil, append_assoc, arith, length, take, drop, length-drop, le_refl,
  Bool-cases, leb, leb→le, leb→lt, if◌then◌else◌,
}
use server_simple.Net.{Net, int3store, next_nr, max_packet_length}
use server_simple.Net.Write.{write_all, write_packets, my_net_write, header, counted}
use server_simple.Net.Write.Stream.{stream, IsOpen, Appends}
use server_simple.Net.Write.Buffered.{write_all-Appends}

-- The packet format: a header of three length bytes and the packet number, then the bytes. What has
-- MAX_PACKET_LENGTH bytes or more is cut into packets of that length, the last being shorter and
-- possibly empty.
pub data IsFramed : ℕ → List ℕ → List ℕ → Type 0 where
  last :
      (nr : ℕ) (packet : List ℕ)
      → length packet < max_packet_length
      → IsFramed nr packet (int3store (length packet) ++ (nr % 256) ∷ packet)
  more :
      (nr : ℕ) (packet rest : List ℕ)
      → max_packet_length ≤ length packet
      → IsFramed (next_nr nr) (drop max_packet_length packet) rest
      → IsFramed nr packet
          (int3store max_packet_length ++ (nr % 256) ∷ (take max_packet_length packet ++ rest))

-- Every packet has a frame.
frame_total :
    (fuel nr : ℕ) (packet : List ℕ)
    → length packet ≤ fuel
    → (bytes : List ℕ) × IsFramed nr packet bytes
frame_total zero nr packet h = (_, last nr packet (omega arith))
frame_total (suc fuel) nr packet h = elim (Bool-cases (leb max_packet_length (length packet))) [
  | inl long ↦
      let (rest, framed) =
        frame_total fuel (next_nr nr) (drop max_packet_length packet)
          (omega (arith, length-drop max_packet_length packet, leb→le _ _ long)) in
      (_, more nr packet rest (leb→le _ _ long) framed)
  | inr short ↦ (_, last nr packet (leb→lt _ _ short))
]

-- A write of `packet` in the packet format, `bad` being its C result.
pub record FrameWrites (net : Net) (packet : List ℕ) (bad : Bool) (out : Net) : Type 0 where
  pub bytes : List ℕ
  pub framed : IsFramed net.pkt_nr packet bytes
  pub success : bad ≡ false → stream out ≡ stream net ++ bytes
  pub failure : bad ≡ true → out.error ≡ 2
  pub unsent : List ℕ
  pub in_order : out.vio.kernel.sent ++ unsent ≡ stream net ++ bytes
  pub received : out.vio.kernel.received ≡ net.vio.kernel.received
  pub still_open : IsOpen out

module _ (net : Net) (packet : List ℕ) (bad : Bool) (out : Net) where
  pub frame_last :
      length packet < max_packet_length
      → Appends (counted net) (header (length packet) net ++ packet) bad out
      → FrameWrites net packet bad out
  frame_last h a = record {
    bytes = header (length packet) net ++ packet;
    framed = last net.pkt_nr packet h;
    success = λ e. (a.success e).0;
    failure = a.failure;
    unsent = a.unsent;
    in_order = a.in_order;
    received = a.received;
    still_open = a.still_open;
  }

  frame_more :
      (n : Net)
      → max_packet_length ≤ length packet
      → Appends
          (counted net)
          (header max_packet_length net ++ take max_packet_length packet)
          false
          n
      → FrameWrites n (drop max_packet_length packet) bad out
      → FrameWrites net packet bad out
  frame_more n h a f =
      let first = header max_packet_length net ++ take max_packet_length packet in
      let glue : stream n ++ f.bytes ≡ stream net ++ (first ++ f.bytes) =
        ap (λ xs. xs ++ f.bytes) (a.success refl).0 ∙ append_assoc (stream net) first f.bytes in
      record {
        bytes = first ++ f.bytes;
        framed = more net.pkt_nr packet f.bytes h (
            subst (λ nr. IsFramed nr (drop max_packet_length packet) f.bytes)
              (ap (λ (m : Net). m.pkt_nr) a.kept) f.framed);
        success = λ e. f.success e ∙ glue;
        failure = f.failure;
        unsent = f.unsent;
        in_order = f.in_order ∙ glue;
        received = f.received ∙ a.received;
        still_open = f.still_open;
      }

frame_more_failed :
    (net : Net) (packet : List ℕ) (out : Net)
    → max_packet_length ≤ length packet
    → Appends (counted net) (header max_packet_length net ++ take max_packet_length packet) true out
    → FrameWrites net packet true out
frame_more_failed net packet out h a =
    let first = header max_packet_length net ++ take max_packet_length packet in
    let (rest, framed) =
      frame_total (length packet) (next_nr net.pkt_nr) (drop max_packet_length packet)
        (omega (arith, length-drop max_packet_length packet)) in
    record {
      bytes = first ++ rest;
      framed = more net.pkt_nr packet rest h framed;
      success = λ e. cc;
      failure = a.failure;
      unsent = a.unsent ++ rest;
      in_order =
          sym (append_assoc out.vio.kernel.sent a.unsent rest)
          ∙ ap (λ xs. xs ++ rest) a.in_order
          ∙ append_assoc (stream net) first rest;
      received = a.received;
      still_open = a.still_open;
    }

-- The two writes that make a packet.
two_writes :
    (net : Net) (head packet : List ℕ)
    → IsOpen net
    → let (bad, n) = write_all (counted net) (head ∷ packet ∷ []) in
      Appends (counted net) (head ++ packet) bad n
two_writes net head packet o =
    subst
      (λ xs.
        Appends (counted net) (head ++ xs) (write_all (counted net) (head ∷ packet ∷ [])).0
          (write_all (counted net) (head ∷ packet ∷ [])).1)
      (append-nil packet)
      (write_all-Appends (counted net) (head ∷ packet ∷ [])
        (record { plain = o.plain; in_buffer = o.in_buffer; allocated = o.allocated }))

-- One round of the loop: the packet's two writes, `bad` being their result, and then the rest.
pub round :
    (net : Net) (packet : List ℕ) (bad : Bool) (n : Net) (rest : Bool × Net)
    → max_packet_length ≤ length packet
    → Appends (counted net) (header max_packet_length net ++ take max_packet_length packet) bad n
    → (IsOpen n → FrameWrites n (drop max_packet_length packet) rest.0 rest.1)
    → let (result, out) = if bad then (true, n) else rest in FrameWrites net packet result out
round net packet true n rest h a next = frame_more_failed net packet n h a
round net packet false n rest h a next =
    frame_more net packet rest.0 rest.1 n h a (next a.still_open)

write_packets-FrameWrites :
    (fuel : ℕ) (net : Net) (packet : List ℕ)
    → IsOpen net
    → length packet ≤ fuel
    → FrameWrites net packet (write_packets fuel net packet).0 (write_packets fuel net packet).1
unfolding write_packets
write_packets-FrameWrites zero net packet o h =
    frame_last net packet _ _ (omega arith) (two_writes net (header (length packet) net) packet o)
write_packets-FrameWrites (suc fuel) net packet o h =
    let n =
      (write_all (counted net)
        (header max_packet_length net ∷ take max_packet_length packet ∷ [])).1 in
    elim (Bool-cases (leb max_packet_length (length packet))) [
      | inl long ↦ rw long (
          round net packet _ n (write_packets fuel n (drop max_packet_length packet))
            (leb→le _ _ long)
            (two_writes net (header max_packet_length net) (take max_packet_length packet) o)
            (λ opened.
              write_packets-FrameWrites fuel n (drop max_packet_length packet) opened
                (omega (arith, length-drop max_packet_length packet, leb→le _ _ long))))
      | inr short ↦ rw short (
          frame_last net packet _ _ (leb→lt _ _ short)
            (two_writes net (header (length packet) net) packet o))
    ]

-- On an open connection `myNetWrite` appends the packet to the stream in the packet format when it
-- reports success, also a packet of MAX_PACKET_LENGTH bytes or more, which it cuts up. When it
-- reports a failure the error is 2. In both cases what is on the socket is a beginning of the
-- stream with the formatted packet appended, nothing is taken from the socket, and the connection
-- stays open.
pub my_net_write-FrameWrites :
    (net : Net) (packet : List ℕ)
    → net.has_vio ≡ true
    → IsOpen net
    → FrameWrites net packet (my_net_write net packet).0 (my_net_write net packet).1
unfolding my_net_write
my_net_write-FrameWrites net packet v o =
    subst
      (λ b.
        let (bad, out) = if b then write_packets (length packet) net packet else (false, net) in
        FrameWrites net packet bad out)
      (sym v) (write_packets-FrameWrites (length packet) net packet o (le_refl (length packet)))
