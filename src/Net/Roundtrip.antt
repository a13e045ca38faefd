-- ===== src/Net/Roundtrip.antt =====
-- `myNetWrite` on one side of a connection and `myNetRead` on the other.
use server_simple.Base.{
  ℕ, ◌%◌, ◌^◌, ◌<◌, ◌≡◌, refl, sym, ap, ◌∙◌, Bool, true, false, List, [], ◌∷◌, ◌++◌, length,
  append_assoc, append_cancel, arith,
}
use server_simple.Socket.Laws
use server_simple.Net.{Net, int3store, max_packet_length}
use server_simple.Net.Write.{my_net_write}
use server_simple.Net.Write.Stream.{stream, IsOpen}
use server_simple.Net.Write.Frames.{IsFramed, last, more, my_net_write-FrameWrites}
use server_simple.Net.Read.{my_net_read, uint3korr}
use server_simple.Net.Read.Loop.{IsFed}
use server_simple.Net.Read.Outcome.{CanRead}
use server_simple.Net.Read.Arrive.{HandedOver, my_net_read-HandedOver}

short_frame :
    (nr : ℕ) (packet bytes : List ℕ)
    → IsFramed nr packet bytes
    → length packet < max_packet_length
    → bytes ≡ (int3store (length packet) ++ ((nr % 256) ∷ [])) ++ packet
short_frame nr packet bytes (last _ _ short) small = refl
short_frame nr packet bytes (more _ _ rest long framed) small = absurd (omega arith)

uint3korr-int3store : (n : ℕ) (rest : List ℕ) → n < 2 ^ 24 → uint3korr (int3store n ++ rest) 0 ≡ n
uint3korr-int3store n rest h = omega arith

-- Let `myNetWrite` on one side report success on a packet shorter than the other side's buffer, and
-- let what it appended to the stream be what arrives next on the other side, in segments of any
-- sizes, where the packet number is the same. Then `myNetRead` there gives this packet, and what
-- follows it is still to come.
pub my_net_read-my_net_write :
    (memory : ℕ → Bool) (sender receiver : Net) (packet later : List ℕ)
    → sender.has_vio ≡ true
    → IsOpen sender
    → (my_net_write sender packet).0 ≡ false
    → CanRead receiver
    → IsFed receiver
    → receiver.pkt_nr % 256 ≡ sender.pkt_nr % 256
    → length packet < receiver.max_packet
    → stream sender ++ Laws.stream receiver.vio.kernel.incoming
      ≡ stream (my_net_write sender packet).1 ++ later
    → HandedOver receiver packet later (my_net_read memory receiver)
my_net_read-my_net_write memory sender receiver packet later v o ok c fed nr small sent =
    let w = my_net_write-FrameWrites sender packet v o in
    let head = int3store (length packet) ++ ((sender.pkt_nr % 256) ∷ []) in
    let short : length packet < max_packet_length = omega (arith, c.one_packet) in
    let wire : w.bytes ≡ head ++ packet = short_frame sender.pkt_nr packet w.bytes w.framed short in
    let arrives : Laws.stream receiver.vio.kernel.incoming ≡ w.bytes ++ later =
      append_cancel (stream sender) _ _ (
        sent
        ∙ ap (λ xs. xs ++ later) (w.success ok)
        ∙ append_assoc (stream sender) w.bytes later) in
    my_net_read-HandedOver memory receiver head packet later c (record {
      fed = fed;
      on_the_way = arrives ∙ ap (λ xs. xs ++ later) wire ∙ append_assoc head packet later;
      head_size = refl;
      number = sym nr;
      len = uint3korr-int3store (length packet) ((sender.pkt_nr % 256) ∷ []) (omega (arith, short));
      small = small;
    })
