-- ===== src/Net/Read/Receive.antt =====
-- `myNetRead` with the buffer that `netInit` gives.
use server_simple.Base.{
  ℕ, ◌+◌, ◌≡◌, refl, ap, ◌∙◌, Bool, false, Option, none, some, [], ◌∷◌, arith, get_elem?, write_at,
  length-write_at, take-write_at, get_elem?-write_at, ◌==◌,
}
use server_simple.Net.{Net, max_packet_length}
use server_simple.Net.Read.{my_real_read, my_net_read, read_rest, end_read}
use server_simple.Net.Read.Outcome.{CanRead, PacketRead, Outcome, ReadFails}
use server_simple.Net.Read.Packet.{my_real_read-Outcome}

-- A packet that `myNetRead` returns: it stands at `read_pos`, which is the start of the buffer, and
-- a 0 inside the buffer follows it.
abbrev pub Received : Net → Option ℕ × Net → Type 0
Received net (some len, out) =
    PacketRead net len out × (out.read_pos ≡ 0) × (get_elem? out.buff len ≡ some 0)
Received net (none, out) =
    CanRead out × ReadFails net out × (out.vio.kernel.sent ≡ net.vio.kernel.sent)

-- No packet here is a part of a longer one.
pub single :
    (memory : ℕ → Bool) (net n : Net) (len : Option ℕ) (k : ℕ)
    → CanRead net
    → Outcome net (len, n)
    → read_rest memory n k len ≡ (len, n)
unfolding read_rest
single memory net n none k c o = refl
single memory net n (some len) k c o =
    let small : (len == max_packet_length) ≡ false = ground (arith, o.bounded, c.one_packet) in
    rw small

pub end_Received :
    (net n : Net) (len : Option ℕ)
    → CanRead net
    → Outcome net (len, n)
    → Received net (len, end_read len n)
unfolding end_read
end_Received net n none c (can, e, s) = (
  record {
    plain = can.plain;
    at_start = can.at_start;
    capped = can.capped;
    some_room = can.some_room;
    one_packet = can.one_packet;
    spare = can.spare;
  },
  e,
  s,
)
end_Received net n (some len) c o =
    let can = o.next in
    let size = length-write_at n.buff (n.where_b + len) (0 ∷ []) in
    let at : n.where_b + len ≡ len = omega (arith, can.at_start) in
    (
      record {
        head = o.head;
        payload = o.payload;
        received = o.received;
        head_size = o.head_size;
        head_length = o.head_length;
        head_number = o.head_number;
        size = o.size;
        bounded = o.bounded;
        in_buffer =
            take-write_at len n.buff (n.where_b + len) (0 ∷ []) (omega (arith, at)) ∙ o.in_buffer;
        counted = o.counted;
        no_error = o.no_error;
        sent = o.sent;
        next = record {
          plain = can.plain;
          at_start = can.at_start;
          capped = can.capped;
          some_room = can.some_room;
          one_packet = can.one_packet;
          spare = omega (arith, can.spare, size);
        };
        same_room = size ∙ o.same_room;
        same_max = o.same_max;
        same_write_pos = o.same_write_pos;
        same_has_vio = o.same_has_vio;
        whole = o.whole;
      },
      can.at_start,
      ap (λ k. get_elem? (write_at n.buff k (0 ∷ [])) len) at
          ∙ get_elem?-write_at n.buff len 0 (omega (arith, can.spare, o.bounded, o.same_max)),
    )

pub my_net_read-Received :
    (memory : ℕ → Bool) (net : Net) → CanRead net → Received net (my_net_read memory net)
unfolding my_net_read
my_net_read-Received memory net c =
    let (len, n) = my_real_read memory net in
    let o = my_real_read-Outcome memory net c in
    rw (single memory net n len net.where_b c o) (end_Received net n len c o)
