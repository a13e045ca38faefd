-- ===== src/Net/Read/Arrive.antt =====
-- `myNetRead` on a packet that is on its way.
use server_simple.Base.{
  ℕ, ◌≡◌, sym, ap, subst, ◌∙◌, Bool, Option, none, some, List, ◌++◌, length, slice, append_inj,
  append_cancel,
}
use server_simple.Socket.Laws.{stream}
use server_simple.Net.{Net}
use server_simple.Net.Read.{my_real_read, my_net_read, end_read}
use server_simple.Net.Read.Loop.{IsFed}
use server_simple.Net.Read.Outcome.{CanRead, PacketRead, Outcome}
use server_simple.Net.Read.Packet.{my_real_read-Outcome}
use server_simple.Net.Read.Receive.{single, end_Received}
use server_simple.Net.Read.Deliver.{IsArriving, Delivered, my_real_read-Delivered}

-- The caller has the packet, and what follows it is still to come.
abbrev pub HandedOver : Net → List ℕ → List ℕ → Option ℕ × Net → Type 0
HandedOver net payload later (r, out) =
    (r ≡ some (length payload))
    × (slice out.buff out.read_pos (length payload) ≡ payload)
    × (stream out.vio.kernel.incoming ≡ later)
    × IsFed out
    × PacketRead net (length payload) out
    × (out.read_pos ≡ 0)

handed_over :
    (net n : Net) (len : Option ℕ) (head payload later : List ℕ)
    → CanRead net
    → length head ≡ 4
    → Outcome net (len, n)
    → Delivered (length payload) later (net.vio.kernel.received ++ (head ++ payload)) (len, n)
    → HandedOver net payload later (len, end_read len n)
unfolding end_read
handed_over net n none head payload later c four o (e, f, rest, taken) = cc
handed_over net n (some len) head payload later c four o (e, f, rest, taken) =
    let same_len : len ≡ length payload = cc in
    let (p, at, behind) = end_Received net n (some len) c o in
    let (same_head, same) =
      append_inj p.head head p.payload payload (p.head_size ∙ sym four)
        (append_cancel net.vio.kernel.received _ _ (sym p.received ∙ taken)) in
    (
      e,
      ap (λ k. slice (end_read (some len) n).buff k (length payload)) at
          ∙ ap (slice (end_read (some len) n).buff 0) (sym same_len)
          ∙ p.in_buffer
          ∙ same,
      rest,
      record { fd = f.fd; open_sd = f.open_sd; data_only = f.data_only },
      subst (λ l. PacketRead net l (end_read (some len) n)) same_len p,
      at,
    )

-- A packet that is on its way is received whatever segments its bytes come in: let the stream of a
-- connection between two packets, on an open socket with only data to come, begin with a header of
-- the expected packet number and a length below the buffer's size, and then that many bytes.
-- Then `myNetRead` returns this length, the bytes stand at `read_pos`, exactly what follows the
-- packet is still to come, and the connection is again as required of it.
pub my_net_read-HandedOver :
    (memory : ℕ → Bool) (net : Net) (head payload later : List ℕ)
    → CanRead net
    → IsArriving net head payload later
    → HandedOver net payload later (my_net_read memory net)
unfolding my_net_read
my_net_read-HandedOver memory net head payload later c a =
    let (len, n) = my_real_read memory net in
    let o = my_real_read-Outcome memory net c in
    rw (single memory net n len net.where_b c o) (
      handed_over net n len head payload later c a.head_size o
        (my_real_read-Delivered memory net head payload later c a))
