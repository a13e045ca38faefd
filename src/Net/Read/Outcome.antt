-- ===== src/Net/Read/Outcome.antt =====
-- How the read of one packet ends, with the buffer that `netInit` gives.
use server_simple.Base.{
  ℕ, ◌+◌, ◌%◌, ◌≤◌, ◌<◌, ◌≡◌, ◌≢◌, inl, inr, sym, ap, subst, ◌∙◌, ◌⊎◌, Bool, true, false, Option,
  none, some, List, ◌++◌, arith, length, slice, get_or, length-write_at, leb, leb→le, le→leb,
  le_trans,
}
use server_simple.Socket.Laws.{stream}
use server_simple.Net.{Net, next_nr, max_packet_length, net_realloc}
use server_simple.Net.Read.{grow, uint3korr}
use server_simple.Net.Read.Loop.{ReadsInto}

-- A connection between two packets, with the limits of this server: no compression, a buffer that
-- may not grow beyond its first size, and that has the spare bytes of `netInit`.
pub record CanRead (net : Net) : Type 0 where
  pub plain : net.compress ≡ false
  pub at_start : net.where_b ≡ 0
  pub capped : net.max_packet_size ≤ net.max_packet
  pub some_room : 0 < net.max_packet
  pub one_packet : net.max_packet ≤ max_packet_length
  pub spare : net.max_packet + 7 ≤ length net.buff

-- A packet of `len` bytes that was read: its four header bytes and its bytes are what was taken from
-- the socket, the next ones of the stream, and the bytes stand in the buffer.
pub record PacketRead (net : Net) (len : ℕ) (out : Net) : Type 0 where
  pub head : List ℕ
  pub payload : List ℕ
  pub received : out.vio.kernel.received ≡ net.vio.kernel.received ++ (head ++ payload)
  pub head_size : length head ≡ 4
  pub head_length : uint3korr head 0 ≡ len
  pub head_number : get_or head 3 0 ≡ net.pkt_nr % 256
  pub size : length payload ≡ len
  pub bounded : len < net.max_packet
  pub in_buffer : slice out.buff 0 len ≡ payload
  pub counted : out.pkt_nr ≡ next_nr net.pkt_nr
  pub no_error : out.error ≡ net.error
  pub sent : out.vio.kernel.sent ≡ net.vio.kernel.sent
  pub next : CanRead out
  pub same_room : length out.buff ≡ length net.buff
  pub same_max : out.max_packet ≡ net.max_packet
  pub same_write_pos : out.write_pos ≡ net.write_pos
  pub same_has_vio : out.has_vio ≡ net.has_vio
  pub whole : stream net.vio.kernel.incoming ≡ (head ++ payload) ++ stream out.vio.kernel.incoming

-- What was taken from the socket, and the error, where no packet came: the socket failed or ended
-- within the header; a header with another number than the expected one; a header of that number with a
-- length that the buffer does not hold; or the socket failed or ended within the bytes of the packet.
pub data Fails (before after : List ℕ) (number max_packet old new : ℕ) : Type 0 where
  no_header :
      (got : List ℕ)
      → after ≡ before ++ got
      → length got < 4
      → new ≡ 2
      → Fails before after number max_packet old new
  wrong_number :
      (head : List ℕ)
      → after ≡ before ++ head
      → length head ≡ 4
      → get_or head 3 0 ≢ number % 256
      → new ≡ old
      → Fails before after number max_packet old new
  too_large :
      (head : List ℕ)
      → after ≡ before ++ head
      → length head ≡ 4
      → get_or head 3 0 ≡ number % 256
      → max_packet ≤ uint3korr head 0
      → new ≡ 1
      → Fails before after number max_packet old new
  cut_off :
      (head got : List ℕ)
      → after ≡ before ++ (head ++ got)
      → length head ≡ 4
      → get_or head 3 0 ≡ number % 256
      → uint3korr head 0 < max_packet
      → length got < uint3korr head 0
      → new ≡ 2
      → Fails before after number max_packet old new

abbrev pub ReadFails : Net → Net → Type 0
ReadFails net out =
    Fails net.vio.kernel.received out.vio.kernel.received net.pkt_nr net.max_packet net.error
      out.error

pub Fails-error :
    {before after : List ℕ} {number max_packet old new : ℕ}
    → Fails before after number max_packet old new
    → (new ≡ 2) ⊎ (new ≡ 1) ⊎ (new ≡ old)
Fails-error (no_header got t s e) = inl e
Fails-error (wrong_number head t s d e) = inr (inr e)
Fails-error (too_large head t s n l e) = inr (inl e)
Fails-error (cut_off head got t s n l m e) = inl e

-- Without a packet nothing is sent, and the connection can still be read from.
abbrev pub Outcome : Net → Option ℕ × Net → Type 0
Outcome net (some len, out) = PacketRead net len out
Outcome net (none, out) =
    CanRead out × ReadFails net out × (out.vio.kernel.sent ≡ net.vio.kernel.sent)

pub ReadsInto-CanRead :
    (net out : Net) (pos remain : ℕ) (ok : Bool)
    → ReadsInto net pos remain ok out
    → CanRead net
    → CanRead out × (length out.buff ≡ length net.buff)
ReadsInto-CanRead net out pos remain ok i c =
    let size : length out.buff ≡ length net.buff =
      ap length i.stored ∙ length-write_at net.buff pos i.fresh in
    (
      subst CanRead (sym i.kept) (record {
        plain = c.plain;
        at_start = c.at_start;
        capped = c.capped;
        some_room = c.some_room;
        one_packet = c.one_packet;
        spare = omega (arith, c.spare, size);
      }),
      size,
    )

-- The buffer of this server never grows.
pub grow_refused :
    (memory : ℕ → Bool) (net : Net) (helping : ℕ)
    → CanRead net
    → leb net.max_packet helping ≡ true
    → grow memory net helping ≡ (true, record net { error = 1 })
unfolding grow net_realloc
grow_refused memory net helping c h =
    rw (h, le→leb net.max_packet_size helping (le_trans c.capped (leb→le _ _ h)))

pub grow_not_needed :
    (memory : ℕ → Bool) (net : Net) (helping : ℕ)
    → leb net.max_packet helping ≡ false
    → grow memory net helping ≡ (false, net)
unfolding grow
grow_not_needed memory net helping h = rw h

pub from_start :
    (net : Net) (len : ℕ) (ok : Bool) (out : Net) {p : ℕ}
    → p ≡ 0
    → ReadsInto net p len ok out
    → ReadsInto net 0 len ok out
from_start net len ok out e i = subst (λ q. ReadsInto net q len ok out) e i

-- The write flag set and cleared.
pub CanRead-flag :
    (net : Net) (k : ℕ) → CanRead net → CanRead (record net { reading_or_writing = k })
CanRead-flag net k c = record {
  plain = c.plain;
  at_start = c.at_start;
  capped = c.capped;
  some_room = c.some_room;
  one_packet = c.one_packet;
  spare = c.spare;
}

pub Outcome-flag :
    (net : Net) (len : Option ℕ) (n : Net)
    → Outcome (record net { reading_or_writing = 1 }) (len, n)
    → Outcome net (len, record n { reading_or_writing = 0 })
Outcome-flag net none n (c, e, s) = (CanRead-flag n 0 c, e, s)
Outcome-flag net (some len) n p = record {
  head = p.head;
  payload = p.payload;
  received = p.received;
  head_size = p.head_size;
  head_length = p.head_length;
  head_number = p.head_number;
  size = p.size;
  bounded = p.bounded;
  in_buffer = p.in_buffer;
  counted = p.counted;
  no_error = p.no_error;
  sent = p.sent;
  next = CanRead-flag n 0 p.next;
  same_room = p.same_room;
  same_max = p.same_max;
  same_write_pos = p.same_write_pos;
  same_has_vio = p.same_has_vio;
  whole = p.whole;
}
