-- ===== src/Net/Read/Deliver.antt =====
-- A packet that is on its way is received.
use server_simple.Base.{
  ℕ, ◌+◌, ◌%◌, ◌≤◌, ◌<◌, ◌≡◌, sym, ap, subst, ◌∙◌, inl, inr, Bool, true, false, Option, none, some,
  List, ◌++◌, append_assoc, append-nil, arith, length, length-append, get_or, append_inj,
  append_cancel, ◌==◌, ==_iff, Bool-cases, leb, if◌then◌else◌, le_refl, nil_of_length, lt→leb_false,
}
use server_simple.Socket.Laws.{stream}
use server_simple.Net.{Net, next_nr}
use server_simple.Net.Read.{
  my_real_read, after_header, read_after_header, read_body, read_loop, header_size, uint3korr,
}
use server_simple.Net.Read.Loop.{ReadsInto, read_loop-ReadsInto, IsFed, read_loop-Feeds}
use server_simple.Net.Read.Outcome.{CanRead, CanRead-flag, grow_not_needed}
use server_simple.Net.Read.Packet.{c1, number_lem, length_lem}

-- What a loop for `n` bytes at `pos` leaves that takes exactly `bytes`.
abbrev Takes : Net → ℕ → ℕ → List ℕ → List ℕ → Bool × Net → Type 0
Takes net pos n bytes later (ok, out) =
    (ok ≡ true)
    × IsFed out
    × (stream out.vio.kernel.incoming ≡ later)
    × (i : ReadsInto net pos n ok out) × (i.fresh ≡ bytes)

-- A loop whose bytes are the first of the stream: it takes exactly those.
loop-Takes :
    (net : Net) (pos : ℕ) (bytes later : List ℕ)
    → IsFed net
    → pos + length bytes ≤ length net.buff
    → stream net.vio.kernel.incoming ≡ bytes ++ later
    → Takes net pos (length bytes) bytes later (read_loop (length bytes) net pos (length bytes))
loop-Takes net pos bytes later f room e =
    let n = length bytes in
    let (fresh, ok, fed, all, received) =
      read_loop-Feeds n net pos n f (omega (arith, ap length e, length-append bytes later))
        (le_refl n) in
    let i = read_loop-ReadsInto n net pos n room (le_refl n) in
    let same : i.fresh ≡ fresh =
      append_cancel net.vio.kernel.received i.fresh fresh (sym i.received ∙ received) in
    let size : length fresh ≡ length bytes = sym (ap length same) ∙ (i.full ok).0 in
    let (whole, rest) =
      append_inj fresh bytes (stream (read_loop n net pos n).1.vio.kernel.incoming) later size
        (sym all ∙ e) in
    (ok, fed, rest, i, same ∙ whole)

-- What a delivery leaves: the length is returned, the connection has only data to come, exactly
-- what followed the packet, and `taken` is all that was ever taken.
abbrev pub Delivered : ℕ → List ℕ → List ℕ → Option ℕ × Net → Type 0
Delivered len later taken (r, out) =
    (r ≡ some len)
    × IsFed out
    × (stream out.vio.kernel.incoming ≡ later)
    × (out.vio.kernel.received ≡ taken)

body-Delivered :
    (n : Net) (payload later : List ℕ)
    → IsFed n
    → n.where_b ≡ 0
    → length payload ≤ length n.buff
    → stream n.vio.kernel.incoming ≡ payload ++ later
    → Delivered
        (length payload)
        later
        (n.vio.kernel.received ++ payload)
        (read_body n (length payload))
unfolding read_body
body-Delivered n payload later f z room e =
    let (ok, fed, rest, i, same) = loop-Takes n n.where_b payload later f (omega (arith, z)) e in
    (
      ap (λ b. if b then some (length payload) else none) ok,
      fed,
      rest,
      i.received ∙ ap (◌++◌ n.vio.kernel.received) same,
    )

-- The header was read into `n`.
module _ (memory : ℕ → Bool) (net n : Net) (c : CanRead net) (i : ReadsInto net 0 4 true n)
    (f : IsFed n) (payload later : List ℕ) (there : stream n.vio.kernel.incoming ≡ payload ++ later)
    (number : get_or i.fresh 3 0 ≡ net.pkt_nr % 256) (len_ok : uint3korr i.fresh 0 ≡ length payload)
    (small : length payload < net.max_packet) where
  at : n.where_b ≡ 0
  at = (c1 memory net n c i).at_start

  the_length : uint3korr n.buff n.where_b ≡ length payload
  the_length = length_lem memory net n c i ∙ len_ok

  the_number : (get_or n.buff (n.where_b + 3) 0 == (n.pkt_nr % 256)) ≡ true
  the_number = (==_iff _ _).1 (
      number_lem memory net n c i
      ∙ number
      ∙ ap (λ (k : ℕ). k % 256) (sym (ap (λ (m : Net). m.pkt_nr) i.kept)))

  counted : Net
  counted = record n { pkt_nr = next_nr n.pkt_nr; compress_pkt_nr = next_nr n.pkt_nr }

  fits : leb n.max_packet (length payload + n.where_b) ≡ false
  fits = lt→leb_false _ _ (omega (arith, at, small, ap (λ (m : Net). m.max_packet) i.kept))

  room : length payload ≤ length n.buff
  room = omega (arith, small, (c1 memory net n c i).spare, ap (λ (m : Net). m.max_packet) i.kept)

  still-IsFed : IsFed counted
  unfolding counted
  still-IsFed = record { fd = f.fd; open_sd = f.open_sd; data_only = f.data_only }

  header-Delivered :
      Delivered
        (length payload)
        later
        (n.vio.kernel.received ++ payload)
        (read_after_header memory n)
  unfolding read_after_header counted
  header-Delivered =
      rw (the_number, the_length)
        (elim (Bool-cases (length payload == 0)) [
          | inl empty ↦ rw empty (
            ap some (sym ((==_iff _ _).0 empty)),
            still-IsFed,
            there ∙ ap (λ xs. xs ++ later) (nil_of_length payload ((==_iff _ _).0 empty)),
            sym (append-nil n.vio.kernel.received)
                ∙ ap (◌++◌ n.vio.kernel.received)
                    (sym (nil_of_length payload ((==_iff _ _).0 empty))),
          )
          | inr full ↦
              rw (full, grow_not_needed memory counted (length payload + n.where_b) fits)
                (body-Delivered counted payload later still-IsFed at room there)
        ])

after_header-Delivered :
    (memory : ℕ → Bool) (net n : Net) (ok : Bool) (head payload later : List ℕ)
    → CanRead net
    → Takes net 0 4 head (payload ++ later) (ok, n)
    → get_or head 3 0 ≡ net.pkt_nr % 256
    → uint3korr head 0 ≡ length payload
    → length payload < net.max_packet
    → Delivered
        (length payload)
        later
        (net.vio.kernel.received ++ (head ++ payload))
        (after_header memory (ok, n))
unfolding after_header
after_header-Delivered memory net n true head payload later c (e, f, there, i, same) number len_ok
      small =
    let (r, fed, rest, received) =
      header-Delivered memory net n c i f payload later there
        (ap (λ xs. get_or xs 3 0) same ∙ number) (ap (λ xs. uint3korr xs 0) same ∙ len_ok) small in
    (
      r,
      fed,
      rest,
      received
          ∙ ap (λ xs. xs ++ payload) (i.received ∙ ap (◌++◌ net.vio.kernel.received) same)
          ∙ append_assoc net.vio.kernel.received head payload,
    )
after_header-Delivered memory net n false head payload later c (e, f, there, i, same) number len_ok
      small =
    cc

header-Takes :
    (net : Net) (pos k : ℕ) (head later : List ℕ)
    → pos ≡ 0
    → length head ≡ k
    → k ≡ 4
    → IsFed net
    → 4 ≤ length net.buff
    → stream net.vio.kernel.incoming ≡ head ++ later
    → Takes net 0 4 head later (read_loop k net pos k)
header-Takes net pos k head later z size four f room there =
    subst (λ m. Takes net 0 m head later (read_loop k net pos k)) four
      (subst (λ m. Takes net 0 m head later (read_loop m net pos m)) size
        (subst
          (λ q.
            Takes net q (length head) head later (read_loop (length head) net pos (length head)))
          z (loop-Takes net pos head later f (omega (arith, z, size, four)) there)))

-- A packet on its way to `net`: its header, with its length and the number that is expected, its
-- bytes, and what follows.
pub record IsArriving (net : Net) (head payload later : List ℕ) : Type 0 where
  pub fed : IsFed net
  pub on_the_way : stream net.vio.kernel.incoming ≡ head ++ (payload ++ later)
  pub head_size : length head ≡ 4
  pub number : get_or head 3 0 ≡ net.pkt_nr % 256
  pub len : uint3korr head 0 ≡ length payload
  pub small : length payload < net.max_packet

pub my_real_read-Delivered :
    (memory : ℕ → Bool) (net : Net) (head payload later : List ℕ)
    → CanRead net
    → IsArriving net head payload later
    → Delivered
        (length payload)
        later
        (net.vio.kernel.received ++ (head ++ payload))
        (my_real_read memory net)
unfolding my_real_read
my_real_read-Delivered memory net head payload later c a =
    let begun = record net { reading_or_writing = 1 } in
    let four : header_size net ≡ 4 = simp c.plain in
    let fed : IsFed begun = record {
      fd = a.fed.fd;
      open_sd = a.fed.open_sd;
      data_only = a.fed.data_only;
    } in
    let (r, f, rest, received) =
      after_header-Delivered memory begun _ _ head payload later (CanRead-flag net 1 c)
        (header-Takes begun net.where_b (header_size net) head (payload ++ later) c.at_start
          (a.head_size ∙ sym four) four fed (omega (arith, c.spare)) a.on_the_way)
        a.number a.len a.small in
    (r, record { fd = f.fd; open_sd = f.open_sd; data_only = f.data_only }, rest, received)
