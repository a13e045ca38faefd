-- ===== src/Net/Read/Packet.antt =====
-- `my_real_read` on one packet.
use server_simple.Base.{
  ℕ, ◌+◌, ◌%◌, ◌<◌, ◌≡◌, refl, sym, ap, subst, ◌∙◌, inl, inr, Bool, true, false, none, some, [],
  ◌++◌, append-nil, append_assoc, arith, length, slice, get_or, write_at, slice-write_at,
  get_or-write_at, Bool-cases, ==_iff, ◌==◌, leb, leb→lt, leb→le, ◌≢◌, ◌≤◌, if◌then◌else◌, le_refl,
}
use server_simple.Socket.Laws.{stream}
use server_simple.Net.{Net, next_nr}
use server_simple.Net.Read.{
  my_real_read, after_header, read_after_header, read_body, read_loop, header_size, uint3korr,
}
use server_simple.Net.Read.Loop.{ReadsInto, read_loop-ReadsInto}
use server_simple.Net.Read.Outcome.{
  CanRead, Outcome, no_header, wrong_number, too_large, cut_off, ReadsInto-CanRead, grow_refused,
  grow_not_needed, from_start, CanRead-flag, Outcome-flag,
}

-- After the header was read into `n`, `i` saying how.
module _ (memory : ℕ → Bool) (net n : Net) (c : CanRead net) (i : ReadsInto net 0 4 true n) where
  size : length i.fresh ≡ 4
  size = (i.full refl).0

  pub c1 : CanRead n
  c1 = (ReadsInto-CanRead net n 0 4 true i c).0

  room : length n.buff ≡ length net.buff
  room = (ReadsInto-CanRead net n 0 4 true i c).1

  byte_lem : (k : ℕ) → k < 4 → get_or n.buff k 0 ≡ get_or i.fresh k 0
  byte_lem k h =
      ap (λ b. get_or b k 0) i.stored
      ∙ get_or-write_at net.buff i.fresh k 0 (omega (arith, size, c.spare)) (omega (arith, size))

  pub number_lem : get_or n.buff (n.where_b + 3) 0 ≡ get_or i.fresh 3 0
  number_lem =
      ap (λ k. get_or n.buff k 0) {x = n.where_b + 3} {y = 3} (omega (arith, c1.at_start))
      ∙ byte_lem 3 (omega arith)

  pub length_lem : uint3korr n.buff n.where_b ≡ uint3korr i.fresh 0
  length_lem =
      ap (uint3korr n.buff) c1.at_start
      ∙ omega (arith, byte_lem 0 (omega arith), byte_lem 1 (omega arith), byte_lem 2 (omega arith))

  pub counted : Net
  counted = record n { pkt_nr = next_nr n.pkt_nr; compress_pkt_nr = next_nr n.pkt_nr }

  pub counted-CanRead : CanRead counted
  unfolding counted
  counted-CanRead = record {
    plain = c1.plain;
    at_start = c1.at_start;
    capped = c1.capped;
    some_room = c1.some_room;
    one_packet = c1.one_packet;
    spare = c1.spare;
  }

  same_nr : n.pkt_nr ≡ net.pkt_nr
  same_nr = ap (λ (m : Net). m.pkt_nr) i.kept

  same_max_packet : n.max_packet ≡ net.max_packet
  same_max_packet = ap (λ (m : Net). m.max_packet) i.kept

  right_number :
      get_or n.buff (n.where_b + 3) 0 ≡ n.pkt_nr % 256 → get_or i.fresh 3 0 ≡ net.pkt_nr % 256
  right_number nr = sym number_lem ∙ nr ∙ ap (λ k. k % 256) same_nr

  -- The rest of the packet, `out` being the state after its loop.
  body_lem :
      (len : ℕ) (ok : Bool) (out : Net)
      → uint3korr n.buff n.where_b ≡ len
      → get_or n.buff (n.where_b + 3) 0 ≡ n.pkt_nr % 256
      → len < n.max_packet
      → ReadsInto counted 0 len ok out
      → Outcome net (if ok then some len else none, out)
  unfolding counted
  body_lem len false out e nr small j = (
    (ReadsInto-CanRead counted out 0 len false j counted-CanRead).0,
    cut_off i.fresh j.fresh
        (j.received
          ∙ ap (λ xs. xs ++ j.fresh) i.received
          ∙ append_assoc net.vio.kernel.received i.fresh j.fresh)
        size (right_number nr) (omega (arith, length_lem, e, small, same_max_packet))
        (omega (arith, length_lem, e, j.short refl)) (j.failed refl),
    j.sent ∙ i.sent,
  )
  body_lem len true out e nr small j =
      let (can, bytes) = ReadsInto-CanRead counted out 0 len true j counted-CanRead in
      let all = j.full refl in
      record {
        head = i.fresh;
        payload = j.fresh;
        received =
            j.received
            ∙ ap (λ xs. xs ++ j.fresh) i.received
            ∙ append_assoc net.vio.kernel.received i.fresh j.fresh;
        head_size = size;
        head_length = sym length_lem ∙ e;
        head_number = right_number nr;
        size = all.0;
        bounded = omega (arith, same_max_packet);
        in_buffer =
            ap (λ b. slice b 0 len) j.stored
            ∙ ap (slice (write_at n.buff 0 j.fresh) 0) (sym all.0)
            ∙ slice-write_at n.buff 0 j.fresh (omega (arith, all.0, c1.spare));
        counted = ap (λ (m : Net). m.pkt_nr) j.kept ∙ ap next_nr same_nr;
        no_error = all.1 ∙ (i.full refl).1;
        sent = j.sent ∙ i.sent;
        next = can;
        same_room = bytes ∙ room;
        same_max = ap (λ (m : Net). m.max_packet) j.kept ∙ same_max_packet;
        same_write_pos =
            ap (λ (m : Net). m.write_pos) j.kept ∙ ap (λ (m : Net). m.write_pos) i.kept;
        same_has_vio = ap (λ (m : Net). m.has_vio) j.kept ∙ ap (λ (m : Net). m.has_vio) i.kept;
        whole =
            i.whole
            ∙ ap (◌++◌ i.fresh) j.whole
            ∙ sym (append_assoc i.fresh j.fresh (stream out.vio.kernel.incoming));
      }

  read_body_lem :
      (len : ℕ)
      → uint3korr n.buff n.where_b ≡ len
      → get_or n.buff (n.where_b + 3) 0 ≡ n.pkt_nr % 256
      → len < n.max_packet
      → Outcome net (read_body counted len)
  unfolding read_body counted
  read_body_lem len e nr small = body_lem len _ _ e nr small (
      from_start counted len _ _ c1.at_start (
        read_loop-ReadsInto len counted n.where_b len (omega (arith, c1.spare, c1.at_start))
          (le_refl len)))

  empty_lem :
      uint3korr n.buff n.where_b ≡ 0
      → get_or n.buff (n.where_b + 3) 0 ≡ n.pkt_nr % 256
      → Outcome net (some 0, counted)
  unfolding counted
  empty_lem e nr = record {
    head = i.fresh;
    payload = [];
    received = i.received ∙ ap (◌++◌ net.vio.kernel.received) (sym (append-nil i.fresh));
    head_size = size;
    head_length = sym length_lem ∙ e;
    head_number = right_number nr;
    size = refl;
    bounded = c.some_room;
    in_buffer = refl;
    counted = ap next_nr same_nr;
    no_error = (i.full refl).1;
    sent = i.sent;
    next = counted-CanRead;
    same_room = room;
    same_max = same_max_packet;
    same_write_pos = ap (λ (m : Net). m.write_pos) i.kept;
    same_has_vio = ap (λ (m : Net). m.has_vio) i.kept;
    whole = i.whole ∙ ap (λ xs. xs ++ stream n.vio.kernel.incoming) (sym (append-nil i.fresh));
  }

  refused_lem :
      get_or n.buff (n.where_b + 3) 0 ≡ n.pkt_nr % 256
      → n.max_packet ≤ uint3korr n.buff n.where_b + n.where_b
      → Outcome net (none, record counted { error = 1 })
  unfolding counted
  refused_lem nr large = (
    record {
      plain = c1.plain;
      at_start = c1.at_start;
      capped = c1.capped;
      some_room = c1.some_room;
      one_packet = c1.one_packet;
      spare = c1.spare;
    },
    too_large i.fresh i.received size (right_number nr)
        (omega (arith, length_lem, large, same_max_packet, c1.at_start)) refl,
    i.sent,
  )

  out_of_order_lem : get_or n.buff (n.where_b + 3) 0 ≢ n.pkt_nr % 256 → Outcome net (none, n)
  out_of_order_lem differs = (
    c1,
    wrong_number i.fresh i.received size
        (λ e. differs (number_lem ∙ e ∙ ap (λ k. k % 256) (sym same_nr))) (i.full refl).1,
    i.sent,
  )

  head_len : ℕ
  head_len = uint3korr n.buff n.where_b

  read_after_header_Outcome : Outcome net (read_after_header memory n)
  unfolding read_after_header counted head_len
  read_after_header_Outcome =
      elim (Bool-cases (get_or n.buff (n.where_b + 3) 0 == (n.pkt_nr % 256))) [
        | inl same ↦
            let nr = (==_iff _ _).0 same in
            rw same (elim (Bool-cases (head_len == 0)) [
              | inl zero_len ↦ rw zero_len (empty_lem ((==_iff _ _).0 zero_len) nr)
              | inr some_len ↦
                  rw some_len (elim (Bool-cases (leb n.max_packet (head_len + n.where_b))) [
                    | inl large ↦
                        rw
                          (grow_refused memory counted (head_len + n.where_b) counted-CanRead large)
                          (refused_lem nr (leb→le _ _ large))
                    | inr small ↦ rw (grow_not_needed memory counted (head_len + n.where_b) small) (
                        read_body_lem head_len refl nr
                          (omega (arith, leb→lt _ _ small, c1.at_start)))
                  ])
            ])
        | inr differs ↦ rw differs (out_of_order_lem (λ e. ground arith))
      ]

after_header_Outcome :
    (memory : ℕ → Bool) (net : Net) (ok : Bool) (n : Net)
    → CanRead net
    → ReadsInto net 0 4 ok n
    → Outcome net (after_header memory (ok, n))
unfolding after_header
after_header_Outcome memory net true n c i = read_after_header_Outcome memory net n c i
after_header_Outcome memory net false n c i = (
  (ReadsInto-CanRead net n 0 4 false i c).0,
  no_header i.fresh i.received (i.short refl) (i.failed refl),
  i.sent,
)

pub my_real_read-Outcome :
    (memory : ℕ → Bool) (net : Net) → CanRead net → Outcome net (my_real_read memory net)
unfolding my_real_read
my_real_read-Outcome memory net c =
    let begun = record net { reading_or_writing = 1 } in
    let four : header_size net ≡ 4 = simp c.plain in
    Outcome-flag net _ _ (
      after_header_Outcome memory begun _ _ (CanRead-flag net 1 c) (
        subst
          (λ k.
            ReadsInto begun 0 k (read_loop (header_size net) begun net.where_b (header_size net)).0
              (read_loop (header_size net) begun net.where_b (header_size net)).1)
          four
          (from_start begun (header_size net) _ _ c.at_start (
            read_loop-ReadsInto (header_size net) begun net.where_b (header_size net)
              (omega (arith, four, c.spare, c.at_start)) (le_refl (header_size net))))))
