-- ===== src/Net/Write/Buffered.antt =====
-- `net_write_buff` against the stream.
use server_simple.Base.{
  ℕ, ◌+◌, ◌-◌, ◌≤◌, ◌<◌, ◌≡◌, refl, sym, ap, subst, ◌∙◌, inl, inr, true, false, List, [], ◌∷◌, ◌++◌,
  append-nil, append_assoc, arith, length, take, drop, length-take, le_trans, take-append-drop,
  Bool-cases, ltb, ltb→lt, ltb→le, ◌==◌, write_at, length-write_at, take-write_at_end,
}
use server_simple.Net.{Net}
use server_simple.Net.Write.{
  net_real_write, net_write_buff, fill_and_send, blocks_then_rest, send_or_copy, copy, left_length,
  write_all, Written, failed,
}
use server_simple.Net.Write.Sent.{RealWrites, net_real_write-RealWrites}
use server_simple.Net.Write.Stream.{
  Appends-nothing, stream, IsOpen, Appends, Appends-trans, Appends-more, empty_stream, Sends-IsOpen,
  Sends-only, Sends-write_pos,
}

module _ (net : Net) (packet : List ℕ) (o : IsOpen net) where
  copy-Appends :
      net.write_pos + length packet ≤ net.max_packet
      → Appends net packet (copy net packet).0 (copy net packet).1
  unfolding copy
  copy-Appends h =
      let added = ap (◌++◌ net.vio.kernel.sent) (
        take-write_at_end net.buff net.write_pos packet (net.write_pos + length packet)
          (le_trans h o.allocated) refl) in
      record {
        success = λ e. (added ∙ sym (append_assoc net.vio.kernel.sent _ packet), refl);
        failure = λ e. cc;
        unsent = take net.write_pos net.buff ++ packet;
        in_order = sym (append_assoc net.vio.kernel.sent _ packet);
        received = refl;
        still_open = record {
          plain = o.plain;
          in_buffer = h;
          allocated = omega (arith, o.allocated, length-write_at net.buff net.write_pos packet);
        };
        kept = refl;
      }

  -- A write past the empty buffer.
  send-Appends :
      (w : Written) (out : Net)
      → net.write_pos ≡ 0
      → RealWrites net packet w out
      → Appends net packet (failed w) out
  send-Appends w out z r =
      let sent = r.sends.stream ∙ ap (λ xs. xs ++ packet) (sym (empty_stream net z)) in
      record {
        success = λ e. (
          empty_stream out (Sends-write_pos r.sends ∙ z)
              ∙ sym (append-nil out.vio.kernel.sent)
              ∙ ap (◌++◌ out.vio.kernel.sent) (sym (r.success e).0)
              ∙ sent,
          (r.success e).1,
        );
        failure = r.failure;
        unsent = r.rest;
        in_order = sent;
        received = r.sends.received;
        still_open = Sends-IsOpen r.sends o;
        kept = Sends-only r.sends;
      }

-- The buffer with the packet copied in, and its contents.
abbrev filled : Net → List ℕ → Net
filled net packet = record net { buff = write_at net.buff net.write_pos packet }

abbrev chunk : Net → List ℕ → ℕ → List ℕ
chunk net packet n = take n (filled net packet).buff

-- What sending the filled buffer does.
module _ (net : Net) (packet : List ℕ) (o : IsOpen net)
    (h : net.write_pos + length packet ≤ net.max_packet) (n : ℕ)
    (all_of_it : n ≡ net.write_pos + length packet) (w : Written) (out : Net)
    (r : RealWrites (filled net packet) (chunk net packet n) w out) where
  filled-IsOpen : IsOpen (filled net packet)
  filled-IsOpen = record {
    plain = o.plain;
    in_buffer = o.in_buffer;
    allocated = omega (arith, o.allocated, length-write_at net.buff net.write_pos packet);
  }

  chunk-stream : out.vio.kernel.sent ++ r.rest ≡ stream net ++ packet
  chunk-stream =
      r.sends.stream
      ∙ ap (◌++◌ net.vio.kernel.sent)
          (take-write_at_end net.buff net.write_pos packet n (le_trans h o.allocated) all_of_it)
      ∙ sym (append_assoc net.vio.kernel.sent _ packet)

  fill_failed : failed w ≡ true → Appends net packet true out
  fill_failed f = record {
    success = λ e. cc;
    failure = λ e. r.failure f;
    unsent = r.rest;
    in_order = chunk-stream;
    received = r.sends.received;
    still_open = Sends-IsOpen r.sends filled-IsOpen;
    kept = Sends-only r.sends;
  }

  fill_sent : failed w ≡ false → Appends net packet false (record out { write_pos = 0 })
  fill_sent f =
      let all = r.success f in
      let opened = Sends-IsOpen r.sends filled-IsOpen in
      record {
        success = λ e. (ap (◌++◌ out.vio.kernel.sent) (sym all.0) ∙ chunk-stream, all.1);
        failure = λ e. cc;
        unsent = r.rest;
        in_order = chunk-stream;
        received = r.sends.received;
        still_open = record {
          plain = opened.plain;
          in_buffer = omega arith;
          allocated = opened.allocated;
        };
        kept = ap (λ (m : Net). record m { write_pos = 0 }) (Sends-only r.sends);
      }

-- The part of `net_write_buff` behind a buffer that is empty.
blocks_then_rest_plain :
    (net : Net) (packet : List ℕ)
    → net.compress ≡ false
    → blocks_then_rest net packet ≡ send_or_copy net packet
unfolding blocks_then_rest
blocks_then_rest_plain net packet p = rw p

rest-Appends :
    (net : Net) (packet : List ℕ)
    → IsOpen net
    → net.write_pos ≡ 0
    → Appends net packet (blocks_then_rest net packet).0 (blocks_then_rest net packet).1
unfolding send_or_copy
rest-Appends net packet o z =
    rw (blocks_then_rest_plain net packet o.plain)
      (elim (Bool-cases (ltb net.max_packet (length packet))) [
        | inl large ↦ rw large (
            send-Appends net packet o (net_real_write net packet).0 (net_real_write net packet).1 z
              (net_real_write-RealWrites net packet))
        | inr small ↦ rw small (copy-Appends net packet o (omega (arith, ltb→le _ _ small)))
      ])

fill_and_send-Appends :
    (net : Net) (packet : List ℕ)
    → IsOpen net
    → left_length net ≡ net.max_packet - net.write_pos
    → left_length net < length packet
    → Appends net packet (fill_and_send net packet).0 (fill_and_send net packet).1
unfolding fill_and_send
fill_and_send-Appends net packet o l long =
    let k = left_length net in
    let first = take k packet in
    let n = net.write_pos + k in
    let size : length first ≡ k = omega (arith, length-take k packet) in
    let fits : net.write_pos + length first ≤ net.max_packet =
      omega (arith, size, l, o.in_buffer) in
    let r = net_real_write-RealWrites (filled net first) (chunk net first n) in
    let w = (net_real_write (filled net first) (chunk net first n)).0 in
    let out = (net_real_write (filled net first) (chunk net first n)).1 in
    elim (Bool-cases (failed w)) [
      | inl bad ↦ rw bad (
          subst (λ ys. Appends net ys true out) (take-append-drop k packet)
            (Appends-more net first (drop k packet) out
              (fill_failed net first o fits n (omega (arith, size)) w out r bad)))
      | inr good ↦ rw good (
          let sent = fill_sent net first o fits n (omega (arith, size)) w out r good in
          subst
            (λ ys.
              Appends net ys (blocks_then_rest (record out { write_pos = 0 }) (drop k packet)).0
                (blocks_then_rest (record out { write_pos = 0 }) (drop k packet)).1)
            (take-append-drop k packet)
            (Appends-trans net (record out { write_pos = 0 }) first (drop k packet) _ _ sent
              (rest-Appends (record out { write_pos = 0 }) (drop k packet) sent.still_open refl)))
    ]

left_length_lem :
    (net : Net) → net.compress ≡ false → left_length net ≡ net.max_packet - net.write_pos
unfolding left_length
left_length_lem net p = simp p

-- On an open connection `net_write_buff` appends the packet to the stream when it reports success.
-- When it reports a failure the error is 2. In both cases what is on the socket is a beginning of
-- the stream with the packet appended, nothing is taken from the socket, the connection stays
-- open, and only the socket, the buffer, its write position, the error and the write flag change.
pub net_write_buff-Appends :
    (net : Net) (packet : List ℕ)
    → IsOpen net
    → Appends net packet (net_write_buff net packet).0 (net_write_buff net packet).1
unfolding net_write_buff
net_write_buff-Appends net packet o =
    let l = left_length_lem net o.plain in
    elim (Bool-cases (ltb (left_length net) (length packet))) [
      | inl long ↦ rw long (elim (Bool-cases (net.write_pos == 0)) [
        | inl fresh ↦ rw fresh (rest-Appends net packet o (ground arith))
        | inr used ↦ rw used (fill_and_send-Appends net packet o l (ltb→lt _ _ long))
      ])
      | inr short ↦
          rw short (copy-Appends net packet o (omega (arith, ltb→le _ _ short, l, o.in_buffer)))
    ]

-- The bytes of several packets in a row.
abbrev pub concat : List (List ℕ) → List ℕ
concat [] = []
concat (packet ∷ packets) = packet ++ concat packets

pub write_all-Appends :
    (net : Net) (packets : List (List ℕ))
    → IsOpen net
    → Appends net (concat packets) (write_all net packets).0 (write_all net packets).1
unfolding write_all
write_all-Appends net [] o = Appends-nothing net o
write_all-Appends net (packet ∷ packets) o =
    let n = (net_write_buff net packet).1 in
    let a = net_write_buff-Appends net packet o in
    elim (Bool-cases (net_write_buff net packet).0) [
      | inl bad ↦
          rw bad
            (Appends-more net packet (concat packets) n (subst (λ b. Appends net packet b n) bad a))
      | inr good ↦ rw good (
          Appends-trans net n packet (concat packets) _ _
            (subst (λ b. Appends net packet b n) good a) (write_all-Appends n packets a.still_open))
    ]
