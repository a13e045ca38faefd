-- ===== src/Net/Write/Flush.antt =====
-- `netFlush` against the stream.
use server_simple.Base.{
  ℕ, ◌≡◌, refl, sym, ap, ◌∙◌, inl, inr, Bool, true, false, List, [], ◌++◌, append-nil, arith, take,
  Bool-cases, if-cases, ◌⊎◌, ◌==◌,
}
use server_simple.Net.{Net}
use server_simple.Net.Write.{net_real_write, Written, failed, net_flush, flush_buffer, sync_nr}
use server_simple.Net.Write.Sent.{RealWrites, net_real_write-RealWrites}
use server_simple.Net.Write.Stream.{
  Appends-nothing, stream, IsOpen, Appends, empty_stream, Sends-IsOpen, Sends-only,
}

-- What `netFlush` leaves: the whole stream is on the socket when it reports success.
pub record Flushes (net : Net) (bad : Bool) (out : Net) : Type 0 where
  pub appends : Appends net [] bad out
  pub emptied : bad ≡ false → (out.write_pos ≡ 0) × (out.vio.kernel.sent ≡ stream net)

flush_sent :
    (net : Net) (w : Written) (out : Net)
    → IsOpen net
    → RealWrites net (take net.write_pos net.buff) w out
    → Flushes net (failed w) (record out { write_pos = 0 })
flush_sent net w out o r =
    let opened = Sends-IsOpen r.sends o in
    let gone = λ (e : failed w ≡ false).
      sym (append-nil out.vio.kernel.sent)
      ∙ ap (◌++◌ out.vio.kernel.sent) (sym (r.success e).0)
      ∙ r.sends.stream in
    record {
      appends = record {
        success = λ e. (
          append-nil out.vio.kernel.sent ∙ gone e ∙ sym (append-nil (stream net)),
          (r.success e).1,
        );
        failure = r.failure;
        unsent = r.rest;
        in_order = r.sends.stream ∙ sym (append-nil (stream net));
        received = r.sends.received;
        still_open = record {
          plain = opened.plain;
          in_buffer = omega arith;
          allocated = opened.allocated;
        };
        kept = ap (λ (m : Net). record m { write_pos = 0 }) (Sends-only r.sends);
      };
      emptied = λ e. (refl, gone e);
    }

flush_buffer-Flushes :
    (net : Net) → IsOpen net → Flushes net (flush_buffer net).0 (flush_buffer net).1
unfolding flush_buffer
flush_buffer-Flushes net o = elim (Bool-cases (net.write_pos == 0)) [
  | inl fresh ↦ rw fresh (record {
    appends = Appends-nothing net o;
    emptied = λ e. (ground arith, sym (empty_stream net (ground arith)));
  })
  | inr used ↦
      rw used (flush_sent net _ _ o (net_real_write-RealWrites net (take net.write_pos net.buff)))
]

sync_nr_plain : (net : Net) → net.compress ≡ false → sync_nr net ≡ net
unfolding sync_nr
sync_nr_plain net p = simp p

-- On an open connection `netFlush` reports success only with the buffer on the socket: then
-- the whole stream is on the socket and the buffer is empty. Otherwise the error is 2 and a
-- beginning of the stream is on the socket.
pub net_flush-Flushes : (net : Net) → IsOpen net → Flushes net (net_flush net).0 (net_flush net).1
unfolding net_flush
net_flush-Flushes net o =
    let f = flush_buffer-Flushes net o in
    rw (sync_nr_plain (flush_buffer net).1 f.appends.still_open.plain) f

-- With nothing in the buffer `netFlush` does nothing.
pub net_flush-empty :
    (net : Net) → net.compress ≡ false → net.write_pos ≡ 0 → net_flush net ≡ (false, net)
unfolding net_flush flush_buffer sync_nr
net_flush-empty net plain empty =
    let fresh : (net.write_pos == 0) ≡ true = ground arith in simp (fresh, plain)

-- The error after a write and after a flush is the old one, or 2.
pub net_real_write-error :
    (net : Net) (packet : List ℕ)
    → let out = (net_real_write net packet).1 in (out.error ≡ net.error) ⊎ (out.error ≡ 2)
net_real_write-error net packet =
    let r = net_real_write-RealWrites net packet in
    elim (Bool-cases (failed (net_real_write net packet).0)) [
      | inl bad ↦ inr (r.failure bad)
      | inr good ↦ inl (r.success good).1
    ]

sync_nr-error : (net : Net) → (sync_nr net).error ≡ net.error
unfolding sync_nr
sync_nr-error net = if-cases (λ (n : Net). n.error ≡ net.error) net.compress (λ h. refl) (λ h. refl)

pub net_flush-error :
    (net : Net) → let out = (net_flush net).1 in (out.error ≡ net.error) ⊎ (out.error ≡ 2)
unfolding net_flush flush_buffer
net_flush-error net =
    let same = sync_nr-error (flush_buffer net).1 in
    elim (if-cases (λ (r : Bool × Net). (r.1.error ≡ net.error) ⊎ (r.1.error ≡ 2))
      (net.write_pos == 0) {x = (false, net)} (λ h. inl refl)
      (λ h. net_real_write-error net (take net.write_pos net.buff))) [
        | inl kept ↦ inl (same ∙ kept)
        | inr failed_now ↦ inr (same ∙ failed_now)
      ]
