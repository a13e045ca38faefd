-- ===== src/Session/Reply.antt =====
-- What a reply puts on the socket.
use server_simple.Base.{
  ℕ, ◌≡◌, refl, sym, ap, ◌∙◌, ◌⊎◌, inl, inr, true, false, Bool-cases, List, [], ◌++◌, append-nil,
  append_assoc, if◌then◌else◌, arith, ◌==◌, subst,
}
use server_simple.Net.{Net}
use server_simple.Net.Write.{net_real_write, net_flush, Written, failed}
use server_simple.Net.Write.Sent.{Sends, RealWrites, net_real_write-RealWrites}
use server_simple.Net.Write.Flush.{net_flush-empty}
use server_simple.Net.Read.Outcome.{CanRead}
use server_simple.Session.{write_and_flush}

-- No compression, and nothing waits in the write buffer: what every command starts with.
pub record IsClear (net : Net) : Type 0 where
  pub plain : net.compress ≡ false
  pub empty : net.write_pos ≡ 0

-- `bytes` went to the socket, or a part from their start did and the error is 2.
pub record Puts (net : Net) (bytes : List ℕ) (out : Net) : Type 0 where
  pub rest : List ℕ
  pub stream : out.vio.kernel.sent ++ rest ≡ net.vio.kernel.sent ++ bytes
  pub received : out.vio.kernel.received ≡ net.vio.kernel.received
  pub ends : ((rest ≡ []) × (out.error ≡ net.error)) ⊎ (out.error ≡ 2)
  pub clear : IsClear out
  pub incoming : out.vio.kernel.incoming ≡ net.vio.kernel.incoming
  pub can_read : CanRead net → CanRead out
  pub same_sd : out.vio.sd ≡ net.vio.sd
  pub same_has_vio : out.has_vio ≡ net.has_vio
  pub same_max : out.max_packet ≡ net.max_packet

-- Writing keeps what reading needs.
Sends-CanRead :
    {net out : Net} {packet rest : List ℕ} → Sends net packet rest out → CanRead net → CanRead out
Sends-CanRead {net} {out} s c = subst CanRead (sym s.kept) (record {
  plain = c.plain;
  at_start = c.at_start;
  capped = c.capped;
  some_room = c.some_room;
  one_packet = c.one_packet;
  spare = c.spare;
})

Puts-written :
    (net : Net) (bytes : List ℕ) (w : Written) (n : Net)
    → IsClear net
    → RealWrites net bytes w n
    → Puts net bytes (if failed w then n else (net_flush n).1)
Puts-written net bytes w n c r =
    let clear : IsClear n = record {
      plain = ap (λ (m : Net). m.compress) r.sends.kept ∙ c.plain;
      empty = ap (λ (m : Net). m.write_pos) r.sends.kept ∙ c.empty;
    } in
    elim (Bool-cases (failed w)) [
      | inl bad ↦ rw bad (record {
        rest = r.rest;
        stream = r.sends.stream;
        received = r.sends.received;
        ends = inr (r.failure bad);
        clear = clear;
        incoming = r.sends.incoming;
        can_read = λ c. Sends-CanRead r.sends c;
        same_sd = r.sends.same_sd;
        same_has_vio = ap (λ (m : Net). m.has_vio) r.sends.kept;
        same_max = ap (λ (m : Net). m.max_packet) r.sends.kept;
      })
      | inr good ↦
          rw (good, net_flush-empty n clear.plain clear.empty)
            (record {
              rest = r.rest;
              stream = r.sends.stream;
              received = r.sends.received;
              ends = inl (r.success good);
              clear = clear;
              incoming = r.sends.incoming;
              can_read = λ c. Sends-CanRead r.sends c;
              same_sd = r.sends.same_sd;
              same_has_vio = ap (λ (m : Net). m.has_vio) r.sends.kept;
              same_max = ap (λ (m : Net). m.max_packet) r.sends.kept;
            })
    ]

pub write_and_flush-Puts :
    (net : Net) (bytes : List ℕ) → IsClear net → Puts net bytes (write_and_flush net bytes)
unfolding write_and_flush
write_and_flush-Puts net bytes c =
    Puts-written net bytes _ _ c (net_real_write-RealWrites net bytes)

-- Nothing is put.
pub Puts-nothing : (net : Net) → IsClear net → Puts net [] net
Puts-nothing net c = record {
  rest = [];
  stream = refl;
  received = refl;
  ends = inl (refl, refl);
  clear = c;
  incoming = refl;
  can_read = λ r. r;
  same_sd = refl;
  same_has_vio = refl;
  same_max = refl;
}

-- After a failed write nothing more goes out.
dead_write : (net : Net) (bytes : List ℕ) → net.error ≡ 2 → write_and_flush net bytes ≡ net
unfolding write_and_flush net_real_write
dead_write net bytes e = let dead : (net.error == 2) ≡ true = ground arith in simp dead

-- A second write on top of a first.
pub Puts-then :
    (net mid : Net) (xs ys : List ℕ)
    → Puts net xs mid
    → Puts net (xs ++ ys) (write_and_flush mid ys)
Puts-then net mid xs ys p = elim (Bool-cases (mid.error == 2)) [
  | inl dead ↦
      let failed_before : mid.error ≡ 2 = ground arith in
      subst (Puts net (xs ++ ys)) (sym (dead_write mid ys failed_before)) (record {
        rest = p.rest ++ ys;
        stream =
            sym (append_assoc mid.vio.kernel.sent p.rest ys)
            ∙ ap (λ zs. zs ++ ys) p.stream
            ∙ append_assoc net.vio.kernel.sent xs ys;
        received = p.received;
        ends = inr failed_before;
        clear = p.clear;
        incoming = p.incoming;
        can_read = p.can_read;
        same_sd = p.same_sd;
        same_has_vio = p.same_has_vio;
        same_max = p.same_max;
      })
  | inr alive ↦
      let q = write_and_flush-Puts mid ys p.clear in
      let none_left : (p.rest ≡ []) × (mid.error ≡ net.error) = elim p.ends [
        | inl whole ↦ whole
        | inr bad ↦ absurd (ground arith)
      ] in
      record {
        rest = q.rest;
        stream =
            q.stream
            ∙ ap (λ zs. zs ++ ys)
                (sym (append-nil mid.vio.kernel.sent)
                  ∙ ap (◌++◌ mid.vio.kernel.sent) (sym none_left.0)
                  ∙ p.stream)
            ∙ append_assoc net.vio.kernel.sent xs ys;
        received = q.received ∙ p.received;
        ends = elim q.ends [ inl whole ↦ inl (whole.0, whole.1 ∙ none_left.1) | inr bad ↦ inr bad ];
        clear = q.clear;
        incoming = q.incoming ∙ p.incoming;
        can_read = λ c. q.can_read (p.can_read c);
        same_sd = q.same_sd ∙ p.same_sd;
        same_has_vio = q.same_has_vio ∙ p.same_has_vio;
        same_max = q.same_max ∙ p.same_max;
      }
]

-- The key is left alone.
pub write_and_flush-aes_key :
    (net : Net) (bytes : List ℕ) → IsClear net → (write_and_flush net bytes).aes_key ≡ net.aes_key
unfolding write_and_flush
write_and_flush-aes_key net bytes c =
    let r = net_real_write-RealWrites net bytes in
    let n = (net_real_write net bytes).1 in
    let same : n.aes_key ≡ net.aes_key = ap (λ (m : Net). m.aes_key) r.sends.kept in
    elim (Bool-cases (failed (net_real_write net bytes).0)) [
      | inl bad ↦ rw bad same
      | inr good ↦
          rw
            (
              good,
              net_flush-empty n (ap (λ (m : Net). m.compress) r.sends.kept ∙ c.plain)
                  (ap (λ (m : Net). m.write_pos) r.sends.kept ∙ c.empty),
            )
            same
    ]
