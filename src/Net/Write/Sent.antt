-- ===== src/Net/Write/Sent.antt =====
-- What the writing functions put on the socket.
use server_simple.Base.{
  ℕ, zero, suc, ◌≤◌, ◌≡◌, refl, ap, ◌∙◌, ◌⊎◌, inl, inr, true, false, Option, none, some, List, [],
  ◌∷◌, ◌++◌, append-nil, append_assoc, arith, length, take, drop, length-drop, le_refl,
  take-append-drop, Bool-cases, ◌==◌, if◌then◌else◌,
}
use server_simple.Socket.Laws.{Writes}
use server_simple.Vio.{Vio, vio_write}
use server_simple.Vio.Laws.{vio_write-Writes, vio_write-sd}
use server_simple.Net.{Net}
use server_simple.Net.Write.{
  write_loop, sent_some, net_real_write, Written, sent, incomplete, failed, is_empty,
}

-- What happened to `bytes` on the way to the socket: a part from their start is sent, `rest` is
-- not, and of the connection only the error and the write flag change.
pub record Sends (net : Net) (bytes rest : List ℕ) (out : Net) : Type 0 where
  pub stream : out.vio.kernel.sent ++ rest ≡ net.vio.kernel.sent ++ bytes
  pub received : out.vio.kernel.received ≡ net.vio.kernel.received
  pub incoming : out.vio.kernel.incoming ≡ net.vio.kernel.incoming
  pub same_sd : out.vio.sd ≡ net.vio.sd
  pub kept :
      out
      ≡ record net { vio = out.vio; error = out.error; reading_or_writing = out.reading_or_writing }

-- The loop ends with all sent, or by its `break`.
abbrev Ends : Net → List ℕ → Net → Type 0
Ends net rest out =
    ((rest ≡ []) × (out.error ≡ net.error)) ⊎ ((is_empty rest ≡ false) × (out.error ≡ 2))

abbrev Loops : Net → List ℕ → Net × List ℕ → Type 0
Loops net bytes (out, rest) = Sends net bytes rest out × Ends net rest out

module _ (net : Net) (b : ℕ) (bytes : List ℕ) (vio : Vio) (fuel : ℕ)
    (same : vio.sd ≡ net.vio.sd) where
  stopped :
      Writes net.vio.kernel (b ∷ bytes) none vio.kernel
      → Loops net (b ∷ bytes) (record net { vio = vio; error = 2 }, b ∷ bytes)
  stopped w = (
    record {
      stream = ap (λ xs. xs ++ b ∷ bytes) (w.sent ∙ append-nil net.vio.kernel.sent);
      received = w.received;
      incoming = w.incoming;
      same_sd = same;
      kept = refl;
    },
    inr (refl, refl),
  )

  sent_some-Loops :
      (r : Option ℕ)
      → Writes net.vio.kernel (b ∷ bytes) r vio.kernel
      → ((n : Net) (rest : List ℕ) → length rest ≤ fuel → Loops n rest (write_loop fuel n rest))
      → length bytes ≤ fuel
      → Loops net (b ∷ bytes) (sent_some r (record net { vio = vio }) (b ∷ bytes) (write_loop fuel))
  unfolding sent_some
  sent_some-Loops none w next h = stopped w
  sent_some-Loops (some zero) w next h =
      stopped
        (record { sent = w.sent; within = w.within; received = w.received; incoming = w.incoming })
  sent_some-Loops (some (suc k)) w next h =
      let (step, ends) =
        next (record net { vio = vio }) (drop k bytes) (omega (arith, length-drop k bytes)) in
      (
        record {
          stream =
              step.stream
              ∙ ap (λ xs. xs ++ drop k bytes) w.sent
              ∙ append_assoc net.vio.kernel.sent (b ∷ take k bytes) (drop k bytes)
              ∙ ap (λ xs. net.vio.kernel.sent ++ b ∷ xs) (take-append-drop k bytes);
          received = step.received ∙ w.received;
          incoming = step.incoming ∙ w.incoming;
          same_sd = step.same_sd ∙ same;
          kept = step.kept;
        },
        ends,
      )

-- With as many rounds as bytes the loop does not stop early.
write_loop-Loops :
    (fuel : ℕ) (net : Net) (bytes : List ℕ)
    → length bytes ≤ fuel
    → Loops net bytes (write_loop fuel net bytes)
unfolding write_loop
write_loop-Loops zero net [] h = (
  record { stream = refl; received = refl; incoming = refl; same_sd = refl; kept = refl },
  inl (refl, refl),
)
write_loop-Loops zero net (b ∷ bytes) h = absurd (omega arith)
write_loop-Loops (suc fuel) net [] h = (
  record { stream = refl; received = refl; incoming = refl; same_sd = refl; kept = refl },
  inl (refl, refl),
)
write_loop-Loops (suc fuel) net (b ∷ bytes) h =
    sent_some-Loops net b bytes (vio_write net.vio (b ∷ bytes)).1 fuel
      (vio_write-sd net.vio (b ∷ bytes)) (vio_write net.vio (b ∷ bytes)).0
      (vio_write-Writes net.vio (b ∷ bytes)) (write_loop-Loops fuel) (omega arith)

-- The result of `netRealWrite` against what was sent.
pub record RealWrites (net : Net) (packet : List ℕ) (w : Written) (out : Net) : Type 0 where
  pub rest : List ℕ
  pub sends : Sends net packet rest out
  pub success : failed w ≡ false → (rest ≡ []) × (out.error ≡ net.error)
  pub failure : failed w ≡ true → out.error ≡ 2

abbrev idle : Net → Net
idle net = record net { reading_or_writing = 0 }

finish :
    (net n : Net) (packet rest : List ℕ)
    → Loops (record net { reading_or_writing = 2 }) packet (n, rest)
    → RealWrites net packet
        (if is_empty rest then sent else incomplete)
        (record n { reading_or_writing = 0 })
finish net n packet [] (s, ends) = record {
  rest = [];
  sends = record {
    stream = s.stream;
    received = s.received;
    incoming = s.incoming;
    same_sd = s.same_sd;
    kept = ap idle s.kept;
  };
  success = λ e. (refl, ground arith);
  failure = λ e. cc;
}
finish net n packet (b ∷ rest) (s, ends) = record {
  rest = b ∷ rest;
  sends = record {
    stream = s.stream;
    received = s.received;
    incoming = s.incoming;
    same_sd = s.same_sd;
    kept = ap idle s.kept;
  };
  success = λ e. cc;
  failure = λ e. ground arith;
}

-- `netRealWrite` sends the packet whole and in order and reports success, or it sends a part of it
-- from its start, reports a failure and leaves the connection's error at 2. It takes nothing from
-- the socket, and leaves the buffer and its positions alone.
pub net_real_write-RealWrites :
    (net : Net) (packet : List ℕ)
    → RealWrites net packet (net_real_write net packet).0 (net_real_write net packet).1
unfolding net_real_write
net_real_write-RealWrites net packet = elim (Bool-cases (net.error == 2)) [
  | inl closed ↦ rw closed (record {
    rest = packet;
    sends = record { stream = refl; received = refl; incoming = refl; same_sd = refl; kept = refl };
    success = λ e. cc;
    failure = λ e. ground arith;
  })
  | inr usable ↦ rw usable (
      finish net _ packet _ (
        write_loop-Loops (length packet) (record net { reading_or_writing = 2 }) packet
          (le_refl (length packet))))
]
