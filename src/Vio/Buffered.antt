-- ===== src/Vio/Buffered.antt =====
-- `vioReadBuff`: reading through the buffer loses no byte, repeats none and keeps their order.
use server_simple.Base.{
  ℕ, ◌+◌, ◌-◌, ◌≤◌, ◌<◌, min, ◌≡◌, refl, sym, ap, ap₂, le_trans, ◌∙◌, inl, inr, Option, none, some,
  List, [], ◌++◌, append-nil, arith, length, slice, write_at, length-write_at, slice-write_at,
  slice-add, slice_zero, length-slice, nil_of_length, Bool-cases, ltb, ltb→lt, ltb→le, ◌==◌,
}
use server_simple.Socket.{Socket, taken}
use server_simple.Socket.Laws.{Reads, stream}
use server_simple.Vio.{
  Vio, vio_read_buff, refill, buffer_bytes, vio_read_buffer_size, vio_unbuffered_read_min_size,
}
use server_simple.Vio.Laws.{vio_read-Reads, vio_read-shape}

-- The bytes that were taken from the socket and not yet handed to a caller.
abbrev pub pending : Vio → List ℕ
pending vio = slice (buffer_bytes vio.read_buffer) vio.read_pos (vio.read_end - vio.read_pos)

pub record IsBuffered (vio : Vio) : Type 0 where
  pub whole : length (buffer_bytes vio.read_buffer) ≡ vio_read_buffer_size
  pub within : vio.read_end ≤ vio_read_buffer_size

-- What a buffered read gives the caller, against what the socket gave.
pub record Buffers (vio : Vio) (size : ℕ) (r : Option (List ℕ)) (v : Vio) : Type 0 where
  pub fresh : List ℕ
  pub received : v.kernel.received ≡ vio.kernel.received ++ fresh
  pub whole : stream vio.kernel.incoming ≡ fresh ++ stream v.kernel.incoming
  pub in_order : pending vio ++ fresh ≡ taken r ++ pending v
  pub at_most : length (taken r) ≤ size
  pub buffered : IsBuffered v

empty_pending : (vio : Vio) → vio.read_end ≤ vio.read_pos → pending vio ≡ []
empty_pending vio h =
    ap (slice (buffer_bytes vio.read_buffer) vio.read_pos) {x = vio.read_end - vio.read_pos} {y = 0}
      (omega arith)

-- The read buffer after `bytes` were read to its start.
abbrev refilled : Vio → Socket → List ℕ → List ℕ
refilled vio k bytes = write_at (buffer_bytes vio.read_buffer) 0 bytes

module _ (vio : Vio) (k : Socket) (size : ℕ) (b : IsBuffered vio)
    (drained : vio.read_end ≤ vio.read_pos) where
  refill-none :
      Reads vio.kernel vio_read_buffer_size none k
      → Buffers vio size
          (refill none (record vio { kernel = k }) size).0
          (refill none (record vio { kernel = k }) size).1
  unfolding refill
  refill-none d = record {
    fresh = [];
    received = d.received;
    whole = d.whole;
    in_order = append-nil (pending vio);
    at_most = omega arith;
    buffered = record { whole = b.whole; within = b.within };
  }

  refill-some :
      (bytes : List ℕ)
      → Reads vio.kernel vio_read_buffer_size (some bytes) k
      → Buffers vio size
          (refill (some bytes) (record vio { kernel = k }) size).0
          (refill (some bytes) (record vio { kernel = k }) size).1
  unfolding refill
  refill-some bytes d = elim (Bool-cases (length bytes == 0)) [
    | inl nothing ↦ rw nothing (record {
      fresh = bytes;
      received = d.received;
      whole = d.whole;
      in_order = none_left ∙ nil_of_length bytes (ground arith) ∙ sym still_empty;
      at_most = omega arith;
      buffered = record {
        whole = length-write_at (buffer_bytes vio.read_buffer) 0 bytes ∙ b.whole;
        within = b.within;
      };
    })
    | inr something ↦ rw something (elim (Bool-cases (ltb size (length bytes))) [
      | inl long ↦ rw long (record {
        fresh = bytes;
        received = d.received;
        whole = d.whole;
        in_order =
            none_left
            ∙ sym back
            ∙ slice-add _ 0 size _ size (length bytes) (omega arith)
                (omega (arith, ltb→lt _ _ long));
        at_most = length-slice _ 0 size;
        buffered = record {
          whole = length-write_at (buffer_bytes vio.read_buffer) 0 bytes ∙ b.whole;
          within = d.within;
        };
      })
      | inr short ↦ rw short (record {
        fresh = bytes;
        received = d.received;
        whole = d.whole;
        in_order = none_left ∙ sym (append-nil bytes) ∙ ap₂ ◌++◌ (sym back) (sym still_empty);
        at_most = le_trans (length-slice _ 0 (length bytes)) (ltb→le _ _ short);
        buffered = record {
          whole = length-write_at (buffer_bytes vio.read_buffer) 0 bytes ∙ b.whole;
          within = b.within;
        };
      })
    ])
  ]
    where
      none_left : pending vio ++ bytes ≡ bytes
      none_left = ap (λ xs. xs ++ bytes) (empty_pending vio drained)

      still_empty :
          slice
            (write_at (buffer_bytes vio.read_buffer) 0 bytes)
            vio.read_pos
            (vio.read_end - vio.read_pos)
          ≡ []
      still_empty =
          slice_zero (write_at (buffer_bytes vio.read_buffer) 0 bytes) vio.read_pos
            (vio.read_end - vio.read_pos) (omega arith)

      back : slice (write_at (buffer_bytes vio.read_buffer) 0 bytes) 0 (length bytes) ≡ bytes
      back =
          slice-write_at (buffer_bytes vio.read_buffer) 0 bytes (omega (arith, d.within, b.whole))

  refill-Buffers :
      (r : Option (List ℕ))
      → Reads vio.kernel vio_read_buffer_size r k
      → Buffers vio size
          (refill r (record vio { kernel = k }) size).0
          (refill r (record vio { kernel = k }) size).1
  refill-Buffers none d = refill-none d
  refill-Buffers (some bytes) d = refill-some bytes d

  -- A large read goes past the empty buffer.
  direct-Buffers :
      (r : Option (List ℕ))
      → Reads vio.kernel size r k
      → Buffers vio size r (record vio { kernel = k })
  direct-Buffers r d = record {
    fresh = taken r;
    received = d.received;
    whole = d.whole;
    in_order =
        ap (λ xs. xs ++ taken r) (empty_pending vio drained)
        ∙ sym (append-nil (taken r))
        ∙ ap (◌++◌ (taken r)) (sym (empty_pending vio drained));
    at_most = d.within;
    buffered = record { whole = b.whole; within = b.within };
  }

-- A read that the buffer answers alone.
from_buffer :
    (vio : Vio) (size rc : ℕ)
    → IsBuffered vio
    → vio.read_pos < vio.read_end
    → rc ≡ min (vio.read_end - vio.read_pos) size
    → Buffers vio size
        (some (slice (buffer_bytes vio.read_buffer) vio.read_pos rc))
        (record vio { read_pos = vio.read_pos + rc })
from_buffer vio size rc b more e = record {
  fresh = [];
  received = sym (append-nil vio.kernel.received);
  whole = refl;
  in_order = append-nil (pending vio) ∙ slice-add _ vio.read_pos rc _ _ _ refl (omega arith);
  at_most = le_trans (length-slice _ vio.read_pos rc) (omega arith);
  buffered = record { whole = b.whole; within = b.within };
}

-- A read through the buffer hands out the bytes of the socket in their order: what was pending and
-- then what the socket gave is what the caller gets and then what is pending. The caller gets at
-- most `size` bytes, and the read buffer, of its full size before, has it after and is not overrun.
pub vio_read_buff-Buffers :
    (vio : Vio) (size : ℕ)
    → IsBuffered vio
    → Buffers vio size (vio_read_buff vio size).0 (vio_read_buff vio size).1
unfolding vio_read_buff
vio_read_buff-Buffers vio size b = elim (Bool-cases (ltb vio.read_pos vio.read_end)) [
  | inl more ↦ rw more (from_buffer vio size _ b (ltb→lt _ _ more) refl)
  | inr empty ↦ rw empty (elim (Bool-cases (ltb size vio_unbuffered_read_min_size)) [
    | inl small ↦
        rw (small, vio_read-shape vio vio_read_buffer_size)
          (refill-Buffers vio _ size b (ltb→le _ _ empty) _
            (vio_read-Reads vio vio_read_buffer_size))
    | inr large ↦
        rw (large, vio_read-shape vio size)
          (direct-Buffers vio _ size b (ltb→le _ _ empty) _ (vio_read-Reads vio size))
  ])
]
