-- ===== src/Net/Write/Stream.antt =====
-- The stream that a connection builds: what is on the socket and then what waits in the buffer.
-- Compression is off, as `netInit` leaves it.
use server_simple.Base.{
  ℕ, ◌≤◌, ◌≡◌, refl, sym, ap, subst, ◌∙◌, Bool, true, false, List, [], ◌++◌, append-nil,
  append_assoc, length, take,
}
use server_simple.Net.{Net}
use server_simple.Net.Write.Sent.{Sends}

-- The bytes given to the connection, in order.
abbrev pub stream : Net → List ℕ
stream net = net.vio.kernel.sent ++ take net.write_pos net.buff

-- The write position is in the buffer, and the buffer is as long as it claims.
pub record IsOpen (net : Net) : Type 0 where
  pub plain : net.compress ≡ false
  pub in_buffer : net.write_pos ≤ net.max_packet
  pub allocated : net.max_packet ≤ length net.buff

-- `net` with what a write may change taken from `out`.
abbrev pub only : Net → Net → Net
only net out = record net {
  vio = out.vio;
  error = out.error;
  reading_or_writing = out.reading_or_writing;
  buff = out.buff;
  write_pos = out.write_pos;
}

-- A write of `bytes` on top of the stream, `bad` being its C result.
pub record Appends (net : Net) (bytes : List ℕ) (bad : Bool) (out : Net) : Type 0 where
  pub success : bad ≡ false → (stream out ≡ stream net ++ bytes) × (out.error ≡ net.error)
  pub failure : bad ≡ true → out.error ≡ 2
  pub unsent : List ℕ
  pub in_order : out.vio.kernel.sent ++ unsent ≡ stream net ++ bytes
  pub received : out.vio.kernel.received ≡ net.vio.kernel.received
  pub still_open : IsOpen out
  pub kept : out ≡ only net out

pub Appends-trans :
    (net mid : Net) (xs ys : List ℕ) (bad : Bool) (out : Net)
    → Appends net xs false mid
    → Appends mid ys bad out
    → Appends net (xs ++ ys) bad out
Appends-trans net mid xs ys bad out a b =
    let glue : stream mid ++ ys ≡ stream net ++ (xs ++ ys) =
      ap (λ zs. zs ++ ys) (a.success refl).0 ∙ append_assoc (stream net) xs ys in
    record {
      success = λ e. ((b.success e).0 ∙ glue, (b.success e).1 ∙ (a.success refl).1);
      failure = b.failure;
      unsent = b.unsent;
      in_order = b.in_order ∙ glue;
      received = b.received ∙ a.received;
      still_open = b.still_open;
      kept = b.kept ∙ ap (λ m. only m out) a.kept;
    }

-- A write that failed would have gone on with more bytes.
pub Appends-more :
    (net : Net) (xs ys : List ℕ) (out : Net)
    → Appends net xs true out
    → Appends net (xs ++ ys) true out
Appends-more net xs ys out a = record {
  success = λ e. cc;
  failure = a.failure;
  unsent = a.unsent ++ ys;
  in_order =
      sym (append_assoc out.vio.kernel.sent a.unsent ys)
      ∙ ap (λ zs. zs ++ ys) a.in_order
      ∙ append_assoc (stream net) xs ys;
  received = a.received;
  still_open = a.still_open;
  kept = a.kept;
}

pub empty_stream : (net : Net) → net.write_pos ≡ 0 → stream net ≡ net.vio.kernel.sent
empty_stream net z =
    ap (λ k. net.vio.kernel.sent ++ take k net.buff) z ∙ append-nil net.vio.kernel.sent

-- What a bare write keeps.
module _ {net out : Net} {packet rest : List ℕ} (s : Sends net packet rest out) where
  pub Sends-IsOpen : IsOpen net → IsOpen out
  Sends-IsOpen o =
      subst IsOpen (sym s.kept)
        (record { plain = o.plain; in_buffer = o.in_buffer; allocated = o.allocated })

  pub Sends-only : out ≡ only net out
  Sends-only = ap (λ m. only m out) s.kept

  pub Sends-write_pos : out.write_pos ≡ net.write_pos
  Sends-write_pos = ap (λ (m : Net). m.write_pos) s.kept

-- A write of nothing.
pub Appends-nothing : (net : Net) → IsOpen net → Appends net [] false net
Appends-nothing net o = record {
  success = λ e. (sym (append-nil (stream net)), refl);
  failure = λ e. cc;
  unsent = take net.write_pos net.buff;
  in_order = sym (append-nil (stream net));
  received = refl;
  still_open = o;
  kept = refl;
}
