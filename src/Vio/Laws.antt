-- ===== src/Vio/Laws.antt =====
-- What a read and a write through a `Vio` do to the socket behind it, and the blocking mode.
use server_simple.Base.{
  ℕ, suc, ◌<◌, ◌≡◌, refl, sym, Bool, true, false, Option, none, some, List, append-nil, arith,
  length,
}
use server_simple.Socket.{set_nonblock}
use server_simple.Socket.Laws.{
  Reads, Writes, read-Reads, write-Writes, IsData, stream, Delivers, read-Delivers,
}
use server_simple.Vio.{
  Vio, vio_read, vio_read_sd, vio_write, vio_write_sd, vio_blocking, vio_is_blocking,
}

vio_read_sd-Reads :
    (sd : Option ℕ) (vio : Vio) (size : ℕ)
    → Reads vio.kernel size (vio_read_sd sd vio size).0 (vio_read_sd sd vio size).1.kernel
unfolding vio_read_sd
vio_read_sd-Reads none vio size = record {
  received = sym (append-nil vio.kernel.received);
  within = omega arith;
  sent = refl;
  whole = refl;
}
vio_read_sd-Reads (some sd) vio size = read-Reads vio.kernel size

pub vio_read-Reads :
    (vio : Vio) (size : ℕ)
    → Reads vio.kernel size (vio_read vio size).0 (vio_read vio size).1.kernel
unfolding vio_read
vio_read-Reads vio size = vio_read_sd-Reads vio.sd vio size

vio_write_sd-Writes :
    (sd : Option ℕ) (vio : Vio) (bytes : List ℕ)
    → Writes vio.kernel bytes (vio_write_sd sd vio bytes).0 (vio_write_sd sd vio bytes).1.kernel
unfolding vio_write_sd
vio_write_sd-Writes none vio bytes = record {
  sent = sym (append-nil vio.kernel.sent);
  within = omega arith;
  received = refl;
  incoming = refl;
}
vio_write_sd-Writes (some sd) vio bytes = write-Writes vio.kernel bytes

pub vio_write-Writes :
    (vio : Vio) (bytes : List ℕ)
    → Writes vio.kernel bytes (vio_write vio bytes).0 (vio_write vio bytes).1.kernel
unfolding vio_write
vio_write-Writes vio bytes = vio_write_sd-Writes vio.sd vio bytes

vio_read_sd-Delivers :
    (sd : ℕ) (fd : Option ℕ) (vio : Vio) (n : ℕ)
    → fd ≡ some sd
    → IsData vio.kernel.incoming
    → 0 < length (stream vio.kernel.incoming)
    → Delivers vio.kernel (vio_read_sd fd vio (suc n)).0 (vio_read_sd fd vio (suc n)).1.kernel
unfolding vio_read_sd
vio_read_sd-Delivers sd none vio n e h p = cc
vio_read_sd-Delivers sd (some fd) vio n e h p = read-Delivers vio.kernel n h p

pub vio_read-Delivers :
    (sd : ℕ) (vio : Vio) (n : ℕ)
    → vio.sd ≡ some sd
    → IsData vio.kernel.incoming
    → 0 < length (stream vio.kernel.incoming)
    → Delivers vio.kernel (vio_read vio (suc n)).0 (vio_read vio (suc n)).1.kernel
unfolding vio_read
vio_read-Delivers sd vio n e h p = vio_read_sd-Delivers sd vio.sd vio n e h p

vio_read_sd-sd : (fd : Option ℕ) (vio : Vio) (n : ℕ) → (vio_read_sd fd vio n).1.sd ≡ vio.sd
unfolding vio_read_sd
vio_read_sd-sd none vio n = refl
vio_read_sd-sd (some fd) vio n = refl

pub vio_read-sd : (vio : Vio) (n : ℕ) → (vio_read vio n).1.sd ≡ vio.sd
unfolding vio_read
vio_read-sd vio n = vio_read_sd-sd vio.sd vio n

vio_read_sd-shape :
    (fd : Option ℕ) (vio : Vio) (n : ℕ)
    → (vio_read_sd fd vio n).1 ≡ record vio { kernel = (vio_read_sd fd vio n).1.kernel }
unfolding vio_read_sd
vio_read_sd-shape none vio n = refl
vio_read_sd-shape (some fd) vio n = refl

-- A read moves nothing but the kernel's side.
pub vio_read-shape :
    (vio : Vio) (n : ℕ) → (vio_read vio n).1 ≡ record vio { kernel = (vio_read vio n).1.kernel }
unfolding vio_read
vio_read-shape vio n = vio_read_sd-shape vio.sd vio n

-- The cached mode is the one of the descriptor.
abbrev pub IsSynced : Vio → Type 0
IsSynced vio = vio.nonblock ≡ vio.kernel.nonblock

-- `vioBlocking` on an open descriptor reports the mode that it found. It sets the mode that it is
-- asked for unless the kernel refuses, which it reports, and then the mode is the old one. In both
-- cases the cached mode stays that of the descriptor.
pub vio_blocking_lem :
    (sd : ℕ) (vio : Vio) (mode : Bool)
    → vio.sd ≡ some sd
    → IsSynced vio
    → let (failed, old_mode, v) = vio_blocking vio mode in
      IsSynced v
      × (old_mode ≡ vio_is_blocking vio)
      × (vio.kernel.refuses ≡ false → (failed ≡ false) × (vio_is_blocking v ≡ mode))
      × (failed ≡ true → vio_is_blocking v ≡ vio_is_blocking vio)
unfolding vio_blocking vio_is_blocking set_nonblock
vio_blocking_lem sd vio mode e s = ground arith

vio_write_sd-sd :
    (fd : Option ℕ) (vio : Vio) (bytes : List ℕ) → (vio_write_sd fd vio bytes).1.sd ≡ vio.sd
unfolding vio_write_sd
vio_write_sd-sd none vio bytes = refl
vio_write_sd-sd (some sd) vio bytes = refl

-- A write leaves the descriptor alone.
pub vio_write-sd : (vio : Vio) (bytes : List ℕ) → (vio_write vio bytes).1.sd ≡ vio.sd
unfolding vio_write
vio_write-sd vio bytes = vio_write_sd-sd vio.sd vio bytes
