-- ===== src/Net/Clear/Drained.antt =====
-- What `netClear` leaves.
use server_simple.Base.{ℕ, ◌≡◌, ◌≢◌, ◌⊎◌, Bool, Option, some, List, ◌++◌, length}
use server_simple.Socket.{Socket}
use server_simple.Socket.Laws.{stream}
use server_simple.Vio.{Vio}
use server_simple.Net.{Net}
use server_simple.Net.Clear.{net_data_is_ready, ready}

-- The loop took `dropped` from the socket and nothing else happened but to the bytes of the buffer.
-- It ended at the end of the stream or a failure, with the error 2, or it saw nothing ready.
pub record Drains (says : ℕ → Socket → Option Bool) (net out : Net) : Type 0 where
  pub dropped : List ℕ
  pub received : out.vio.kernel.received ≡ net.vio.kernel.received ++ dropped
  pub whole : stream net.vio.kernel.incoming ≡ dropped ++ stream out.vio.kernel.incoming
  pub sent : out.vio.kernel.sent ≡ net.vio.kernel.sent
  pub shape : out ≡ record net { vio = out.vio; buff = out.buff; error = out.error }
  pub size : length out.buff ≡ length net.buff
  pub why :
      (out.error ≡ 2)
      ⊎ ((i : ℕ) × (out.error ≡ net.error)
          × (net_data_is_ready (says i) out.vio.sd out.vio.kernel ≢ ready))

abbrev IsDrained : (ℕ → Socket → Option Bool) → Net → Option Net → Type 0
IsDrained says net o = (out : Net) × (o ≡ some out) × Drains says net out
