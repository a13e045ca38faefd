-- ===== src/Client/Frames.antt =====
-- The test client's stream, as the server reads it.
use server_simple.Base.{ℕ, ◌+◌, ◌/◌, ◌%◌, ◌≡◌, true, false, List, [], ◌∷◌, length}
use server_simple.Socket.Laws.{stream}
use server_simple.Net.{Net}
use server_simple.Session.{Env, Outcome, finished, hangs, crashes, do_command}
use server_simple.Session.Ends.{Ends}
use server_simple.Session.Fail.{Closes}
use server_simple.Client.{quit_frame}

-- The four bytes before the command byte.
abbrev token_head : List ℕ → List ℕ
token_head json =
    ((length json + 1) % 256)
    ∷ ((length json + 1) / 256 % 256)
    ∷ ((length json + 1) / 65536 % 256)
    ∷ 0
    ∷ []

-- The token is saved, or refused, or saving it stops the process. If the server goes on, the next
-- command is none.
abbrev pub QuitLost : Env → Outcome → Type 0
QuitLost env (finished true out shared) = stream out.net.vio.kernel.incoming ≡ 0 ∷ quit_frame
QuitLost env (finished false out shared) =
    (stream out.net.vio.kernel.incoming ≡ 0 ∷ quit_frame)
    × Closes shared (do_command env out shared)
QuitLost env (hangs shared) = ⊥
QuitLost env crashes = Unit
