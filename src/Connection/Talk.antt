-- ===== src/Connection/Talk.antt =====
-- The loop of `handle_one_connection` against a server without a network: a conversation is the
-- messages that a client sends, and the bytes that it is answered.
pub mod Step
pub mod Sound
use server_simple.Base.{
  ℕ, zero, suc, ◌+◌, ◌%◌, ◌^◌, ◌≤◌, ◌<◌, ◌≡◌, refl, sym, ap, subst, ◌∙◌, ◌⊎◌, inl, inr, Bool, true,
  false, not, ◌&&◌, ◌==◌, List, [], ◌∷◌, ◌++◌, append-nil, append_assoc, length, get_or, c_string,
  if◌then◌else◌, arith,
}
use server_simple.Socket.Laws.{stream, IsData}
use server_simple.Net.{Net}
use server_simple.Net.Read.{uint3korr}
use server_simple.Net.Read.Loop.{IsFed}
use server_simple.Net.Read.Outcome.{CanRead}
use server_simple.Net.Read.Deliver.{IsArriving}
use server_simple.Registry.{Registry}
use server_simple.Session.{
  Thd, Shared, Env, Outcome, finished, hangs, crashes, to_command, counted, with_registry,
  dispatch_command, do_command, new_command,
}
use server_simple.Session.Reply.{IsClear, Puts}
use server_simple.Session.Receive.{Started, do_command-Started, c_string-stop}
use server_simple.Session.Respond.{Response, answers, waits, dies, respond}
use server_simple.Session.Respond.Sound.{Responds, dispatch_command-Responds}
use server_simple.Connection.{Life, ended, stopped, keeps_on, after_command, serve}
use server_simple.Connection

-- A packet of a client: its header, the byte of the command and what follows that.
pub record Message : Type 0 where
  pub head : List ℕ
  pub command : ℕ
  pub args : List ℕ

abbrev pub frames : List Message → List ℕ
frames [] = []
frames (m ∷ ms) = m.head ++ ((m.command ∷ m.args) ++ frames ms)

-- A header with the number 0 and the length of what follows, which is below `size`.
abbrev pub AreFramed : ℕ → List Message → Type 0
AreFramed size [] = Unit {0}
AreFramed size (m ∷ ms) =
    (length m.head ≡ 4)
    × (get_or m.head 3 0 ≡ 0)
    × (uint3korr m.head 0 ≡ length m.args + 1)
    × (length m.args + 1 < size)
    × AreFramed size ms

-- How a conversation stands after its messages: it goes on, or is closed, with this table, or waits, or
-- the process is gone.
pub data Stand : Type 0 where
  going closed waiting : Registry → Stand
  gone : Stand

abbrev and_then : Response → (Registry → List ℕ × Stand) → List ℕ × Stand
and_then (answers true bytes reg) next = (bytes, closed reg)
and_then (answers false bytes reg) next = let (more, stand) = next reg in (bytes ++ more, stand)
and_then (waits reg) next = ([], waiting reg)
and_then dies next = ([], gone)

unfoldable pub converse : Env → List Message → Registry → List ℕ × Stand
converse env [] reg = ([], going reg)
converse env (m ∷ ms) reg =
    and_then (respond env (to_command m.command) (env.parse (c_string m.args)) reg)
      (converse env ms)

-- What the thread of the connection has come to, `sent` being what was sent before: without a failed
-- write, all the answers are sent, and the connection and the table stand as the conversation does.
abbrev pub Follows : Env → Shared → List ℕ → List ℕ → Life → List ℕ × Stand → Type 0
Follows env shared sent later life (bytes, closed reg) =
    (out : Thd) × (life ≡ ended out (record shared { registry = reg }))
    × (out.net.vio.kernel.sent ≡ sent ++ bytes)
Follows env shared sent later life (bytes, going reg) =
    (out : Thd) × (rounds : ℕ) × (life ≡ serve rounds env out (record shared { registry = reg }))
    × (out.net.vio.kernel.sent ≡ sent ++ bytes)
    × (stream out.net.vio.kernel.incoming ≡ later)
Follows env shared sent later life (bytes, waiting reg) =
    life ≡ Connection.waits (with_registry (counted shared) reg)
Follows env shared sent later life (bytes, gone) = life ≡ stopped

-- A write failed: the thread has ended, and a part of the answers from their start was sent.
abbrev pub Breaks : List ℕ → Life → List ℕ → Type 0
Breaks sent life bytes =
    (out : Thd) × (after : Shared) × (rest : List ℕ) × (life ≡ ended out after)
    × (out.net.error ≡ 2)
    × (out.net.vio.kernel.sent ++ rest ≡ sent ++ bytes)

abbrev pub Talks : Env → Shared → List ℕ → List ℕ → Life → List ℕ × Stand → Type 0
Talks env shared sent later life talk =
    Follows env shared sent later life talk ⊎ Breaks sent life talk.0
