-- ===== src/Connection/Ends.antt =====
-- The end of the thread of a connection.
use server_simple.Base.{
  ℕ, zero, suc, ◌+◌, ◌^◌, ◌≤◌, ◌<◌, ◌≡◌, refl, ◌∙◌, Bool, true, false, ◌&&◌, ◌⊎◌, inl, inr,
  if-cases, none, ◌==◌, length, arith,
}
use server_simple.Socket.{Socket, set_option, hang_up}
use server_simple.Socket.Laws.{stream}
use server_simple.Vio.{Vio, VioType, vio_keepalive, vio_close, is_closed, is_namedpipe}
use server_simple.Net.{Net}
use server_simple.Net.Read.Outcome.{CanRead}
use server_simple.Session.{Thd, Shared, Env, Outcome, finished, hangs, crashes, do_command}
use server_simple.Session.Reply.{IsClear}
use server_simple.Server.{close_connection}
use server_simple.Connection.{
  Life, ended, waits, stopped, out_of_rounds, keeps_on, after_command, serve, closed,
  handle_one_connection,
}
use server_simple.Connection.Rounds.{left, Goes, do_command-Goes}

-- The loop ends, and not for want of rounds.
abbrev pub Lives : Shared → Life → Type 0
Lives shared (ended out shared') = shared'.thread_running ≡ shared.thread_running
Lives shared (waits shared') = Unit {0}
Lives shared stopped = Unit {0}
Lives shared out_of_rounds = ⊥

after_command-Lives :
    (thd : Thd) (shared : Shared) (o : Outcome) (next : Thd → Shared → Life)
    → Goes thd shared o
    → ((out : Thd) (shared' : Shared)
        → shared'.thread_running ≡ shared.thread_running
        → IsClear out.net
        → CanRead out.net
        → left out.net + 4 ≤ left thd.net
        → Lives shared (next out shared'))
    → Lives shared (after_command o next)
unfolding after_command
after_command-Lives thd shared (finished true out shared') next g step = g
after_command-Lives thd shared (finished false out shared') next (same, clear, c, l) step =
    step out shared' same clear c l
after_command-Lives thd shared (hangs shared') next g step = tt
after_command-Lives thd shared crashes next g step = tt

from_same :
    (s t : Shared) (life : Life) → t.thread_running ≡ s.thread_running → Lives t life → Lives s life
from_same s t (ended out shared') e l = l ∙ e
from_same s t (waits shared') e l = tt
from_same s t stopped e l = tt
from_same s t out_of_rounds e l = l

no_error_lem : (e : ℕ) (b : Bool) → ((e == 0) && b) ≡ true → e ≡ 0
no_error_lem e b h = ground arith

serve-Lives :
    (rounds : ℕ) (env : Env) (thd : Thd) (shared : Shared)
    → IsClear thd.net
    → CanRead thd.net
    → shared.thread_running < 2 ^ 32
    → left thd.net < rounds
    → Lives shared (serve rounds env thd shared)
unfolding serve
serve-Lives zero env thd shared clear c small h = absurd (omega arith)
serve-Lives (suc rounds) env thd shared clear c small h =
    if-cases (Lives shared) (keeps_on thd)
      (λ on.
        after_command-Lives thd shared (do_command env thd shared) (serve rounds env)
          (do_command-Goes env thd shared clear c (no_error_lem _ _ on) small)
          (λ out shared' same clear' c' l. from_same shared shared' _ same (
            serve-Lives rounds env out shared' clear' c' (omega (arith, same, small))
              (omega (arith, l, h)))))
      (λ off. refl)

-- The thread ends: the connection is marked and its descriptor given up, or the thread waits for a
-- mutex, or the process has stopped.
abbrev pub Closed : Shared → Life → Type 0
Closed shared (ended out shared') =
    (out.killed ≡ true)
    × ((out.net.has_vio ≡ false) ⊎ (out.net.vio.sd ≡ none))
    × (shared'.thread_running ≡ shared.thread_running)
Closed shared (waits shared') = Unit {0}
Closed shared stopped = Unit {0}
Closed shared out_of_rounds = ⊥

closed-Closed : (shared : Shared) (life : Life) → Lives shared life → Closed shared (closed life)
unfolding closed close_connection vio_close
closed-Closed shared (ended out shared') same = (
  refl,
  if-cases (λ (n : Net). (n.has_vio ≡ false) ⊎ (n.vio.sd ≡ none)) out.net.has_vio
      (λ h. inr (
        if-cases (λ (r : Bool × Vio). r.1.sd ≡ none) (is_closed out.net.vio.type)
          {x = (false, record (out.net.vio) { sd = none })}
          {y = (
            _,
            record (out.net.vio) {
              type = VioType.closed;
              sd = none;
              kernel = (hang_up out.net.vio.kernel).1;
            },
          )}
          (λ x. refl) (λ x. refl)))
      (λ h. inl h),
  same,
)
closed-Closed shared (waits shared') l = tt
closed-Closed shared stopped l = tt
closed-Closed shared out_of_rounds l = l

vio_keepalive-stream :
    (vio : Vio)
    → length (stream (vio_keepalive vio true).1.kernel.incoming)
      ≡ length (stream vio.kernel.incoming)
unfolding vio_keepalive set_option
vio_keepalive-stream vio =
    if-cases
      (λ (r : Bool × Vio).
        length (stream r.1.kernel.incoming) ≡ length (stream vio.kernel.incoming))
      (is_namedpipe vio.type) (λ h. refl)
      (λ h.
        if-cases (λ (k : Socket). length (stream k.incoming) ≡ length (stream vio.kernel.incoming))
          vio.kernel.refuses (λ x. refl) (λ x. refl))

-- Whatever arrives on a connection that `netInit` has set up, its thread comes to an end after finitely
-- many commands: it has marked the connection as killed, its descriptor is given up if it has one, and
-- `thread_running` is as it was before; or it waits for LOCK_SetupNoti, or a command has stopped the
-- process.
pub handle_one_connection-Closed :
    (env : Env) (thd : Thd) (shared : Shared)
    → IsClear thd.net
    → CanRead thd.net
    → shared.thread_running < 2 ^ 32
    → Closed shared (handle_one_connection env thd shared)
unfolding handle_one_connection
handle_one_connection-Closed env thd shared clear c small = closed-Closed shared _ (
    serve-Lives (suc (length (stream thd.net.vio.kernel.incoming))) env _ shared
      (record { plain = clear.plain; empty = clear.empty })
      (record {
        plain = c.plain;
        at_start = c.at_start;
        capped = c.capped;
        some_room = c.some_room;
        one_packet = c.one_packet;
        spare = c.spare;
      })
      small (omega (arith, vio_keepalive-stream thd.net.vio)))
