-- ===== src/Connection/Talk/Sound.antt =====
-- The loop of `handle_one_connection` follows a conversation.
use server_simple.Base.{
  ℕ, zero, suc, ◌^◌, ◌≤◌, ◌<◌, ◌≡◌, refl, sym, ap, subst, ◌∙◌, inl, Bool, true, false, ◌==◌, List,
  [], ◌∷◌, ◌++◌, append-nil, append_assoc, length, length-append, if-cases, c_string, arith,
}
use server_simple.Socket.Laws.{stream, IsData}
use server_simple.Net.{net_set_read_timeout}
use server_simple.Net.Read.Loop.{IsFed}
use server_simple.Net.Read.Outcome.{CanRead}
use server_simple.Net.Read.Deliver.{IsArriving}
use server_simple.Session.{Thd, Shared, Env, to_command, dispatch_command, do_command, new_command}
use server_simple.Session.Reply.{IsClear, Puts}
use server_simple.Session.Receive.{
  do_command-Started, c_string-stop, new_command-IsFed, new_command-incoming,
}
use server_simple.Session.Respond.{respond}
use server_simple.Session.Respond.Sound.{Responds, dispatch_command-Responds}
use server_simple.Vio.{Vio, vio_keepalive, is_namedpipe}
use server_simple.Socket.{Socket, set_option}
use server_simple.Connection.{Life, keeps_on, serve, handle_one_connection, closed as closed_life}
use server_simple.Connection.Talk.{Message, frames, AreFramed, converse, Talks}
use server_simple.Connection.Talk.Step.{answer_step}

-- A connection that has come to no harm, `later` being all that is to come on it.
pub record IsReady (thd : Thd) (size : ℕ) (later : List ℕ) : Type 0 where
  pub clear : IsClear thd.net
  pub can_read : CanRead thd.net
  pub fed : IsFed thd.net
  pub no_failure : thd.net.error ≡ 0
  pub linked : thd.net.has_vio ≡ true
  pub alive : thd.killed ≡ false
  pub size_is : thd.net.max_packet ≡ size
  pub to_come : stream thd.net.vio.kernel.incoming ≡ later

keeps_on-ready :
    {thd : Thd} {size : ℕ} {later : List ℕ} → IsReady thd size later → keeps_on thd ≡ true
keeps_on-ready {thd} r =
    let fine : (thd.net.error == 0) ≡ true = ground (arith, r.no_failure) in
    simp (fine, r.linked, r.alive)

-- The header of a message, in a new command.
message-IsArriving :
    (thd : Thd) (size : ℕ) (m : Message) (ms : List Message) (later : List ℕ)
    → IsReady thd size (frames (m ∷ ms) ++ later)
    → AreFramed size (m ∷ ms)
    → IsArriving (new_command thd.net) m.head (m.command ∷ m.args) (frames ms ++ later)
unfolding net_set_read_timeout
message-IsArriving thd size m ms later r (four, number, len, small, others) = record {
  fed = new_command-IsFed thd.net r.fed;
  on_the_way =
      ap stream (new_command-incoming thd.net)
      ∙ r.to_come
      ∙ append_assoc m.head ((m.command ∷ m.args) ++ frames ms) later
      ∙ ap (◌++◌ m.head) (append_assoc (m.command ∷ m.args) (frames ms) later);
  head_size = four;
  number = number;
  len = len ∙ omega arith;
  small = omega (arith, small, r.size_is);
}

-- The connection after a whole answer.
next-IsReady :
    (start out : Thd) (size : ℕ) (bytes later : List ℕ)
    → IsReady start size later
    → Puts start.net bytes out.net
    → out.net.error ≡ start.net.error
    → out.killed ≡ start.killed
    → IsReady out size later
next-IsReady start out size bytes later r p fine alive = record {
  clear = p.clear;
  can_read = p.can_read r.can_read;
  fed = record {
    fd = r.fed.fd;
    open_sd = p.same_sd ∙ r.fed.open_sd;
    data_only = subst IsData (sym p.incoming) r.fed.data_only;
  };
  no_failure = fine ∙ r.no_failure;
  linked = p.same_has_vio ∙ r.linked;
  alive = alive ∙ r.alive;
  size_is = p.same_max ∙ r.size_is;
  to_come = ap stream p.incoming ∙ r.to_come;
}

-- The loop between two commands, with a round for each message.
serve-Talks :
    (rounds : ℕ) (env : Env) (thd : Thd) (shared : Shared) (size : ℕ) (ms : List Message)
    (later : List ℕ)
    → IsReady thd size (frames ms ++ later)
    → AreFramed size ms
    → shared.thread_running < 2 ^ 32
    → length ms ≤ rounds
    → Talks env shared thd.net.vio.kernel.sent later
        (serve rounds env thd shared)
        (converse env ms shared.registry)
unfolding converse serve
serve-Talks rounds env thd shared size [] later r framed small enough =
    inl (thd, rounds, refl, sym (append-nil thd.net.vio.kernel.sent), r.to_come)
serve-Talks zero env thd shared size (m ∷ ms) later r framed small enough = absurd (omega arith)
serve-Talks (suc rounds) env thd shared size (m ∷ ms) later r framed small enough =
    let (n, tail, o, rest, same, error, clear, can, fed, linked, max) =
      do_command-Started env thd shared m.head m.command m.args (frames ms ++ later) r.clear
        r.can_read (message-IsArriving thd size m ms later r framed) in
    let start = record thd { net = n } in
    let start-IsReady : IsReady start size (frames ms ++ later) = record {
      clear = clear;
      can_read = can;
      fed = fed;
      no_failure = error ∙ r.no_failure;
      linked = linked ∙ r.linked;
      alive = r.alive;
      size_is = max ∙ r.size_is;
      to_come = rest;
    } in
    let response =
      respond env (to_command m.command) (env.parse (c_string m.args)) shared.registry in
    let responds : Responds start shared response (do_command env thd shared) =
      subst (Responds start shared response) (sym o) (
        subst
          (λ text.
            Responds start shared
              (respond env (to_command m.command) (env.parse text) shared.registry)
              (dispatch_command env (to_command m.command) start shared (m.args ++ (0 ∷ tail))))
          (c_string-stop m.args tail)
          (dispatch_command-Responds env (to_command m.command) start shared (m.args ++ (0 ∷ tail))
            clear (error ∙ r.no_failure) small)) in
    rw (keeps_on-ready r) (
      answer_step env shared rounds later thd.net.vio.kernel.sent start same response
        (do_command env thd shared) (converse env ms) responds
        (λ out reg bytes p fine alive.
          serve-Talks rounds env out (record shared { registry = reg }) size ms later
            (next-IsReady start out size bytes (frames ms ++ later) start-IsReady p fine alive)
            framed.4 small (omega arith)))

length-frames : (ms : List Message) → length ms ≤ length (frames ms)
length-frames [] = omega arith
length-frames (m ∷ ms) = omega (
  arith,
  length-frames ms,
  length-append m.head ((m.command ∷ m.args) ++ frames ms),
  length-append (m.command ∷ m.args) (frames ms),
)

-- Setting SO_KEEPALIVE changes nothing that a conversation depends on.
vio_keepalive-same :
    (vio : Vio)
    → let v = (vio_keepalive vio true).1 in
      (v.sd ≡ vio.sd)
      × (v.kernel.incoming ≡ vio.kernel.incoming)
      × (v.kernel.sent ≡ vio.kernel.sent)
unfolding vio_keepalive set_option
vio_keepalive-same vio =
    if-cases
      (λ (r : Bool × Vio).
        (r.1.sd ≡ vio.sd)
        × (r.1.kernel.incoming ≡ vio.kernel.incoming)
        × (r.1.kernel.sent ≡ vio.kernel.sent))
      (is_namedpipe vio.type) (λ h. (refl, refl, refl))
      (λ h. (
        refl,
        if-cases (λ (k : Socket). k.incoming ≡ vio.kernel.incoming) vio.kernel.refuses (λ x. refl)
            (λ x. refl),
        if-cases (λ (k : Socket). k.sent ≡ vio.kernel.sent) vio.kernel.refuses (λ x. refl)
            (λ x. refl),
      ))

-- Let the stream of a new connection begin with messages in frames. Then its thread follows the
-- conversation that these make with a server without a network, until it closes the connection: it
-- runs the commands in order, in whatever segments the bytes arrive, sends all the answers and nothing
-- else, and leaves the table as the conversation does, or a write fails and it ends with a part of the
-- answers sent, from their start.
pub handle_one_connection-Talks :
    (env : Env) (thd : Thd) (shared : Shared) (size : ℕ) (ms : List Message) (later : List ℕ)
    → IsReady thd size (frames ms ++ later)
    → AreFramed size ms
    → shared.thread_running < 2 ^ 32
    → (life : Life) × (handle_one_connection env thd shared ≡ closed_life life)
      × Talks env shared thd.net.vio.kernel.sent later life (converse env ms shared.registry)
unfolding handle_one_connection
handle_one_connection-Talks env thd shared size ms later r framed small =
    let vio = thd.net.vio in
    let (same_sd, incoming, sent) = vio_keepalive-same vio in
    let start = record thd { net = record (thd.net) { vio = (vio_keepalive vio true).1 } } in
    let rounds = suc (length (stream vio.kernel.incoming)) in
    (
      serve rounds env start shared,
      refl,
      subst
          (λ bytes.
            Talks env shared bytes later (serve rounds env start shared)
              (converse env ms shared.registry))
          sent
          (serve-Talks rounds env start shared size ms later
            (record {
              clear = record { plain = r.clear.plain; empty = r.clear.empty };
              can_read = record {
                plain = r.can_read.plain;
                at_start = r.can_read.at_start;
                capped = r.can_read.capped;
                some_room = r.can_read.some_room;
                one_packet = r.can_read.one_packet;
                spare = r.can_read.spare;
              };
              fed = record {
                fd = r.fed.fd;
                open_sd = same_sd ∙ r.fed.open_sd;
                data_only = subst IsData (sym incoming) r.fed.data_only;
              };
              no_failure = r.no_failure;
              linked = r.linked;
              alive = r.alive;
              size_is = r.size_is;
              to_come = ap stream incoming ∙ r.to_come;
            })
            framed small
            (omega
              (arith, ap length r.to_come, length-append (frames ms) later, length-frames ms))),
    )
