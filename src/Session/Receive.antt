-- ===== src/Session/Receive.antt =====
-- `do_command` on a packet that is on its way, and on a failed read.
use server_simple.Base.{
  c_string, ℕ, suc, ◌+◌, ◌^◌, ◌<◌, ◌≡◌, refl, sym, ap, subst, ◌∙◌, inl, inr, false, Bool-cases,
  if-cases, Option, List, [], ◌∷◌, ◌++◌, length, length-write_at, some, drop, slice, write_at,
  write_at-one, ◌==◌, arith,
}
use server_simple.Socket.{Socket, set_option}
use server_simple.Socket.Laws.{stream, IsData}
use server_simple.Vio.{Vio, vio_timeout}
use server_simple.Net.{Net, net_set_read_timeout, net_read_timeout}
use server_simple.Net.Read.Outcome.{CanRead}
use server_simple.Net.Read.Loop.{IsFed}
use server_simple.Net.Read.Deliver.{IsArriving}
use server_simple.Net.Read.Arrive.{HandedOver, my_net_read-HandedOver}
use server_simple.Session.{
  to_command, Thd, Shared, Env, Outcome, dispatch_command, command_from, after_read, do_command,
  new_command,
}
use server_simple.Session.Ends.{Ends}
use server_simple.Session.Reply.{IsClear}
use server_simple.Session.Dispatch.{dispatch_command-Ends}

-- A text ends at its first 0.
pub c_string-stop : (bytes tail : List ℕ) → c_string (bytes ++ (0 ∷ tail)) ≡ c_string bytes
c_string-stop [] tail = refl
c_string-stop (b ∷ bytes) tail = elim (Bool-cases (b == 0)) [
  | inl end_of_text ↦ rw end_of_text refl
  | inr inside ↦ rw inside (ap (◌∷◌ b) (c_string-stop bytes tail))
]

-- Setting a timeout leaves both streams of the socket alone.
abbrev pub SameStreams : Vio → Vio → Type 0
SameStreams vio out =
    (out.kernel.incoming ≡ vio.kernel.incoming) × (out.kernel.sent ≡ vio.kernel.sent)

vio_timeout-SameStreams :
    (vio : Vio) (timeout : ℕ) → SameStreams vio (vio_timeout vio false timeout)
unfolding vio_timeout set_option
vio_timeout-SameStreams vio timeout =
    if-cases (λ (k : Socket). (k.incoming ≡ vio.kernel.incoming) × (k.sent ≡ vio.kernel.sent))
      vio.kernel.refuses (λ h. (refl, refl)) (λ h. (refl, refl))

pub set_timeout-SameStreams :
    (net : Net) (timeout : ℕ) → SameStreams net.vio (net_set_read_timeout net timeout).vio
unfolding net_set_read_timeout
set_timeout-SameStreams net timeout =
    if-cases (SameStreams net.vio) net.has_vio (λ h. vio_timeout-SameStreams net.vio timeout)
      (λ h. (refl, refl))

pub set_timeout-IsFed :
    (net : Net) (timeout : ℕ) → IsFed net → IsFed (net_set_read_timeout net timeout)
unfolding net_set_read_timeout vio_timeout
set_timeout-IsFed net timeout f = record {
  fd = f.fd;
  open_sd = if-cases (λ (v : Vio). v.sd ≡ some f.fd) net.has_vio (λ h. f.open_sd) (λ h. f.open_sd);
  data_only = subst IsData (sym (set_timeout-SameStreams net timeout).0) f.data_only;
}

-- What the server sees in a new command is what it saw before.
pub new_command-IsFed : (net : Net) → IsFed net → IsFed (new_command net)
new_command-IsFed net f =
    let g =
      set_timeout-IsFed (record net { pkt_nr = 0; compress_pkt_nr = 0 }) net_read_timeout
        (record { fd = f.fd; open_sd = f.open_sd; data_only = f.data_only }) in
    record { fd = g.fd; open_sd = g.open_sd; data_only = g.data_only }

pub new_command-incoming :
    (net : Net) → (new_command net).vio.kernel.incoming ≡ net.vio.kernel.incoming
new_command-incoming net =
    (set_timeout-SameStreams (record net { pkt_nr = 0; compress_pkt_nr = 0 }) net_read_timeout).0

pub new_command-CanRead : (net : Net) → CanRead net → CanRead (new_command net)
unfolding net_set_read_timeout
new_command-CanRead net c = record {
  plain = c.plain;
  at_start = c.at_start;
  capped = c.capped;
  some_room = c.some_room;
  one_packet = c.one_packet;
  spare = c.spare;
}

-- What a command of the packet `cmd ∷ args` starts from.
abbrev pub Started : Env → Thd → Shared → ℕ → List ℕ → List ℕ → Outcome → Type 0
Started env thd shared cmd args later o =
    (n : Net) × (tail : List ℕ) × (o
      ≡ dispatch_command env (to_command cmd) (record thd { net = n }) shared (args ++ (0 ∷ tail)))
    × (stream n.vio.kernel.incoming ≡ later)
    × (n.vio.kernel.sent ≡ thd.net.vio.kernel.sent)
    × (n.error ≡ thd.net.error)
    × IsClear n
    × CanRead n
    × IsFed n
    × (n.has_vio ≡ thd.net.has_vio)
    × (n.max_packet ≡ thd.net.max_packet)

-- The packet in the buffer, with the 0 that is put behind it.
packet_bytes :
    (net : Net) (payload : List ℕ)
    → net.read_pos ≡ 0
    → length payload < length net.buff
    → slice net.buff net.read_pos (length payload) ≡ payload
    → drop net.read_pos (write_at net.buff (net.read_pos + length payload) (0 ∷ []))
      ≡ payload ++ (0 ∷ drop (suc (length payload)) net.buff)
packet_bytes net payload at room same =
    ap (λ k. drop k (write_at net.buff (k + length payload) (0 ∷ []))) at
    ∙ ap (λ k. write_at net.buff k (0 ∷ [])) {x = 0 + length payload} (omega arith)
    ∙ write_at-one net.buff (length payload) 0 room
    ∙ ap (λ bs. bs ++ (0 ∷ drop (suc (length payload)) net.buff))
        (sym (ap (λ k. slice net.buff k (length payload)) at) ∙ same)

after_read-Started :
    (env : Env) (thd : Thd) (shared : Shared) (cmd : ℕ) (args later : List ℕ) (r : Option ℕ)
    (net : Net)
    → IsClear thd.net
    → HandedOver (new_command thd.net) (cmd ∷ args) later (r, net)
    → Started env thd shared cmd args later (after_read env thd shared r net)
unfolding after_read command_from net_set_read_timeout
after_read-Started env thd shared cmd args later r net clear (e, same, rest, fed, p, at) =
    let nonempty : (length (cmd ∷ args) == 0) ≡ false = ground arith in
    let bytes =
      packet_bytes net (cmd ∷ args) at (omega (arith, p.bounded, p.same_max, p.next.spare)) same in
    let n1 = record net {
      buff = write_at net.buff (net.read_pos + length (cmd ∷ args)) (0 ∷ []);
    } in
    let n = net_set_read_timeout n1 net_read_timeout in
    let (incoming, sent) = set_timeout-SameStreams n1 net_read_timeout in
    let (incoming', sent') =
      set_timeout-SameStreams (record thd.net { pkt_nr = 0; compress_pkt_nr = 0 })
        net_read_timeout in
    (
      n,
      drop (suc (length (cmd ∷ args))) net.buff,
      subst
          (λ o.
            after_read env thd shared o net
            ≡ dispatch_command env (to_command cmd) (record thd { net = n }) shared
                (args ++ (0 ∷ drop (suc (length (cmd ∷ args))) net.buff)))
          (sym e) (simp nonempty (ap (command_from env (record thd { net = n }) shared) bytes)),
      ap stream incoming ∙ rest,
      sent ∙ p.sent ∙ sent',
      p.no_error,
      record { plain = p.next.plain; empty = p.same_write_pos ∙ clear.empty },
      record {
        plain = p.next.plain;
        at_start = p.next.at_start;
        capped = p.next.capped;
        some_room = p.next.some_room;
        one_packet = p.next.one_packet;
        spare = omega (
          arith,
          p.next.spare,
          length-write_at net.buff (net.read_pos + length (cmd ∷ args)) (0 ∷ []),
        );
      },
      set_timeout-IsFed n1 net_read_timeout
          (record { fd = fed.fd; open_sd = fed.open_sd; data_only = fed.data_only }),
      p.same_has_vio,
      p.same_max,
    )

pub do_command-Started :
    (env : Env) (thd : Thd) (shared : Shared) (head : List ℕ) (cmd : ℕ) (args later : List ℕ)
    → IsClear thd.net
    → CanRead thd.net
    → IsArriving (new_command thd.net) head (cmd ∷ args) later
    → Started env thd shared cmd args later (do_command env thd shared)
unfolding do_command
do_command-Started env thd shared head cmd args later clear c a =
    after_read-Started env thd shared cmd args later _ _ clear (
      my_net_read-HandedOver env.memory (new_command thd.net) head (cmd ∷ args) later
        (new_command-CanRead thd.net c) a)

-- From the socket to the reply: let the stream of a connection between two commands begin with a
-- packet that `myNetRead` accepts, of a command byte and its arguments. Then `do_command` takes
-- exactly this packet, and ends as the command of this byte ends on the text that the arguments
-- begin with, with the reply that it sends on top of what was sent before.
pub do_command-Ends :
    (env : Env) (thd : Thd) (shared : Shared) (head : List ℕ) (cmd : ℕ) (args later : List ℕ)
    → IsClear thd.net
    → CanRead thd.net
    → IsArriving (new_command thd.net) head (cmd ∷ args) later
    → thd.net.error ≡ 0
    → shared.thread_running < 2 ^ 32
    → (n : Net) × (stream n.vio.kernel.incoming ≡ later)
      × (n.vio.kernel.sent ≡ thd.net.vio.kernel.sent)
      × (n.error ≡ 0)
      × Ends env
          (to_command cmd)
          (env.parse (c_string args))
          (record thd { net = n })
          shared
          (do_command env thd shared)
do_command-Ends env thd shared head cmd args later clear c a no_failure small =
    let (n, tail, e, rest, sent, error, clear', can, fed, linked, max) =
      do_command-Started env thd shared head cmd args later clear c a in
    (
      n,
      rest,
      sent,
      error ∙ no_failure,
      subst (Ends env (to_command cmd) (env.parse (c_string args)) (record thd { net = n }) shared)
          (sym e)
          (subst
            (λ text.
              Ends env (to_command cmd) (env.parse text) (record thd { net = n }) shared
                (dispatch_command env (to_command cmd) (record thd { net = n }) shared
                  (args ++ (0 ∷ tail))))
            (c_string-stop args tail)
            (dispatch_command-Ends env (to_command cmd) (record thd { net = n }) shared
              (args ++ (0 ∷ tail)) clear' (error ∙ no_failure) small)),
    )
