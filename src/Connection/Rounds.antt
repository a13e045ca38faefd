-- ===== src/Connection/Rounds.antt =====
-- One round of the loop: what a command leaves for the next.
use server_simple.Base.{
  c_string, ℕ, ◌+◌, ◌^◌, ◌≤◌, ◌<◌, ◌≡◌, refl, ap, ◌∙◌, true, false, if-cases, Option, none, some,
  List, [], ◌∷◌, ◌++◌, length, length-append, length-write_at, drop, write_at, ◌==◌, if◌then◌else◌,
  arith,
}
use server_simple.Socket.Laws.{stream}
use server_simple.Net.{Net, net_set_read_timeout, net_read_timeout}
use server_simple.Net.Read.Outcome.{CanRead, PacketRead}
use server_simple.Net.Read.Receive.{Received, my_net_read-Received}
use server_simple.Session.{
  Command, ccom_sleep, to_command, Thd, Shared, Env, Outcome, finished, hangs, crashes,
  dispatch_command, command_from, after_read, do_command, new_command,
}
use server_simple.Session.Ends.{Ends}
use server_simple.Session.Reply.{IsClear}
use server_simple.Session.Dispatch.{dispatch_command-Ends}
use server_simple.Session.Receive.{new_command-CanRead, set_timeout-SameStreams}
use server_simple.Session.Fail.{Closes, read_failed}

abbrev pub left : Net → ℕ
left net = length (stream net.vio.kernel.incoming)

-- After a command: the connection is to be closed, or it is ready for the next, and a header at
-- least was taken.
abbrev pub Goes : Thd → Shared → Outcome → Type 0
Goes thd shared (finished true out shared') = shared'.thread_running ≡ shared.thread_running
Goes thd shared (finished false out shared') =
    (shared'.thread_running ≡ shared.thread_running)
    × IsClear out.net
    × CanRead out.net
    × (left out.net + 4 ≤ left thd.net)
Goes thd shared (hangs shared') = Unit {0}
Goes thd shared crashes = Unit {0}

-- A command on a connection that has taken its packet.
Ends-Goes :
    (env : Env) (command : Command) (packet : List ℕ) (thd : Thd) (n : Net) (shared : Shared)
    (o : Outcome)
    → CanRead n
    → left n + 4 ≤ left thd.net
    → Ends env command (env.parse (c_string packet)) (record thd { net = n }) shared o
    → Goes thd shared o
Ends-Goes env command packet thd n shared (finished true out shared') c l (e, p, idle, same) = same
Ends-Goes env command packet thd n shared (finished false out shared') c l (e, p, idle, same) =
    (same, p.clear, p.can_read c, omega (arith, l, ap (λ xs. length (stream xs)) p.incoming))
Ends-Goes env command packet thd n shared (hangs shared') c l e = tt
Ends-Goes env command packet thd n shared crashes c l e = tt

-- Whatever the packet is, some command is run.
command_from-Goes :
    (env : Env) (thd : Thd) (n : Net) (shared : Shared) (bytes : List ℕ)
    → IsClear n
    → CanRead n
    → n.error ≡ 0
    → shared.thread_running < 2 ^ 32
    → left n + 4 ≤ left thd.net
    → Goes thd shared (command_from env (record thd { net = n }) shared bytes)
unfolding command_from
command_from-Goes env thd n shared [] clear c e small l =
    Ends-Goes env ccom_sleep [] thd n shared
      (dispatch_command env ccom_sleep (record thd { net = n }) shared []) c l
      (dispatch_command-Ends env ccom_sleep (record thd { net = n }) shared [] clear e small)
command_from-Goes env thd n shared (b ∷ packet) clear c e small l =
    Ends-Goes env (to_command b) packet thd n shared
      (dispatch_command env (to_command b) (record thd { net = n }) shared packet) c l
      (dispatch_command-Ends env (to_command b) (record thd { net = n }) shared packet clear e
        small)

Closes-Goes : (thd : Thd) (shared : Shared) (o : Outcome) → Closes shared o → Goes thd shared o
Closes-Goes thd shared (finished true out shared') (e, same) =
    ap (λ (s : Shared). s.thread_running) same
Closes-Goes thd shared (finished false out shared') (e, same) = cc
Closes-Goes thd shared (hangs shared') h = absurd h
Closes-Goes thd shared crashes h = absurd h

-- A packet takes its header and its bytes.
packet_size : {net out : Net} {len : ℕ} → PacketRead net len out → left out + 4 + len ≡ left net
packet_size {net} {out} {len} p = omega (
  arith,
  ap length p.whole,
  length-append (p.head ++ p.payload) (stream out.vio.kernel.incoming),
  length-append p.head p.payload,
  p.head_size,
  p.size,
)

module _ (env : Env) (thd : Thd) (shared : Shared) (clear : IsClear thd.net)
    (no_failure : thd.net.error ≡ 0) (small : shared.thread_running < 2 ^ 32) where
  -- The buffer after the zeros are put.
  with_buffer :
      (len : ℕ) (net : Net) (buff : List ℕ)
      → length buff ≡ length net.buff
      → PacketRead (new_command thd.net) len net
      → Goes thd shared (
          command_from env
            (record thd {
              net = net_set_read_timeout (record net { buff = buff }) net_read_timeout;
            })
            shared
            (drop net.read_pos buff))
  unfolding net_set_read_timeout
  with_buffer len net buff size p =
      let n = record net { buff = buff } in
      let (incoming, sent) = set_timeout-SameStreams n net_read_timeout in
      let (incoming', sent') =
        set_timeout-SameStreams (record thd.net { pkt_nr = 0; compress_pkt_nr = 0 })
          net_read_timeout in
      command_from-Goes env thd (net_set_read_timeout n net_read_timeout) shared
        (drop net.read_pos buff)
        (record { plain = p.next.plain; empty = p.same_write_pos ∙ clear.empty })
        (record {
          plain = p.next.plain;
          at_start = p.next.at_start;
          capped = p.next.capped;
          some_room = p.next.some_room;
          one_packet = p.next.one_packet;
          spare = omega (arith, p.next.spare, size);
        })
        (p.no_error ∙ no_failure) small
        (omega (
          arith,
          packet_size p,
          ap (λ xs. length (stream xs)) incoming,
          ap (λ xs. length (stream xs)) incoming',
        ))

  after_read-Goes :
      (r : Option ℕ) (net : Net)
      → Received (new_command thd.net) (r, net)
      → Goes thd shared (after_read env thd shared r net)
  unfolding after_read
  after_read-Goes (some len) net (p, at, behind) =
      let size = if len == 0 then 1 else len in
      let first = if len == 0 then write_at net.buff net.read_pos (0 ∷ []) else net.buff in
      let same : length first ≡ length net.buff =
        if-cases (λ (b : List ℕ). length b ≡ length net.buff) (len == 0)
          (λ h. length-write_at net.buff net.read_pos (0 ∷ [])) (λ h. refl) in
      with_buffer len net (write_at first (net.read_pos + size) (0 ∷ []))
        (length-write_at first (net.read_pos + size) (0 ∷ []) ∙ same) p
  after_read-Goes none net e =
      Closes-Goes thd shared (after_read env thd shared none net)
        (read_failed env thd shared none net (omega (arith, no_failure)) e refl)

-- A command on a connection between two commands.
pub do_command-Goes :
    (env : Env) (thd : Thd) (shared : Shared)
    → IsClear thd.net
    → CanRead thd.net
    → thd.net.error ≡ 0
    → shared.thread_running < 2 ^ 32
    → Goes thd shared (do_command env thd shared)
unfolding do_command
do_command-Goes env thd shared clear c no_failure small =
    after_read-Goes env thd shared clear no_failure small _ _
      (my_net_read-Received env.memory (new_command thd.net) (new_command-CanRead thd.net c))
