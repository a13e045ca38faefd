-- ===== src/Accept/Served.antt =====
-- The threads of the accept loop come to an end.
use server_simple.Base.{
  ℕ, ◌^◌, ◌<◌, ◌≡◌, refl, sym, ap, subst, Bool, true, false, not, if-cases, Option, none, some,
  List, [], ◌∷◌, ◌++◌,
}
use server_simple.Socket.{Socket}
use server_simple.Vio.{Vio, VioType, vio_new, vio_timeout, vio_fastsend}
use server_simple.Net.{
  zero_net, net_init, net_local_init, net_set_read_timeout, net_set_write_timeout,
}
use server_simple.Net.Init.{net_init-IsOpen}
use server_simple.Net.Read.Outcome.{CanRead}
use server_simple.Session.{Thd, Env, Shared}
use server_simple.Session.Reply.{IsClear}
use server_simple.Connection.{handle_one_connection}
use server_simple.Connection.Ends.{Closed, handle_one_connection-Closed}
use server_simple.Server.{let_in}
use server_simple.Accept.{
  Machine, Answers, Round, Turns, accepts, ends, stay, turn, accept_round, with_socket, with_thd,
  with_vio, create_new_thread, start_thread, accept_retry, max_accept_retry, zero_thd,
}

-- A connection that its thread can start with.
pub record IsServed (thd : Thd) : Type 0 where
  pub clear : IsClear thd.net
  pub can_read : CanRead thd.net
  pub no_failure : thd.net.error ≡ 0
  pub linked : thd.net.has_vio ≡ true
  pub alive : thd.killed ≡ false
  pub size : thd.net.max_packet ≡ 2048
  pub fd : ℕ
  pub open_sd : thd.net.vio.sd ≡ some fd

abbrev pub Each : List Thd → Type 0
Each [] = Unit
Each (thd ∷ thds) = IsServed thd × Each thds

abbrev After : Round × Machine → Type 0
After (r, m) = Each m.threads

vio_new-sd :
    (allocated : Bool) (sd : ℕ) (kernel : Socket) (vio : Vio)
    → vio_new allocated sd VioType.socket true kernel ≡ some vio
    → vio.sd ≡ some sd
unfolding vio_new
vio_new-sd true sd kernel vio e =
    ap (λ (o : Option Vio). elim o [ none ↦ some sd | some v ↦ v.sd ]) (sym e)
vio_new-sd false sd kernel vio e = cc

start_thread-After :
    (m : Machine) (thd : Thd) (created : Bool)
    → Each m.threads
    → IsServed thd
    → After (start_thread m thd created)
unfolding start_thread
start_thread-After m thd true each s = (
  record {
    clear = record { plain = s.clear.plain; empty = s.clear.empty };
    can_read = record {
      plain = s.can_read.plain;
      at_start = s.can_read.at_start;
      capped = s.can_read.capped;
      some_room = s.can_read.some_room;
      one_packet = s.can_read.one_packet;
      spare = s.can_read.spare;
    };
    no_failure = s.no_failure;
    linked = s.linked;
    alive = s.alive;
    size = s.size;
    fd = s.fd;
    open_sd = s.open_sd;
  },
  each,
)
start_thread-After m thd false each s = each

net_init-IsServed :
    (allocated : Bool) (vio : Vio) (fd : ℕ)
    → vio.sd ≡ some fd
    → (net_init allocated zero_net vio).0 ≡ false
    → IsServed (record zero_thd { net = (net_init allocated zero_net vio).1 })
unfolding net_init net_local_init net_set_read_timeout net_set_write_timeout zero_net vio_timeout
    vio_fastsend
net_init-IsServed true vio fd e h = record {
  clear = record { plain = refl; empty = refl };
  can_read = ((net_init-IsOpen true vio).1 refl).1;
  no_failure = refl;
  linked = refl;
  alive = refl;
  size = refl;
  fd = fd;
  open_sd = e;
}
net_init-IsServed false vio fd e h = cc

create_new_thread-After :
    (m : Machine) (thd : Thd) (created : Bool)
    → Each m.threads
    → IsServed thd
    → After (create_new_thread m thd created)
unfolding create_new_thread
create_new_thread-After m thd created each s =
    if-cases After (let_in m.server).0 (λ h. start_thread-After _ thd created each s) (λ h. each)

with_thd-After :
    (m : Machine) (a : Answers) (vio_tmp : Option Vio) (fd : ℕ)
    → ((vio : Vio) → vio_tmp ≡ some vio → vio.sd ≡ some fd)
    → Each m.threads
    → After (with_thd m a vio_tmp)
unfolding with_thd with_vio
with_thd-After m a none fd on each = each
with_thd-After m a (some vio) fd on each =
    if-cases After (net_init a.buffer_allocated zero_net vio).0 (λ h. each)
      (λ h.
        create_new_thread-After _
          (record zero_thd { net = (net_init a.buffer_allocated zero_net vio).1 }) a.created each
          (net_init-IsServed a.buffer_allocated vio fd (on vio refl) h))

with_socket-After :
    (m : Machine) (a : Answers) (new_sock : Option (ℕ × Socket))
    → Each m.threads
    → After (with_socket m a new_sock)
unfolding with_socket
with_socket-After m a none each = each
with_socket-After m a (some (sd, kernel)) each =
    if-cases After (not a.named) (λ h. each)
      (λ h.
        if-cases After a.thd_allocated
          (λ h'.
            with_thd-After _ a (vio_new a.vio_allocated sd VioType.socket true kernel) sd
              (vio_new-sd a.vio_allocated sd kernel) each)
          (λ h'. each))

accept_round-After : (m : Machine) (a : Answers) → Each m.threads → After (accept_round m a)
unfolding accept_round
accept_round-After m a each =
    if-cases After (not a.selected) (λ h. each)
      (λ h.
        if-cases After m.server.abort_loop (λ h'. each)
          (λ h'. with_socket-After m a (accept_retry a.accept max_accept_retry 0) each))

Each-without : (xs ys : List Thd) (thd : Thd) → Each (xs ++ (thd ∷ ys)) → Each (xs ++ ys)
Each-without [] ys thd (s, each) = each
Each-without (x ∷ xs) ys thd (s, each) = (s, Each-without xs ys thd each)

Turns-Each : (m n : Machine) (rs : List Round) → Turns m n rs → Each m.threads → Each n.threads
Turns-Each m n rs stay each = each
Turns-Each m n rs (turn (accepts a) ts) each = Turns-Each _ n _ ts (accept_round-After m a each)
Turns-Each m n rs (turn (ends xs ys thd thd' env before after e run has) ts) each =
    Turns-Each _ n _ ts (Each-without xs ys thd (subst Each e each))

Each-middle : (xs ys : List Thd) (thd : Thd) → Each (xs ++ (thd ∷ ys)) → IsServed thd
Each-middle [] ys thd (s, each) = s
Each-middle (x ∷ xs) ys thd (s, each) = Each-middle xs ys thd each

-- Every connection that the accept loop gives to a thread, in whatever run of it, is served to an end,
-- whatever arrives on it: after finitely many commands the thread has closed the connection and left
-- `thread_running` as it was, or it waits for LOCK_SetupNoti, or a command has stopped the process.
pub Turns-Closed :
    (m n : Machine) (rs : List Round) (xs ys : List Thd) (thd : Thd) (env : Env) (shared : Shared)
    → Turns m n rs
    → Each m.threads
    → n.threads ≡ xs ++ (thd ∷ ys)
    → shared.thread_running < 2 ^ 32
    → Closed shared (handle_one_connection env thd shared)
Turns-Closed m n rs xs ys thd env shared ts each e small =
    let s = Each-middle xs ys thd (subst Each e (Turns-Each m n rs ts each)) in
    handle_one_connection-Closed env thd shared s.clear s.can_read small
