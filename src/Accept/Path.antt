-- ===== src/Accept/Path.antt =====
-- The accept loop and the ends of threads as paths of the step relation of the connections.
use server_simple.Base.{
  ℕ, ◌≡◌, refl, ap, ◌∙◌, subst, Bool, true, false, not, if-cases, Option, none, some, List, [], ◌∷◌,
  ◌++◌, length, ◌+◌, ◌%◌, ◌^◌, ◌≤◌, arith,
}
use server_simple.Socket.{Socket}
use server_simple.Vio.{Vio, VioType, vio_new}
use server_simple.Net.{net_init, zero_net}
use server_simple.Session.{Thd}
use server_simple.Server.{
  Server, let_in, uncount, unlink, Phase, running, World, Steps, rejects, admits, launches, fails,
  gives_up, leaves, ends, done, later,
}
use server_simple.Server.Counts.{IsCounted, Steps-IsCounted, total, connects, threads_of}
use server_simple.Accept.{
  Machine, Answers, Round, Turn, Turns, accepts, stay, turn, accept_round, with_socket, with_thd,
  with_vio, create_new_thread, start_thread, accept_retry, max_accept_retry, zero_thd,
}

abbrev runs : List Thd → List Phase
runs [] = []
runs (thd ∷ thds) = running ∷ runs thds

-- The machine between two turns, as the step relation sees it.
abbrev pub world : Machine → World
world m = record { server = m.server; threads = runs m.threads }

runs-append :
    (xs ys : List Thd) (thd : Thd) → runs (xs ++ (thd ∷ ys)) ≡ runs xs ++ (running ∷ runs ys)
runs-append [] ys thd = refl
runs-append (x ∷ xs) ys thd = ap (◌∷◌ running) (runs-append xs ys thd)

runs-join : (xs ys : List Thd) → runs xs ++ runs ys ≡ runs (xs ++ ys)
runs-join [] ys = refl
runs-join (x ∷ xs) ys = ap (◌∷◌ running) (runs-join xs ys)

join : (u v w : World) → Steps u v → Steps v w → Steps u w
join u v w done more = more
join u v w (later {v = x} s rest) more = later s (join x v w rest more)

-- The steps of the main thread for one descriptor.
abbrev Follows : Machine → Round × Machine → Type 0
Follows m (r, n) = Steps (world m) (world n)

start_thread-Follows :
    (m : Machine) (thd : Thd) (created : Bool)
    → (let_in m.server).0 ≡ true
    → Follows m (start_thread (record m { server = (let_in m.server).1 }) thd created)
unfolding start_thread
start_thread-Follows m thd true h =
    later (admits h) (later (launches [] (runs m.threads) refl) done)
start_thread-Follows m thd false h =
    later (admits h)
      (later (fails [] (runs m.threads) refl) (later (gives_up [] (runs m.threads) refl) done))

create_new_thread-Follows :
    (m : Machine) (thd : Thd) (created : Bool) → Follows m (create_new_thread m thd created)
unfolding create_new_thread
create_new_thread-Follows m thd created =
    if-cases (Follows m) (let_in m.server).0 (start_thread-Follows m thd created)
      (λ h. later (rejects h) done)

with_thd-Follows :
    (m : Machine) (a : Answers) (vio_tmp : Option Vio) → Follows m (with_thd m a vio_tmp)
unfolding with_thd with_vio
with_thd-Follows m a none = done
with_thd-Follows m a (some vio) =
    if-cases (Follows m) (net_init a.buffer_allocated zero_net vio).0 (λ h. done)
      (λ h.
        create_new_thread-Follows _
          (record zero_thd { net = (net_init a.buffer_allocated zero_net vio).1 }) a.created)

with_socket-Follows :
    (m : Machine) (a : Answers) (new_sock : Option (ℕ × Socket))
    → Follows m (with_socket m a new_sock)
unfolding with_socket
with_socket-Follows m a none = done
with_socket-Follows m a (some (sd, kernel)) =
    if-cases (Follows m) (not a.named) (λ h. done)
      (λ h.
        if-cases (Follows m) a.thd_allocated
          (λ h'. with_thd-Follows _ a (vio_new a.vio_allocated sd VioType.socket true kernel))
          (λ h'. done))

accept_round-Follows : (m : Machine) (a : Answers) → Follows m (accept_round m a)
unfolding accept_round
accept_round-Follows m a =
    if-cases (Follows m) (not a.selected) (λ h. done)
      (λ h.
        if-cases (Follows m) m.server.abort_loop (λ h'. done)
          (λ h'. with_socket-Follows m a (accept_retry a.accept max_accept_retry 0)))

-- The end of a thread, as two critical sections.
leave :
    (s : Server) (ts : List Phase) (xs ys : List Thd) (thd : Thd)
    → ts ≡ runs (xs ++ (thd ∷ ys))
    → Steps
        (record { server = s; threads = ts })
        (record { server = unlink (uncount s); threads = runs (xs ++ ys) })
leave s ts xs ys thd e =
    let middle = e ∙ runs-append xs ys thd in
    later (leaves (runs xs) (runs ys) middle)
      (later (ends (runs xs) (runs ys) refl) (at_end (runs-join xs ys)))
  where
    at_end :
        {ps qs : List Phase} {t : Server}
        → ps ≡ qs
        → Steps (record { server = t; threads = ps }) (record { server = t; threads = qs })
    at_end {ps} {qs} {t} e =
        subst
          (λ rs. Steps (record { server = t; threads = ps }) (record { server = t; threads = rs }))
          e done

Turn-Steps : (m n : Machine) (r : Round) → Turn m n r → Steps (world m) (world n)
Turn-Steps m n r (accepts a) = accept_round-Follows m a
Turn-Steps m n r (Turn.ends xs ys thd thd' env before after e run has) =
    leave m.server (runs m.threads) xs ys thd (ap runs e)

-- A run of the accept loop, with the ends of threads between its rounds, is a run of the step relation
-- of the connections from the same counters to the same counters.
pub Turns-Steps : (m n : Machine) (rs : List Round) → Turns m n rs → Steps (world m) (world n)
Turns-Steps m n rs stay = done
Turns-Steps m n rs (turn {m = l} {r = r} {rs = more} t ts) =
    join (world m) (world l) (world n) (Turn-Steps m l r t) (Turns-Steps l n more ts)

runs-total : (f : Phase → ℕ) (thds : List Thd) → f running ≡ 1 → total f (runs thds) ≡ length thds
runs-total f [] e = refl
runs-total f (thd ∷ thds) e = omega (arith, runs-total f thds e, e)

-- A run of the accept loop, with the ends of threads, is a run of the critical sections from the same
-- counters to the same counters; so, from counters that count, connection_count is the number of threads
-- that serve a connection, thread_count too modulo 2^32, and there are at most max_connections + 1 of
-- them.
pub Turns-Counts :
    (m n : Machine) (rs : List Round)
    → Turns m n rs
    → IsCounted (world m)
    → Steps (world m) (world n)
      × (n.server.connection_count ≡ length n.threads)
      × (n.server.thread_count ≡ length n.threads % 2 ^ 32)
      × (length n.threads ≤ n.server.max_connections + 1)
Turns-Counts m n rs ts c =
    let d = Steps-IsCounted (world m) (world n) (Turns-Steps m n rs ts) c in
    let here = runs-total connects n.threads refl in
    (
      Turns-Steps m n rs ts,
      d.connections ∙ here,
      d.threads ∙ ap (λ k. k % 2 ^ 32) (runs-total threads_of n.threads refl),
      omega (arith, d.connections, here, d.bounded),
    )
