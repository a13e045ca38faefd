-- ===== src/Startup/Runs.antt =====
-- Runs of the server from its start.
use server_simple.Base.{
  ℕ, ◌+◌, ◌<◌, ◌≤◌, ◌≡◌, refl, sym, ap, subst, ◌∙◌, true, Bool-cases, inl, inr, Option, none, some,
  List, length, ◌==◌, arith,
}
use server_simple.Accept.{Machine, Round, Turns}
use server_simple.Accept.Holds.{lost_vio, lost_buffer, sum, Holds}
use server_simple.Accept.Resources.{Turns-Holds}
use server_simple.Accept.Path.{world, Turns-Counts}
use server_simple.Server.Counts.{IsCounted}
use server_simple.Startup.{
  Network, Listener, my_port, back_log, with_socket, network_init, zero_machine, with_listener,
  main,
}

-- A listening socket on the port, of a descriptor that is not 0.
abbrev pub Listens : Network → Listener → Type 0
Listens net l =
    (fd : ℕ) × (l.ip_sock ≡ some fd)
    × (net.socket ≡ some fd)
    × (0 < fd)
    × (net.bind (some fd) ≡ true)
    × (net.listen (some fd) ≡ true)
    × (l.port ≡ some my_port)

some_inj : (k l : Listener) → ◌≡◌ {A = Option Listener} (some k) (some l) → k ≡ l
some_inj k l e = cc

with_socket-Listens :
    (net : Network) (s : Option ℕ) (l : Listener)
    → net.socket ≡ s
    → with_socket my_port net s ≡ some l
    → Listens net l
with_socket-Listens net none l at e = absurd (cc net.no_bind)
with_socket-Listens net (some fd) l at e = elim (Bool-cases (fd == 0)) [
  | inl zero ↦ absurd (ground arith)
  | inr other ↦ elim (Bool-cases (net.bind (some fd))) [
    | inr unbound ↦ absurd (ground arith)
    | inl bound ↦ elim (Bool-cases (net.listen (some fd))) [
      | inr deaf ↦ absurd (ground arith)
      | inl hears ↦
          let listener : Listener = record {
            ip_sock = some fd;
            port = some my_port;
            queue = back_log;
          } in
          let opened : with_socket my_port net (some fd) ≡ some listener =
            simp (other, bound, hears) in
          let same : listener ≡ l = some_inj listener l (sym opened ∙ e) in
          (
            fd,
            ap (λ (k : Listener). k.ip_sock) (sym same),
            at,
            ground arith,
            bound,
            hears,
            ap (λ (k : Listener). k.port) (sym same),
          )
    ]
  ]
]

from_listener :
    (o : Option Listener) (l : Listener) (m : Machine)
    → with_listener o ≡ some (l, m)
    → (o ≡ some l) × (m ≡ zero_machine)
from_listener none l m e = cc
from_listener (some k) l m e = (
  ap (λ (r : Option (Listener × Machine)). elim r [ none ↦ some k | some p ↦ some p.0 ]) e,
  ap (λ (r : Option (Listener × Machine)). elim r [ none ↦ m | some p ↦ p.1 ]) (sym e),
)

zero_machine-IsCounted : IsCounted (world zero_machine)
zero_machine-IsCounted = record {
  connections = refl;
  threads = refl;
  limit = omega arith;
  bounded = omega arith;
  used = omega arith;
  used_bounded = omega arith;
}

-- Where `main` comes to its loop at all, it listens on the port, with a descriptor other than 0, and
-- whatever happens in the loop: the connections that the server counts are the threads that there are,
-- at most one more than `max_connections`, the descriptors of connections and the THDs are theirs, and
-- there is one Vio more for every connection that was rejected or failed after it had one, and one
-- buffer more for those that had one.
pub main-Runs :
    (net : Network) (l : Listener) (m n : Machine) (rs : List Round)
    → main net ≡ some (l, m)
    → Turns m n rs
    → Listens net l
      × (n.server.connection_count ≡ length n.threads)
      × (length n.threads ≤ n.server.max_connections + 1)
      × (n.held.sockets ≡ length n.threads)
      × (n.held.thds ≡ length n.threads)
      × (n.held.vios ≡ length n.threads + sum lost_vio rs)
      × (n.held.buffers ≡ length n.threads + sum lost_buffer rs)
unfolding main network_init
main-Runs net l m n rs started ts =
    let (ready, fresh) = from_listener (network_init my_port net) l m started in
    let (run, count, threads, bound) =
      Turns-Counts m n rs ts
        (subst (λ k. IsCounted (world k)) (sym fresh) zero_machine-IsCounted) in
    let held = Turns-Holds 0 0 m n rs ts (
      subst (Holds 0 0) (sym fresh)
        (record { sockets = refl; thds = refl; vios = refl; buffers = refl; each = tt })) in
    (
      with_socket-Listens net net.socket l refl ready,
      count,
      bound,
      held.sockets,
      held.thds,
      omega (arith, held.vios),
      omega (arith, held.buffers),
    )
