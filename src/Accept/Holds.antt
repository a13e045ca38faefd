-- ===== src/Accept/Holds.antt =====
-- What one connection takes and gives back, up to its thread.
use server_simple.Base.{
  ℕ, ◌+◌, ◌≡◌, refl, ap, ◌∙◌, arith, Bool, true, false, Option, List, [], ◌∷◌, length, if-cases,
}
use server_simple.Socket.{Socket}
use server_simple.Vio.{Vio, VioType, vio_new, vio_init, vio_timeout, vio_fastsend, is_closed}
use server_simple.Net.{
  zero_net, net_init, net_local_init, net_set_read_timeout, net_set_write_timeout,
}
use server_simple.Session.{Thd}
use server_simple.Server.{let_in}
use server_simple.Accept.{
  Machine, Answers, Round, with_thd, with_vio, create_new_thread, start_thread, zero_thd, no_buffer,
  refused, no_thread,
}

abbrev pub HasDescriptor : Thd → Type 0
HasDescriptor thd = is_closed thd.net.vio.type ≡ false

abbrev pub EachOpen : List Thd → Type 0
EachOpen [] = Unit
EachOpen (thd ∷ thds) = HasDescriptor thd × EachOpen thds

-- What a turn that ends this way never gives back.
abbrev pub lost_vio : Round → ℕ
lost_vio no_buffer = 1
lost_vio refused = 1
lost_vio no_thread = 1
lost_vio _ = 0

abbrev pub lost_buffer : Round → ℕ
lost_buffer refused = 1
lost_buffer no_thread = 1
lost_buffer _ = 0

abbrev pub sum : (Round → ℕ) → List Round → ℕ
sum f [] = 0
sum f (r ∷ rs) = f r + sum f rs

-- Descriptors and THDs are those of the threads; of Vios and buffers there are `v` and `b` more.
pub record Holds (v b : ℕ) (m : Machine) : Type 0 where
  pub sockets : m.held.sockets ≡ length m.threads
  pub thds : m.held.thds ≡ length m.threads
  pub vios : m.held.vios ≡ length m.threads + v
  pub buffers : m.held.buffers ≡ length m.threads + b
  pub each : EachOpen m.threads

-- A machine that holds, for one connection more than its threads, everything.
record Extra (v b : ℕ) (m : Machine) : Type 0 where
  sockets : m.held.sockets ≡ length m.threads + 1
  thds : m.held.thds ≡ length m.threads + 1
  vios : m.held.vios ≡ length m.threads + v + 1
  buffers : m.held.buffers ≡ length m.threads + b + 1
  each : EachOpen m.threads

abbrev pub After : ℕ → ℕ → Round × Machine → Type 0
After v b (r, m) = Holds (v + lost_vio r) (b + lost_buffer r) m

create_new_thread-After :
    (v b : ℕ) (m : Machine) (thd : Thd) (created : Bool)
    → Extra v b m
    → HasDescriptor thd
    → thd.net.has_vio ≡ true
    → After v b (create_new_thread m thd created)
unfolding create_new_thread start_thread
create_new_thread-After v b m thd created x at has =
    if-cases (After v b) (let_in m.server).0
      (λ h.
        if-cases (After v b) created
          (λ c. record {
            sockets = omega (arith, x.sockets);
            thds = omega (arith, x.thds);
            vios = omega (arith, x.vios);
            buffers = omega (arith, x.buffers);
            each = (at, x.each);
          })
          (λ c.
            rw (has, at)
              (record {
                sockets = omega (arith, x.sockets);
                thds = omega (arith, x.thds);
                vios = omega (arith, x.vios);
                buffers = omega (arith, x.buffers);
                each = x.each;
              })))
      (λ h.
        rw (has, at)
          (record {
            sockets = omega (arith, x.sockets);
            thds = omega (arith, x.thds);
            vios = omega (arith, x.vios);
            buffers = omega (arith, x.buffers);
            each = x.each;
          }))

-- A machine that holds a descriptor and a THD for one connection more than its threads.
pub record Half (v b : ℕ) (m : Machine) : Type 0 where
  pub sockets : m.held.sockets ≡ length m.threads + 1
  pub thds : m.held.thds ≡ length m.threads + 1
  pub vios : m.held.vios ≡ length m.threads + v
  pub buffers : m.held.buffers ≡ length m.threads + b
  pub each : EachOpen m.threads

net_init_type :
    (allocated : Bool) (vio : Vio) → (net_init allocated zero_net vio).1.vio.type ≡ vio.type
unfolding net_init net_local_init net_set_read_timeout net_set_write_timeout zero_net vio_timeout
    vio_fastsend
net_init_type true vio = refl
net_init_type false vio = refl

net_init_has : (allocated : Bool) (vio : Vio) → (net_init allocated zero_net vio).1.has_vio ≡ true
unfolding net_init net_local_init net_set_read_timeout net_set_write_timeout zero_net
net_init_has true vio = refl
net_init_has false vio = refl

with_vio-After :
    (v b : ℕ) (m : Machine) (a : Answers) (vio : Vio)
    → Half v b m
    → is_closed vio.type ≡ false
    → After v b (with_vio m a vio)
unfolding with_vio
with_vio-After v b m a vio x at =
    let has = net_init_has a.buffer_allocated vio in
    if-cases (After v b) (net_init a.buffer_allocated zero_net vio).0
      (λ h. rw has (record {
        sockets = omega (arith, x.sockets);
        thds = omega (arith, x.thds);
        vios = omega (arith, x.vios);
        buffers = omega (arith, x.buffers);
        each = x.each;
      }))
      (λ h.
        create_new_thread-After v b _
          (record zero_thd { net = (net_init a.buffer_allocated zero_net vio).1 }) a.created
          (record {
            sockets = x.sockets;
            thds = x.thds;
            vios = omega (arith, x.vios);
            buffers = omega (arith, x.buffers);
            each = x.each;
          })
          (ap is_closed (net_init_type a.buffer_allocated vio) ∙ at) has)

pub with_thd-After :
    (v b : ℕ) (m : Machine) (a : Answers) (sd : ℕ) (kernel : Socket)
    → Half v b m
    → After v b (with_thd m a (vio_new a.vio_allocated sd VioType.socket true kernel))
unfolding with_thd vio_new vio_init
with_thd-After v b m a sd kernel x =
    if-cases (λ (vio_tmp : Option Vio). After v b (with_thd m a vio_tmp)) a.vio_allocated
      (λ e. with_vio-After v b m a _ x refl)
      (λ e. record {
        sockets = omega (arith, x.sockets);
        thds = omega (arith, x.thds);
        vios = omega (arith, x.vios);
        buffers = omega (arith, x.buffers);
        each = x.each;
      })
