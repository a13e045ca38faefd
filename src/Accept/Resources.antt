-- ===== src/Accept/Resources.antt =====
-- What the accept loop and the threads hold.
use server_simple.Base.{
  ℕ, ◌+◌, ◌-◌, ◌≡◌, refl, ap, ◌∙◌, subst, arith, true, not, Bool-cases, inl, inr, Option, none,
  some, List, [], ◌∷◌, ◌++◌, length, length-append, if-cases,
}
use server_simple.Socket.{Socket}
use server_simple.Vio.{is_closed}
use server_simple.Session.{Thd}
use server_simple.Accept.{
  Held, Machine, Answers, Round, Turn, Turns, accepts, ends, stay, turn, accept_round, with_socket,
  accept_retry, max_accept_retry, end_held,
}
use server_simple.Accept.Holds.{
  HasDescriptor, EachOpen, lost_vio, lost_buffer, sum, Holds, After, with_thd-After,
}

-- Nothing is held that was not before.
still : (v b : ℕ) (m : Machine) → Holds v b m → Holds (v + 0) (b + 0) m
still v b m x = record {
  sockets = x.sockets;
  thds = x.thds;
  vios = omega (arith, x.vios);
  buffers = omega (arith, x.buffers);
  each = x.each;
}

with_socket-After :
    (v b : ℕ) (m : Machine) (a : Answers) (new_sock : Option (ℕ × Socket))
    → Holds v b m
    → After v b (with_socket m a new_sock)
unfolding with_socket
with_socket-After v b m a none x = still v b _ (record {
  sockets = x.sockets;
  thds = x.thds;
  vios = x.vios;
  buffers = x.buffers;
  each = x.each;
})
with_socket-After v b m a (some (sd, kernel)) x =
    let closed =
      still v b (record m { held = record (m.held) { sockets = m.held.sockets + 1 - 1 } })
        (record {
          sockets = omega (arith, x.sockets);
          thds = x.thds;
          vios = x.vios;
          buffers = x.buffers;
          each = x.each;
        }) in
    if-cases (After v b) (not a.named) (λ e. closed)
      (λ e.
        if-cases (After v b) a.thd_allocated
          (λ e'. with_thd-After v b _ a sd kernel (record {
            sockets = omega (arith, x.sockets);
            thds = omega (arith, x.thds);
            vios = x.vios;
            buffers = x.buffers;
            each = x.each;
          }))
          (λ e'. closed))

accept_round-After :
    (v b : ℕ) (m : Machine) (a : Answers) → Holds v b m → After v b (accept_round m a)
unfolding accept_round
accept_round-After v b m a x =
    if-cases (After v b) (not a.selected) (λ e. still v b m x)
      (λ e.
        if-cases (After v b) m.server.abort_loop (λ e'. still v b m x)
          (λ e'. with_socket-After v b m a (accept_retry a.accept max_accept_retry 0) x))

each_left :
    (xs ys : List Thd) (thd : Thd)
    → EachOpen (xs ++ (thd ∷ ys))
    → HasDescriptor thd × EachOpen (xs ++ ys)
each_left [] ys thd e = e
each_left (x ∷ xs) ys thd (at, e) = let (mine, rest) = each_left xs ys thd e in (mine, (at, rest))

length-middle : (xs ys : List Thd) (thd : Thd) → length (xs ++ (thd ∷ ys)) ≡ length (xs ++ ys) + 1
length-middle xs ys thd = omega (arith, length-append xs (thd ∷ ys), length-append xs ys)

-- The descriptor goes either before `cleanup` or in it.
end_held-Closes :
    (h : Held) (thd thd' : Thd)
    → HasDescriptor thd
    → thd'.net.has_vio ≡ true
    → end_held h thd thd' ≡ record {
      sockets = h.sockets - 1;
      thds = h.thds - 1;
      vios = h.vios - 1;
      buffers = h.buffers - 1;
    }
unfolding end_held
end_held-Closes h thd thd' at has = elim (Bool-cases (is_closed thd'.net.vio.type)) [
  | inl e ↦ rw (has, at, e) refl
  | inr e ↦ rw (has, at, e) refl
]

Turn-After : (v b : ℕ) (m n : Machine) (r : Round) → Turn m n r → Holds v b m → After v b (r, n)
Turn-After v b m n r (accepts a) x = accept_round-After v b m a x
Turn-After v b m n r (ends xs ys thd thd' env before after e run has) x =
    let (at, each) = each_left xs ys thd (subst EachOpen e x.each) in
    let size : length m.threads ≡ length (xs ++ ys) + 1 = ap length e ∙ length-middle xs ys thd in
    let h = end_held-Closes m.held thd thd' at has in
    record {
      sockets = ap (λ (k : Held). k.sockets) h ∙ omega (arith, x.sockets, size);
      thds = ap (λ (k : Held). k.thds) h ∙ omega (arith, x.thds, size);
      vios = ap (λ (k : Held). k.vios) h ∙ omega (arith, x.vios, size);
      buffers = ap (λ (k : Held). k.buffers) h ∙ omega (arith, x.buffers, size);
      each = each;
    }

-- Whatever the system answers to the accept loop, and in whatever order threads end, the open
-- descriptors and the THDs are those of the threads that there are. The Vios and buffers are too, but
-- for those that rejected connections and failures of `pthread_create` leave behind, one Vio and one
-- buffer each, and those of `netInit`, one Vio each.
pub Turns-Holds :
    (v b : ℕ) (m n : Machine) (rs : List Round)
    → Turns m n rs
    → Holds v b m
    → Holds (v + sum lost_vio rs) (b + sum lost_buffer rs) n
Turns-Holds v b m n rs stay x = still v b m x
Turns-Holds v b m n rs (turn {m = l} {r = r} {rs = more} t ts) x =
    let y =
      Turns-Holds (v + lost_vio r) (b + lost_buffer r) l n more ts (Turn-After v b m l r t x) in
    record {
      sockets = y.sockets;
      thds = y.thds;
      vios = omega (arith, y.vios);
      buffers = omega (arith, y.buffers);
      each = y.each;
    }
