-- ===== src/Server/Counts.antt =====
-- The counters against the threads that there are.
use server_simple.Base.{
  ℕ, suc, ◌+◌, ◌-◌, ◌%◌, ◌^◌, ◌≤◌, ◌<◌, ◌≡◌, refl, ap, ◌∙◌, Bool, true, false, ◌||◌, if-cases, List,
  [], ◌∷◌, ◌++◌, ltb, leb, leb→lt, ltb→le, arith,
}
use server_simple.Server.{
  Server, up, down, let_in, launch, uncount, unlink, Phase, admitted, running, failed, leaving,
  World, Step, rejects, admits, launches, fails, gives_up, leaves, ends, Steps, done, later,
}

-- Whether a connection in this phase is counted as a connection, and as a thread.
abbrev pub connects : Phase → ℕ
connects admitted = 1
connects running = 1
connects failed = 1
connects leaving = 0

abbrev pub threads_of : Phase → ℕ
threads_of admitted = 0
threads_of running = 1
threads_of failed = 0
threads_of leaving = 1

abbrev pub total : (Phase → ℕ) → List Phase → ℕ
total f [] = 0
total f (p ∷ ps) = f p + total f ps

total-append : (f : Phase → ℕ) (xs ys : List Phase) → total f (xs ++ ys) ≡ total f xs + total f ys
total-append f [] ys = omega arith
total-append f (p ∷ xs) ys = omega (arith, total-append f xs ys)

-- The two counters count, the first stays within one more than `max_connections`, and so does
-- the greatest value that it had. `thread_count` may be above it.
pub record IsCounted (w : World) : Type 0 where
  pub connections : w.server.connection_count ≡ total connects w.threads
  pub threads : w.server.thread_count ≡ total threads_of w.threads % 2 ^ 32
  pub limit : w.server.max_connections + 1 < 2 ^ 32
  pub bounded : w.server.connection_count ≤ w.server.max_connections + 1
  pub used : w.server.connection_count ≤ w.server.max_used_connections
  pub used_bounded : w.server.max_used_connections ≤ w.server.max_connections + 1

neither : (a b : Bool) → (a || b) ≡ false → (a ≡ false) × (b ≡ false)
neither true b e = cc
neither false b e = (refl, e)

admits-IsCounted :
    (w : World)
    → IsCounted w
    → (let_in w.server).0 ≡ true
    → IsCounted (record { server = (let_in w.server).1; threads = admitted ∷ w.threads })
unfolding let_in
admits-IsCounted w c e =
    let s = w.server in
    let count = up s.connection_count in
    if-cases
      (λ (r : Bool × Server).
        r.0 ≡ true → IsCounted (record { server = r.1; threads = admitted ∷ w.threads }))
      (leb ((s.max_connections + 1) % 2 ^ 64) s.connection_count || s.abort_loop) (λ h x. cc)
      (λ h x.
        let (below, kept) =
          neither (leb ((s.max_connections + 1) % 2 ^ 64) s.connection_count) s.abort_loop h in
        let room : s.connection_count < s.max_connections + 1 =
          omega (arith, leb→lt _ _ below, c.limit) in
        let (high, high_bounded) =
          if-cases (λ m. (count ≤ m) × (m ≤ s.max_connections + 1))
            (ltb s.max_used_connections count) (λ more. (omega arith, omega (arith, room, c.limit)))
            (λ less. (ltb→le _ _ less, c.used_bounded)) in
        record {
          connections = omega (arith, c.connections, room, c.limit);
          threads = omega (arith, c.threads);
          limit = c.limit;
          bounded = omega (arith, room, c.limit);
          used = high;
          used_bounded = high_bounded;
        })
      e

-- A counter that goes down with what it counts.
down_lem : (n : ℕ) → 0 < n → down (n % 2 ^ 32) ≡ (n - 1) % 2 ^ 32
down_lem n h = omega arith

-- One connection fewer.
uncount-IsCounted :
    (w : World) (threads : List Phase)
    → IsCounted w
    → total connects w.threads ≡ suc (total connects threads)
    → total threads_of w.threads ≡ total threads_of threads
    → IsCounted (record { server = uncount w.server; threads = threads })
unfolding uncount
uncount-IsCounted w threads c fewer same =
    let less : down w.server.connection_count ≡ total connects threads =
      omega (arith, c.connections, fewer, c.bounded, c.limit) in
    record {
      connections = less;
      threads = omega (arith, c.threads, same);
      limit = c.limit;
      bounded = omega (arith, less, fewer, c.connections, c.bounded);
      used = omega (arith, less, fewer, c.connections, c.used);
      used_bounded = c.used_bounded;
    }

Step-IsCounted : (v w : World) → Step v w → IsCounted v → IsCounted w
unfolding launch uncount unlink
Step-IsCounted v w (rejects e) c = c
Step-IsCounted v w (admits e) c = admits-IsCounted v c e
Step-IsCounted v w (launches xs ys e) c = record {
  connections =
      c.connections
      ∙ omega (
        arith,
        ap (total connects) e,
        total-append connects xs (admitted ∷ ys),
        total-append connects xs (running ∷ ys),
      );
  threads = omega (
    arith,
    c.threads,
    ap (total threads_of) e,
    total-append threads_of xs (admitted ∷ ys),
    total-append threads_of xs (running ∷ ys),
  );
  limit = c.limit;
  bounded = c.bounded;
  used = c.used;
  used_bounded = c.used_bounded;
}
Step-IsCounted v w (fails xs ys e) c = record {
  connections = omega (
    arith,
    c.connections,
    ap (total connects) e,
    total-append connects xs (admitted ∷ ys),
    total-append connects xs (failed ∷ ys),
  );
  threads = omega (
    arith,
    c.threads,
    ap (total threads_of) e,
    total-append threads_of xs (admitted ∷ ys),
    total-append threads_of xs (failed ∷ ys),
  );
  limit = c.limit;
  bounded = c.bounded;
  used = c.used;
  used_bounded = c.used_bounded;
}
Step-IsCounted v w (gives_up xs ys e) c =
    uncount-IsCounted v (xs ++ ys) c
      (omega (
        arith,
        ap (total connects) e,
        total-append connects xs (failed ∷ ys),
        total-append connects xs ys,
      ))
      (omega (
        arith,
        ap (total threads_of) e,
        total-append threads_of xs (failed ∷ ys),
        total-append threads_of xs ys,
      ))
Step-IsCounted v w (leaves xs ys e) c =
    uncount-IsCounted v (xs ++ (leaving ∷ ys)) c
      (omega (
        arith,
        ap (total connects) e,
        total-append connects xs (running ∷ ys),
        total-append connects xs (leaving ∷ ys),
      ))
      (omega (
        arith,
        ap (total threads_of) e,
        total-append threads_of xs (running ∷ ys),
        total-append threads_of xs (leaving ∷ ys),
      ))
Step-IsCounted v w (ends xs ys e) c =
    let fewer : total threads_of v.threads ≡ suc (total threads_of (xs ++ ys)) = omega (
      arith,
      ap (total threads_of) e,
      total-append threads_of xs (leaving ∷ ys),
      total-append threads_of xs ys,
    ) in
    record {
      connections = omega (
        arith,
        c.connections,
        ap (total connects) e,
        total-append connects xs (leaving ∷ ys),
        total-append connects xs ys,
      );
      threads =
          ap down c.threads
          ∙ down_lem (total threads_of v.threads) (omega (arith, fewer))
          ∙ ap (λ n. n % 2 ^ 32) {y = total threads_of (xs ++ ys)} (omega (arith, fewer));
      limit = c.limit;
      bounded = c.bounded;
      used = c.used;
      used_bounded = c.used_bounded;
    }

-- However the critical sections of the threads interleave, the counters count the connections and
-- the threads that there are, and at most `max_connections + 1` connections are let in at a time.
pub Steps-IsCounted : (v w : World) → Steps v w → IsCounted v → IsCounted w
Steps-IsCounted v w done c = c
Steps-IsCounted v w (later {v = u} s rest) c = Steps-IsCounted u w rest (Step-IsCounted v u s c)
