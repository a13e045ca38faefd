-- ===== src/Client/Threads/Reports.antt =====
-- When the test client reports that its threads have finished.
use server_simple.Base.{
  ℕ, ◌+◌, ◌-◌, ◌≤◌, ◌<◌, ◌≡◌, refl, ap, subst, ◌∙◌, ◌⊎◌, inl, inr, arith, Bool, Bool-cases, List,
  [], ◌∷◌, ◌++◌, length, length-append, leb, leb→le, leb→lt, if◌then◌else◌,
}
use server_simple.Client.Threads.{
  alarms, counted, ended, Thread, Clients, before_loop, create, count_up, finish, Steps, creates,
  counts, finishes, done, later,
}
use server_simple.Client.Threads.Count.{
  calls, works, calling, working, sum-append, sum-middle, length-middle, calling-working, AreFrom,
  AreFrom-append, AreFrom-middle,
}

record IsFine (clients : ℕ) (c : Clients) : Type 0 where
  within : c.next ≤ clients + 1
  outside : c.outside ≡ c.next - clients
  all : c.next ≡ length c.threads + 1
  own : AreFrom 1 c.threads
  counted_once : c.thread_count + calling c.threads ≡ length c.threads
  reported_once : c.reports + working c.threads ≤ length c.threads
  early : (c.reports ≡ 0) ⊎ (clients ≤ c.thread_count)
  last : 0 < working c.threads + c.reports + (clients + 1 - c.next)

before_loop-IsFine : (clients : ℕ) → 0 < clients → IsFine clients before_loop
before_loop-IsFine clients h = record {
  within = omega arith;
  outside = omega arith;
  all = refl;
  own = tt;
  counted_once = refl;
  reported_once = omega arith;
  early = inl refl;
  last = omega arith;
}

create-IsFine :
    (clients : ℕ) (c : Clients)
    → c.next ≤ clients
    → IsFine clients c
    → IsFine clients (create clients c)
unfolding create
create-IsFine clients c h s =
    let t : Thread = record { index = c.next; phase = alarms } in
    let longer = length-append c.threads (t ∷ []) in
    let more = sum-append calls c.threads (t ∷ []) in
    let busy = sum-append works c.threads (t ∷ []) in
    record {
      within = omega arith;
      outside = elim (Bool-cases (leb clients c.next)) [
        | inl b ↦
            ap (λ k. if k then c.outside + 1 else c.outside) b
            ∙ omega (arith, leb→le clients c.next b, s.outside)
        | inr b ↦
            ap (λ k. if k then c.outside + 1 else c.outside) b
            ∙ omega (arith, leb→lt clients c.next b, s.outside)
      ];
      all = omega (arith, s.all, longer);
      own = AreFrom-append 1 c.threads t s.own (omega (arith, s.all));
      counted_once = omega (arith, s.counted_once, longer, more);
      reported_once = omega (arith, s.reported_once, longer, busy);
      early = s.early;
      last = omega (arith, busy);
    }

count_up-IsFine :
    (clients : ℕ) (c : Clients) (xs ys : List Thread) (t : Thread)
    → c.threads ≡ xs ++ (t ∷ ys)
    → t.phase ≡ alarms
    → IsFine clients c
    → IsFine clients (count_up xs t ys c)
unfolding count_up
count_up-IsFine clients c xs ys t e h s =
    let u : Thread = record t { phase = counted } in
    let same = length-middle c xs ys t u e in
    let less = sum-middle calls c xs ys t alarms counted e h in
    let busy = sum-middle works c xs ys t alarms counted e h in
    record {
      within = s.within;
      outside = s.outside;
      all = omega (arith, s.all, same);
      own = AreFrom-middle 1 xs ys t u refl (subst (AreFrom 1) e s.own);
      counted_once = omega (arith, s.counted_once, same, less);
      reported_once = omega (arith, s.reported_once, same, busy);
      early = elim s.early [ inl e ↦ inl e | inr l ↦ inr (omega (arith, l)) ];
      last = omega (arith, s.last, busy);
    }

finish-IsFine :
    (clients : ℕ) (c : Clients) (xs ys : List Thread) (t : Thread)
    → c.threads ≡ xs ++ (t ∷ ys)
    → t.phase ≡ counted
    → IsFine clients c
    → IsFine clients (finish clients xs t ys c)
unfolding finish
finish-IsFine clients c xs ys t e h s =
    let u : Thread = record t { phase = ended } in
    let same = length-middle c xs ys t u e in
    let less = sum-middle calls c xs ys t counted ended e h in
    let busy = sum-middle works c xs ys t counted ended e h in
    let call = calling-working (xs ++ (u ∷ ys)) in
    let test = Bool-cases (leb clients c.thread_count) in
    let reports = λ (b : Bool). if b then c.reports + 1 else c.reports in
    record {
      within = s.within;
      outside = s.outside;
      all = omega (arith, s.all, same);
      own = AreFrom-middle 1 xs ys t u refl (subst (AreFrom 1) e s.own);
      counted_once = omega (arith, s.counted_once, same, less);
      reported_once = elim test [
        | inl b ↦ omega (arith, ap reports b, s.reported_once, same, busy)
        | inr b ↦ omega (arith, ap reports b, s.reported_once, same, busy)
      ];
      early = elim test [
        | inl b ↦ inr (leb→le clients c.thread_count b)
        | inr b ↦ elim s.early [ inl e ↦ inl (ap reports b ∙ e) | inr l ↦ inr l ]
      ];
      last = elim test [
        | inl b ↦ omega (arith, ap reports b)
        | inr b ↦ omega (
          arith,
          ap reports b,
          leb→lt clients c.thread_count b,
          s.counted_once,
          s.all,
          s.within,
          less,
          call,
        )
      ];
    }

Steps-IsFine :
    (clients : ℕ) (c d : Clients) → Steps clients c d → IsFine clients c → IsFine clients d
Steps-IsFine clients c d done s = s
Steps-IsFine clients c e (later {d = d} (creates h) rest) s =
    Steps-IsFine clients d e rest (create-IsFine clients c h s)
Steps-IsFine clients c e (later {d = d} (counts xs ys t h p) rest) s =
    Steps-IsFine clients d e rest (count_up-IsFine clients c xs ys t h p s)
Steps-IsFine clients c e (later {d = d} (finishes xs ys t h p) rest) s =
    Steps-IsFine clients d e rest (finish-IsFine clients c xs ys t h p s)

next_cases : (clients : ℕ) (c : Clients) → (c.next ≤ clients) ⊎ (clients < c.next)
next_cases clients c = elim (Bool-cases (leb c.next clients)) [
  | inl b ↦ inl (leb→le c.next clients b)
  | inr b ↦ inr (leb→lt c.next clients b)
]

-- The loop of `main` has ended.
abbrev pub IsStarted : ℕ → Clients → Type 0
IsStarted clients c = clients < c.next

-- All clients are there, and each has been through `StartAlarm` and counted.
abbrev pub AllCounted : ℕ → Clients → Type 0
AllCounted clients c =
    (length c.threads ≡ clients) × (c.thread_count ≡ clients) × (calling c.threads ≡ 0)

-- With at least one client, and in whatever order `main` and the threads go on: the threads have the
-- indexes 1, 2, 3 and so on, at most one of each client; the log has its line at most once for every
-- thread that has ended, and not before all clients have been through StartAlarm and counted; once
-- `main` has started all and they have ended, the log has it at least once. `main` has then written one
-- cell behind the end of `indexCount`, and before that none.
pub Steps-Reports :
    (clients : ℕ) (c : Clients)
    → 0 < clients
    → Steps clients before_loop c
    → AreFrom 1 c.threads
      × (length c.threads ≤ clients)
      × (c.reports + working c.threads ≤ length c.threads)
      × ((c.reports ≡ 0) ⊎ AllCounted clients c)
      × ((c.next ≤ clients) ⊎ (0 < working c.threads + c.reports))
      × (((c.next ≤ clients) × (c.outside ≡ 0)) ⊎ (IsStarted clients c × (c.outside ≡ 1)))
Steps-Reports clients c h run =
    let s = Steps-IsFine clients before_loop c run (before_loop-IsFine clients h) in
    let stage = next_cases clients c in
    (
      s.own,
      omega (arith, s.all, s.within),
      s.reported_once,
      elim s.early [
        | inl e ↦ inl e
        | inr l ↦
            let all = s.all in
            let once = s.counted_once in
            let most = s.within in inr (omega arith, omega arith, omega arith)
      ],
      elim stage [ inl l ↦ inl l | inr g ↦ inr (omega (arith, s.last)) ],
      elim stage [
        | inl l ↦ inl (l, omega (arith, s.outside))
        | inr g ↦ inr (g, omega (arith, s.outside, s.within))
      ],
    )
