-- ===== src/System/Invariant.antt =====
-- What holds of all connections at once.
use server_simple.Base.{
  ◌≡◌, inl, inr, refl, ap, subst, Bool, true, false, List, [], ◌∷◌, ◌++◌, arith,
}
use server_simple.Registry.{stop, perform}
use server_simple.Registry.Valid.{perform-IsValid}
use server_simple.Session.Effect.{Effect, do_command-Effect}
use server_simple.System.{
  Phase, idle, running, waiting, ending, System, settle, Step, Steps, arrives, leaves, no_packet,
  counting, uncounting, counts, uncounts, begins, acts, waits, ends, alarm_ends, done, later,
}
use server_simple.System.Phases.{
  in_command, stuck_in, holds, bit, holders, sum-append, bit_le, settle-Fine, sum-settle,
}
use server_simple.System.Moves.{
  IsConsistent, Touches-locked, still_stuck, no_error_yet, mine, moves, does,
}

unlocked : (b : Bool) → b ≡ false → bit b ≡ 0
unlocked b e = ap bit e

-- Who holds the lock is the holder.
held_bit :
    (s : System) (xs ys : List Phase) (p : Phase)
    → IsConsistent s
    → s.active ≡ xs ++ (p ∷ ys)
    → holds p ≡ 1
    → bit s.count_locked ≡ 1
held_bit s xs ys p v split held = omega (
  arith,
  ap holders split,
  sum-append holds xs (p ∷ ys),
  v.one_holder,
  bit_le s.count_locked,
  held,
)

Step-IsConsistent : (s t : System) → Step s t → IsConsistent s → IsConsistent t
Step-IsConsistent s t (arrives thd clear can) v = record {
  valid = v.valid;
  running_count = omega (arith, v.running_count);
  one_holder = omega (arith, v.one_holder);
  stuck = elim v.stuck [ inl e ↦ inl (omega (arith, e)) | inr held ↦ inr held ];
  each = ((clear, can), v.each);
}
Step-IsConsistent s t (leaves xs ys thd split off) v =
    moves s v xs ys (idle thd) split s.shared s.count_locked [] (inl refl)
      (λ n k. omega (arith, v.running_count, k)) (omega arith) (inl refl) (inl refl) tt
Step-IsConsistent s t (no_packet xs ys thd out env error after split on none_heard e) v =
    let (touches, same, fine) =
      does s v thd env out error after (mine s v xs ys (idle thd) split) (no_error_yet thd on) e in
    moves s v xs ys (idle thd) split after s.count_locked (settle error out) touches
      (λ n k. omega (arith, same, v.running_count, k, sum-settle in_command error out (λ i. refl)))
      (omega (arith, sum-settle holds error out (λ i. refl))) (inl same)
      (inl (sum-settle stuck_in error out (λ i. refl)))
      (settle-Fine after.thread_running error out fine)
Step-IsConsistent s t (begins xs ys thd env split on some_heard free) v =
    let ready = mine s v xs ys (idle thd) split in
    moves s v xs ys (idle thd) split s.shared true (counting env thd s.shared.thread_running ∷ [])
      (inl refl) (λ n k. omega (arith, v.running_count, k))
      (omega (arith, unlocked s.count_locked free)) (inl refl) (inl refl)
      ((ready, no_error_yet thd on, refl), tt)
Step-IsConsistent s t (counts xs ys thd env read split) v =
    let p = counting env thd read in
    let (ready, fresh, same) = mine s v xs ys p split in
    moves s v xs ys p split t.shared false (running env thd ∷ []) (inl refl)
      (λ n k. omega (arith, v.running_count, k, same))
      (omega (arith, held_bit s xs ys p v split refl)) (inr refl) (inl refl) ((ready, fresh), tt)
Step-IsConsistent s t (acts xs ys thd out env error after split e) v =
    let (ready, fresh) = mine s v xs ys (running env thd) split in
    let (touches, same, fine) = does s v thd env out error after ready fresh e in
    moves s v xs ys (running env thd) split t.shared s.count_locked (ending error out ∷ []) touches
      (λ n k. omega (arith, v.running_count, k)) (omega arith) (inl refl) (inl refl) (fine, tt)
Step-IsConsistent s t (waits xs ys thd env after split e) v =
    let (touches, held, count) = subst (Effect s.shared) e (do_command-Effect env thd s.shared) in
    moves s v xs ys (running env thd) split t.shared s.count_locked (waiting ∷ []) touches
      (λ n k. omega (arith, v.running_count, k)) (omega arith) (inl refl)
      (inr (Touches-locked s.shared.registry after.registry touches held)) (tt, tt)
Step-IsConsistent s t (ends xs ys out error split free) v =
    moves s v xs ys (ending error out) split s.shared true
      (uncounting error out s.shared.thread_running ∷ []) (inl refl)
      (λ n k. omega (arith, v.running_count, k)) (omega (arith, unlocked s.count_locked free))
      (inl refl) (inl refl) ((mine s v xs ys (ending error out) split, refl), tt)
Step-IsConsistent s t (uncounts xs ys out error read split) v =
    let p = uncounting error out read in
    let (fine, same) = mine s v xs ys p split in
    moves s v xs ys p split t.shared false (settle error out) (inl refl)
      (λ n k. omega (arith, v.running_count, k, same, sum-settle in_command error out (λ i. refl)))
      (omega (arith, held_bit s xs ys p v split refl, sum-settle holds error out (λ i. refl)))
      (inr refl) (inl (sum-settle stuck_in error out (λ i. refl)))
      (settle-Fine t.shared.thread_running error out fine)
Step-IsConsistent s t (alarm_ends id) v =
    let r = s.shared.registry in
    record {
      valid = perform-IsValid r (stop id) v.valid;
      running_count = v.running_count;
      one_holder = v.one_holder;
      stuck = still_stuck r (perform r (stop id)).1 (inr (stop id, refl)) refl v.stuck;
      each = v.each;
    }

-- Whatever arrives on the connections, and however the critical sections of their commands interleave
-- and threads of notifications end: the table of notifications stays well formed; `thread_running` is,
-- modulo 2^32, the number of the commands that have counted up and not down, those that wait for
-- LOCK_SetupNoti included, which is held as soon as one waits; LOCK_thread_count has one holder while it
-- is held, and none else; and every connection between two commands is in a state to take the next.
pub Steps-IsConsistent : (s t : System) → Steps s t → IsConsistent s → IsConsistent t
Steps-IsConsistent s t done v = v
Steps-IsConsistent s t (later {s = r} x rest) v =
    Steps-IsConsistent r t rest (Step-IsConsistent s r x v)
