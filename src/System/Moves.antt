-- ===== src/System/Moves.antt =====
-- What one connection's step leaves of the invariant of all.
use server_simple.Base.{
  ℕ, ◌+◌, ◌%◌, ◌^◌, ◌<◌, ◌≡◌, ◌⊎◌, inl, inr, refl, sym, ap, subst, ◌∙◌, Bool, true, false, not,
  ◌&&◌, ◌==◌, ==_iff, List, ◌∷◌, ◌++◌, arith,
}
use server_simple.Registry.{Registry, Call}
use server_simple.Registry.Valid.{IsValid, perform-IsValid}
use server_simple.Registry.Deadlock.{locked_blocks}
use server_simple.Session.{Thd, Shared, Env, finished, do_command}
use server_simple.Session.Effect.{Touches, Effect, do_command-Effect}
use server_simple.Connection.{keeps_on}
use server_simple.Connection.Rounds.{Goes, do_command-Goes}
use server_simple.System.{Phase, System}
use server_simple.System.Phases.{
  IsReady, IsDone, IsFine, EachFine, in_command, stuck_in, holds, bit, sum, commands, waiters,
  holders, sum-append, sum-middle, EachFine-split, EachFine-join, EachFine-later, bit_le,
}

-- The table is well formed, `thread_running` counts the commands that have counted up and not down,
-- LOCK_thread_count has one holder while it is held, those that wait do so for a mutex that is held, and
-- every connection is in a state to go on.
pub record IsConsistent (s : System) : Type 0 where
  pub valid : IsValid s.shared.registry
  pub running_count : s.shared.thread_running ≡ commands s.active % 2 ^ 32
  pub one_holder : holders s.active ≡ bit s.count_locked
  pub stuck : (waiters s.active ≡ 0) ⊎ (s.shared.registry.locked ≡ true)
  pub each : EachFine s.shared.thread_running s.active

pub Touches-IsValid : (reg out : Registry) → Touches reg out → IsValid reg → IsValid out
Touches-IsValid reg out (inl e) v = subst IsValid (sym e) v
Touches-IsValid reg out (inr (r, e)) v = subst IsValid (sym e) (perform-IsValid reg r v)

-- Nothing unlocks a held mutex.
pub Touches-locked : (reg out : Registry) → Touches reg out → reg.locked ≡ true → out.locked ≡ true
Touches-locked reg out (inl e) h = ap (λ (r : Registry). r.locked) e ∙ h
Touches-locked reg out (inr (r, e)) h =
    ap (λ (q : Registry). q.locked) (e ∙ ap (λ (p : Call × Registry). p.1) (locked_blocks reg r h))
    ∙ h

pub still_stuck :
    {m n : ℕ} (reg out : Registry)
    → Touches reg out
    → n ≡ m
    → (m ≡ 0) ⊎ (reg.locked ≡ true)
    → (n ≡ 0) ⊎ (out.locked ≡ true)
still_stuck reg out t e (inl z) = inl (e ∙ z)
still_stuck reg out t e (inr h) = inr (Touches-locked reg out t h)

pub first_holds : (a b : Bool) → (a && b) ≡ true → a ≡ true
first_holds true b h = refl
first_holds false b h = cc

pub no_error_yet : (thd : Thd) → keeps_on thd ≡ true → thd.net.error ≡ 0
no_error_yet thd h =
    (==_iff _ _).0 (first_holds (thd.net.error == 0) (thd.net.has_vio && not thd.killed) h)

pub Goes-Fine :
    (thd out : Thd) (shared after : Shared) (error : Bool)
    → Goes thd shared (finished error out after)
    → (after.thread_running ≡ shared.thread_running) × IsDone error out
Goes-Fine thd out shared after true same = (same, tt)
Goes-Fine thd out shared after false (same, clear, can, less) = (same, (clear, can))

-- A step that takes the phase `p` of one connection to those of `qs`.
module _ (s : System) (v : IsConsistent s) (xs ys : List Phase) (p : Phase)
    (split : s.active ≡ xs ++ (p ∷ ys)) where
  abbrev now : ℕ
  now = s.shared.thread_running

  parts : IsFine now p × EachFine now xs × EachFine now ys
  parts = EachFine-split now xs ys p (subst (EachFine now) split v.each)

  pub mine : IsFine now p
  mine = parts.0

  -- The others have not read `thread_running`, or it has not changed.
  others : (next : ℕ) → (next ≡ now) ⊎ (holds p ≡ 1) → EachFine next xs × EachFine next ys
  others next (inl same) =
      (subst (λ k. EachFine k xs) (sym same) parts.1, subst (λ k. EachFine k ys) (sym same) parts.2)
  others next (inr held) =
      let whole = ap holders split in
      let apart = sum-append holds xs (p ∷ ys) in
      let most = bit_le s.count_locked in
      (
        EachFine-later now next xs (omega (arith, whole, apart, held, most, v.one_holder)) parts.1,
        EachFine-later now next ys (omega (arith, whole, apart, held, most, v.one_holder)) parts.2,
      )

  pub moves :
      (shared : Shared) (lock : Bool) (qs : List Phase)
      → Touches s.shared.registry shared.registry
      → ((n : ℕ)
          → n + in_command p ≡ commands s.active + sum in_command qs
          → shared.thread_running ≡ n % 2 ^ 32)
      → bit s.count_locked + holders qs ≡ bit lock + holds p
      → (shared.thread_running ≡ now) ⊎ (holds p ≡ 1)
      → (sum stuck_in qs ≡ stuck_in p) ⊎ (shared.registry.locked ≡ true)
      → EachFine shared.thread_running qs
      → IsConsistent (record { shared = shared; count_locked = lock; active = xs ++ (qs ++ ys) })
  moves shared lock qs t count lock_moves change held fine =
      let (before, behind) = others shared.thread_running change in
      let waiting_now = sum-middle stuck_in s.active xs ys qs p split in
      let holding_now = sum-middle holds s.active xs ys qs p split in
      record {
        valid = Touches-IsValid s.shared.registry shared.registry t v.valid;
        running_count =
            count (commands (xs ++ (qs ++ ys))) (sum-middle in_command s.active xs ys qs p split);
        one_holder = omega (arith, holding_now, lock_moves, v.one_holder);
        stuck = elim held [
          | inl same ↦
              still_stuck s.shared.registry shared.registry t (omega (arith, waiting_now, same))
                v.stuck
          | inr locked ↦ inr locked
        ];
        each =
            EachFine-join shared.thread_running xs (qs ++ ys) before
              (EachFine-join shared.thread_running qs ys fine behind);
      }

module _ (s : System) (v : IsConsistent s) (thd : Thd) (env : Env) where
  pub small : s.shared.thread_running < 2 ^ 32
  small = omega (arith, v.running_count)

  -- What a command does, the read of its packet included.
  pub does :
      (out : Thd) (error : Bool) (after : Shared)
      → IsReady thd
      → thd.net.error ≡ 0
      → do_command env thd s.shared ≡ finished error out after
      → Touches s.shared.registry after.registry
        × (after.thread_running ≡ s.shared.thread_running)
        × IsDone error out
  does out error after ready fresh e =
      let (same, fine) = Goes-Fine thd out s.shared after error (
        subst (Goes thd s.shared) e
          (do_command-Goes env thd s.shared ready.0 ready.1 fresh small)) in
      (subst (Effect s.shared) e (do_command-Effect env thd s.shared), same, fine)
