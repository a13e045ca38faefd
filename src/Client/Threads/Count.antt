-- ===== src/Client/Threads/Count.antt =====
-- The threads of the test client by their phases and indexes.
use server_simple.Base.{
  ℕ, suc, ◌+◌, ◌≤◌, ◌≡◌, sym, ◌∙◌, ap, arith, List, [], ◌∷◌, ◌++◌, length, length-append,
}
use server_simple.Client.Threads.{Phase, alarms, counted, ended, Thread, Clients}

abbrev pub sum : (Phase → ℕ) → List Thread → ℕ
sum f [] = 0
sum f (t ∷ ts) = f t.phase + sum f ts

abbrev pub calls : Phase → ℕ
calls alarms = 1
calls counted = 0
calls ended = 0

abbrev pub works : Phase → ℕ
works alarms = 1
works counted = 1
works ended = 0

-- The threads that have not counted, and those that have not ended.
abbrev pub calling : List Thread → ℕ
calling ts = sum calls ts

abbrev pub working : List Thread → ℕ
working ts = sum works ts

-- The indexes count up from the first.
abbrev pub AreFrom : ℕ → List Thread → Type 0
AreFrom i [] = Unit
AreFrom i (t ∷ ts) = (t.index ≡ i) × AreFrom (suc i) ts

pub sum-append : (f : Phase → ℕ) (xs ys : List Thread) → sum f (xs ++ ys) ≡ sum f xs + sum f ys
sum-append f [] ys = omega arith
sum-append f (x ∷ xs) ys = omega (arith, sum-append f xs ys)

calls_le_works : (p : Phase) → calls p ≤ works p
calls_le_works alarms = omega arith
calls_le_works counted = omega arith
calls_le_works ended = omega arith

pub calling-working : (ts : List Thread) → calling ts ≤ working ts
calling-working [] = omega arith
calling-working (t ∷ ts) = omega (arith, calls_le_works t.phase, calling-working ts)

pub AreFrom-append :
    (i : ℕ) (ts : List Thread) (t : Thread)
    → AreFrom i ts
    → t.index ≡ i + length ts
    → AreFrom i (ts ++ (t ∷ []))
AreFrom-append i [] t h e = (omega (arith, e), tt)
AreFrom-append i (x ∷ xs) t (h, hs) e = (h, AreFrom-append (suc i) xs t hs (omega (arith, e)))

pub AreFrom-middle :
    (i : ℕ) (xs ys : List Thread) (t u : Thread)
    → t.index ≡ u.index
    → AreFrom i (xs ++ (t ∷ ys))
    → AreFrom i (xs ++ (u ∷ ys))
AreFrom-middle i [] ys t u e (h, hs) = (sym e ∙ h, hs)
AreFrom-middle i (x ∷ xs) ys t u e (h, hs) = (h, AreFrom-middle (suc i) xs ys t u e hs)

-- A thread that moves on from one phase to another.
pub sum-middle :
    (f : Phase → ℕ) (c : Clients) (xs ys : List Thread) (t : Thread) (p q : Phase)
    → c.threads ≡ xs ++ (t ∷ ys)
    → t.phase ≡ p
    → sum f (xs ++ (record t { phase = q } ∷ ys)) + f p ≡ sum f c.threads + f q
sum-middle f c xs ys t p q e h = omega (
  arith,
  sum-append f xs (t ∷ ys),
  sum-append f xs (record t { phase = q } ∷ ys),
  ap (sum f) e,
  ap f h,
)

pub length-middle :
    (c : Clients) (xs ys : List Thread) (t u : Thread)
    → c.threads ≡ xs ++ (t ∷ ys)
    → length (xs ++ (u ∷ ys)) ≡ length c.threads
length-middle c xs ys t u e =
    omega (arith, length-append xs (t ∷ ys), length-append xs (u ∷ ys), ap length e)
