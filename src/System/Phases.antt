-- ===== src/System/Phases.antt =====
-- The phases that the threads of connections are in: how many there are, and what holds of each.
use server_simple.Base.{ℕ, ◌+◌, ◌<◌, ◌≡◌, refl, ap, Bool, true, false, List, [], ◌∷◌, ◌++◌, arith}
use server_simple.Net.Read.Outcome.{CanRead}
use server_simple.Session.{Thd}
use server_simple.Session.Reply.{IsClear}
use server_simple.System.{Phase, idle, running, waiting, ending, settle, counting, uncounting}

abbrev pub IsReady : Thd → Type 0
IsReady thd = IsClear thd.net × CanRead thd.net

abbrev pub IsDone : Bool → Thd → Type 0
IsDone true out = Unit
IsDone false out = IsReady out

-- A connection between two commands can take one, one in a command could, and one behind a command that
-- did not end the connection can again. Who has read `thread_running` has read what it is.
abbrev pub IsFine : ℕ → Phase → Type 0
IsFine now (idle thd) = IsReady thd
IsFine now (counting env thd read) = IsReady thd × (thd.net.error ≡ 0) × (read ≡ now)
IsFine now (running env thd) = IsReady thd × (thd.net.error ≡ 0)
IsFine now waiting = Unit
IsFine now (ending error out) = IsDone error out
IsFine now (uncounting error out read) = IsDone error out × (read ≡ now)

abbrev pub EachFine : ℕ → List Phase → Type 0
EachFine now [] = Unit
EachFine now (p ∷ ps) = IsFine now p × EachFine now ps

abbrev pub in_command : Phase → ℕ
in_command (idle thd) = 0
in_command (counting env thd read) = 0
in_command (running env thd) = 1
in_command waiting = 1
in_command (ending error out) = 1
in_command (uncounting error out read) = 1

abbrev pub stuck_in : Phase → ℕ
stuck_in (idle thd) = 0
stuck_in (counting env thd read) = 0
stuck_in (running env thd) = 0
stuck_in waiting = 1
stuck_in (ending error out) = 0
stuck_in (uncounting error out read) = 0

abbrev pub holds : Phase → ℕ
holds (idle thd) = 0
holds (counting env thd read) = 1
holds (running env thd) = 0
holds waiting = 0
holds (ending error out) = 0
holds (uncounting error out read) = 1

abbrev pub bit : Bool → ℕ
bit false = 0
bit true = 1

abbrev pub sum : (Phase → ℕ) → List Phase → ℕ
sum f [] = 0
sum f (p ∷ ps) = f p + sum f ps

-- How many connections are in a command, and how many wait.
abbrev pub commands : List Phase → ℕ
commands ps = sum in_command ps

abbrev pub waiters : List Phase → ℕ
waiters ps = sum stuck_in ps

-- How many hold LOCK_thread_count.
abbrev pub holders : List Phase → ℕ
holders ps = sum holds ps

pub sum-append : (f : Phase → ℕ) (xs ys : List Phase) → sum f (xs ++ ys) ≡ sum f xs + sum f ys
sum-append f [] ys = omega arith
sum-append f (x ∷ xs) ys = omega (arith, sum-append f xs ys)

-- One phase, `p`, has become those of `qs`.
pub sum-middle :
    (f : Phase → ℕ) (active xs ys qs : List Phase) (p : Phase)
    → active ≡ xs ++ (p ∷ ys)
    → sum f (xs ++ (qs ++ ys)) + f p ≡ sum f active + sum f qs
sum-middle f active xs ys qs p e =
    omega (
      arith,
      sum-append f xs (p ∷ ys),
      sum-append f xs (qs ++ ys),
      sum-append f qs ys,
      ap (sum f) e,
    )

pub EachFine-split :
    (now : ℕ) (xs ys : List Phase) (p : Phase)
    → EachFine now (xs ++ (p ∷ ys))
    → IsFine now p × EachFine now xs × EachFine now ys
EachFine-split now [] ys p (fine, each) = (fine, tt, each)
EachFine-split now (x ∷ xs) ys p (first, each) =
    let (fine, before, behind) = EachFine-split now xs ys p each in (fine, (first, before), behind)

pub EachFine-join :
    (now : ℕ) (xs ys : List Phase) → EachFine now xs → EachFine now ys → EachFine now (xs ++ ys)
EachFine-join now [] ys before behind = behind
EachFine-join now (x ∷ xs) ys (first, before) behind =
    (first, EachFine-join now xs ys before behind)

-- Who does not hold LOCK_thread_count has not read `thread_running`.
pub IsFine-later : (now next : ℕ) (p : Phase) → holds p ≡ 0 → IsFine now p → IsFine next p
IsFine-later now next (idle thd) free fine = fine
IsFine-later now next (counting env thd read) free fine = absurd (omega (arith, free))
IsFine-later now next (running env thd) free fine = fine
IsFine-later now next waiting free fine = fine
IsFine-later now next (ending error out) free fine = fine
IsFine-later now next (uncounting error out read) free fine = absurd (omega (arith, free))

pub EachFine-later :
    (now next : ℕ) (ps : List Phase) → holders ps ≡ 0 → EachFine now ps → EachFine next ps
EachFine-later now next [] free each = tt
EachFine-later now next (p ∷ ps) free (fine, each) = (
  IsFine-later now next p (omega (arith, free)) fine,
  EachFine-later now next ps (omega (arith, free)) each,
)

pub bit_le : (b : Bool) → bit b < 2
bit_le false = omega arith
bit_le true = omega arith

pub settle-Fine :
    (now : ℕ) (error : Bool) (out : Thd) → IsDone error out → EachFine now (settle error out)
settle-Fine now true out fine = tt
settle-Fine now false out fine = (fine, tt)

pub sum-settle :
    (f : Phase → ℕ) (error : Bool) (out : Thd)
    → ((thd : Thd) → f (idle thd) ≡ 0)
    → sum f (settle error out) ≡ 0
sum-settle f true out zero_idle = refl
sum-settle f false out zero_idle = omega (arith, zero_idle out)
