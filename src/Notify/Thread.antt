-- ===== src/Notify/Thread.antt =====
-- What the thread of a notification pushes.
use server_simple.Base.{
  ℕ, zero, suc, ◌+◌, ◌<◌, ◌≡◌, sym, ap, ◌∙◌, inl, inr, arith, Bool, true, false, not, ◌&&◌, ◌||◌,
  Bool-cases, get_elem?, Option, none, some, List, [], ◌∷◌, leb,
}
use server_simple.Notify.{Notify, Push, push_message, thread_loop, thread_start, mysql_deal_task}

-- The pushes are those of the rounds from `index` on, in order and without a gap.
abbrev pub Rounds : Notify → ℕ → ℕ → List Push → Type 0
Rounds n left index pushes =
    (k : ℕ) (p : Push) → get_elem? pushes k ≡ some p → (k < left) × (p ≡ push_message n (index + k))

no_round : (n : Notify) (left index : ℕ) → Rounds n left index []
no_round n left index k p e = cc

one_round :
    (n : Notify) (left index : ℕ) (rest : List Push)
    → Rounds n left (index + 1) rest
    → Rounds n (suc left) index (push_message n index ∷ rest)
one_round n left index rest r zero p e = (
  omega arith,
  sym (ap (λ (o : Option Push). elim o [ none ↦ p | some q ↦ q ]) e)
      ∙ ap (push_message n) {x = index} {y = index + 0} (omega arith),
)
one_round n left index rest r (suc k) p e =
    let (small, same) = r k p e in
    (
      omega (arith, small),
      same ∙ ap (push_message n) {x = index + 1 + k} {y = index + suc k} (omega arith),
    )

pub thread_loop-Rounds :
    (n : Notify) (stopped reached : ℕ → Bool) (left index : ℕ) (just_one : Bool)
    → Rounds n left index (thread_loop n stopped reached left index just_one)
unfolding thread_loop
thread_loop-Rounds n stopped reached zero index just_one = no_round n zero index
thread_loop-Rounds n stopped reached (suc left) index just_one =
    let asks = leb n.number_message index && not just_one in
    let rest = thread_loop-Rounds n stopped reached left (index + 1) (just_one || asks) in
    elim (Bool-cases (stopped index)) [
      | inl out ↦ rw out (no_round n (suc left) index)
      | inr on ↦
          rw on (elim (Bool-cases (asks && not (mysql_deal_task n (reached index) false index))) [
            | inl bad ↦ rw bad (no_round n (suc left) index)
            | inr good ↦ rw good (elim (Bool-cases (mysql_deal_task n (reached index) true index)) [
              | inl ok ↦ rw ok (one_round n left index _ rest)
              | inr ko ↦ rw ko (no_round n (suc left) index)
            ])
          ])
    ]

from_first :
    (n : Notify) (left : ℕ) (pushes : List Push)
    → Rounds n left 0 pushes
    → (k : ℕ) (p : Push) → get_elem? pushes k ≡ some p
    → (k < left) × (p ≡ push_message n k)
from_first n left pushes r k p e =
    ((r k p e).0, (r k p e).1 ∙ ap (push_message n) {x = 0 + k} {y = k} (omega arith))

-- Whatever stops it, a thread pushes the messages number 0, 1, 2 and so on, each at most once,
-- without a gap, and not more often than the repeat number says.
pub thread_start-Rounds :
    (n : Notify) (recorded : Bool) (stopped reached : ℕ → Bool) (k : ℕ) (p : Push)
    → get_elem? (thread_start n recorded stopped reached) k ≡ some p
    → (k < n.number_of_repeat) × (p ≡ push_message n k)
unfolding thread_start
thread_start-Rounds n recorded stopped reached =
    elim (Bool-cases (mysql_deal_task n recorded false 0)) [
      | inl ok ↦ rw ok (
          from_first n n.number_of_repeat _
            (thread_loop-Rounds n stopped reached n.number_of_repeat 0 false))
      | inr ko ↦ rw ko (from_first n n.number_of_repeat [] (no_round n n.number_of_repeat 0))
    ]
