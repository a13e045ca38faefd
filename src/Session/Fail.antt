-- ===== src/Session/Fail.antt =====
-- `do_command` after a failed read.
use server_simple.Base.{
  ℕ, ◌≡◌, ◌≢◌, refl, sym, ◌∙◌, ◌⊎◌, inl, inr, true, false, if-cases, Option, none, some, ◌==◌,
  if◌then◌else◌, arith, List,
}
use server_simple.Net.{Net, net_set_read_timeout}
use server_simple.Net.Read.{my_net_read}
use server_simple.Net.Read.Outcome.{CanRead, Fails-error}
use server_simple.Net.Read.Receive.{Received, my_net_read-Received}
use server_simple.Session.{
  Thd, Shared, Env, Outcome, finished, hangs, crashes, net_end_statement, write_and_flush,
  is_silent, reply, after_read, do_command, new_command,
}
use server_simple.Net.Write.{net_real_write, failed}
use server_simple.Net.Write.Flush.{net_real_write-error, net_flush-error}
use server_simple.Session.Receive.{new_command-CanRead}

-- The connection is closed, and no command was run.
abbrev pub Closes : Shared → Outcome → Type 0
Closes shared (finished error out shared') = (error ≡ true) × (shared' ≡ shared)
Closes shared (hangs shared') = ⊥
Closes shared crashes = ⊥

then_error : {a b c : ℕ} → (b ≡ a) ⊎ (b ≡ 2) → (c ≡ b) ⊎ (c ≡ 2) → (c ≡ a) ⊎ (c ≡ 2)
then_error (inl p) (inl q) = inl (q ∙ p)
then_error (inr p) (inl q) = inr (q ∙ p)
then_error (inl p) (inr q) = inr q
then_error (inr p) (inr q) = inr q

write_and_flush-error :
    (net : Net) (bytes : List ℕ)
    → let out = write_and_flush net bytes in (out.error ≡ net.error) ⊎ (out.error ≡ 2)
unfolding write_and_flush
write_and_flush-error net bytes =
    let (w, n) = net_real_write net bytes in
    if-cases (λ (m : Net). (m.error ≡ net.error) ⊎ (m.error ≡ 2)) (failed w)
      (λ h. net_real_write-error net bytes)
      (λ h. then_error (net_real_write-error net bytes) (net_flush-error n))

closed :
    (env : Env) (thd : Thd) (shared : Shared) (net : Net)
    → net.error ≢ 3
    → Closes shared (after_read env thd shared none net)
unfolding after_read net_end_statement
closed env thd shared net h =
    let n = if is_silent thd.command then net else write_and_flush net (reply env thd) in
    let after : (n.error ≡ net.error) ⊎ (n.error ≡ 2) =
      if-cases (λ (m : Net). (m.error ≡ net.error) ⊎ (m.error ≡ 2)) (is_silent thd.command)
        (λ e. inl refl) (λ e. write_and_flush-error net (reply env thd)) in
    let not_3 : (n.error == 3) ≡ false = elim after [
      | inl same ↦ ground (arith, h)
      | inr two ↦ ground arith
    ] in
    simp not_3 (refl, refl)

pub read_failed :
    (env : Env) (thd : Thd) (shared : Shared) (r : Option ℕ) (net : Net)
    → thd.net.error ≢ 3
    → Received (new_command thd.net) (r, net)
    → r ≡ none
    → Closes shared (after_read env thd shared r net)
unfolding net_set_read_timeout
read_failed env thd shared (some len) net h e failed = cc
read_failed env thd shared none net h (can, e, s) failed = closed env thd shared net (λ x.
    elim (Fails-error e) [
      | inl two ↦ omega arith
      | inr (inl one) ↦ omega arith
      | inr (inr same) ↦ h (sym same ∙ x)
    ])

-- After a read that fails, in whatever way, `do_command` runs no command and asks for the connection
-- to be closed; its branch that goes on after the error 3 is not taken, if the error was not 3
-- before.
pub do_command-Closes :
    (env : Env) (thd : Thd) (shared : Shared)
    → CanRead thd.net
    → thd.net.error ≢ 3
    → (my_net_read env.memory (new_command thd.net)).0 ≡ none
    → Closes shared (do_command env thd shared)
unfolding do_command
do_command-Closes env thd shared c h failed =
    read_failed env thd shared _ _ h
      (my_net_read-Received env.memory (new_command thd.net) (new_command-CanRead thd.net c)) failed
