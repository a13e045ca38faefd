-- ===== src/Connection/Talk/Step.antt =====
-- One answer in the loop of `handle_one_connection`.
use server_simple.Base.{
  ℕ, zero, suc, ◌≡◌, sym, ap, subst, ◌∙◌, inl, inr, true, false, ◌==◌, List, [], ◌++◌, append-nil,
  append_assoc, arith,
}
use server_simple.Registry.{Registry}
use server_simple.Session.{Thd, Shared, Env, Outcome}
use server_simple.Session.Reply.{Puts}
use server_simple.Session.Respond.{Response, answers, waits, dies}
use server_simple.Session.Respond.Sound.{Responds}
use server_simple.Connection.{Life, ended, keeps_on, after_command, serve}
use server_simple.Connection.Talk.{Stand, going, closed, waiting, gone, and_then, Follows, Talks}

keeps_on-failed : (thd : Thd) → thd.net.error ≡ 2 → keeps_on thd ≡ false
keeps_on-failed thd e = let bad : (thd.net.error == 0) ≡ false = ground (arith, e) in simp bad

serve-failed :
    (rounds : ℕ) (env : Env) (thd : Thd) (shared : Shared)
    → thd.net.error ≡ 2
    → serve rounds env thd shared ≡ ended thd shared
unfolding serve
serve-failed zero env thd shared e = simp (keeps_on-failed thd e)
serve-failed (suc rounds) env thd shared e = simp (keeps_on-failed thd e)

-- The bytes of a first answer go in front of those of the others.
later_Follows :
    (env : Env) (shared : Shared) (reg : Registry) (sent mid bytes more later : List ℕ)
    (life : Life) (s : Stand)
    → mid ≡ sent ++ bytes
    → Follows env (record shared { registry = reg }) mid later life (more, s)
    → Follows env shared sent later life (bytes ++ more, s)
later_Follows env shared reg sent mid bytes more later life (closed reg') e (out, ends, all) =
    (out, ends, all ∙ ap (λ xs. xs ++ more) e ∙ append_assoc sent bytes more)
later_Follows env shared reg sent mid bytes more later life (going reg') e
      (out, rounds, goes, all, rest) =
    (out, rounds, goes, all ∙ ap (λ xs. xs ++ more) e ∙ append_assoc sent bytes more, rest)
later_Follows env shared reg sent mid bytes more later life (waiting reg') e f = f
later_Follows env shared reg sent mid bytes more later life gone e f = f

later_Talks :
    (env : Env) (shared : Shared) (reg : Registry) (sent mid bytes later : List ℕ) (life : Life)
    (talk : List ℕ × Stand)
    → mid ≡ sent ++ bytes
    → Talks env (record shared { registry = reg }) mid later life talk
    → Talks env shared sent later life (bytes ++ talk.0, talk.1)
later_Talks env shared reg sent mid bytes later life (more, s) e (inl f) =
    inl (later_Follows env shared reg sent mid bytes more later life s e f)
later_Talks env shared reg sent mid bytes later life (more, s) e
      (inr (out, after, rest, ends, two, part)) =
    inr (out, after, rest, ends, two, part ∙ ap (λ xs. xs ++ more) e ∙ append_assoc sent bytes more)

-- What a whole answer sends.
all_sent :
    (sent out rest bytes : List ℕ) → rest ≡ [] → out ++ rest ≡ sent ++ bytes → out ≡ sent ++ bytes
all_sent sent out rest bytes none_left e = sym (append-nil out) ∙ ap (◌++◌ out) (sym none_left) ∙ e

module _ (env : Env) (shared : Shared) (rounds : ℕ) (later sent : List ℕ) (start : Thd)
    (same : start.net.vio.kernel.sent ≡ sent) where
  pub answer_step :
      (resp : Response) (o : Outcome) (next : Registry → List ℕ × Stand)
      → Responds start shared resp o
      → ((out : Thd) (reg : Registry) (bytes : List ℕ)
          → Puts start.net bytes out.net
          → out.net.error ≡ start.net.error
          → out.killed ≡ start.killed
          → Talks env
              (record shared { registry = reg })
              out.net.vio.kernel.sent
              later
              (serve rounds env out (record shared { registry = reg }))
              (next reg))
      → Talks env shared sent later (after_command o (serve rounds env)) (and_then resp next)
  unfolding after_command
  answer_step (answers true bytes reg) o next (out, e, p, alive) go =
      let life = ap (λ o. after_command o (serve rounds env)) e in
      elim p.ends [
        | inl (none_left, fine) ↦ inl (
          out,
          life,
          all_sent sent out.net.vio.kernel.sent p.rest bytes none_left
              (p.stream ∙ ap (λ xs. xs ++ bytes) same),
        )
        | inr two ↦ inr (
          out,
          record shared { registry = reg },
          p.rest,
          life,
          two,
          p.stream ∙ ap (λ xs. xs ++ bytes) same,
        )
      ]
  answer_step (answers false bytes reg) o next (out, e, p, alive) go =
      let after = record shared { registry = reg } in
      let life = ap (λ o. after_command o (serve rounds env)) e in
      let sum = p.stream ∙ ap (λ xs. xs ++ bytes) same in
      elim p.ends [
        | inl (none_left, fine) ↦
            subst (λ l. Talks env shared sent later l (bytes ++ (next reg).0, (next reg).1))
              (sym life)
              (later_Talks env shared reg sent out.net.vio.kernel.sent bytes later
                (serve rounds env out after) (next reg)
                (all_sent sent out.net.vio.kernel.sent p.rest bytes none_left sum)
                (go out reg bytes p fine alive))
        | inr two ↦ inr (
          out,
          after,
          p.rest ++ (next reg).0,
          life ∙ serve-failed rounds env out after two,
          two,
          sym (append_assoc out.net.vio.kernel.sent p.rest (next reg).0)
              ∙ ap (λ xs. xs ++ (next reg).0) sum
              ∙ append_assoc sent bytes (next reg).0,
        )
      ]
  answer_step (waits reg) o next e go = inl (ap (λ o. after_command o (serve rounds env)) e)
  answer_step dies o next e go = inl (ap (λ o. after_command o (serve rounds env)) e)
