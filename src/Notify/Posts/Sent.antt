-- ===== src/Notify/Posts/Sent.antt =====
-- What a thread posts, and where to.
use server_simple.Base.{
  ℕ, zero, suc, ◌+◌, ◌<◌, ◌≡◌, refl, sym, ap, ◌∙◌, arith, Bool, true, false, get_elem?, Option,
  none, some, List, [], ◌∷◌,
}
use server_simple.Notify.{Notify, Push, skipped, pushed, out_of_bounds, push_message, thread_loop}
use server_simple.Notify.Thread.{thread_loop-Rounds}
use server_simple.Notify.Database.{Mysql, token_query, row}
use server_simple.Notify.Database.Row.{deal_task-row}
use server_simple.Notify.Request.{Request, post, push_request}
use server_simple.Notify.Posts.{posts, after_start, run_thread}

-- Request `k` is that of push `k`.
abbrev Each : Notify → (ℕ → Bool) → ℕ → List Push → List (Option Request) → Type 0
Each n curl i ps rs =
    (k : ℕ) (r : Option Request)
    → get_elem? rs k ≡ some r
    → (p : Push) × (get_elem? ps k ≡ some p) × (r ≡ post n (curl (i + k)) p)

one_more :
    (n : Notify) (curl : ℕ → Bool) (i : ℕ) (p : Push) (ps : List Push) (rs : List (Option Request))
    → Each n curl (suc i) ps rs
    → Each n curl i (p ∷ ps) (post n (curl i) p ∷ rs)
one_more n curl i p ps rs rest zero r e = (
  p,
  refl,
  sym (ap (λ (o : Option (Option Request)). elim o [ none ↦ r | some q ↦ q ]) e)
      ∙ ap (λ j. post n (curl j) p) {x = i} {y = i + 0} (omega arith),
)
one_more n curl i p ps rs rest (suc k) r e =
    let (q, found, same) = rest k r e in
    (q, found, same ∙ ap (λ j. post n (curl j) q) {x = suc i + k} {y = i + suc k} (omega arith))

posts-Each :
    (n : Notify) (curl : ℕ → Bool) (i : ℕ) (ps : List Push) → Each n curl i ps (posts n curl i ps)
posts-Each n curl i [] = λ k r e. cc
posts-Each n curl i (skipped ∷ ps) =
    one_more n curl i skipped ps (posts n curl (suc i) ps) (posts-Each n curl (suc i) ps)
posts-Each n curl i (pushed m ∷ ps) =
    one_more n curl i (pushed m) ps (posts n curl (suc i) ps) (posts-Each n curl (suc i) ps)
posts-Each n curl i (out_of_bounds ∷ ps) = λ k r e. cc

some-same :
    {xs ys : List (Option Request)}
    → ◌≡◌ {A = Option (List (Option Request))} (some xs) (some ys)
    → xs ≡ ys
some-same e = cc

same_post :
    (n m : Notify) (token type : List ℕ) (curl : Bool) (k : ℕ)
    → m ≡ record n {
      id_start_alarm_from_db = m.id_start_alarm_from_db;
      tokens = token;
      device_type = type;
    }
    → post m curl (push_message m k)
      ≡ post (record n { tokens = token; device_type = type }) curl (push_message n k)
unfolding post push_request push_message
same_post n m token type curl k e = ap (λ (o : Notify). post o curl (push_message o k)) e

-- Where the alarm can be recorded and the database has a token and a type for the user, and whatever
-- stops the thread later, its requests are, in order and without a gap, those for the messages
-- number 0, 1, 2 and so on to the device with this token and of this type, and at most as many as the
-- repeat number says.
pub run_thread-Posts :
    (db : Mysql) (tm : ℕ × ℕ) (n : Notify) (stopped reached curl : ℕ → Bool)
    → (token type : List ℕ) (rs : List (Option Request)) (k : ℕ) (r : Option Request)
    → n.thread_exit ≡ false
    → db.handle ≡ true
    → db.connects ≡ true
    → db.select (token_query n) ≡ row (some token ∷ some type ∷ [])
    → run_thread db false tm n stopped reached curl ≡ some rs
    → get_elem? rs k ≡ some r
    → (k < n.number_of_repeat)
      × (r ≡ post (record n { tokens = token; device_type = type }) (curl k) (push_message n k))
unfolding run_thread
run_thread-Posts db tm n stopped reached curl token type rs k r alive e e' found ran at =
    let (m, done, shape) = deal_task-row db tm n token type alive e e' found in
    let pushes = thread_loop m stopped reached m.number_of_repeat 0 false in
    let same_rs : posts m curl 0 pushes ≡ rs =
      some-same (sym (ap (λ d. after_start d stopped reached curl) done) ∙ ran) in
    let (p, here, same) = posts-Each m curl 0 pushes k r (ap (λ xs. get_elem? xs k) same_rs ∙ at) in
    let (few, this) = thread_loop-Rounds m stopped reached m.number_of_repeat 0 false k p here in
    (
      omega (arith, few, ap (λ (o : Notify). o.number_of_repeat) shape),
      same
          ∙ ap (post m (curl (0 + k))) this
          ∙ ap (λ j. post m (curl j) (push_message m j)) {x = 0 + k} {y = k} (omega arith)
          ∙ same_post n m token type (curl k) k shape,
    )
