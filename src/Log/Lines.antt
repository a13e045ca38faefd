-- ===== src/Log/Lines.antt =====
-- What `log` of Server/log.c prints.
use server_simple.Base.{
  ℕ, ◌+◌, ◌-◌, ◌*◌, ◌^◌, ◌≤◌, ◌<◌, ◌≡◌, refl, sym, ap, ◌∙◌, ◌⊎◌, inl, inr, Bool, true, false,
  if-cases, Option, none, some, List, [], ◌∷◌, ◌++◌, leb, ltb, ◌==◌, length, take, write_at, arith,
  c_string, lt→ltb, ==_iff, length-append, length-write_at, write_at_inside, append_assoc, subst,
  drop, lt→leb_false, ltb→lt, ltb→le, le→ltb, le_refl, Bool-cases, zero, suc, c_string-append,
  take_all,
}
use server_simple.Log.Strmake.{strmake_lem}
use server_simple.Log.{
  Standard, Logged, null_written, overflows, printed, line, stored, too_big, strmake, grow, exact,
  by_length, log,
}

-- The size after this many rounds.
abbrev doubled : ℕ → ℕ → ℕ
doubled zero size = size
doubled (suc fuel) size = doubled fuel (size * 2)

module _ (std : Standard) (memory : ℕ → Bool) (texts : ℕ → List ℕ) (buff_date : List ℕ) where
  -- The message of a line, with a buffer of `size` bytes on the stack.
  pub data Message (size : ℕ) (m : List ℕ) : Type 0 where
    first : length (texts 0) < size → m ≡ texts 0 → Message size m
    later : size ≤ length (texts 0) → (k : ℕ) → 0 < k → m ≡ texts k → Message size m
    cut : size < length (texts 0) → m ≡ take (length (texts 0)) (texts 1) → Message size m
    no_memory :
        size ≤ length (texts 0)
        → (n : ℕ) → memory n ≡ false
        → m ≡ take (size - 1) too_big
        → Message size m

  abbrev pub Logs : ℕ → Logged → Type 0
  Logs size null_written = (size < length (texts 0)) × (memory (length (texts 0) + 1) ≡ false)
  Logs size overflows = ⊥
  Logs size (printed out) = (m : List ℕ) × Message size m × (out ≡ line buff_date m)

  stored-line :
      (n : ℕ) (text : List ℕ) → line buff_date (stored n text) ≡ line buff_date (take (n - 1) text)
  stored-line n text =
      ap (λ m. buff_date ++ (m ++ 10 ∷ [])) (c_string-append (take (n - 1) text) [])

  failed-Logs :
      (buff_stack : List ℕ) (n : ℕ)
      → 0 < length buff_stack
      → length buff_stack ≤ length (texts 0)
      → memory n ≡ false
      → Logs (length buff_stack) (
          printed
            (line buff_date (strmake buff_stack (too_big ++ 0 ∷ []) (length buff_stack - 1)).1))
  failed-Logs buff_stack n some_room long none_left =
      let size = length buff_stack - 1 in
      (
        take size too_big,
        no_memory long n none_left refl,
        ap (λ bs. line buff_date bs)
              (ap (λ (r : ℕ × List ℕ). r.1)
                (strmake_lem buff_stack too_big [] size (omega arith) (omega arith)))
            ∙ ap (λ m. buff_date ++ (m ++ 10 ∷ [])) (c_string-append (take size too_big) _),
      )

  grow-Logs :
      (buff_stack : List ℕ) (fuel k size : ℕ)
      → 0 < k
      → 0 < length buff_stack
      → length buff_stack ≤ length (texts 0)
      → ((j : ℕ) → length (texts j) < 2 ^ 30)
      → 2 ^ 31 ≤ doubled fuel size
      → size < 2 ^ 31
      → Logs (length buff_stack) (grow std memory texts buff_date buff_stack fuel k size)
  unfolding grow
  grow-Logs buff_stack zero k size pos some_room long short enough small = absurd (omega arith)
  grow-Logs buff_stack (suc fuel) k size pos some_room long short enough small =
      let size_of = length buff_stack in
      let rest = λ (h : size ≤ length (texts k)).
        grow-Logs buff_stack fuel (k + 1) (size * 2) (omega arith) some_room long short enough
          (omega (arith, h, short k)) in
      let in_range : leb (2 ^ 31) size ≡ false = lt→leb_false (2 ^ 31) size small in
      rw in_range (
        if-cases (Logs size_of) (memory size)
          (λ e. elim (Bool-cases (ltb (length (texts k)) size)) [
            | inl fit ↦
                let h = ltb→lt (length (texts k)) size fit in
                rw (std.fits size (length (texts k)) h, fit)
                  (
                    texts k,
                    later long k pos refl,
                    stored-line size (texts k)
                        ∙ ap (line buff_date) (take_all (size - 1) (texts k) (omega (arith, h))),
                  )
            | inr over ↦
                let h = ltb→le (length (texts k)) size over in
                elim (std.too_long size (length (texts k)) h) [
                  | inl same ↦ rw same (rest h)
                  | inr (inl same) ↦ rw (same, le→ltb size size (le_refl size)) (rest h)
                  | inr (inr same) ↦ rw (same, over) (rest h)
                ]
          ])
          (λ e. failed-Logs buff_stack size some_room long e))

  module _ (buff_stack : List ℕ) (some_room : 0 < length buff_stack)
      (some_bound : length buff_stack < 2 ^ 30) (short : (j : ℕ) → length (texts j) < 2 ^ 30) where
    exact-Logs :
        length buff_stack < length (texts 0)
        → Logs (length buff_stack) (exact std memory texts buff_date (length (texts 0)))
    unfolding exact
    exact-Logs h =
        let n = length (texts 0) in
        if-cases (Logs (length buff_stack)) (memory (n + 1))
          (λ e. (
            take n (texts 1),
            cut h refl,
            stored-line (n + 1) (texts 1)
                ∙ ap (λ i. line buff_date (take i (texts 1))) {y = n} (omega arith),
          ))
          (λ e. (h, e))

    by_length-Logs :
        (r : Option ℕ)
        → length buff_stack ≤ length (texts 0)
        → (r ≡ none) ⊎ ((r ≡ some (length buff_stack)) ⊎ (r ≡ some (length (texts 0))))
        → Logs (length buff_stack) (by_length std memory texts buff_date buff_stack r)
    unfolding by_length
    by_length-Logs r long returned =
        let size = length buff_stack in
        let len = length (texts 0) in
        let grown =
          grow-Logs buff_stack 31 1 (size * 2) (omega arith) some_room long short (omega arith)
            (omega arith) in
        elim returned [
          | inl same ↦ rw same grown
          | inr (inl same) ↦ rw (same, (==_iff size size).1 refl) grown
          | inr (inr same) ↦ rw same (
              if-cases (Logs size) (len == size) (λ e. grown)
                (λ e.
                  let over : size < len = ground arith in
                  rw (lt→ltb size len over) (exact-Logs over)))
        ]

  -- What the first call of `vsnprintf` leaves, read as a C string, where the text fits.
  fits-line :
      (buff_stack : List ℕ)
      → length (texts 0) < length buff_stack
      → line buff_date (write_at buff_stack 0 (stored (length buff_stack) (texts 0)))
        ≡ line buff_date (texts 0)
  fits-line buff_stack h =
      let text = texts 0 in
      let size = length buff_stack in
      let bytes = stored size text in
      let whole : take (size - 1) text ≡ text = take_all (size - 1) text (omega (arith, h)) in
      let fitting : length bytes ≤ size =
        omega (arith, length-append (take (size - 1) text) (0 ∷ []), ap length whole, h) in
      ap (λ m. buff_date ++ (m ++ 10 ∷ []))
        (ap c_string (
            write_at_inside buff_stack 0 bytes (length bytes) (omega arith) fitting
            ∙ append_assoc (take (size - 1) text) (0 ∷ []) (drop (length bytes) buff_stack))
          ∙ c_string-append (take (size - 1) text) (drop (length bytes) buff_stack)
          ∙ ap c_string whole)

  -- Where all texts and the buffer are shorter than 2^30 bytes, `log` prints one line, or writes through
  -- NULL: in a line stands the first text, exactly if it and a 0 fit into the buffer, and otherwise that
  -- of a later call, whole or cut off at the length of the first, or the message that `malloc` failed,
  -- where it did. It writes through NULL only where the first text is longer than the buffer and there
  -- is no memory for it.
  pub log-Logs :
      (buff_stack : List ℕ)
      → 0 < length buff_stack
      → length buff_stack < 2 ^ 30
      → ((j : ℕ) → length (texts j) < 2 ^ 30)
      → Logs (length buff_stack) (log std memory texts buff_date buff_stack)
  unfolding log by_length
  log-Logs buff_stack some_room some_bound short =
      let size = length buff_stack in
      let len = length (texts 0) in
      let filled = write_at buff_stack 0 (stored size (texts 0)) in
      let same : length filled ≡ size = length-write_at buff_stack 0 (stored size (texts 0)) in
      elim (Bool-cases (ltb len size)) [
        | inl fit ↦
            let h = ltb→lt len size fit in
            let other : (len == length filled) ≡ false = ground (arith, same) in
            let within : ltb (length filled) len ≡ false =
              le→ltb (length filled) len (omega (arith, same)) in
            rw (std.fits size len h, other, within) (texts 0, first h refl, fits-line buff_stack h)
        | inr over ↦
            subst (λ n. Logs n (by_length std memory texts buff_date filled (std.returns size len)))
              same
              (by_length-Logs filled (omega (arith, same)) (omega (arith, same)) short
                (std.returns size len) (omega (arith, same, ltb→le len size over))
                (subst
                  (λ n.
                    (std.returns size len ≡ none)
                    ⊎ ((std.returns size len ≡ some n) ⊎ (std.returns size len ≡ some len)))
                  (sym same) (std.too_long size len (ltb→le len size over))))
      ]

  Message-whole :
      (size : ℕ) (m : List ℕ)
      → Message size m
      → ((k : ℕ) → texts k ≡ texts 0)
      → ((n : ℕ) → memory n ≡ true)
      → m ≡ texts 0
  Message-whole size m (first h e) again plenty = e
  Message-whole size m (later h k pos e) again plenty = e ∙ again k
  Message-whole size m (cut h e) again plenty =
      e ∙ ap (take (length (texts 0))) (again 1) ∙ take_all (length (texts 0)) (texts 0) (le_refl _)
  Message-whole size m (no_memory h n gone e) again plenty = absurd (cc (plenty n))

  Logs-whole :
      (size : ℕ) (o : Logged)
      → Logs size o
      → ((k : ℕ) → texts k ≡ texts 0)
      → ((n : ℕ) → memory n ≡ true)
      → o ≡ printed (line buff_date (texts 0))
  Logs-whole size overflows l again plenty = absurd l
  Logs-whole size null_written (h, gone) again plenty = absurd (cc (plenty (length (texts 0) + 1)))
  Logs-whole size (printed out) (m, from, e) again plenty =
      ap printed (e ∙ ap (line buff_date) (Message-whole size m from again plenty))

  -- Where each call of `vsnprintf` gives the same text, of less than 2^30 bytes, and memory is enough,
  -- `log` prints it whole, whatever its length and by whichever standard `vsnprintf` goes.
  pub log-whole :
      (buff_stack : List ℕ)
      → 0 < length buff_stack
      → length buff_stack < 2 ^ 30
      → length (texts 0) < 2 ^ 30
      → ((k : ℕ) → texts k ≡ texts 0)
      → ((n : ℕ) → memory n ≡ true)
      → log std memory texts buff_date buff_stack ≡ printed (line buff_date (texts 0))
  log-whole buff_stack some_room some_bound short again plenty =
      Logs-whole (length buff_stack) (log std memory texts buff_date buff_stack)
        (log-Logs buff_stack some_room some_bound (λ j. omega (arith, short, ap length (again j))))
        again plenty
