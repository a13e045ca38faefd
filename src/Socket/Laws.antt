-- ===== src/Socket/Laws.antt =====
-- What any answer of the kernel leaves on a socket, and what a socket delivers that only has data.
use server_simple.Base.{
  ℕ, suc, ◌≤◌, ◌<◌, ◌≡◌, refl, sym, ap, ◌∙◌, Option, none, some, List, [], ◌∷◌, ◌++◌, append-nil,
  append_assoc, arith, length, take, drop, length-take, take-append-drop,
}
use server_simple.Socket.{
  Socket, Arrival, segment, failure, read, read_arrival, write, write_answer, keep_rest, taken,
  accepted,
}

-- The bytes that a list of arrivals carries.
abbrev pub stream : List Arrival → List ℕ
stream [] = []
stream (segment bytes ∷ arrivals) = bytes ++ stream arrivals
stream (failure ∷ arrivals) = stream arrivals

stream-keep_rest :
    (rest : List ℕ) (arrivals : List Arrival)
    → stream (keep_rest rest arrivals) ≡ rest ++ stream arrivals
stream-keep_rest [] arrivals = refl
stream-keep_rest (b ∷ rest) arrivals = refl

-- What a `read` of `n` bytes does to a socket.
pub record Reads (s : Socket) (n : ℕ) (r : Option (List ℕ)) (t : Socket) : Type 0 where
  pub received : t.received ≡ s.received ++ taken r
  pub within : length (taken r) ≤ n
  pub sent : t.sent ≡ s.sent
  pub whole : stream s.incoming ≡ taken r ++ stream t.incoming

-- The stream of a segment, cut where a `read` of `n` bytes cuts it.
cut_stream :
    (n : ℕ) (bytes : List ℕ) (arrivals : List Arrival)
    → bytes ++ stream arrivals ≡ take n bytes ++ stream (keep_rest (drop n bytes) arrivals)
cut_stream n bytes arrivals =
    ap (λ xs. xs ++ stream arrivals) (sym (take-append-drop n bytes))
    ∙ append_assoc (take n bytes) (drop n bytes) (stream arrivals)
    ∙ ap (◌++◌ (take n bytes)) (sym (stream-keep_rest (drop n bytes) arrivals))

read_arrival-Reads :
    (s : Socket) (arrivals : List Arrival) (n : ℕ)
    → s.incoming ≡ arrivals
    → Reads s n (read_arrival s arrivals n).0 (read_arrival s arrivals n).1
unfolding read_arrival
read_arrival-Reads s [] n e = record {
  received = sym (append-nil s.received);
  within = omega arith;
  sent = refl;
  whole = refl;
}
read_arrival-Reads s (failure ∷ arrivals) n e = record {
  received = sym (append-nil s.received);
  within = omega arith;
  sent = refl;
  whole = ap stream e;
}
read_arrival-Reads s (segment bytes ∷ arrivals) n e = record {
  received = refl;
  within = omega (arith, length-take n bytes);
  sent = refl;
  whole = ap stream e ∙ cut_stream n bytes arrivals;
}

pub read-Reads : (s : Socket) (n : ℕ) → Reads s n (read s n).0 (read s n).1
unfolding read
read-Reads s n = read_arrival-Reads s s.incoming n refl

-- What a `write` of `bytes` does to a socket.
pub record Writes (s : Socket) (bytes : List ℕ) (r : Option ℕ) (t : Socket) : Type 0 where
  pub sent : t.sent ≡ s.sent ++ take (accepted r) bytes
  pub within : accepted r ≤ length bytes
  pub received : t.received ≡ s.received
  pub incoming : t.incoming ≡ s.incoming

write_answer-Writes :
    (s : Socket) (answers : List (Option ℕ)) (bytes : List ℕ)
    → Writes s bytes (write_answer s answers bytes).0 (write_answer s answers bytes).1
unfolding write_answer
write_answer-Writes s [] bytes = record {
  sent = sym (append-nil s.sent);
  within = omega arith;
  received = refl;
  incoming = refl;
}
write_answer-Writes s (none ∷ answers) bytes = record {
  sent = sym (append-nil s.sent);
  within = omega arith;
  received = refl;
  incoming = refl;
}
write_answer-Writes s (some k ∷ answers) bytes = record {
  sent = refl;
  within = omega arith;
  received = refl;
  incoming = refl;
}

pub write-Writes :
    (s : Socket) (bytes : List ℕ) → Writes s bytes (write s bytes).0 (write s bytes).1
unfolding write
write-Writes s bytes = write_answer-Writes s s.accepts bytes

-- Only data arrives: no failure, and no end of the stream.
abbrev pub IsData : List Arrival → Type 0
IsData [] = Unit {0}
IsData (segment [] ∷ arrivals) = ⊥
IsData (segment (b ∷ bytes) ∷ arrivals) = IsData arrivals
IsData (failure ∷ arrivals) = ⊥

keep_rest-IsData :
    (rest : List ℕ) (arrivals : List Arrival) → IsData arrivals → IsData (keep_rest rest arrivals)
keep_rest-IsData [] arrivals h = h
keep_rest-IsData (b ∷ rest) arrivals h = h

-- A `read` of a positive size from a socket with data pending takes at least one byte of it.
abbrev pub Delivers : Socket → Option (List ℕ) → Socket → Type 0
Delivers s r t =
    (b : ℕ) × (bytes : List ℕ) × (r ≡ some (b ∷ bytes))
    × (stream s.incoming ≡ (b ∷ bytes) ++ stream t.incoming)
    × IsData t.incoming

read_arrival-Delivers :
    (s : Socket) (arrivals : List Arrival) (n : ℕ)
    → s.incoming ≡ arrivals
    → IsData arrivals
    → 0 < length (stream arrivals)
    → Delivers s (read_arrival s arrivals (suc n)).0 (read_arrival s arrivals (suc n)).1
unfolding read_arrival
read_arrival-Delivers s [] n e h p = absurd (omega arith)
read_arrival-Delivers s (failure ∷ arrivals) n e h p = absurd h
read_arrival-Delivers s (segment [] ∷ arrivals) n e h p = absurd h
read_arrival-Delivers s (segment (b ∷ bytes) ∷ arrivals) n e h p = (
  b,
  take n bytes,
  refl,
  ap stream e ∙ ap (◌∷◌ b) (cut_stream n bytes arrivals),
  keep_rest-IsData (drop n bytes) arrivals h,
)

pub read-Delivers :
    (s : Socket) (n : ℕ)
    → IsData s.incoming
    → 0 < length (stream s.incoming)
    → Delivers s (read s (suc n)).0 (read s (suc n)).1
unfolding read
read-Delivers s n h p = read_arrival-Delivers s s.incoming n refl h p
