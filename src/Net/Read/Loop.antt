-- ===== src/Net/Read/Loop.antt =====
-- The loop of `my_real_read`.
use server_simple.Base.{
  ℕ, zero, suc, ◌+◌, ◌-◌, ◌≤◌, ◌<◌, ◌≡◌, refl, sym, ap, ◌∙◌, Bool, true, false, Option, none, some,
  List, [], ◌∷◌, ◌++◌, append-nil, append_assoc, arith, length, length-append, write_at,
  length-write_at, write_at-append,
}
use server_simple.Socket.{taken}
use server_simple.Socket.Laws.{Reads, stream, IsData, Delivers}
use server_simple.Vio.{Vio, vio_read}
use server_simple.Vio.Laws.{vio_read-Reads, vio_read-sd, vio_read-Delivers}
use server_simple.Net.{Net}
use server_simple.Net.Read.{read_loop, read_some}

-- What a loop for `remain` bytes at `pos` does, `ok` being whether it ends with all of them.
pub record ReadsInto (net : Net) (pos remain : ℕ) (ok : Bool) (out : Net) : Type 0 where
  pub fresh : List ℕ
  pub received : out.vio.kernel.received ≡ net.vio.kernel.received ++ fresh
  pub stored : out.buff ≡ write_at net.buff pos fresh
  pub within : length fresh ≤ remain
  pub full : ok ≡ true → (length fresh ≡ remain) × (out.error ≡ net.error)
  pub failed : ok ≡ false → out.error ≡ 2
  pub short : ok ≡ false → length fresh < remain
  pub sent : out.vio.kernel.sent ≡ net.vio.kernel.sent
  pub whole : stream net.vio.kernel.incoming ≡ fresh ++ stream out.vio.kernel.incoming
  pub sd : out.vio.sd ≡ net.vio.sd
  pub kept : out ≡ record net { vio = out.vio; buff = out.buff; error = out.error }

write_nothing : (buff : List ℕ) (pos : ℕ) → buff ≡ write_at buff pos []
write_nothing [] pos = refl
write_nothing (b ∷ buff) zero = refl
write_nothing (b ∷ buff) (suc pos) = ap (◌∷◌ b) (write_nothing buff pos)

module _ (net : Net) (pos r : ℕ) (vio : Vio) (same_sd : vio.sd ≡ net.vio.sd) where
  broken :
      (got : Option (List ℕ))
      → taken got ≡ []
      → Reads net.vio.kernel (suc r) got vio.kernel
      → ReadsInto net pos (suc r) false (record net { vio = vio; error = 2 })
  broken got e d = record {
    fresh = [];
    received = d.received ∙ ap (◌++◌ net.vio.kernel.received) e;
    stored = write_nothing net.buff pos;
    within = omega arith;
    full = λ x. cc;
    failed = λ x. refl;
    short = λ x. omega arith;
    sent = d.sent;
    whole = d.whole ∙ ap (λ xs. xs ++ stream vio.kernel.incoming) e;
    sd = same_sd;
    kept = refl;
  }

  went_on :
      (b : ℕ) (bytes : List ℕ)
      → pos + suc r ≤ length net.buff
      → Reads net.vio.kernel (suc r) (some (b ∷ bytes)) vio.kernel
      → (ok : Bool) (out : Net)
      → ReadsInto
          (record net { vio = vio; buff = write_at net.buff pos (b ∷ bytes) })
          (pos + length (b ∷ bytes))
          (suc r - length (b ∷ bytes))
          ok
          out
      → ReadsInto net pos (suc r) ok out
  went_on b bytes room d ok out i = record {
    fresh = (b ∷ bytes) ++ i.fresh;
    received =
        i.received
        ∙ ap (λ xs. xs ++ i.fresh) d.received
        ∙ append_assoc net.vio.kernel.received (b ∷ bytes) i.fresh;
    stored =
        i.stored
        ∙ write_at-append net.buff pos (b ∷ bytes) i.fresh (pos + length (b ∷ bytes)) refl
            (omega (arith, d.within));
    within = omega (arith, length-append (b ∷ bytes) i.fresh, i.within, d.within);
    full = λ e.
        (omega (arith, length-append (b ∷ bytes) i.fresh, (i.full e).0, d.within), (i.full e).1);
    failed = i.failed;
    short = λ e. omega (arith, length-append (b ∷ bytes) i.fresh, i.short e, d.within);
    sent = i.sent ∙ d.sent;
    whole =
        d.whole
        ∙ ap (◌++◌ (b ∷ bytes)) i.whole
        ∙ sym (append_assoc (b ∷ bytes) i.fresh (stream out.vio.kernel.incoming));
    sd = i.sd ∙ same_sd;
    kept = i.kept;
  }

  read_some-ReadsInto :
      (fuel : ℕ) (got : Option (List ℕ))
      → pos + suc r ≤ length net.buff
      → r ≤ fuel
      → Reads net.vio.kernel (suc r) got vio.kernel
      → ((n : Net) (p k : ℕ)
          → p + k ≤ length n.buff
          → k ≤ fuel
          → ReadsInto n p k (read_loop fuel n p k).0 (read_loop fuel n p k).1)
      → let (ok, out) = read_some got (record net { vio = vio }) pos (suc r) (read_loop fuel) in
        ReadsInto net pos (suc r) ok out
  unfolding read_some
  read_some-ReadsInto fuel none room h d next = broken none refl d
  read_some-ReadsInto fuel (some []) room h d next = broken (some []) refl d
  read_some-ReadsInto fuel (some (b ∷ bytes)) room h d next =
      let n = record net { vio = vio; buff = write_at net.buff pos (b ∷ bytes) } in
      went_on b bytes room d _ _ (
        next n (pos + length (b ∷ bytes)) (suc r - length (b ∷ bytes))
          (omega (arith, length-write_at net.buff pos (b ∷ bytes), d.within)) (omega arith))

-- With as many rounds as bytes, and room for them in the buffer, the loop ends by itself.
pub read_loop-ReadsInto :
    (fuel : ℕ) (net : Net) (pos remain : ℕ)
    → pos + remain ≤ length net.buff
    → remain ≤ fuel
    → ReadsInto net pos remain (read_loop fuel net pos remain).0 (read_loop fuel net pos remain).1
unfolding read_loop
read_loop-ReadsInto fuel net pos zero room h = record {
  fresh = [];
  received = sym (append-nil net.vio.kernel.received);
  stored = write_nothing net.buff pos;
  within = omega arith;
  full = λ e. (refl, refl);
  failed = λ e. cc;
  short = λ e. cc;
  sent = refl;
  whole = refl;
  sd = refl;
  kept = refl;
}
read_loop-ReadsInto zero net pos (suc r) room h = absurd (omega arith)
read_loop-ReadsInto (suc fuel) net pos (suc r) room h =
    read_some-ReadsInto net pos r (vio_read net.vio (suc r)).1 (vio_read-sd net.vio (suc r)) fuel
      (vio_read net.vio (suc r)).0 room (omega arith) (vio_read-Reads net.vio (suc r))
      (read_loop-ReadsInto fuel)

-- A connection that has data, and no failure, to come.
pub record IsFed (net : Net) : Type 0 where
  pub fd : ℕ
  pub open_sd : net.vio.sd ≡ some fd
  pub data_only : IsData net.vio.kernel.incoming

-- A loop that finds its bytes on the way.
abbrev pub Feeds : Net → Bool × Net → Type 0
Feeds net (ok, out) =
    (fresh : List ℕ) × (ok ≡ true)
    × IsFed out
    × (stream net.vio.kernel.incoming ≡ fresh ++ stream out.vio.kernel.incoming)
    × (out.vio.kernel.received ≡ net.vio.kernel.received ++ fresh)

read_some-Feeds :
    (fuel : ℕ) (net : Net) (pos r : ℕ) (got : Option (List ℕ)) (vio : Vio)
    → IsFed net
    → vio.sd ≡ net.vio.sd
    → suc r ≤ length (stream net.vio.kernel.incoming)
    → r ≤ fuel
    → Reads net.vio.kernel (suc r) got vio.kernel
    → Delivers net.vio.kernel got vio.kernel
    → ((n : Net) (p k : ℕ)
        → IsFed n
        → k ≤ length (stream n.vio.kernel.incoming)
        → k ≤ fuel
        → Feeds n (read_loop fuel n p k))
    → Feeds net (read_some got (record net { vio = vio }) pos (suc r) (read_loop fuel))
unfolding read_some
read_some-Feeds fuel net pos r none vio f same more h d (b, bytes, e, s, i) next = cc
read_some-Feeds fuel net pos r (some []) vio f same more h d (b, bytes, e, s, i) next = cc
read_some-Feeds fuel net pos r (some (c ∷ rest)) vio f same more h d (b, bytes, e, s, i) next =
    let got : c ∷ rest ≡ b ∷ bytes = cc in
    let moved : stream net.vio.kernel.incoming ≡ (c ∷ rest) ++ stream vio.kernel.incoming =
      s ∙ ap (λ xs. xs ++ stream vio.kernel.incoming) (sym got) in
    let (fresh, ok, fed, all, received) =
      next (record net { vio = vio; buff = write_at net.buff pos (c ∷ rest) })
        (pos + length (c ∷ rest)) (suc r - length (c ∷ rest))
        (record { fd = f.fd; open_sd = same ∙ f.open_sd; data_only = i })
        (omega (arith, ap length moved, length-append (c ∷ rest) (stream vio.kernel.incoming)))
        (omega arith) in
    (
      (c ∷ rest) ++ fresh,
      ok,
      fed,
      moved ∙ ap (◌++◌ (c ∷ rest)) all ∙ sym (append_assoc (c ∷ rest) fresh _),
      received
          ∙ ap (λ xs. xs ++ fresh) d.received
          ∙ append_assoc net.vio.kernel.received (c ∷ rest) fresh,
    )

-- Where enough data is on its way, in segments of any sizes, the loop gets its bytes.
pub read_loop-Feeds :
    (fuel : ℕ) (net : Net) (pos remain : ℕ)
    → IsFed net
    → remain ≤ length (stream net.vio.kernel.incoming)
    → remain ≤ fuel
    → Feeds net (read_loop fuel net pos remain)
unfolding read_loop
read_loop-Feeds fuel net pos zero f more h =
    ([], refl, f, refl, sym (append-nil net.vio.kernel.received))
read_loop-Feeds zero net pos (suc r) f more h = absurd (omega arith)
read_loop-Feeds (suc fuel) net pos (suc r) f more h =
    read_some-Feeds fuel net pos r (vio_read net.vio (suc r)).0 (vio_read net.vio (suc r)).1 f
      (vio_read-sd net.vio (suc r)) more (omega arith) (vio_read-Reads net.vio (suc r))
      (vio_read-Delivers f.fd net.vio r f.open_sd f.data_only (omega arith)) (read_loop-Feeds fuel)
