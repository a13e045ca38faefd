-- ===== src/Log/Strmake.antt =====
-- `strmake` of Server/log.c.
use server_simple.Base.{
  ℕ, zero, suc, ◌+◌, ◌-◌, ◌≤◌, ◌<◌, ◌≡◌, refl, sym, ap, ◌∙◌, false, List, [], ◌∷◌, ◌++◌, min, ◌==◌,
  length, length-append, take, drop, write_at, replicate, append_assoc, arith, length-write_at,
  write_at_inside, write_at-append, length-replicate, length-take, drop-append_ge,
}
use server_simple.Log.{scan, copy, strmake}

abbrev pub NoZero : List ℕ → Type 0
NoZero [] = Unit {0}
NoZero (b ∷ t) = (0 < b) × NoZero t

scan_lem :
    (len : ℕ) (t rest : List ℕ) → NoZero t → scan len (t ++ 0 ∷ rest) ≡ min len (length t + 1)
scan_lem zero t rest z = omega arith
scan_lem (suc len) [] rest z = omega arith
scan_lem (suc len) (b ∷ t) rest (z, zs) =
    let more : (b == 0) ≡ false = ground arith in rw more (omega (arith, scan_lem len t rest zs))

copy_lem :
    (at len : ℕ) (t rest dst : List ℕ)
    → NoZero t
    → at + len < length dst
    → copy at len (t ++ 0 ∷ rest) dst
      ≡ (at + min len (length t), write_at dst at (take len t ++ 0 ∷ []))
copy_lem at zero t rest dst z h = ap (λ (n : ℕ). (n, write_at dst at (0 ∷ []))) (omega arith)
copy_lem at (suc len) [] rest dst z h = ap (λ (n : ℕ). (n, write_at dst at (0 ∷ []))) (omega arith)
copy_lem at (suc len) (b ∷ t) rest dst (z, zs) h =
    let filled = write_at dst at (b ∷ []) in
    let more : (b == 0) ≡ false = ground arith in
    rw more (
      copy_lem (at + 1) len t rest filled zs (omega (arith, h, length-write_at dst at (b ∷ [])))
      ∙ ap (λ (n : ℕ). (n, write_at filled (at + 1) (take len t ++ 0 ∷ [])))
          {y = at + min (suc len) (length (b ∷ t))} (omega arith)
      ∙ ap (λ (bs : List ℕ). (at + min (suc len) (length (b ∷ t)), bs))
          (write_at-append dst at (b ∷ []) (take len t ++ 0 ∷ []) (at + 1) refl (omega (arith, h))))

drop-replicate :
    (k j c : ℕ) (ys : List ℕ) → k ≤ j → drop k (replicate j c ++ ys) ≡ replicate (j - k) c ++ ys
drop-replicate zero j c ys h = ap (λ n. replicate n c ++ ys) (omega arith)
drop-replicate (suc k) zero c ys h = absurd (omega arith)
drop-replicate (suc k) (suc j) c ys h =
    drop-replicate k j c ys (omega arith) ∙ ap (λ n. replicate n c ++ ys) (omega arith)

-- What is left of the buffer behind the text.
behind :
    (len : ℕ) (t dst : List ℕ)
    → len < length dst
    → let n = min len (length t + 1) in
      drop
        (min len (length t) + 1)
        (take n dst ++ (replicate (len - n + 1) b'Z' ++ drop (len + 1) dst))
      ≡ replicate (len - length t) b'Z' ++ drop (len + 1) dst
behind len t dst h =
    let n = min len (length t + 1) in
    let m = min len (length t) in
    let filled = replicate (len - n + 1) b'Z' ++ drop (len + 1) dst in
    let size : length (take n dst) ≡ n = length-take n dst ∙ omega arith in
    drop-append_ge (m + 1) (take n dst) filled (omega (arith, size))
    ∙ drop-replicate (m + 1 - length (take n dst)) (len - n + 1) b'Z' (drop (len + 1) dst)
        (omega (arith, size))
    ∙ ap (λ k. replicate k b'Z' ++ drop (len + 1) dst) (omega (arith, size))

-- With room for `len` bytes and a 0, `strmake` leaves the text, cut off at `len` bytes, with a 0 behind it,
-- fills the rest of the room with 'Z', touches nothing behind it, and returns where the 0 is.
pub strmake_lem :
    (dst t rest : List ℕ) (len : ℕ)
    → NoZero t
    → len < length dst
    → strmake dst (t ++ 0 ∷ rest) len ≡ (
      min len (length t),
      take len t ++ 0 ∷ (replicate (len - length t) b'Z' ++ drop (len + 1) dst),
    )
unfolding strmake
strmake_lem dst t rest len z h =
    let n = min len (length t + 1) in
    let marks : List ℕ = replicate (len - n + 1) b'Z' in
    let filled = take n dst ++ (marks ++ drop (len + 1) dst) in
    let text = take len t ++ 0 ∷ [] in
    let marked : write_at dst n marks ≡ filled =
      write_at_inside dst n marks (len + 1)
        (omega (arith, length-replicate {A = ℕ} (len - n + 1) b'Z')) (omega arith) in
    let same_size : length filled ≡ length dst =
      sym (ap length marked) ∙ length-write_at dst n marks in
    let size : length text ≡ min len (length t) + 1 =
      length-append (take len t) (0 ∷ []) ∙ omega (arith, length-take len t) in
    rw (scan_lem len t rest z) (
      ap (copy 0 len (t ++ 0 ∷ rest)) marked
      ∙ copy_lem 0 len t rest filled z (omega (arith, same_size, h))
      ∙ ap (λ (bs : List ℕ). (0 + min len (length t), bs))
          (write_at_inside filled 0 text (min len (length t) + 1) (omega (arith, size))
              (omega (arith, same_size))
            ∙ ap (λ bs. text ++ bs) (behind len t dst h)
            ∙ append_assoc (take len t) (0 ∷ []) _)
      ∙ ap
          (λ (k : ℕ).
            (k, take len t ++ 0 ∷ (replicate (len - length t) b'Z' ++ drop (len + 1) dst)))
          {x = 0 + min len (length t)} {y = min len (length t)} (omega arith))
