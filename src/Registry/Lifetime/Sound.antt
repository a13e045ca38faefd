-- ===== src/Registry/Lifetime/Sound.antt =====
-- Which objects of the table have their threads, and which threads their objects.
use server_simple.Base.{
  ℕ, ◌<◌, ◌≡◌, ◌≢◌, refl, sym, ap, subst, ◌∙◌, ◌⊎◌, inl, inr, arith, Bool-cases, Option, some, List,
  [], ◌∷◌, ◌++◌, ◌==◌, ==_iff, if◌then◌else◌,
}
use server_simple.Registry.{find, erase}
use server_simple.Registry.Lookup.{find-erase-some, find-erase-other}
use server_simple.Registry.Lifetime.{
  Object, Objects, start_object, stop_object, end_worker, Step, Steps, starts, stops, ends, done,
  later, In,
}

-- No two threads of one object.
abbrev pub AreApart : List Object → Type 0
AreApart [] = Unit
AreApart (t ∷ ts) = ((u : Object) → In u ts → u.number ≢ t.number) × AreApart ts

-- Every object stands under one key, and has its thread unless its user is not this key; no two threads
-- got one object.
pub record IsSound (w : Objects) : Type 0 where
  pub has_worker :
      (key : ℕ) (o : Object) → find key w.table ≡ some o → In o w.workers ⊎ (o.user ≢ key)
  pub one_key :
      (j k : ℕ) (o p : Object)
      → find j w.table ≡ some o
      → find k w.table ≡ some p
      → o.number ≡ p.number
      → j ≡ k
  pub kept : (key : ℕ) (o : Object) → find key w.table ≡ some o → o.number < w.next
  pub made : (t : Object) → In t w.workers → t.number < w.next
  pub apart : AreApart w.workers

In-more : (xs ys : List Object) (t u : Object) → In u (xs ++ ys) → In u (xs ++ (t ∷ ys))
In-more [] ys t u i = inr i
In-more (x ∷ xs) ys t u (inl e) = inl e
In-more (x ∷ xs) ys t u (inr i) = inr (In-more xs ys t u i)

In-cases : (xs ys : List Object) (t u : Object) → In u (xs ++ (t ∷ ys)) → (t ≡ u) ⊎ In u (xs ++ ys)
In-cases [] ys t u (inl e) = inl e
In-cases [] ys t u (inr i) = inr i
In-cases (x ∷ xs) ys t u (inl e) = inr (inl e)
In-cases (x ∷ xs) ys t u (inr i) = elim (In-cases xs ys t u i) [
  | inl e ↦ inl e
  | inr j ↦ inr (inr j)
]

In-middle : (xs ys : List Object) (t : Object) → In t (xs ++ (t ∷ ys))
In-middle [] ys t = inl refl
In-middle (x ∷ xs) ys t = inr (In-middle xs ys t)

AreApart-less :
    (xs ys : List Object) (t : Object)
    → AreApart (xs ++ (t ∷ ys))
    → ((u : Object) → In u (xs ++ ys) → u.number ≢ t.number) × AreApart (xs ++ ys)
AreApart-less [] ys t (far, apart) = (far, apart)
AreApart-less (x ∷ xs) ys t (far, apart) =
    let (away, rest) = AreApart-less xs ys t apart in
    (
      λ u i. elim i [
        | inl e ↦ λ same. far t (In-middle xs ys t) (sym (ap (λ (o : Object). o.number) e ∙ same))
        | inr j ↦ away u j
      ],
      (λ u i. far u (In-more xs ys t u i), rest),
    )

some_object : {a b : Object} → ◌≡◌ {A = Option Object} (some a) (some b) → a ≡ b
some_object e = cc

-- What is found after a start.
start-cases :
    (w : Objects) (key user k : ℕ) (o : Object)
    → find k (start_object w key user).table ≡ some o
    → ((key ≡ k) × (record { number = w.next; user = user } ≡ o)) ⊎ (find k w.table ≡ some o)
unfolding find
start-cases w key user k o e =
    let new : Object = record { number = w.next; user = user } in
    elim (Bool-cases (key == k)) [
      | inl same ↦ inl (
        (==_iff key k).0 same,
        some_object (sym (ap (λ b. if b then some new else find k w.table) same) ∙ e),
      )
      | inr other ↦ inr (sym (ap (λ b. if b then some new else find k w.table) other) ∙ e)
    ]

starts-IsSound : (w : Objects) (key user : ℕ) → IsSound w → IsSound (start_object w key user)
starts-IsSound w key user s =
    let number = λ (o : Object). o.number in
    record {
      has_worker = λ k o e. elim (start-cases w key user k o e) [
        | inl p ↦ inl (inl p.1)
        | inr f ↦ elim (s.has_worker k o f) [ inl i ↦ inl (inr i) | inr d ↦ inr d ]
      ];
      one_key = λ j k o p e f same. elim (start-cases w key user j o e) [
        | inl a ↦ elim (start-cases w key user k p f) [
          | inl b ↦ sym a.0 ∙ b.0
          | inr g ↦ absurd (omega (arith, ap number a.1, s.kept k p g, same))
        ]
        | inr g ↦ elim (start-cases w key user k p f) [
          | inl b ↦ absurd (omega (arith, ap number b.1, s.kept j o g, same))
          | inr h ↦ s.one_key j k o p g h same
        ]
      ];
      kept = λ k o e. elim (start-cases w key user k o e) [
        | inl a ↦ omega (arith, ap number a.1)
        | inr f ↦ omega (arith, s.kept k o f)
      ];
      made =
          λ t i. elim i [ inl e ↦ omega (arith, ap number e) | inr j ↦ omega (arith, s.made t j) ];
      apart = (λ u i same. omega (arith, s.made u i, same), s.apart);
    }

-- The keys that an erasure leaves.
erased-IsSound :
    (w : Objects) (key : ℕ) (workers : List Object)
    → IsSound w
    → ((k : ℕ) (o : Object) → find k w.table ≡ some o → k ≢ key → In o workers ⊎ (o.user ≢ k))
    → ((t : Object) → In t workers → In t w.workers)
    → AreApart workers
    → IsSound (stop_object (record w { workers = workers }) key)
erased-IsSound w key workers s with_worker still apart =
    let before = λ (k : ℕ) (o : Object) (e : find k (erase key w.table) ≡ some o).
      find-erase-some key k w.table o e in
    record {
      has_worker = λ k o e. with_worker k o (before k o e).1 (before k o e).0;
      one_key = λ j k o p e f same. s.one_key j k o p (before j o e).1 (before k p f).1 same;
      kept = λ k o e. s.kept k o (before k o e).1;
      made = λ t i. s.made t (still t i);
      apart = apart;
    }

ends-IsSound :
    (w : Objects) (xs ys : List Object) (t : Object)
    → w.workers ≡ xs ++ (t ∷ ys)
    → IsSound w
    → IsSound (end_worker w xs t ys)
ends-IsSound w xs ys t split s =
    erased-IsSound w t.user (xs ++ ys) s
      (λ k o e other. elim (s.has_worker k o e) [
        | inl i ↦ elim (In-cases xs ys t o (subst (In o) split i)) [
          | inl mine ↦ inr (λ same. other (sym same ∙ sym (ap (λ (u : Object). u.user) mine)))
          | inr j ↦ inl j
        ]
        | inr d ↦ inr d
      ])
      (λ u i. subst (In u) (sym split) (In-more xs ys t u i))
      (AreApart-less xs ys t (subst AreApart split s.apart)).1

Step-IsSound : (v w : Objects) → Step v w → IsSound v → IsSound w
Step-IsSound v w (starts key user absent) s = starts-IsSound v key user s
Step-IsSound v w (stops key) s =
    erased-IsSound v key v.workers s (λ k o e other. s.has_worker k o e) (λ t i. i) s.apart
Step-IsSound v w (ends xs ys t e) s = ends-IsSound v xs ys t e s

-- In whatever order notifications are started and stopped and threads end, every notification of the
-- table stands under one key, and its thread has not ended, unless the user that its packet has is not
-- this key; and no two threads got one object.
pub Steps-IsSound : (v w : Objects) → Steps v w → IsSound v → IsSound w
Steps-IsSound v w done s = s
Steps-IsSound v w (later {v = u} x rest) s = Steps-IsSound u w rest (Step-IsSound v u x s)

-- A thread with a pointer to a deleted object.
abbrev pub Dangles : Objects → Object → Type 0
Dangles w o = In o w.workers × ((key : ℕ) → find key w.table ≢ some o)

-- From a table as `Steps-IsSound` keeps it, a thread that ends while under its user there is the object
-- of a later packet with this user deletes that object, whose thread has not ended and goes on with its
-- pointer.
pub ends-Dangles :
    (w : Objects) (xs ys : List Object) (t o : Object)
    → IsSound w
    → w.workers ≡ xs ++ (t ∷ ys)
    → find t.user w.table ≡ some o
    → o.user ≡ t.user
    → t.number ≢ o.number
    → Dangles (end_worker w xs t ys) o
ends-Dangles w xs ys t o s split found same newer = (
  elim (s.has_worker t.user o found) [
    | inl i ↦ elim (In-cases xs ys t o (subst (In o) split i)) [
      | inl mine ↦ absurd (newer (ap (λ (u : Object). u.number) mine))
      | inr j ↦ j
    ]
    | inr d ↦ absurd (d same)
  ],
  λ key e.
      let (differs, before) = find-erase-some t.user key w.table o e in
      differs (s.one_key key t.user o o before found refl),
)

-- An object that no thread has.
abbrev pub IsOrphan : Objects → Object → Type 0
IsOrphan w o = (u : Object) → In u w.workers → u.number ≢ o.number

-- From a table as `Steps-IsSound` keeps it, a thread whose user is not the key of its object leaves the
-- object in the table when it ends, and no thread has it any more.
pub ends-IsOrphan :
    (w : Objects) (xs ys : List Object) (t : Object) (key : ℕ)
    → IsSound w
    → w.workers ≡ xs ++ (t ∷ ys)
    → find key w.table ≡ some t
    → t.user ≢ key
    → (find key (end_worker w xs t ys).table ≡ some t) × IsOrphan (end_worker w xs t ys) t
ends-IsOrphan w xs ys t key s split found other = (
  find-erase-other t.user key w.table (λ e. other (sym e)) ∙ found,
  (AreApart-less xs ys t (subst AreApart split s.apart)).0,
)
