-- ===== src/Lock/Scan.antt =====
-- server/ctdb_lock.c: what the loop of ctdb_lock_schedule and the changes of a list leave.
use ctdb.Base.{
  In, ℕ, ◌+◌, ◌≡◌, ◌≢◌, inl, inr, refl, sym, ap, arith, none, some, Option, List, [], ◌∷◌, ◌++◌,
  ◌==◌, All, if-elim, Option-cases, Bool-cases,
}
use ctdb.Lock.Context.{Target, LockContext, Lock, lock_of, fits, fits_iff, find_lock_context}
use ctdb.Lock.Schedule.{Scan, scan, length_of, kept, is_empty, dlist_remove, enqueue, drop_request}
use ctdb.Lock.Steps.{locks, Blocked}

-- A list with elements left out.
pub data Thinned : List Lock → List Lock → Type 0 where
  end : Thinned [] []
  keep : {xs ys : List Lock} (l : Lock) → Thinned xs ys → Thinned (l ∷ xs) (l ∷ ys)
  skip : {xs ys : List Lock} (l : Lock) → Thinned xs ys → Thinned xs (l ∷ ys)

pub Thinned-refl : (xs : List Lock) → Thinned xs xs
Thinned-refl [] = end
Thinned-refl (x ∷ xs) = keep x (Thinned-refl xs)

-- No lock twice.
abbrev pub Distinct : List Lock → Type 0
Distinct [] = Unit
Distinct (l ∷ ls) = All (λ k. k ≢ l) ls × Distinct ls

pub All-Thinned : (P : Lock → Type 0) {xs ys : List Lock} → Thinned xs ys → All P ys → All P xs
All-Thinned P end h = tt
All-Thinned P (keep l t) h = (h.0, All-Thinned P t h.1)
All-Thinned P (skip l t) h = All-Thinned P t h.1

pub Distinct-Thinned : {xs ys : List Lock} → Thinned xs ys → Distinct ys → Distinct xs
Distinct-Thinned end h = tt
Distinct-Thinned (keep l t) h = (All-Thinned (λ k. k ≢ l) t h.0, Distinct-Thinned t h.1)
Distinct-Thinned (skip l t) h = Distinct-Thinned t h.1

pub All-end :
    (P : Lock → Type 0) (xs : List Lock) (l : Lock) → All P xs → P l → All P (xs ++ l ∷ [])
All-end P [] l h p = (p, tt)
All-end P (x ∷ xs) l h p = (h.0, All-end P xs l h.1 p)

not_In : (l : Lock) (xs : List Lock) → ¬ In l xs → All (λ k. k ≢ l) xs
not_In l [] h = tt
not_In l (x ∷ xs) h = ((λ e. h (inl e)), not_In l xs (λ i. h (inr i)))

pub Distinct-end : (xs : List Lock) (l : Lock) → Distinct xs → ¬ In l xs → Distinct (xs ++ l ∷ [])
Distinct-end [] l h n = (tt, tt)
Distinct-end (x ∷ xs) l h n =
    (All-end (λ k. k ≢ x) xs l h.0 (λ e. n (inl (sym e))), Distinct-end xs l h.1 (λ i. n (inr i)))

pub In-end : (k l : Lock) (xs : List Lock) → In k xs → In k (xs ++ l ∷ [])
In-end k l [] i = elim i [ ]
In-end k l (x ∷ xs) (inl e) = inl e
In-end k l (x ∷ xs) (inr i) = inr (In-end k l xs i)

pub locks-append : (xs ys : List LockContext) → locks (xs ++ ys) ≡ locks xs ++ locks ys
locks-append [] ys = refl
locks-append (x ∷ xs) ys = ap (◌∷◌ (lock_of x.target)) (locks-append xs ys)

pub length_of-append :
    (xs ys : List LockContext) → length_of (xs ++ ys) ≡ length_of xs + length_of ys
length_of-append [] ys = omega arith
length_of-append (x ∷ xs) ys = omega (arith, length_of-append xs ys)

-- find_lock_context decides whether the lock is in the list.
pub find_lock_context-In :
    (cs : List LockContext) (t : Target) (c : LockContext)
    → find_lock_context cs t ≡ some c
    → In (lock_of t) (locks cs)
unfolding find_lock_context
find_lock_context-In [] t c e = cc
find_lock_context-In (d ∷ cs) t c e = elim (Bool-cases (fits t d.target)) [
  | inl hit ↦ inl (sym ((fits_iff t d.target).0 hit))
  | inr miss ↦ inr (find_lock_context-In cs t c (rw miss at e))
]

pub find_lock_context-none :
    (cs : List LockContext) (t : Target)
    → find_lock_context cs t ≡ none
    → ¬ In (lock_of t) (locks cs)
unfolding find_lock_context
find_lock_context-none [] t e i = i
find_lock_context-none (d ∷ cs) t e i = elim (Bool-cases (fits t d.target)) [
  | inl hit ↦ cc (rw hit at e)
  | inr miss ↦ elim i [
    | inl same ↦ cc ((fits_iff t d.target).1 (sym same), miss)
    | inr later ↦ find_lock_context-none cs t (rw miss at e) later
  ]
]

-- What the loop stops for: the first context that has a request and whose lock is free.
abbrev pub Stops : List Lock → Option LockContext → Type 0
Stops held none = Unit
Stops held (some c) = (c.req_queue ≢ []) × ¬ In (lock_of c.target) held

pub record IsScan (current xs : List LockContext) (r : Scan) : Type 0 where
  pub thinned : Thinned (locks (kept r)) (locks xs)
  pub counted : length_of xs ≡ length_of (kept r) + length_of r.removed
  pub passed : All (Blocked (locks current)) r.before
  pub at_end : r.picked ≡ none → r.after ≡ []
  pub stops : Stops (locks current) r.picked

pub scan-IsScan : (current xs : List LockContext) → IsScan current xs (scan current xs)
unfolding scan
scan-IsScan current [] = record {
  thinned = end;
  counted = refl;
  passed = tt;
  at_end = λ _. refl;
  stops = tt;
}
scan-IsScan current (c ∷ cs) =
    let ih = scan-IsScan current cs in
    if-elim (IsScan current (c ∷ cs)) (is_empty c.req_queue) _ _
      (λ _. record {
        thinned = skip (lock_of c.target) ih.thinned;
        counted = omega (arith, ih.counted);
        passed = ih.passed;
        at_end = ih.at_end;
        stops = ih.stops;
      })
      (λ full. elim (Option-cases (find_lock_context current c.target)) [
        | inl free ↦ rw free (record {
          thinned = Thinned-refl (locks (c ∷ cs));
          counted = omega arith;
          passed = tt;
          at_end = λ e. cc;
          stops = (cc, find_lock_context-none current c.target free);
        })
        | inr (active, e) ↦ rw e (record {
          thinned = keep (lock_of c.target) ih.thinned;
          counted = omega (arith, ih.counted);
          passed = (inr (find_lock_context-In current c.target active e), ih.passed);
          at_end = ih.at_end;
          stops = ih.stops;
        })
      ])

-- Leaving out one context, or changing the requests of one.
pub dlist_remove-Thinned :
    (id : ℕ) (cs : List LockContext) → Thinned (locks (dlist_remove id cs)) (locks cs)
unfolding dlist_remove
dlist_remove-Thinned id [] = end
dlist_remove-Thinned id (c ∷ cs) =
    if-elim (λ xs. Thinned (locks xs) (locks (c ∷ cs))) (c.id == id) _ _
      (λ _. skip (lock_of c.target) (Thinned-refl (locks cs)))
      (λ _. keep (lock_of c.target) (dlist_remove-Thinned id cs))

pub enqueue-locks :
    (id request : ℕ) (cs : List LockContext) → locks (enqueue id request cs) ≡ locks cs
unfolding enqueue
enqueue-locks id request [] = refl
enqueue-locks id request (c ∷ cs) =
    if-elim (λ xs. locks xs ≡ locks (c ∷ cs)) (c.id == id) _ _ (λ _. refl)
      (λ _. ap (◌∷◌ (lock_of c.target)) (enqueue-locks id request cs))

pub drop_request-locks :
    (id request : ℕ) (cs : List LockContext) → locks (drop_request id request cs) ≡ locks cs
unfolding drop_request
drop_request-locks id request [] = refl
drop_request-locks id request (c ∷ cs) =
    if-elim (λ xs. locks xs ≡ locks (c ∷ cs)) (c.id == id) _ _ (λ _. refl)
      (λ _. ap (◌∷◌ (lock_of c.target)) (drop_request-locks id request cs))
