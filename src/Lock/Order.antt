-- ===== src/Lock/Order.antt =====
-- server/ctdb_lock.c: in which order the databases are handled.
use mathlib.Core.List.{Perm, perm_middle, append_assoc, append-nil}
use mathlib.Core.List.Perm
use ctdb.Base.{
  ℕ, ◌≡◌, ◌⊎◌, inl, inr, refl, sym, ap, ◌∙◌, subst, Bool, true, false, not, ◌&&◌, List, [], ◌∷◌,
  ◌++◌, ◌==◌, All, if◌then◌else◌, Bool-cases,
}
use ctdb.Lock.Databases.{Database, later_db, Handler, first_loop, second_loop, ctdb_db_iterator}

abbrev pub select {ℓ} : {A : Type ℓ} → (A → Bool) → List A → List A
select p [] = []
select p (x ∷ xs) = let rest = select p xs in if p x then x ∷ rest else rest

-- The handler at the databases of a list, up to the first that fails.
abbrev pub visit {ℓ} : {S : Type ℓ} → Handler S → List Database → S → Bool × S
visit handler [] s = (true, s)
visit handler (db ∷ dbs) s =
    let (ok, s') = handler db s in
    let rest = visit handler dbs s' in if not ok then (false, s') else rest

module _ (hack : ℕ) where
  abbrev pub is_later : Database → Bool
  is_later db = later_db hack db.db_name

  abbrev pub in_time : ℕ → Database → Bool
  in_time priority db = db.priority == priority && not (is_later db)

  -- The databases that the iterator goes through.
  abbrev pub order : ℕ → List Database → List Database
  order priority dbs =
      select (in_time priority) dbs ++ (if priority == 1 then select is_later dbs else [])

module _ {ℓ} {S : Type ℓ} (handler : Handler S) where
  pub visit-append :
      (xs ys : List Database) (s : S)
      → visit handler (xs ++ ys) s
        ≡ (let (ok, s') = visit handler xs s in if not ok then (false, s') else visit handler ys s')
  visit-append [] ys s = refl
  visit-append (x ∷ xs) ys s = elim (Bool-cases (handler x s).0) [
    | inl ok ↦ rw ok (visit-append xs ys (handler x s).1)
    | inr failed ↦ rw failed refl
  ]

  first_loop-visit :
      (hack priority : ℕ) (dbs : List Database) (s : S)
      → first_loop handler hack priority dbs s
        ≡ visit handler (select (in_time hack priority) dbs) s
  unfolding first_loop
  first_loop-visit hack priority [] s = refl
  first_loop-visit hack priority (db ∷ dbs) s = elim (Bool-cases (db.priority == priority)) [
    | inr other ↦ rw other (first_loop-visit hack priority dbs s)
    | inl same ↦ elim (Bool-cases (later_db hack db.db_name)) [
      | inl later ↦ rw (same, later) (first_loop-visit hack priority dbs s)
      | inr now ↦ elim (Bool-cases (handler db s).0) [
        | inl ok ↦ rw (same, now, ok) (first_loop-visit hack priority dbs (handler db s).1)
        | inr failed ↦ rw (same, now, failed) refl
      ]
    ]
  ]

  second_loop-visit :
      (hack : ℕ) (dbs : List Database) (s : S)
      → second_loop handler hack dbs s ≡ visit handler (select (is_later hack) dbs) s
  unfolding second_loop
  second_loop-visit hack [] s = refl
  second_loop-visit hack (db ∷ dbs) s = elim (Bool-cases (later_db hack db.db_name)) [
    | inr now ↦ rw now (second_loop-visit hack dbs s)
    | inl later ↦ elim (Bool-cases (handler db s).0) [
      | inl ok ↦ rw (later, ok) (second_loop-visit hack dbs (handler db s).1)
      | inr failed ↦ rw (later, failed) refl
    ]
  ]

  finish :
      (hack : ℕ) (dbs : List Database) (priority : ℕ) (r : Bool × S)
      → (if not r.0
          then (false, r.1)
          else if not (priority == 1)
          then (true, r.1)
          else second_loop handler hack dbs r.1)
        ≡ (if not r.0
            then (false, r.1)
            else visit handler (if priority == 1 then select (is_later hack) dbs else []) r.1)
  finish hack dbs priority (false, s) = refl
  finish hack dbs priority (true, s) = elim (Bool-cases (priority == 1)) [
    | inl one ↦ rw one (second_loop-visit hack dbs s)
    | inr other ↦ rw other refl
  ]

  pub iterator-visit :
      (hack : ℕ) (dbs : List Database) (priority : ℕ) (s : S)
      → ctdb_db_iterator handler hack dbs priority s ≡ visit handler (order hack priority dbs) s
  unfolding ctdb_db_iterator
  iterator-visit hack dbs priority s =
      let now = select (in_time hack priority) dbs in
      let first = visit handler now s in
      ap
        (λ (r : Bool × S).
          if not r.0
          then (false, r.1)
          else if not (priority == 1)
          then (true, r.1)
          else second_loop handler hack dbs r.1)
        (first_loop-visit hack priority dbs s)
      ∙ finish hack dbs priority first
      ∙ sym (visit-append now _ s)

abbrev pub HasPriority : Database → Type 0
HasPriority db = (db.priority ≡ 1) ⊎ ((db.priority ≡ 2) ⊎ (db.priority ≡ 3))

-- The databases in the order in which the loop over all priorities goes through them.
abbrev pub all_orders : ℕ → List Database → List Database
all_orders hack dbs = order hack 1 dbs ++ (order hack 2 dbs ++ order hack 3 dbs)

-- Exactly one of four tests holds.
abbrev Once : Bool → Bool → Bool → Bool → Type 0
Once true false false false = Unit
Once false true false false = Unit
Once false false true false = Unit
Once false false false true = Unit
Once _ _ _ _ = ⊥

abbrev push : Bool → Database → List Database → List Database
push t db dbs = if t then db ∷ dbs else dbs

place :
    (p q r t : Bool) (db : Database) (a b c d : List Database)
    → Once p q r t
    → Perm
        (push p db a ++ (push q db b ++ (push r db c ++ push t db d)))
        (db ∷ (a ++ (b ++ (c ++ d))))
place true false false false db a b c d h = Perm.rfl
place false true false false db a b c d h = perm_middle a (b ++ (c ++ d))
place false false true false db a b c d h =
    Perm.trans (Perm.append_left a (perm_middle b (c ++ d))) (perm_middle a (b ++ (c ++ d)))
place false false false true db a b c d h =
    Perm.trans
      (Perm.append_left a
        (Perm.trans (Perm.append_left b (perm_middle c d)) (perm_middle b (c ++ d))))
      (perm_middle a (b ++ (c ++ d)))
place _ _ _ _ db a b c d h = absurd h

abbrev OnceAt : Bool → ℕ → Type 0
OnceAt later n = Once (n == 1 && not later) later (n == 2 && not later) (n == 3 && not later)

once_at : (later : Bool) (n : ℕ) → (n ≡ 1) ⊎ ((n ≡ 2) ⊎ (n ≡ 3)) → OnceAt later n
once_at true n (inl e) = subst (OnceAt true) (sym e) tt
once_at true n (inr (inl e)) = subst (OnceAt true) (sym e) tt
once_at true n (inr (inr e)) = subst (OnceAt true) (sym e) tt
once_at false n (inl e) = subst (OnceAt false) (sym e) tt
once_at false n (inr (inl e)) = subst (OnceAt false) (sym e) tt
once_at false n (inr (inr e)) = subst (OnceAt false) (sym e) tt

module _ (hack : ℕ) where
  abbrev parts : List Database → List Database
  parts dbs =
      select (in_time hack 1) dbs
      ++ (select (is_later hack) dbs
          ++ (select (in_time hack 2) dbs ++ select (in_time hack 3) dbs))

  parts-perm : (dbs : List Database) → All HasPriority dbs → Perm (parts dbs) dbs
  parts-perm [] h = Perm.rfl
  parts-perm (db ∷ dbs) (p, h) =
      Perm.trans
        (place _ _ _ _ db (select (in_time hack 1) dbs) (select (is_later hack) dbs)
          (select (in_time hack 2) dbs) (select (in_time hack 3) dbs)
          (once_at (is_later hack db) db.priority p))
        (Perm.cons db (parts-perm dbs h))

  all_orders-parts : (dbs : List Database) → all_orders hack dbs ≡ parts dbs
  all_orders-parts dbs = simp (append-nil, append_assoc)

  -- Each database comes once.
  pub all_orders-perm : (dbs : List Database) → All HasPriority dbs → Perm (all_orders hack dbs) dbs
  all_orders-perm dbs h = subst (λ l. Perm l dbs) (sym (all_orders-parts dbs)) (parts-perm dbs h)
