-- ===== src/Freeze/Abandoned.antt =====
-- server/ctdb_freeze.c: what happens to the transaction of a recovery when a lock child dies.
use ctdb.Base.{
  ◌≢◌, ap, subst, ℕ, ◌≡◌, refl, sym, ◌∙◌, Bool, true, false, none, some, Option, List, [], ◌∷◌,
  if-elim,
}
use ctdb.Freeze.State.{
  same, Priority, one, two, three, is_frozen, Db, Freezer, put, cancel_all, cancel_priority,
  reply_all, ctdb_freeze_handle_destructor, free_handle, ctdb_freeze_lock_handler, free_if,
  thaw_priority, ctdb_control_thaw,
}
use ctdb.Freeze.Invariant.{same_refl}

-- No transaction is started, and these are the databases.
abbrev Quiet : List Db → Freezer → Type 0
Quiet dbs s = (s.freeze_transaction_started ≡ false) × (s.db_list ≡ dbs)

reply_all-Quiet :
    (dbs : List Db) (ok : Bool) (ws : List ℕ) (s : Freezer)
    → Quiet dbs s
    → Quiet dbs (reply_all ok ws s)
unfolding reply_all
reply_all-Quiet dbs ok [] s q = q
reply_all-Quiet dbs ok (w ∷ ws) s q = reply_all-Quiet dbs ok ws _ q

free_handle-Quiet :
    (dbs : List Db) (p : Priority) (ws : List ℕ) (s : Freezer)
    → Quiet dbs s
    → Quiet dbs (free_handle p ws s)
unfolding free_handle ctdb_freeze_handle_destructor put
free_handle-Quiet dbs p ws s q = reply_all-Quiet dbs false ws (ctdb_freeze_handle_destructor p s) (
    if-elim (λ (x : Freezer). Quiet dbs x) s.freeze_transaction_started _ s
      (λ on. absurd (let no : false ≡ true = sym q.0 ∙ on in cc)) (λ _. q))

free_if-Quiet :
    (dbs : List Db) (p : Priority) (o : Option (List ℕ)) (s : Freezer)
    → Quiet dbs s
    → Quiet dbs (free_if p o s)
free_if-Quiet dbs p none s q = q
free_if-Quiet dbs p (some ws) s q = free_handle-Quiet dbs p ws s q

thaw_priority-Quiet :
    (dbs : List Db) (p : Priority) (s : Freezer) → Quiet dbs s → Quiet dbs (thaw_priority p s)
unfolding thaw_priority
thaw_priority-Quiet dbs p s q = free_if-Quiet dbs p (s.slot p).freeze_handle _ (
    if-elim (λ (x : Freezer). Quiet dbs (record x { freeze_transaction_started = false }))
      s.freeze_transaction_started _ s (λ on. absurd (let no : false ≡ true = sym q.0 ∙ on in cc))
      (λ _. (refl, q.1)))

-- The transaction ends for the databases of the priority.
free_handle-stops :
    (p : Priority) (ws : List ℕ) (s : Freezer)
    → s.freeze_transaction_started ≡ true
    → Quiet (cancel_priority p s.db_list) (free_handle p ws s)
unfolding free_handle ctdb_freeze_handle_destructor put
free_handle-stops p ws s on =
    let dbs = cancel_priority p s.db_list in
    reply_all-Quiet dbs false ws (ctdb_freeze_handle_destructor p s) (
      if-elim (λ (x : Freezer). Quiet dbs x) s.freeze_transaction_started _ _ (λ _. (refl, refl))
        (λ off. absurd (let no : false ≡ true = sym off ∙ on in cc)))

abandoned :
    (p : Priority) (locked : Bool) (ws : List ℕ) (s : Freezer)
    → is_frozen (s.slot p).freeze_mode ≡ true
    → s.freeze_transaction_started ≡ true
    → (ctdb_control_thaw 0 (ctdb_freeze_lock_handler p locked ws s)).state.db_list
      ≡ cancel_priority p s.db_list
unfolding ctdb_control_thaw ctdb_freeze_lock_handler
abandoned p locked ws s f on =
    let dbs = cancel_priority p s.db_list in
    let freed : Quiet dbs (ctdb_freeze_lock_handler p locked ws s) =
      if-elim (λ (x : Freezer). Quiet dbs x) (is_frozen (s.slot p).freeze_mode) _ _
        (λ _. free_handle-stops p ws s on)
        (λ no. absurd (let bad : false ≡ true = sym no ∙ f in cc)) in
    let a = thaw_priority-Quiet dbs one _ freed in
    let b = thaw_priority-Quiet dbs two _ a in (thaw_priority-Quiet dbs three _ b).1

-- Database by database: one of the priority has its transaction cancelled, another one stays as it was.
abbrev pub OnlyOf : Priority → List Db → List Db → Type 0
OnlyOf p [] [] = Unit
OnlyOf p [] (c ∷ cs) = ⊥
OnlyOf p (b ∷ bs) [] = ⊥
OnlyOf p (b ∷ bs) (c ∷ cs) =
    (b.priority ≡ p → c ≡ record b { transaction = false })
    × (b.priority ≢ p → c ≡ b)
    × OnlyOf p bs cs

same_sound : (p q : Priority) → same p q ≡ true → p ≡ q
same_sound one one e = refl
same_sound two two e = refl
same_sound three three e = refl
same_sound one two e = cc
same_sound one three e = cc
same_sound two one e = cc
same_sound two three e = cc
same_sound three one e = cc
same_sound three two e = cc

cancel_priority-OnlyOf : (p : Priority) (dbs : List Db) → OnlyOf p dbs (cancel_priority p dbs)
unfolding cancel_priority
cancel_priority-OnlyOf p [] = tt
cancel_priority-OnlyOf p (b ∷ bs) =
    let rest = cancel_priority-OnlyOf p bs in
    if-elim (OnlyOf p (b ∷ bs)) (same b.priority p) _ _
      (λ own. (λ e. refl, λ other. absurd (other (same_sound b.priority p own)), rest))
      (λ other. (
        λ e. absurd (let no : false ≡ true = sym other ∙ ap (λ q. same q p) e ∙ same_refl p in cc),
        λ ne. refl,
        rest,
      ))

-- When the lock child of a frozen priority dies during the transaction of a recovery, then after that, and even when all
-- priorities are thawed afterwards, the databases of that priority have their transaction cancelled, and no others
-- are changed.
pub lock_child-abandons :
    (p : Priority) (locked : Bool) (ws : List ℕ) (s : Freezer)
    → is_frozen (s.slot p).freeze_mode ≡ true
    → s.freeze_transaction_started ≡ true
    → OnlyOf p s.db_list
        (ctdb_control_thaw 0 (ctdb_freeze_lock_handler p locked ws s)).state.db_list
lock_child-abandons p locked ws s f on =
    subst (OnlyOf p s.db_list) (sym (abandoned p locked ws s f on))
      (cancel_priority-OnlyOf p s.db_list)

-- A thaw of all priorities during the transaction cancels it on all databases.
thaw-closes :
    (s : Freezer)
    → s.freeze_transaction_started ≡ true
    → (ctdb_control_thaw 0 s).state.db_list ≡ cancel_all s.db_list
unfolding ctdb_control_thaw thaw_priority
thaw-closes s on =
    let dbs = cancel_all s.db_list in
    let first : Quiet dbs (thaw_priority one s) =
      free_if-Quiet dbs one (s.slot one).freeze_handle _ (
        if-elim (λ (x : Freezer). Quiet dbs (record x { freeze_transaction_started = false }))
          s.freeze_transaction_started _ s (λ _. (refl, refl))
          (λ off. absurd (let no : false ≡ true = sym off ∙ on in cc))) in
    let a = thaw_priority one s in
    let second = thaw_priority-Quiet dbs two a first in
    (thaw_priority-Quiet dbs three (thaw_priority two a) second).1
