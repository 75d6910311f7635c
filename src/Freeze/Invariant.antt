-- ===== src/Freeze/Invariant.antt =====
-- server/ctdb_freeze.c: handles, waiters and the transaction are consistent with the freeze modes.
use ctdb.Base.{
  ℕ, ◌≡◌, refl, sym, ◌∙◌, inl, inr, Bool, true, false, not, none, some, Option, List, [], ◌∷◌,
  if-elim, Bool-cases, Option-cases,
}
use ctdb.Freeze.State.{
  Priority, one, two, three, same, FreezeMode, thawed, pending, frozen, is_frozen, Slot, Freezer,
  put, reply_all, ctdb_freeze_handle_destructor, free_handle, ctdb_freeze_lock_handler,
  ctdb_start_freeze, add_waiter,
}

-- A priority has a handle unless it is thawed, and nothing waits for it once it is frozen.
abbrev HandleFits : FreezeMode → Option (List ℕ) → Type 0
HandleFits thawed h = h ≡ none
HandleFits pending none = ⊥
HandleFits pending (some waiters) = Unit
HandleFits frozen h = h ≡ some []

abbrev pub Fits : Slot → Type 0
Fits x = HandleFits x.freeze_mode x.freeze_handle

-- The transaction of a recovery is there only while all databases are frozen.
pub record Consistent (s : Freezer) : Type 0 where
  pub fits : (p : Priority) → Fits (s.slot p)
  pub frozen :
      s.freeze_transaction_started ≡ true → (p : Priority) → is_frozen (s.slot p).freeze_mode ≡ true

pub stopped-Consistent :
    (s : Freezer)
    → ((p : Priority) → Fits (s.slot p))
    → s.freeze_transaction_started ≡ false
    → Consistent s
stopped-Consistent s f off = record { fits = f; frozen = λ on. cc }

put-Fits :
    (p : Priority) (x : Slot) (s : Freezer)
    → Fits x
    → ((q : Priority) → Fits (s.slot q))
    → (q : Priority) → Fits ((put p x s).slot q)
unfolding put
put-Fits p x s f h q = if-elim Fits (same p q) x (s.slot q) (λ _. f) (λ _. h q)

put-stopped :
    (p : Priority) (x : Slot) (s : Freezer)
    → Fits x
    → ((q : Priority) → Fits (s.slot q))
    → s.freeze_transaction_started ≡ false
    → Consistent (put p x s)
unfolding put
put-stopped p x s f h off = record { fits = put-Fits p x s f h; frozen = λ on. cc }

reply_all-Consistent :
    (ok : Bool) (ws : List ℕ) (s : Freezer) → Consistent s → Consistent (reply_all ok ws s)
unfolding reply_all
reply_all-Consistent ok [] s c = c
reply_all-Consistent ok (w ∷ ws) s c =
    reply_all-Consistent ok ws _ (record { fits = c.fits; frozen = c.frozen })

destructor-Consistent :
    (p : Priority) (s : Freezer) → Consistent s → Consistent (ctdb_freeze_handle_destructor p s)
unfolding ctdb_freeze_handle_destructor
destructor-Consistent p s c =
    if-elim
      (λ (x : Freezer).
        Consistent (put p (record { freeze_mode = thawed; freeze_handle = none }) x))
      s.freeze_transaction_started _ _
      (λ on.
        put-stopped p (record { freeze_mode = thawed; freeze_handle = none }) _ refl c.fits refl)
      (λ off.
        put-stopped p (record { freeze_mode = thawed; freeze_handle = none }) s refl c.fits off)

pub free_handle-Consistent :
    (p : Priority) (ws : List ℕ) (s : Freezer) → Consistent s → Consistent (free_handle p ws s)
unfolding free_handle
free_handle-Consistent p ws s c = reply_all-Consistent false ws _ (destructor-Consistent p s c)

-- A slot that changes while no transaction is there.
put-Consistent :
    (p : Priority) (x : Slot) (s : Freezer)
    → Fits x
    → is_frozen (s.slot p).freeze_mode ≡ false
    → Consistent s
    → Consistent (put p x s)
put-Consistent p x s f not_frozen c = elim (Bool-cases s.freeze_transaction_started) [
  | inl on ↦ (let is = c.frozen on p in let no : false ≡ true = sym not_frozen ∙ is in cc)
  | inr off ↦ put-stopped p x s f c.fits off
]

pub lock-Consistent :
    (p : Priority) (locked : Bool) (ws : List ℕ) (s : Freezer)
    → Consistent s
    → Consistent (ctdb_freeze_lock_handler p locked ws s)
unfolding ctdb_freeze_lock_handler
lock-Consistent p locked ws s c =
    if-elim Consistent (is_frozen (s.slot p).freeze_mode) _ _ (λ _. free_handle-Consistent p ws s c)
      (λ not_frozen.
        if-elim Consistent (not locked) _ _ (λ _. free_handle-Consistent p ws s c)
          (λ _. reply_all-Consistent true ws _ (
            put-Consistent p (record { freeze_mode = frozen; freeze_handle = some [] }) s refl
              not_frozen c)))

-- A freeze that was started is not finished yet.
pub record Started (p : Priority) (s : Freezer) : Type 0 where
  pub consistent : Consistent s
  pub unfrozen : is_frozen (s.slot p).freeze_mode ≡ false

pub same_refl : (p : Priority) → same p p ≡ true
same_refl one = refl
same_refl two = refl
same_refl three = refl

pending-Started :
    (p : Priority) (s : Freezer)
    → Started p s
    → Started p (put p (record { freeze_mode = pending; freeze_handle = some [] }) s)
unfolding put
pending-Started p s t = record {
  consistent =
      put-Consistent p (record { freeze_mode = pending; freeze_handle = some [] }) s tt t.unfrozen
        t.consistent;
  unfrozen = rw (same_refl p) refl;
}

pub start-Started : (p : Priority) (s : Freezer) → Started p s → Started p (ctdb_start_freeze p s)
unfolding ctdb_start_freeze
start-Started p s t =
    if-elim (Started p) (is_frozen (s.slot p).freeze_mode) _ _ (λ _. t)
      (λ _. elim (Option-cases (s.slot p).freeze_handle) [
        | inl none_yet ↦ rw (none_yet, ctdb_start_freeze) (pending-Started p s t)
        | inr (ws, has) ↦ rw (has, ctdb_start_freeze) t
      ])

pub start_freeze-Consistent :
    (p : Priority) (s : Freezer) → Consistent s → Consistent (ctdb_start_freeze p s)
unfolding ctdb_start_freeze
start_freeze-Consistent p s c = elim (Bool-cases (is_frozen (s.slot p).freeze_mode)) [
  | inl is ↦ rw (is, ctdb_start_freeze) c
  | inr not_frozen ↦
      (start-Started p s (record { consistent = c; unfrozen = not_frozen })).consistent
]

waiter-Fits :
    (m : FreezeMode) (h : Option (List ℕ)) (ws vs : List ℕ)
    → HandleFits m h
    → is_frozen m ≡ false
    → h ≡ some ws
    → HandleFits m (some vs)
waiter-Fits thawed h ws vs f n e = let no : none ≡ some ws = sym f ∙ e in cc
waiter-Fits pending h ws vs f n e = tt
waiter-Fits frozen h ws vs f n e = cc

pub add_waiter-Consistent :
    (request : ℕ) (p : Priority) (s : Freezer)
    → Started p s
    → Consistent (add_waiter request p s).state
unfolding add_waiter
add_waiter-Consistent request p s t = elim (Option-cases (s.slot p).freeze_handle) [
  | inl none_yet ↦ rw (none_yet, add_waiter) t.consistent
  | inr (ws, has) ↦
      let x = s.slot p in
      let c = t.consistent in
      rw (has, add_waiter)
        (put-Consistent p
          (record { freeze_mode = x.freeze_mode; freeze_handle = some (request ∷ ws) }) s
          (waiter-Fits x.freeze_mode x.freeze_handle ws (request ∷ ws) (c.fits p) t.unfrozen has)
          t.unfrozen c)
]
