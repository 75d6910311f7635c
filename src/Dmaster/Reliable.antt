-- ===== src/Dmaster/Reliable.antt =====
-- Writes of the record (server/ctdb_ltdb_server.c) where tdb does not fail.
use ctdb.Base.{ℕ, ◌≡◌, refl, Bool, true, false, some, List, if◌then◌else◌}
use ctdb.Dmaster.Header.{Header, Rec}
use ctdb.Dmaster.Node.{Env}
use ctdb.Dmaster.Store.{
  Stored, write, remove, ctdb_ltdb_store_server, keep_record, drop, keep, keep_and_schedule,
  schedules, stored_header,
}
use ctdb.Dmaster.Call.{N}

-- No write fails.
pub record Reliable (e : Env) : Type 0 where
  pub store : (s : e.State) (r : Rec) → (t : e.State) × (e.store s r ≡ some t)
  pub delete : (s : e.State) → (t : e.State) × (e.delete s ≡ some t)

pub if-true : {A : Type 0} (b : Bool) (x y : A) → b ≡ true → (if b then x else y) ≡ x
if-true true x y q = refl
if-true false x y q = cc

pub if-false : {A : Type 0} (b : Bool) (x y : A) → b ≡ false → (if b then x else y) ≡ y
if-false true x y q = cc
if-false false x y q = refl

module _ (e : Env) where
  write-ok :
      (n : N e) (h : Header) (body : List ℕ) (b : Bool)
      → Reliable e
      → (write e n h body b).ok ≡ true
  unfolding write
  write-ok n h body b r =
      let (t, q) = r.store n.store (record { header = stored_header e n h; body = body }) in
      rw (q, write) refl

  remove-ok : (n : N e) (h : Header) → Reliable e → (remove e n h).ok ≡ true
  unfolding remove
  remove-ok n h r = let (t, q) = r.delete n.store in rw (q, remove) refl

  pub store-ok :
      (n : N e) (h : Header) (body : List ℕ)
      → Reliable e
      → (ctdb_ltdb_store_server e n h body).ok ≡ true
  unfolding ctdb_ltdb_store_server
  store-ok n h body r =
      elim (keep_record e n h body)
        as (λ k.
          (elim k as (λ j. Stored e) [
            | drop ↦ remove e n h
            | keep ↦ write e n h body (schedules e n h body keep)
            | keep_and_schedule ↦ write e n h body true
          ]).ok
          ≡ true) [
            | drop ↦ remove-ok n h r
            | keep ↦ write-ok n h body (schedules e n h body keep) r
            | keep_and_schedule ↦ write-ok n h body true r
          ]
