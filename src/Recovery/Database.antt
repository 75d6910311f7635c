-- ===== src/Recovery/Database.antt =====
-- The tdb files that a recovery reads and writes, and the records that are sent between the nodes.
use ctdb.Base.{ℕ, ◌≡◌, ◌≢◌, Option, none, some, List, [], ◌∷◌, ◌==◌, if◌then◌else◌, ap}
use ctdb.Dmaster.Header.{Header, Rec}
use ctdb.Dmaster.Node.{Env, CallResult}

-- A value of a tdb file: a header with the data behind it, or something shorter than a header.
pub data Value : Type 0 where
  short : List ℕ → Value
  full : Rec → Value

abbrev pub rec_of : Option Value → Option Rec
rec_of none = none
rec_of (some (short bytes)) = none
rec_of (some (full r)) = some r

-- The values that a list of records has for a key.
unfoldable pub values_at : ℕ → List (ℕ × Value) → List Value
values_at k [] = []
values_at k ((j, v) ∷ rs) = let rest = values_at k rs in if j == k then v ∷ rest else rest

abbrev pub to_list : Option Value → List Value
to_list none = []
to_list (some v) = v ∷ []

-- The library tdb. A traversal meets each record once. `none` is a call that failed. Inside a transaction a failed write changes nothing.
pub record Tdbs : Type 1 where
  pub State : Type 0
  pub empty : State
  pub fetch : State → ℕ → Option Value
  pub store : State → ℕ → Rec → Option State
  pub delete : State → ℕ → Option State
  pub wipe : State → Option State
  pub traverse : State → List (ℕ × Value)
  pub fetch-empty : (k : ℕ) → fetch empty k ≡ none
  pub fetch-store :
      (s t : State) (k : ℕ) (r : Rec) → store s k r ≡ some t → fetch t k ≡ some (full r)
  pub fetch-store_other :
      (s t : State) (k j : ℕ) (r : Rec) → store s k r ≡ some t → j ≢ k → fetch t j ≡ fetch s j
  pub fetch-delete : (s t : State) (k : ℕ) → delete s k ≡ some t → fetch t k ≡ none
  pub fetch-wipe : (s t : State) (k : ℕ) → wipe s ≡ some t → fetch t k ≡ none
  pub traverse_lem : (s : State) (k : ℕ) → values_at k (traverse s) ≡ to_list (fetch s k)

-- The databases of the nodes, with the hash of the keys.
pub record Dbs : Type 1 where
  pub tdbs : Tdbs
  pub open tdbs use *
  pub hash : ℕ → ℕ
  pub call_fn : ℕ → Option (Header → List ℕ → Option CallResult)

-- One key of a file, as the code for a single record sees it.
abbrev pub at_key : Dbs → ℕ → Env
at_key d k = record {
  tdb = record {
    State = d.State;
    fetch = λ s. rec_of (d.fetch s k);
    store = λ s r. d.store s k r;
    delete = λ s. d.delete s k;
    fetch-store = λ s t r e. ap rec_of (d.fetch-store s t k r e);
    fetch-delete = λ s t e. ap rec_of (d.fetch-delete s t k e);
  };
  key = k;
  key_hash = d.hash k;
  call_fn = d.call_fn;
}
