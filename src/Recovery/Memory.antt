-- ===== src/Recovery/Memory.antt =====
-- A tdb file in memory, which never fails.
use ctdb.Base.{
  ℕ, ◌≡◌, ◌≢◌, refl, sym, ◌∙◌, ap, arith, Bool, true, false, none, some, Option, List, [], ◌∷◌,
  ◌==◌, if◌then◌else◌, if-elim,
}
use ctdb.Dmaster.Header.{Rec}
use ctdb.Recovery.Database.{Value, full, values_at, to_list, Tdbs}

abbrev pub Entries : Type 0
Entries = List (ℕ × Value)

unfoldable pub lookup : Entries → ℕ → Option Value
lookup [] k = none
lookup ((j, v) ∷ rs) k = let rest = lookup rs k in if j == k then some v else rest

unfoldable pub remove : ℕ → Entries → Entries
remove k [] = []
remove k ((j, v) ∷ rs) = let rest = remove k rs in if j == k then rest else (j, v) ∷ rest

-- Each key once, with its first value
unfoldable pub distinct : Entries → Entries
distinct [] = []
distinct ((j, v) ∷ rs) = (j, v) ∷ remove j (distinct rs)

pub lookup-add :
    (s t : Entries) (k : ℕ) (r : Rec) → some ((k, full r) ∷ s) ≡ some t → lookup t k ≡ some (full r)
unfolding lookup
lookup-add s t k r e =
    let q : (k, full r) ∷ s ≡ t = cc in
    ap (λ x. lookup x k) (sym q)
    ∙ if-elim (λ o. o ≡ some (full r)) (k == k) (some (full r)) (lookup s k) (λ _. refl)
        (λ no. absurd (ground (arith, no)))

pub lookup-add_other :
    (s t : Entries) (k j : ℕ) (r : Rec)
    → some ((k, full r) ∷ s) ≡ some t
    → j ≢ k
    → lookup t j ≡ lookup s j
unfolding lookup
lookup-add_other s t k j r e n =
    let q : (k, full r) ∷ s ≡ t = cc in
    ap (λ x. lookup x j) (sym q)
    ∙ if-elim (λ o. o ≡ lookup s j) (k == j) (some (full r)) (lookup s j)
        (λ here. absurd (n (ground (arith, here)))) (λ _. refl)

lookup-remove : (s : Entries) (k : ℕ) → lookup (remove k s) k ≡ none
unfolding lookup remove
lookup-remove [] k = refl
lookup-remove ((j, v) ∷ s) k =
    if-elim (λ m. lookup m k ≡ none) (j == k) (remove k s) ((j, v) ∷ remove k s)
      (λ _. lookup-remove s k)
      (λ other.
        if-elim (λ o. o ≡ none) (j == k) (some v) (lookup (remove k s) k)
          (λ same. absurd (let no : false ≡ true = sym other ∙ same in cc))
          (λ _. lookup-remove s k))

values_at-remove : (s : Entries) (k : ℕ) → values_at k (remove k s) ≡ []
unfolding values_at remove
values_at-remove [] k = refl
values_at-remove ((j, v) ∷ s) k =
    if-elim (λ m. values_at k m ≡ []) (j == k) (remove k s) ((j, v) ∷ remove k s)
      (λ _. values_at-remove s k)
      (λ other.
        if-elim (λ o. o ≡ []) (j == k) (v ∷ values_at k (remove k s)) (values_at k (remove k s))
          (λ same. absurd (let no : false ≡ true = sym other ∙ same in cc))
          (λ _. values_at-remove s k))

values_at-remove_other : (s : Entries) (k j : ℕ) → j ≢ k → values_at k (remove j s) ≡ values_at k s
unfolding values_at remove
values_at-remove_other [] k j n = refl
values_at-remove_other ((i, v) ∷ s) k j n =
    let rest = values_at-remove_other s k j n in
    if-elim (λ m. values_at k m ≡ (if i == k then v ∷ values_at k s else values_at k s)) (i == j)
      (remove j s) ((i, v) ∷ remove j s)
      (λ same.
        if-elim (λ o. values_at k (remove j s) ≡ o) (i == k) (v ∷ values_at k s) (values_at k s)
          (λ here. absurd (n (ground (arith, same, here)))) (λ _. rest))
      (λ other. ap (λ x. if i == k then v ∷ x else x) rest)

if-distinct :
    (b : Bool) (v : Value) (vs : List Value) (o : Option Value)
    → (b ≡ true → vs ≡ [])
    → (b ≡ false → vs ≡ to_list o)
    → (if b then v ∷ vs else vs) ≡ to_list (if b then some v else o)
if-distinct true v vs o f g = ap (◌∷◌ v) (f refl)
if-distinct false v vs o f g = g refl

pub values_at-distinct : (s : Entries) (k : ℕ) → values_at k (distinct s) ≡ to_list (lookup s k)
unfolding values_at distinct lookup
values_at-distinct [] k = refl
values_at-distinct ((j, v) ∷ s) k =
    if-distinct (j == k) v (values_at k (remove j (distinct s))) (lookup s k)
      (λ same.
        let e : j ≡ k = ground (arith, same) in
        ap (λ i. values_at k (remove i (distinct s))) e ∙ values_at-remove (distinct s) k)
      (λ other.
        values_at-remove_other (distinct s) k j (λ e. ground (arith, other, e))
        ∙ values_at-distinct s k)

pub lookup-empty : (k : ℕ) → lookup [] k ≡ none
unfolding lookup
lookup-empty k = refl

pub lookup-deleted : (s t : Entries) (k : ℕ) → some (remove k s) ≡ some t → lookup t k ≡ none
lookup-deleted s t k e =
    let q : remove k s ≡ t = cc in ap (λ x. lookup x k) (sym q) ∙ lookup-remove s k

pub lookup-wiped : (t : Entries) (k : ℕ) → some [] ≡ some t → lookup t k ≡ none
lookup-wiped t k e = let q : [] ≡ t = cc in ap (λ x. lookup x k) (sym q) ∙ lookup-empty k

abbrev pub memory : Tdbs
memory = record {
  State = Entries;
  empty = [];
  fetch = lookup;
  store = λ s k r. some ((k, full r) ∷ s);
  delete = λ s k. some (remove k s);
  wipe = λ s. some [];
  traverse = distinct;
  fetch-empty = lookup-empty;
  fetch-store = lookup-add;
  fetch-store_other = lookup-add_other;
  fetch-delete = lookup-deleted;
  fetch-wipe = λ s t k e. lookup-wiped t k e;
  traverse_lem = values_at-distinct;
}
