-- ===== src/Recovery/Merge.antt =====
-- server/ctdb_recoverd.c: of the records that the nodes have for a key, the one with the highest rsn is
-- kept, and of those with the same rsn the one that names the recovery master.
use ctdb.Base.{
  ℕ, ◌≤◌, ◌≡◌, ◌≢◌, refl, sym, ◌∙◌, ap, subst, ◌⊎◌, inl, inr, arith, Bool, true, false, not, none,
  some, Option, List, [], ◌∷◌, ◌++◌, ◌==◌, if◌then◌else◌, All, All-append, Option-cases, if-elim,
}
use mathlib.Core.List.{append_assoc, append-nil}
use ctdb.Dmaster.Header.{Rec}
use ctdb.Recovery.Database.{Value, short, full, values_at, Dbs}
use ctdb.Recovery.Pull.{
  Remote, replaces, Pulled, merge_record, pull_record, pull_records, pull_answer,
  pull_one_remote_database, pull_all,
}

-- The record is at least as new as the other, and on a tie names the recovery master if the other does.
abbrev pub IsNewer : ℕ → Rec → Rec → Type 0
IsNewer recovery_master c r =
    (r.header.rsn ≤ c.header.rsn)
    × (r.header.rsn ≡ c.header.rsn
        → r.header.dmaster ≡ recovery_master
        → c.header.dmaster ≡ recovery_master)

-- One of the records, and newer than all.
pub record IsBest (recovery_master : ℕ) (seen : List Rec) (c : Rec) : Type 0 where
  pub front : List Rec
  pub back : List Rec
  pub split : seen ≡ front ++ c ∷ back
  pub newer : All (IsNewer recovery_master c) seen

-- What the recovery database has for a key when it has met these records.
pub data Best (recovery_master : ℕ) (seen : List Rec) : Option Value → Type 0 where
  nothing : seen ≡ [] → Best recovery_master seen none
  best : {c : Rec} → IsBest recovery_master seen c → Best recovery_master seen (some (full c))

-- A record that comes later and is not newer than the best one changes nothing.
kept-IsBest :
    (rm : ℕ) (seen : List Rec) (c r : Rec)
    → replaces rm c.header r.header ≡ false
    → IsBest rm seen c
    → IsBest rm (seen ++ r ∷ []) c
unfolding replaces
kept-IsBest rm seen c r e b = record {
  front = b.front;
  back = b.back ++ r ∷ [];
  split = ap (λ x. x ++ r ∷ []) b.split ∙ append_assoc b.front (c ∷ b.back) (r ∷ []);
  newer =
      All-append (IsNewer rm c) seen (r ∷ []) b.newer
        ((ground (arith, e), λ same own. ground (arith, e)), tt);
}

-- A record that is as new as the new one is as new as the old one, which names another node.
tie :
    (rm : ℕ) (c r : Rec) (rsn : ℕ)
    → replaces rm c.header r.header ≡ true
    → rsn ≤ c.header.rsn
    → rsn ≡ r.header.rsn
    → (rsn ≡ c.header.rsn) × (c.header.dmaster ≢ rm)
unfolding replaces
tie rm c r rsn e l same = (ground (arith, e), λ own. ground (arith, e, own))

IsNewer-trans :
    (rm : ℕ) (c r : Rec) (seen : List Rec)
    → replaces rm c.header r.header ≡ true
    → All (IsNewer rm c) seen
    → All (IsNewer rm r) seen
unfolding replaces
IsNewer-trans rm c r [] e a = tt
IsNewer-trans rm c r (x ∷ seen) e a = (
  (
    let l = a.0.0 in ground (arith, e),
    λ same own. let t = tie rm c r x.header.rsn e a.0.0 same in absurd (t.1 (a.0.1 t.0 own)),
  ),
  IsNewer-trans rm c r seen e a.1,
)

replaced-IsBest :
    (rm : ℕ) (seen : List Rec) (c r : Rec)
    → replaces rm c.header r.header ≡ true
    → IsBest rm seen c
    → IsBest rm (seen ++ r ∷ []) r
replaced-IsBest rm seen c r e b = record {
  front = seen;
  back = [];
  split = refl;
  newer =
      All-append (IsNewer rm r) seen (r ∷ []) (IsNewer-trans rm c r seen e b.newer)
        ((omega arith, λ same own. own), tt);
}

-- The records among the values for a key.
abbrev pub recs : List Value → List Rec
recs [] = []
recs (short bytes ∷ vs) = recs vs
recs (full r ∷ vs) = r ∷ recs vs

abbrev pub recs_at : ℕ → List (ℕ × Value) → List Rec
recs_at k rs = recs (values_at k rs)

-- Either the record replaces the existing one, or nothing changes.
replaced_or_kept :
    {S : Type 0} (b : Bool) (s : S) (y : Option S) (t : S)
    → (if not b then some s else y) ≡ some t
    → ((b ≡ true) × (y ≡ some t)) ⊎ ((b ≡ false) × (s ≡ t))
replaced_or_kept true s y t p = inl (refl, p)
replaced_or_kept false s y t p = inr (refl, cc)

recs-if :
    (b : Bool) (v : Value) (rest : List Value)
    → recs (if b then v ∷ rest else rest) ≡ recs (if b then v ∷ [] else []) ++ recs rest
recs-if true (short bytes) rest = refl
recs-if true (full r) rest = refl
recs-if false v rest = refl

recs_at-cons :
    (k : ℕ) (x : ℕ × Value) (rs : List (ℕ × Value))
    → recs_at k (x ∷ rs) ≡ recs_at k (x ∷ []) ++ recs_at k rs
unfolding values_at
recs_at-cons k (j, v) rs = recs-if (j == k) v (values_at k rs)

module _ (d : Dbs) (rm : ℕ) where
  -- The recovery database has the best of the records that it has met, for every key.
  abbrev pub Merged : ℕ → List Rec → d.State → Type 0
  Merged k seen s = Best rm seen (d.fetch s k)

  stored-Merged :
      (k : ℕ) (r : Rec) (seen : List Rec) (s t : d.State)
      → IsBest rm seen r
      → d.store s k r ≡ some t
      → Merged k seen t
  stored-Merged k r seen s t b p = subst (Best rm seen) (sym (d.fetch-store s t k r p)) (best b)

  met-Merged :
      (k : ℕ) (r : Rec) (seen : List Rec) (s t : d.State) (o : Option Value)
      → d.fetch s k ≡ o
      → Best rm seen o
      → merge_record d rm k r s o ≡ some t
      → Merged k (seen ++ r ∷ []) t
  unfolding merge_record
  met-Merged k r seen s t none f (nothing e) p =
      stored-Merged k r (seen ++ r ∷ []) s t
        (record {
          front = seen;
          back = [];
          split = refl;
          newer =
              subst (λ x. All (IsNewer rm r) (x ++ r ∷ [])) (sym e)
                ((omega arith, λ same own. own), tt);
        })
        p
  met-Merged k r seen s t (some (full c)) f (best b) p =
      elim (replaced_or_kept (replaces rm c.header r.header) s (d.store s k r) t p) [
        | inl (new, stored) ↦
            stored-Merged k r (seen ++ r ∷ []) s t (replaced-IsBest rm seen c r new b) stored
        | inr (old, same) ↦
            subst (Merged k (seen ++ r ∷ [])) same
              (subst (Best rm (seen ++ r ∷ [])) (sym f) (best (kept-IsBest rm seen c r old b)))
      ]
  met-Merged k r seen s t (some (short bytes)) f b p = elim b [ ]

  -- A record leaves alone what the database has for another key.
  merge_record-other :
      (j k : ℕ) (r : Rec) (s t : d.State) (o : Option Value)
      → k ≢ j
      → merge_record d rm j r s o ≡ some t
      → d.fetch t k ≡ d.fetch s k
  unfolding merge_record
  merge_record-other j k r s t none n p = d.fetch-store_other s t j k r p n
  merge_record-other j k r s t (some (short bytes)) n p = cc
  merge_record-other j k r s t (some (full c)) n p =
      elim (replaced_or_kept (replaces rm c.header r.header) s (d.store s j r) t p) [
        | inl (new, stored) ↦ d.fetch-store_other s t j k r stored n
        | inr (old, same) ↦ ap (λ x. d.fetch x k) (sym same)
      ]

  -- One record of the list that a node sends.
  pull_record-Merged :
      (k j : ℕ) (v : Value) (seen : List Rec) (s t : d.State)
      → Merged k seen s
      → pull_record d rm j v s ≡ some t
      → Merged k (seen ++ recs_at k ((j, v) ∷ [])) t
  unfolding pull_record values_at
  pull_record-Merged k j (short bytes) seen s t m p = cc
  pull_record-Merged k j (full r) seen s t m p =
      if-elim (λ vs. Merged k (seen ++ recs vs) t) (j == k) _ _
        (λ here.
          let e : j ≡ k = ground (arith, here) in
          met-Merged k r seen s t (d.fetch s k) refl m
            (subst (λ i. merge_record d rm i r s (d.fetch s i) ≡ some t) e p))
        (λ elsewhere.
          subst (λ x. Merged k x t) (sym (append-nil seen))
            (subst (Best rm seen)
              (sym
                (merge_record-other j k r s t (d.fetch s j) (λ e. ground (arith, elsewhere, e)) p))
              m))

  -- The records that are merged, when none fails.
  pub pull_records-Merged :
      (k : ℕ) (rs : List (ℕ × Value)) (seen : List Rec) (s : d.State)
      → Merged k seen s
      → (pull_records d rm rs s).ok ≡ true
      → Merged k (seen ++ recs_at k rs) (pull_records d rm rs s).recdb
  unfolding pull_records values_at
  pull_records-Merged k [] seen s m = λ ok. subst (λ x. Merged k x s) (sym (append-nil seen)) m
  pull_records-Merged k ((j, v) ∷ rs) seen s m = elim (Option-cases (pull_record d rm j v s)) [
    | inl fails ↦ rw (fails, pull_records) (λ no. cc)
    | inr (t, stored) ↦
        rw (stored, pull_records)
          (λ ok.
            subst (λ x. Merged k x (pull_records d rm rs t).recdb)
              (append_assoc seen (recs_at k ((j, v) ∷ [])) (recs_at k rs)
                ∙ ap (◌++◌ seen) (sym (recs_at-cons k (j, v) rs)))
              (pull_records-Merged k rs (seen ++ recs_at k ((j, v) ∷ [])) t
                (pull_record-Merged k j v seen s t m stored) ok))
  ]

  -- What the nodes sent for a key.
  abbrev pub answer_at : ℕ → Option (List (ℕ × Value)) → List Rec
  answer_at k none = []
  answer_at k (some records) = recs_at k records

  abbrev pub sent_at : ℕ → List Remote → List Rec
  sent_at k [] = []
  sent_at k (r ∷ rs) = if r.inactive then sent_at k rs else answer_at k r.pulldb ++ sent_at k rs

  pull_one-Merged :
      (k : ℕ) (answer : Option (List (ℕ × Value))) (seen : List Rec) (s : d.State)
      → Merged k seen s
      → (pull_answer d rm answer s).ok ≡ true
      → Merged k (seen ++ answer_at k answer) (pull_answer d rm answer s).recdb
  unfolding pull_answer
  pull_one-Merged k none seen s m = λ no. cc
  pull_one-Merged k (some records) seen s m = pull_records-Merged k records seen s m

  -- A node is passed over, or fails, or is merged before the rest.
  node-Merged :
      (k : ℕ) (inactive : Bool) (skip p rest : Pulled d) (seen others all : List Rec)
      → (skip.ok ≡ true → Merged k (seen ++ others) skip.recdb)
      → (p.ok ≡ true → rest.ok ≡ true → Merged k (seen ++ all) rest.recdb)
      → (if inactive then skip else if not p.ok then p else rest).ok ≡ true
      → Merged k
          (seen ++ (if inactive then others else all))
          (if inactive then skip else if not p.ok then p else rest).recdb
  node-Merged k true skip p rest seen others all f g = f
  node-Merged k false skip p rest seen others all f g =
      if-elim (λ m. m.ok ≡ true → Merged k (seen ++ all) m.recdb) (not p.ok) p rest
        (λ bad ok. absurd (ground (arith, bad, ok))) (λ good. g (ground (arith, good)))

  pub pull_all-Merged :
      (k : ℕ) (nodes : List Remote) (seen : List Rec) (s : d.State)
      → Merged k seen s
      → (pull_all d rm nodes s).ok ≡ true
      → Merged k (seen ++ sent_at k nodes) (pull_all d rm nodes s).recdb
  unfolding pull_all pull_one_remote_database
  pull_all-Merged k [] seen s m = λ ok. subst (λ x. Merged k x s) (sym (append-nil seen)) m
  pull_all-Merged k (r ∷ rs) seen s m =
      let p = pull_one_remote_database d rm r s in
      node-Merged k r.inactive (pull_all d rm rs s) p (pull_all d rm rs p.recdb) seen (sent_at k rs)
        (answer_at k r.pulldb ++ sent_at k rs) (pull_all-Merged k rs seen s m)
        (λ good ok.
          subst (λ x. Merged k x (pull_all d rm rs p.recdb).recdb)
            (append_assoc seen (answer_at k r.pulldb) (sent_at k rs))
            (pull_all-Merged k rs (seen ++ answer_at k r.pulldb) p.recdb
              (pull_one-Merged k r.pulldb seen s m good) ok))

-- The recovery database that all active nodes were merged into has for every key the best of the records
-- that they sent, or nothing if none sent one.
pub pull_all-Best :
    (d : Dbs) (rm k : ℕ) (nodes : List Remote)
    → (pull_all d rm nodes d.empty).ok ≡ true
    → Best rm (sent_at d rm k nodes) (d.fetch (pull_all d rm nodes d.empty).recdb k)
pull_all-Best d rm k nodes ok =
    pull_all-Merged d rm k nodes [] d.empty
      (subst (Best rm []) (sym (d.fetch-empty k)) (nothing refl)) ok
