-- ===== src/Recovery/Seqnum.antt =====
-- server/ctdb_recoverd.c: which node a persistent database is recovered from by its sequence number.
use ctdb.Base.{
  ℕ, ◌+◌, ◌≤◌, ◌<◌, ◌≡◌, ◌≢◌, ◌⊎◌, inl, inr, refl, sym, ◌∙◌, ap, subst, arith, dec_lt, if-elim,
  true, false, some, none, ◌||◌, Option, List, [], ◌∷◌, ◌++◌, ◌==◌, All, if◌then◌else◌,
}
use ctdb.Recovery.Database.{Dbs}
use ctdb.Recovery.Pull.{
  Remote, PullSeqnum, pull_seqnum_cb, pull_seqnums, find_node, Pulled, pull_one_remote_database,
  pull_highest_seqnum_pdb, pull_all, pull_remote_database,
}

-- An inactive node is not asked; an active one answers with a number below the bound.
abbrev pub Below : ℕ → Remote → Type 0
Below bound q = (q.inactive ≡ true) ⊎ ((x : ℕ) × (q.seqnum ≡ some x) × (x < bound))

-- One node of the loop.
abbrev visit : Remote → PullSeqnum → PullSeqnum
visit r c = if r.inactive then c else pull_seqnum_cb r.pnn r.seqnum c

visit-inactive : (r : Remote) (c : PullSeqnum) → r.inactive ≡ true → visit r c ≡ c
visit-inactive r c h = ap (λ b. if b then c else pull_seqnum_cb r.pnn r.seqnum c) h

visit-active :
    (r : Remote) (c : PullSeqnum) (x : ℕ)
    → r.inactive ≡ false
    → r.seqnum ≡ some x
    → visit r c ≡ pull_seqnum_cb r.pnn (some x) c
visit-active r c x h e =
    ap (λ b. if b then c else pull_seqnum_cb r.pnn r.seqnum c) h
    ∙ ap (λ o. pull_seqnum_cb r.pnn o c) e

cb-lower :
    (p m x : ℕ) (n : Option ℕ)
    → x ≤ m
    → pull_seqnum_cb p (some x) (record { failed = false; pnn = n; seqnum = m })
      ≡ record { failed = false; pnn = n; seqnum = m }
unfolding pull_seqnum_cb
cb-lower p m x n h = ground arith

cb-higher :
    (p m x : ℕ) (n : Option ℕ)
    → m < x
    → pull_seqnum_cb p (some x) (record { failed = false; pnn = n; seqnum = m })
      ≡ record { failed = false; pnn = some p; seqnum = x }
unfolding pull_seqnum_cb
cb-higher p m x n h = ground arith

-- The state of the scan while no request failed and all numbers were below the bound.
abbrev Scan : ℕ → PullSeqnum → Type 0
Scan bound c =
    (n : Option ℕ) × (m : ℕ) × (m < bound) × (c ≡ record { failed = false; pnn = n; seqnum = m })

cb-Scan :
    (bound p x : ℕ) (c : PullSeqnum)
    → x < bound
    → Scan bound c
    → Scan bound (pull_seqnum_cb p (some x) c)
cb-Scan bound p x c l (n, m, lm, same) =
    subst (λ c'. Scan bound (pull_seqnum_cb p (some x) c')) (sym same)
      (elim (dec_lt m x) [
        | yes h ↦ (some p, x, l, cb-higher p m x n h)
        | no h ↦ (n, m, lm, cb-lower p m x n (omega arith))
      ])

visit-Scan :
    (bound : ℕ) (r : Remote) (c : PullSeqnum)
    → Below bound r
    → Scan bound c
    → Scan bound (visit r c)
visit-Scan bound r c (inl off) w = subst (Scan bound) (sym (visit-inactive r c off)) w
visit-Scan bound r c (inr (x, e, l)) w =
    if-elim (Scan bound) r.inactive c (pull_seqnum_cb r.pnn r.seqnum c) (λ _. w)
      (λ _.
        subst (λ o. Scan bound (pull_seqnum_cb r.pnn o c)) (sym e) (cb-Scan bound r.pnn x c l w))

-- The scan comes past nodes with smaller numbers without a failure.
pull_seqnums-before :
    (bound : ℕ) (before rest : List Remote) (c : PullSeqnum)
    → All (Below bound) before
    → Scan bound c
    → (c' : PullSeqnum) × Scan bound c' × (pull_seqnums (before ++ rest) c ≡ pull_seqnums rest c')
unfolding pull_seqnums
pull_seqnums-before bound [] rest c a w = (c, w, refl)
pull_seqnums-before bound (r ∷ before) rest c (h, a) w =
    pull_seqnums-before bound before rest (visit r c) a (visit-Scan bound r c h w)

abbrev found : ℕ → ℕ → PullSeqnum
found p m = record { failed = false; pnn = some p; seqnum = m }

visit-kept : (p m : ℕ) (r : Remote) → Below (m + 1) r → visit r (found p m) ≡ found p m
visit-kept p m r (inl off) = visit-inactive r _ off
visit-kept p m r (inr (x, e, l)) =
    if-elim (λ c. c ≡ found p m) r.inactive _ _ (λ _. refl)
      (λ _.
        ap (λ o. pull_seqnum_cb r.pnn o (found p m)) e ∙ cb-lower r.pnn m x (some p) (omega arith))

-- The nodes after it do not displace the highest one.
pull_seqnums-after :
    (p m : ℕ) (after : List Remote)
    → All (Below (m + 1)) after
    → pull_seqnums after (found p m) ≡ found p m
unfolding pull_seqnums
pull_seqnums-after p m [] a = refl
pull_seqnums-after p m (r ∷ after) (h, a) =
    ap (pull_seqnums after) (visit-kept p m r h) ∙ pull_seqnums-after p m after a

pub find_node-first :
    (r : Remote) (before after : List Remote)
    → All (λ q. q.pnn ≢ r.pnn) before
    → find_node r.pnn (before ++ r ∷ after) ≡ some r
find_node-first r [] after a =
    if-elim (λ o. o ≡ some r) (r.pnn == r.pnn) _ _ (λ _. refl) (λ h. absurd (ground (arith, h)))
find_node-first r (q ∷ before) after (h, a) =
    if-elim (λ o. o ≡ some r) (q.pnn == r.pnn) _ _ (λ e. absurd (h (ground (arith, e))))
      (λ _. find_node-first r before after a)

pull_seqnums-found :
    (before after : List Remote) (r : Remote) (m : ℕ)
    → All (Below m) before
    → All (Below (m + 1)) after
    → r.inactive ≡ false
    → r.seqnum ≡ some m
    → 0 < m
    → pull_seqnums (before ++ r ∷ after) (record { failed = false; pnn = none; seqnum = 0 })
      ≡ found r.pnn m
unfolding pull_seqnums
pull_seqnums-found before after r m lower upper on e positive =
    let (c, (n, k, l, same), scanned) =
      pull_seqnums-before m before (r ∷ after) (record { failed = false; pnn = none; seqnum = 0 })
        lower (none, 0, positive, refl) in
    scanned
    ∙ ap (pull_seqnums (r ∷ after)) same
    ∙ ap (pull_seqnums after) (visit-active r _ m on e ∙ cb-higher r.pnn k m n l)
    ∙ pull_seqnums-after r.pnn m after upper

module _ (d : Dbs) where
  -- What the pull makes of the state that the scan ends with.
  abbrev chosen : ℕ → List Remote → d.State → PullSeqnum → Pulled d
  chosen recovery_master nodes s c =
      if c.failed || (c.seqnum == 0) then record { ok = false; recdb = s } else elim c.pnn [
        | none ↦ record { ok = false; recdb = s }
        | some pnn ↦ elim (find_node pnn nodes) [
          | none ↦ record { ok = false; recdb = s }
          | some r ↦ pull_one_remote_database d recovery_master r s
        ]
      ]

  pull_highest_seqnum_pdb-pulls :
      (recovery_master m : ℕ) (before after nodes : List Remote) (r : Remote) (s : d.State)
      → find_node r.pnn nodes ≡ some r
      → All (Below m) before
      → All (Below (m + 1)) after
      → r.inactive ≡ false
      → r.seqnum ≡ some m
      → 0 < m
      → pull_highest_seqnum_pdb d recovery_master (before ++ r ∷ after) nodes s
        ≡ pull_one_remote_database d recovery_master r s
  unfolding pull_highest_seqnum_pdb
  pull_highest_seqnum_pdb-pulls recovery_master m before after nodes r s own lower upper on e
        positive =
      ap (chosen recovery_master nodes s)
        (pull_seqnums-found before after r m lower upper on e positive)
      ∙ if-elim (λ p. p ≡ pull_one_remote_database d recovery_master r s) (m == 0) _ _
          (λ z. absurd (ground (arith, z, positive)))
          (λ _.
            ap
              (λ o. elim o [
                | none ↦ record { ok = false; recdb = s }
                | some r' ↦ pull_one_remote_database d recovery_master r' s
              ])
              own)

  -- Of a persistent database that is recovered by its sequence number: when the active nodes answer with their numbers, in
  -- whatever order, r is the first one to answer with the highest number, which is positive, and r is the first node of
  -- the node map with its pnn, then the records are pulled from r only; and when that fails, the records of all active
  -- nodes of the node map are merged into what came from r.
  pub pull_remote_database-by_seqnum :
      (recovery_master m : ℕ) (before after nodes : List Remote) (r : Remote) (s : d.State)
      → find_node r.pnn nodes ≡ some r
      → All (Below m) before
      → All (Below (m + 1)) after
      → r.inactive ≡ false
      → r.seqnum ≡ some m
      → 0 < m
      → pull_remote_database d true recovery_master true (before ++ r ∷ after) nodes s ≡ (
          let p = pull_one_remote_database d recovery_master r s in
          if p.ok then p else pull_all d recovery_master nodes p.recdb)
  unfolding pull_remote_database
  pull_remote_database-by_seqnum recovery_master m before after nodes r s own lower upper on e
        positive =
      ap (λ p. if p.ok then p else pull_all d recovery_master nodes p.recdb)
        (pull_highest_seqnum_pdb-pulls recovery_master m before after nodes r s own lower upper on e
          positive)
