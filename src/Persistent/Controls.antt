-- ===== src/Persistent/Controls.antt =====
-- server/ctdb_persistent.c: how many of the controls of a commit are still to be acknowledged.
use mathlib.Core.List.{append-nil}
use ctdb.Base.{
  ℕ, ◌+◌, ◌≡◌, ◌⊎◌, inl, inr, refl, sym, ap, ◌∙◌, arith, Bool, true, false, not, ◌&&◌, none, some,
  Option, List, [], ◌∷◌, ◌++◌, ◌==◌, All, if◌then◌else◌, if-elim,
}
use ctdb.Persistent.Commit.{
  Outcome, waiting, acknowledged, refused, ignored, SentControl, PersistentState, VnnNode,
  is_waiting, behind, answer_control, send_updates,
}

abbrev pub is_acknowledged : Outcome → Bool
is_acknowledged waiting = false
is_acknowledged acknowledged = true
is_acknowledged refused = false
is_acknowledged ignored = false

abbrev pub Acknowledged : SentControl → Type 0
Acknowledged k = k.outcome ≡ acknowledged

-- How many controls were not acknowledged.
abbrev pub unacknowledged : List SentControl → ℕ
unacknowledged [] = 0
unacknowledged (k ∷ ks) = (if is_acknowledged k.outcome then 0 else 1) + unacknowledged ks

abbrev pub pnns : List SentControl → List ℕ
pnns [] = []
pnns (k ∷ ks) = k.pnn ∷ pnns ks

-- The nodes that a transaction is rolled out to.
abbrev pub active : List VnnNode → List ℕ
active [] = []
active (v ∷ vs) = let rest = active vs in if v.inactive then rest else v.pnn ∷ rest

outcome-cases : (o : Outcome) → (o ≡ acknowledged) ⊎ (is_acknowledged o ≡ false)
outcome-cases waiting = inr refl
outcome-cases acknowledged = inl refl
outcome-cases refused = inr refl
outcome-cases ignored = inr refl

pub none_left : (ks : List SentControl) → unacknowledged ks ≡ 0 → All Acknowledged ks
none_left [] e = tt
none_left (k ∷ ks) e = elim (outcome-cases k.outcome) [
  | inl yes' ↦ (yes', none_left ks (omega (arith, e)))
  | inr no' ↦ absurd (ground (arith, no', e))
]

-- What an answer makes of the controls.
abbrev pub Answered : Outcome → List SentControl → Option (List SentControl) → Type 0
Answered o cs none = Unit
Answered o cs (some ks) =
    (pnns ks ≡ pnns cs)
    × (unacknowledged ks + (if is_acknowledged o then 1 else 0) ≡ unacknowledged cs)

waiting_not : (o : Outcome) (b : Bool) → is_waiting o && b ≡ true → is_acknowledged o ≡ false
waiting_not waiting b e = refl
waiting_not acknowledged b e = cc
waiting_not refused b e = refl
waiting_not ignored b e = refl

behind-Answered :
    (o : Outcome) (k : SentControl) (cs : List SentControl) (r : Option (List SentControl))
    → Answered o cs r
    → Answered o (k ∷ cs) (behind k r)
behind-Answered o k cs none h = tt
behind-Answered o k cs (some ks) h = (ap (◌∷◌ k.pnn) h.0, omega (arith, h.1))

pub answer_control-Answered :
    (pnn : ℕ) (o : Outcome) (cs : List SentControl) → Answered o cs (answer_control pnn o cs)
unfolding answer_control
answer_control-Answered pnn o [] = tt
answer_control-Answered pnn o (k ∷ cs) =
    if-elim (Answered o (k ∷ cs)) (is_waiting k.outcome && (k.pnn == pnn)) _ _
      (λ w. (refl, ground (arith, waiting_not k.outcome (k.pnn == pnn) w)))
      (λ _. behind-Answered o k cs (answer_control pnn o cs) (answer_control-Answered pnn o cs))

pub was_false : (b : Bool) → not b ≡ true → b ≡ false
was_false true e = sym e
was_false false e = refl

pub was_true : (b : Bool) → not b ≡ false → b ≡ true
was_true true e = refl
was_true false e = sym e

-- Two conditionals with one test.
both {ℓ κ μ} :
    {A : Type ℓ} {B : Type κ} (P : A → B → Type μ) (b : Bool) (x y : A) (l m : B)
    → P x l
    → P y m
    → P (if b then x else y) (if b then l else m)
both P true x y l m h k = h
both P false x y l m h k = k

-- The controls that the loop adds are counted, and go to the active nodes.
abbrev pub SentAs : PersistentState → Option PersistentState → List ℕ → Type 0
SentAs st none nodes = Unit
SentAs st (some sent) nodes =
    (sent.num_pending ≡ unacknowledged sent.controls)
    × (pnns sent.controls ≡ pnns st.controls ++ nodes)

unacknowledged-end :
    (ks : List SentControl) (pnn : ℕ)
    → unacknowledged (ks ++ record { pnn = pnn; outcome = waiting } ∷ []) ≡ unacknowledged ks + 1
unacknowledged-end [] pnn = refl
unacknowledged-end (k ∷ ks) pnn = omega (arith, unacknowledged-end ks pnn)

pnns-end :
    (ks : List SentControl) (pnn : ℕ) (nodes : List ℕ)
    → pnns (ks ++ record { pnn = pnn; outcome = waiting } ∷ []) ++ nodes ≡ pnns ks ++ pnn ∷ nodes
pnns-end [] pnn nodes = refl
pnns-end (k ∷ ks) pnn nodes = ap (◌∷◌ k.pnn) (pnns-end ks pnn nodes)

moved :
    (st next : PersistentState) (r : Option PersistentState) (nodes nodes' : List ℕ)
    → pnns next.controls ++ nodes ≡ pnns st.controls ++ nodes'
    → SentAs next r nodes
    → SentAs st r nodes'
moved st next none nodes nodes' e h = tt
moved st next (some sent) nodes nodes' e h = (h.0, h.1 ∙ e)

pub send_updates-SentAs :
    (sends : ℕ → Bool) (vs : List VnnNode) (st : PersistentState)
    → st.num_pending ≡ unacknowledged st.controls
    → SentAs st (send_updates sends vs st) (active vs)
unfolding send_updates
send_updates-SentAs sends [] st p = (p, sym (append-nil (pnns st.controls)))
send_updates-SentAs sends (v ∷ vs) st p =
    let next : PersistentState = record st {
      num_pending = st.num_pending + 1;
      num_sent = st.num_sent + 1;
      controls = st.controls ++ record { pnn = v.pnn; outcome = waiting } ∷ [];
    } in
    both (SentAs st) v.inactive _ _ (active vs) (v.pnn ∷ active vs)
      (send_updates-SentAs sends vs st p)
      (if-elim (λ r. SentAs st r (v.pnn ∷ active vs)) (not (sends v.pnn)) _ _ (λ _. tt)
        (λ _.
          moved st next _ (active vs) (v.pnn ∷ active vs) (pnns-end st.controls v.pnn (active vs)) (
            send_updates-SentAs sends vs next
              (omega (arith, p, unacknowledged-end st.controls v.pnn)))))
