-- ===== src/Base/Fold.antt =====
-- A loop over an array with its index, and its invariant rules.
use Prim.Native.Nat.{ℕ, zero, suc, ◌+◌}
use mathlib.Core.Path.{◌≡◌, refl, subst}
use mathlib.Core.List.{List, [], ◌∷◌}
use mathlib.Core.Option.{some}
use native.Mathlib.Omega.{arith}
use ctdb.Base.Lists.{get_elem?}

-- `for (; i < n; i++) s = body(i, xs[i], s);`
unfoldable pub fold_from {ℓ κ} : {A : Type ℓ} {S : Type κ} → (ℕ → A → S → S) → List A → ℕ → S → S
fold_from body [] i s = s
fold_from body (x ∷ xs) i s = fold_from body xs (i + 1) (body i x s)

module _ {ℓ κ μ} {A : Type ℓ} {S : Type κ} (P : S → Type μ) (body : ℕ → A → S → S) where
  pub fold_from_inv_at :
      (xs : List A) (i : ℕ) (s : S)
      → ((j : ℕ) (x : A) (t : S) → get_elem? xs j ≡ some x → P t → P (body (i + j) x t))
      → P s
      → P (fold_from body xs i s)
  unfolding fold_from
  fold_from_inv_at [] i s keep h = h
  fold_from_inv_at (x ∷ xs) i s keep h =
      fold_from_inv_at xs (i + 1) (body i x s)
        (λ j y t e p.
          let q : i + suc j ≡ i + 1 + j = omega arith in
          subst (λ n. P (body n y t)) q (keep (suc j) y t e p))
        (let q : i + 0 ≡ i = omega arith in subst (λ n. P (body n x s)) q (keep 0 x s refl h))

  -- What each round keeps holds at the end; a round at `j` has the element that stands there.
  pub fold_from_inv :
      (xs : List A) (s : S)
      → ((j : ℕ) (x : A) (t : S) → get_elem? xs j ≡ some x → P t → P (body j x t))
      → P s
      → P (fold_from body xs 0 s)
  fold_from_inv xs s keep h =
      fold_from_inv_at xs 0 s
        (λ j x t e p.
          let q : j ≡ 0 + j = omega arith in subst (λ n. P (body n x t)) q (keep j x t e p))
        h

module _ {ℓ κ μ} {A : Type ℓ} {S : Type κ} (Q : S → Type μ) (body : ℕ → A → S → S) where
  keep_from :
      (xs : List A) (i : ℕ) (s : S)
      → ((j : ℕ) (x : A) (t : S) → Q t → Q (body j x t))
      → Q s
      → Q (fold_from body xs i s)
  unfolding fold_from
  keep_from [] i s keep h = h
  keep_from (x ∷ xs) i s keep h = keep_from xs (i + 1) (body i x s) keep (keep i x s h)

  reach_from :
      (xs : List A) (i : ℕ) (s : S) (j : ℕ) (x : A)
      → get_elem? xs j ≡ some x
      → ((t : S) → Q (body (i + j) x t))
      → ((k : ℕ) (y : A) (t : S) → Q t → Q (body k y t))
      → Q (fold_from body xs i s)
  unfolding fold_from
  reach_from [] i s j x e make keep = cc
  reach_from (y ∷ xs) i s zero x e make keep = keep_from xs (i + 1) (body i y s) keep (
      let q : i + 0 ≡ i = omega arith in
      let same : x ≡ y = cc in
      subst (λ n. Q (body n y s)) q (subst (λ z. Q (body (i + 0) z s)) same (make s)))
  reach_from (y ∷ xs) i s (suc j) x e make keep =
      reach_from xs (i + 1) (body i y s) j x e
        (λ t. let q : i + suc j ≡ i + 1 + j = omega arith in subst (λ n. Q (body n x t)) q (make t))
        keep

  -- What the round at `j` makes true, and every round keeps, holds at the end.
  pub fold_from_reach :
      (xs : List A) (s : S) {j : ℕ} {x : A}
      → get_elem? xs j ≡ some x
      → ((t : S) → Q (body j x t))
      → ((k : ℕ) (y : A) (t : S) → Q t → Q (body k y t))
      → Q (fold_from body xs 0 s)
  fold_from_reach xs s {j} {x} e make keep =
      reach_from xs 0 s j x e
        (λ t. let q : j ≡ 0 + j = omega arith in subst (λ n. Q (body n x t)) q (make t)) keep

-- Two loops over one array keep a relation that each pair of rounds keeps.
pub fold_from_rel {ℓ κ μ ν} :
    {A : Type ℓ} {S : Type κ} {T : Type μ} (R : S → T → Type ν) (f : ℕ → A → S → S)
    (g : ℕ → A → T → T)
    → ((j : ℕ) (x : A) (s : S) (t : T) → R s t → R (f j x s) (g j x t))
    → (xs : List A) (i : ℕ) (s : S) (t : T) → R s t
    → R (fold_from f xs i s) (fold_from g xs i t)
unfolding fold_from
fold_from_rel R f g keep [] i s t h = h
fold_from_rel R f g keep (x ∷ xs) i s t h =
    fold_from_rel R f g keep xs (i + 1) (f i x s) (g i x t) (keep i x s t h)
