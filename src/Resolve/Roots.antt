-- ===== src/Resolve/Roots.antt =====
-- The root of an id in the forest of core/resolve.py, and what `find` leaves as it is.
use iknos.Prelude.{
  ℕ, zero, suc, ◌≤◌, ◌≡◌, ◌≢◌, refl, sym, ap, ◌∙◌, inl, inr, true, false, List, [], ◌∷◌, length,
  contains, Distinct, length-subset_le, ◌==◌, Bool-cases, arith,
}
use iknos.Resolve.{EntityId, assign, root_of}

module _ (parent : EntityId → EntityId) where
  -- `r` is the root above `x`, by `n` steps
  pub data Root : ℕ → EntityId → EntityId → Type 0 where
    top : (x : EntityId) → parent x ≡ x → Root zero x x
    up : (n : ℕ) (x r : EntityId) → parent x ≢ x → Root n (parent x) r → Root (suc n) x r

  pub Root-unique : (n m : ℕ) (x r s : EntityId) → Root n x r → Root m x s → (n ≡ m) × (r ≡ s)
  Root-unique n m x r s (top _ e) (top _ f) = (refl, refl)
  Root-unique n m x r s (top _ e) (up _ _ _ moves f) = absurd (moves e)
  Root-unique n m x r s (up _ _ _ moves e) (top _ f) = absurd (moves f)
  Root-unique n m x r s (up k _ _ moves e) (up j _ _ moves2 f) =
      let both = Root-unique k j (parent x) r s e f in (ap suc both.0, both.1)

  pub Root-fixed : (n : ℕ) (x r : EntityId) → Root n x r → parent r ≡ r
  Root-fixed n x r (top _ e) = e
  Root-fixed n x r (up k _ _ moves e) = Root-fixed k (parent x) r e

  pub root_of-Root :
      (n fuel : ℕ) (x r : EntityId) → n ≤ fuel → Root n x r → root_of fuel parent x ≡ r
  unfolding root_of
  root_of-Root n zero x r h (top _ e) = refl
  root_of-Root n zero x r h (up k _ _ moves e) = absurd (omega arith)
  root_of-Root n (suc fuel) x r h (top _ e) = ground arith
  root_of-Root n (suc fuel) x r h (up k _ _ moves e) =
      let later = root_of-Root k fuel (parent x) r (omega arith) e in ground arith

  -- the ids below the root, on the way to it
  path :
      (known : List EntityId)
      → ((y : EntityId) → parent y ≢ y → contains known y ≡ true)
      → (n : ℕ) (x r : EntityId) → Root n x r
      → (ys : List EntityId) × (length ys ≡ n)
        × Distinct ys
        × ((y : EntityId)
            → contains ys y ≡ true
            → (contains known y ≡ true) × (m : ℕ) × (m ≤ n) × Root m y r)
  unfolding contains
  path known below n x r (top _ e) = ([], refl, tt, λ y m. absurd cc)
  path known below n x r (up k _ _ moves e) =
      let (ys, size, apart, each) = path known below k (parent x) r e in
      let absent : contains ys x ≡ false = elim (Bool-cases (contains ys x)) [
        | inl found ↦
            let (_, m, h, root) = each x found in
            let same = Root-unique m (suc k) x r r root (up k x r moves e) in absurd (omega arith)
        | inr clear ↦ clear
      ] in
      (
        x ∷ ys,
        ap suc size,
        (absent, apart),
        λ y listed. elim (Bool-cases (x == y)) [
          | inl same ↦
              let at_y : x ≡ y = ground arith in
              let is_known : contains known y ≡ true = rw at_y at (below x moves) in
              let root : Root (suc k) y r = rw at_y at (up k x r moves e) in
              (is_known, suc k, omega arith, root)
          | inr other ↦
              let (is_known, m, h, root) = each y (ground arith) in (is_known, m, omega arith, root)
        ],
      )

  pub Root-moves :
      (n : ℕ) (x r : EntityId) → Root n x r → r ≢ x → (parent x ≢ x) × (k : ℕ) × Root k (parent x) r
  Root-moves n x r (top _ e) apart = absurd (apart refl)
  Root-moves n x r (up k _ _ moves e) apart = (moves, k, e)

  -- no root is further than there are ids
  pub Root-le :
      (known : List EntityId)
      → ((y : EntityId) → parent y ≢ y → contains known y ≡ true)
      → (n : ℕ) (x r : EntityId) → Root n x r
      → n ≤ length known
  Root-le known below n x r root =
      let (ys, size, apart, each) = path known below n x r root in
      let bound = length-subset_le ys known apart (λ y m. (each y m).0) in omega arith

pub assign_same : (x r : EntityId) (parent : EntityId → EntityId) → assign x r parent x ≡ r
unfolding assign
assign_same x r parent = ground arith

pub assign_other :
    (x r : EntityId) (parent : EntityId → EntityId) (y : EntityId)
    → (x == y) ≡ false
    → assign x r parent y ≡ parent y
unfolding assign
assign_other x r parent y h = ground arith

-- the short cut of path compression keeps each root
pub assign-Root :
    (parent : EntityId → EntityId) (n : ℕ) (x r : EntityId)
    → Root parent n x r
    → (m : ℕ) (z s : EntityId) → Root parent m z s
    → (k : ℕ) × (k ≤ m) × Root (assign x r parent) k z s
assign-Root parent n x r root m z s (top _ e) = elim (Bool-cases (x == z)) [
  | inl same ↦
      let at_z : x ≡ z = ground arith in
      let is_root : Root parent zero x z = rw at_z (top z e) in
      let there = (Root-unique parent n zero x r z root is_root).1 in
      (
        zero,
        omega arith,
        top z (ap (assign x r parent) (sym at_z) ∙ assign_same x r parent ∙ there),
      )
  | inr other ↦ (zero, omega arith, top z (assign_other x r parent z other ∙ e))
]
assign-Root parent n x r root m z s (up k _ _ moves e) = elim (Bool-cases (x == z)) [
  | inl same ↦
      let at_z : x ≡ z = ground arith in
      let from_x : Root parent (suc k) x s = rw at_z (up k z s moves e) in
      let there : r ≡ s = (Root-unique parent n (suc k) x r s root from_x).1 in
      let fixed : parent s ≡ s = Root-fixed parent k (parent z) s e in
      let apart : (x == s) ≡ false = elim (Bool-cases (x == s)) [
        | inl at_s ↦ absurd (let eq : z ≡ s = ground arith in moves (rw eq fixed))
        | inr clear ↦ clear
      ] in
      let now : assign x r parent z ≡ s =
        ap (assign x r parent) (sym at_z) ∙ assign_same x r parent ∙ there in
      let is_top : Root (assign x r parent) zero s s =
        top s (assign_other x r parent s apart ∙ fixed) in
      (
        suc zero,
        omega arith,
        up zero z s (λ h. let eq : z ≡ s = sym h ∙ now in moves (rw eq fixed)) (rw now is_top),
      )
  | inr other ↦
      let (j, nearer, later) = assign-Root parent n x r root k (parent z) s e in
      let now = assign_other x r parent z other in
      (suc j, omega arith, up j z s (λ h. moves (sym now ∙ h)) (rw now later))
]
