-- ===== src/Resolve/Unions.antt =====
-- What `union` of core/resolve.py makes of the roots of a forest.
use iknos.Prelude.{
  ℕ, zero, suc, ◌≡◌, sym, ap, ◌∙◌, ◌||◌, inl, inr, false, contains, ◌==◌, ==_refl, if◌then◌else◌,
  Bool-cases, arith,
}
use iknos.Resolve.{EntityId, Forest, assign, find_root, union}
use iknos.Resolve.Roots.{Root, top, up, Root-unique, Root-fixed, assign_same, assign_other}
use iknos.Resolve.Finds.{IsForest, find_root-Found, Root-known, assign_within}

-- where a root goes when `x` is put below `y`
abbrev pub redirect : EntityId → EntityId → EntityId → EntityId
redirect x y s = if x == s then y else s

attach-Root :
    (p : EntityId → EntityId) (x y : EntityId)
    → p x ≡ x
    → p y ≡ y
    → (m : ℕ) (z s : EntityId) → Root p m z s
    → (k : ℕ) × Root (assign x y p) k z (redirect x y s)
attach-Root p x y fixed_x fixed_y m z s (top _ e) = elim (Bool-cases (x == z)) [
  | inr other ↦ (zero, rw other (top z (assign_other x y p z other ∙ e)))
  | inl same ↦
      let at_z : x ≡ z = ground arith in
      let now : assign x y p z ≡ y = ap (assign x y p) (sym at_z) ∙ assign_same x y p in
      elim (Bool-cases (x == y)) [
        | inl at_y ↦
            let back : z ≡ y = ground arith in
            let is_top : Root (assign x y p) zero y y =
              let top_z : Root (assign x y p) zero z z = top z (now ∙ sym back) in
              rw back at top_z in
            (zero, rw (same, back) is_top)
        | inr apart ↦ (
          suc zero,
          rw same (
              up zero z y (λ h. let back : z ≡ y = sym h ∙ now in absurd ground arith)
                (rw now (top y (assign_other x y p y apart ∙ fixed_y)))),
        )
      ]
]
attach-Root p x y fixed_x fixed_y m z s (up k _ _ moves e) =
    let apart : (x == z) ≡ false = elim (Bool-cases (x == z)) [
      | inl same ↦ absurd (let at_z : x ≡ z = ground arith in moves (rw at_z at fixed_x))
      | inr other ↦ other
    ] in
    let now = assign_other x y p z apart in
    let (j, later) = attach-Root p x y fixed_x fixed_y k (p z) s e in
    (suc j, up j z (redirect x y s) (λ h. moves (sym now ∙ h)) (rw now later))

-- what `union` leaves
pub record United (f : Forest) (x y : EntityId) (g : Forest) : Type 0 where
  pub root_x : EntityId
  pub root_y : EntityId
  pub is_root_x : (n : ℕ) × Root f.parent n x root_x
  pub is_root_y : (n : ℕ) × Root f.parent n y root_y
  pub forest : IsForest g
  pub moves :
      (m : ℕ) (z s : EntityId)
      → Root f.parent m z s
      → (k : ℕ) × Root g.parent k z (redirect root_x root_y s)
  pub known : (z : EntityId) → contains g.known z ≡ (contains f.known z || y == z) || x == z

pub union-United : (x y : EntityId) (f : Forest) → IsForest f → United f x y (union x y f)
unfolding union
union-United x y f forest =
    let found_y = find_root-Found y f forest in
    let g = (find_root y f).1 in
    let root_y = (find_root y f).0 in
    let found_x = find_root-Found x g found_y.forest in
    let h = (find_root x g).1 in
    let root_x = (find_root x g).0 in
    let (n, r, old) = forest.rooted x in
    let (k, mid) = found_y.keeps n x r old in
    let same : r ≡ root_x =
      (Root-unique g.parent k found_x.steps x r root_x mid found_x.is_root).1 in
    let (i, late_x) = found_x.keeps found_x.steps x root_x found_x.is_root in
    let (j1, mid_y) = found_y.keeps found_y.steps y root_y found_y.is_root in
    let (j2, late_y) = found_x.keeps j1 y root_y mid_y in
    let fixed_x = Root-fixed h.parent i x root_x late_x in
    let fixed_y = Root-fixed h.parent j2 y root_y late_y in
    let moves : (m : ℕ) (z s : EntityId)
        → Root f.parent m z s
        → (k : ℕ) × Root (assign root_x root_y h.parent) k z (redirect root_x root_y s) =
      λ m z s there.
        let (a, one) = found_y.keeps m z s there in
        let (b, two) = found_x.keeps a z s one in
        attach-Root h.parent root_x root_y fixed_x fixed_y b z s two in
    let root_known =
      Root-known h.known h.parent found_x.forest.within i x root_x late_x
        (let k = ==_refl x in found_x.known x ∙ ground arith) in
    let other_known =
      Root-known h.known h.parent found_x.forest.within j2 y root_y late_y
        (let k = ==_refl y in let q = found_y.known y in found_x.known y ∙ ground arith) in
    record {
      root_x = root_x;
      root_y = root_y;
      is_root_x = (n, rw same at old);
      is_root_y = (found_y.steps, found_y.is_root);
      forest = record {
        below = λ z leaves. elim (Bool-cases (root_x == z)) [
          | inr other ↦
              found_x.forest.below z (λ e. leaves (assign_other root_x root_y h.parent z other ∙ e))
          | inl at_root ↦ let e : root_x ≡ z = ground arith in rw e at root_known
        ];
        within = assign_within h.known h.parent found_x.forest.within root_x root_y other_known;
        rooted = λ z.
            let (m, s, there) = forest.rooted z in
            let (a, now) = moves m z s there in (a, redirect root_x root_y s, now);
      };
      moves = moves;
      known = λ z. found_x.known z ∙ ap (λ b. b || x == z) (found_y.known z);
    }
