-- ===== src/Resolve/Finds.antt =====
-- What `find` of core/resolve.py makes of the roots of a forest.
use iknos.Prelude.{
  ℕ, zero, suc, ◌≤◌, ◌≡◌, ◌≢◌, sym, ap, ◌∙◌, ◌||◌, inl, inr, true, false, List, [], ◌∷◌, length,
  contains, contains-append, ◌==◌, ==_refl, Bool-cases, arith,
}
use iknos.Resolve.{EntityId, Forest, assign, root_of, compress, setdefault, find_root}
use iknos.Resolve.Roots.{
  Root, top, up, Root-unique, Root-fixed, Root-moves, Root-le, root_of-Root, assign-Root,
  assign_same, assign_other,
}

-- each id has a root, and what is no key is its own parent
pub record IsForest (f : Forest) : Type 0 where
  pub below : (y : EntityId) → f.parent y ≢ y → contains f.known y ≡ true
  pub within : (y : EntityId) → contains f.known y ≡ true → contains f.known (f.parent y) ≡ true
  pub rooted : (y : EntityId) → (n : ℕ) × (r : EntityId) × Root f.parent n y r

-- the roots of one forest are roots in another
abbrev pub Keeps : (EntityId → EntityId) → (EntityId → EntityId) → Type 0
Keeps p q = (m : ℕ) (z s : EntityId) → Root p m z s → (k : ℕ) × Root q k z s

record Compressed (known : List EntityId) (p q : EntityId → EntityId) : Type 0 where
  below : (y : EntityId) → q y ≢ y → contains known y ≡ true
  within : (y : EntityId) → contains known y ≡ true → contains known (q y) ≡ true
  keeps : Keeps p q

assign_below :
    (known : List EntityId) (p : EntityId → EntityId)
    → ((y : EntityId) → p y ≢ y → contains known y ≡ true)
    → (n : ℕ) (x r : EntityId) → Root p n x r
    → (y : EntityId) → assign x r p y ≢ y
    → contains known y ≡ true
assign_below known p below n x r root y moves = elim (Bool-cases (x == y)) [
  | inr other ↦ below y (λ h. moves (assign_other x r p y other ∙ h))
  | inl same ↦
      let at_y : x ≡ y = ground arith in
      let from_y : Root p n y r = rw at_y at root in
      let now : assign x r p y ≡ r = ap (assign x r p) (sym at_y) ∙ assign_same x r p in
      below y (Root-moves p n y r from_y (λ h. moves (now ∙ h))).0
]

pub Root-known :
    (known : List EntityId) (p : EntityId → EntityId)
    → ((y : EntityId) → contains known y ≡ true → contains known (p y) ≡ true)
    → (n : ℕ) (x r : EntityId) → Root p n x r
    → contains known x ≡ true
    → contains known r ≡ true
Root-known known p within n x r (top _ e) m = m
Root-known known p within n x r (up k _ _ moves e) m =
    Root-known known p within k (p x) r e (within x m)

pub assign_within :
    (known : List EntityId) (p : EntityId → EntityId)
    → ((y : EntityId) → contains known y ≡ true → contains known (p y) ≡ true)
    → (x r : EntityId) → contains known r ≡ true
    → (y : EntityId) → contains known y ≡ true
    → contains known (assign x r p y) ≡ true
unfolding assign
assign_within known p within x r m y listed = elim (Bool-cases (x == y)) [
  | inl same ↦ rw same m
  | inr other ↦ rw other (within y listed)
]

Root-below :
    (p : EntityId → EntityId) (n : ℕ) (x r : EntityId) → Root p n x r → (p x == r) ≡ false → r ≢ x
Root-below p n x r root on h =
    let e : p x ≡ x = ap p (sym h) ∙ Root-fixed p n x r root ∙ h in
    let b : (p x == r) ≡ true = rw (e, sym h) (==_refl r) in absurd cc

compress-Compressed :
    (known : List EntityId) (fuel : ℕ) (p : EntityId → EntityId)
    → ((y : EntityId) → p y ≢ y → contains known y ≡ true)
    → ((y : EntityId) → contains known y ≡ true → contains known (p y) ≡ true)
    → (n : ℕ) (x r : EntityId) → Root p n x r
    → contains known x ≡ true
    → Compressed known p (compress fuel r p x)
unfolding compress
compress-Compressed known zero p below within n x r root m = record {
  below = below;
  within = within;
  keeps = λ m z s there. (m, there);
}
compress-Compressed known (suc fuel) p below within n x r root listed =
    elim (Bool-cases (p x == r)) [
      | inl done ↦
          rw (done, compress)
            record { below = below; within = within; keeps = λ m z s there. (m, there) }
      | inr on ↦
          let keeps : Keeps p (assign x r p) =
            λ m z s there. let (k, _, now) = assign-Root p n x r root m z s there in (k, now) in
          let (_, steps, higher) = Root-moves p n x r root (Root-below p n x r root on) in
          let (j, next) = keeps steps (p x) r higher in
          let rest =
            compress-Compressed known fuel (assign x r p) (assign_below known p below n x r root)
              (assign_within known p within x r (Root-known known p within n x r root listed)) j
              (p x) r next (within x listed) in
          rw (on, compress)
            record {
              below = rest.below;
              within = rest.within;
              keeps = λ m z s there. let (k, mid) = keeps m z s there in rest.keeps k z s mid;
            }
    ]

-- The loop of the compression ends by its test: more fuel than the steps to the root changes nothing.
compress_enough :
    (fuel n : ℕ) (p : EntityId → EntityId) (x r : EntityId)
    → Root p n x r
    → n ≤ fuel
    → compress (suc fuel) r p x ≡ compress fuel r p x
unfolding compress root_of
compress_enough zero n p x r root h =
    let done = root_of-Root p n zero x r h root in
    let fixed : p x ≡ r = ap p done ∙ Root-fixed p n x r root in
    let here : (p x == r) ≡ true = rw fixed (==_refl r) in ground arith
compress_enough (suc fuel) n p x r root h = elim (Bool-cases (p x == r)) [
  | inl done ↦ ground arith
  | inr on ↦
      let (leaves, k, higher) = Root-moves p n x r root (Root-below p n x r root on) in
      let steps = (Root-unique p n (suc k) x r r root (up k x r leaves higher)).0 in
      let (j, nearer, next) = assign-Root p n x r root k (p x) r higher in
      let rest = compress_enough fuel j (assign x r p) (p x) r next (omega arith) in ground arith
]

-- what `find` returns, and leaves
pub record Found (f : Forest) (x root : EntityId) (g : Forest) : Type 0 where
  pub steps : ℕ
  pub is_root : Root f.parent steps x root
  pub forest : IsForest g
  pub keeps : Keeps f.parent g.parent
  pub known : (y : EntityId) → contains g.known y ≡ (contains f.known y || x == y)

contains-setdefault :
    (x : EntityId) (f : Forest) (y : EntityId)
    → contains (setdefault x f).known y ≡ (contains f.known y || x == y)
unfolding contains
contains-setdefault x f y = elim (Bool-cases (contains f.known x)) [
  | inl old ↦ ground arith
  | inr new ↦ ground (arith, contains-append f.known (x ∷ []) y)
]

pub find_root-Found :
    (x : EntityId) (f : Forest) → IsForest f → Found f x (find_root x f).0 (find_root x f).1
unfolding find_root
find_root-Found x f forest =
    let g = setdefault x f in
    let known = contains-setdefault x f in
    let below : (y : EntityId) → g.parent y ≢ y → contains g.known y ≡ true =
      λ y moves. let old = forest.below y moves in known y ∙ ground arith in
    let (n, r, root) = forest.rooted x in
    let bound = Root-le g.parent g.known below n x r root in
    let reached : root_of (length g.known) g.parent x ≡ r =
      root_of-Root g.parent n (length g.known) x r bound root in
    let is_root : Root g.parent n x (root_of (length g.known) g.parent x) = rw reached root in
    let within : (y : EntityId) → contains g.known y ≡ true → contains g.known (g.parent y) ≡ true =
      λ y listed. elim (Bool-cases (g.parent y == y)) [
        | inl top_y ↦ let e : g.parent y ≡ y = ground arith in rw e listed
        | inr moves ↦
            let old = forest.below y (λ e. absurd ground arith) in
            let higher = forest.within y old in known (g.parent y) ∙ ground arith
      ] in
    let pressed =
      compress-Compressed g.known (length g.known) g.parent below within n x
        (root_of (length g.known) g.parent x) is_root
        (let h = ==_refl x in known x ∙ ground arith) in
    record {
      steps = n;
      is_root = is_root;
      forest = record {
        below = pressed.below;
        within = pressed.within;
        rooted = λ y.
            let (m, s, there) = forest.rooted y in
            let (k, now) = pressed.keeps m y s there in (k, s, now);
      };
      keeps = pressed.keeps;
      known = known;
    }
