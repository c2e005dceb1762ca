-- ===== src/DomainPack/Search.antt =====
-- The search of `transitive_closure` in domain/pack.py: what it finds from one start.
use iknos.Prelude.{
  ℕ, ◌+◌, ◌≤◌, ◌<◌, ◌≡◌, refl, inl, inr, true, false, not, ◌&&◌, ◌||◌, List, [], ◌∷◌, ◌++◌, length,
  length-append, Each, arith, contains, lacking, ◌==◌, Bool-cases,
}
use iknos.DomainPack.{PartOfRelation, linked, targets, safe, RollFront, enqueue}

-- the nodes that wait
abbrev pub nodes_of : List (ℕ × ℕ) → List ℕ
nodes_of [] = []
nodes_of ((w, d) ∷ rest) = w ∷ nodes_of rest

pub targets-linked :
    (rs : List PartOfRelation) (a b : ℕ) → contains (targets rs a) b ≡ linked rs a b
unfolding targets contains
targets-linked [] a b = refl
targets-linked (r ∷ rs) a b = ground (arith, targets-linked rs a b)

abbrev pub wholes : List PartOfRelation → List ℕ
wholes [] = []
wholes (r ∷ rs) = r.whole ∷ wholes rs

pub wholes-linked :
    (rs : List PartOfRelation) (a b : ℕ)
    → linked (safe rs) a b ≡ true
    → contains (wholes rs) b ≡ true
unfolding safe contains
wholes-linked [] a b l = cc
wholes-linked (r ∷ rs) a b l = ground (arith, wholes-linked rs a b)

lacking_le :
    (w : ℕ) (seen pool : List ℕ) → lacking (contains (w ∷ seen)) pool ≤ lacking (contains seen) pool
unfolding lacking contains
lacking_le w seen [] = omega arith
lacking_le w seen (x ∷ xs) = ground (arith, lacking_le w seen xs)

lacking_less :
    (w : ℕ) (seen pool : List ℕ)
    → contains pool w ≡ true
    → contains seen w ≡ false
    → lacking (contains (w ∷ seen)) pool < lacking (contains seen) pool
unfolding lacking contains
lacking_less w seen [] m n = cc
lacking_less w seen (x ∷ xs) m n = elim (Bool-cases (x == w)) [
  | inl at ↦
      let e : x ≡ w = ground arith in
      let out : contains seen x ≡ false = rw e n in ground (arith, lacking_le w seen xs)
  | inr other ↦ ground (arith, lacking_less w seen xs)
]

abbrev pub work : List ℕ → RollFront → ℕ
work pool f = length f.waiting + lacking (contains f.local_seen) pool

nodes_of-append :
    (xs ys : List (ℕ × ℕ)) (x : ℕ)
    → contains (nodes_of (xs ++ ys)) x ≡ (contains (nodes_of xs) x || contains (nodes_of ys) x)
unfolding contains
nodes_of-append [] ys x = refl
nodes_of-append ((w, d) ∷ xs) ys x = ground (arith, nodes_of-append xs ys x)

Each-append :
    (P : ℕ × ℕ → Type 0) (xs : List (ℕ × ℕ)) (y : ℕ × ℕ) → Each P xs → P y → Each P (xs ++ y ∷ [])
Each-append P [] y h p = (p, tt)
Each-append P (x ∷ xs) y h p = (h.0, Each-append P xs y h.1 p)

-- what `enqueue` does to the front of a search
pub record Enqueued (P : ℕ × ℕ → Type 0) (pool ws : List ℕ) (f g : RollFront) : Type 0 where
  pub cheaper : work pool g ≤ work pool f
  pub seen : (x : ℕ) → contains g.local_seen x ≡ (contains f.local_seen x || contains ws x)
  pub waits :
      (x : ℕ)
      → contains (nodes_of g.waiting) x
        ≡ (contains (nodes_of f.waiting) x || (contains ws x && not (contains f.local_seen x)))
  pub holds : Each P g.waiting

pub enqueue-Enqueued :
    (P : ℕ × ℕ → Type 0) (pool ws : List ℕ) (depth : ℕ) (f : RollFront)
    → Each P f.waiting
    → ((w : ℕ) → contains ws w ≡ true → P (w, depth) × (contains pool w ≡ true))
    → Enqueued P pool ws f (enqueue ws depth f)
unfolding enqueue contains
enqueue-Enqueued P pool [] depth f h new = record {
  cheaper = omega arith;
  seen = λ x. ground arith;
  waits = λ x. ground arith;
  holds = h;
}
enqueue-Enqueued P pool (w ∷ ws) depth f h new = elim (Bool-cases (contains f.local_seen w)) [
  | inl old ↦
      let rest = enqueue-Enqueued P pool ws depth f h (λ x m. new x (ground arith)) in
      rw old record {
        cheaper = rest.cheaper;
        seen = λ x. ground (arith, rest.seen x);
        waits = λ x. ground (arith, rest.waits x);
        holds = rest.holds;
      }
  | inr fresh ↦
      let (p, pooled) = new w (ground arith) in
      let g : RollFront = record {
        waiting = f.waiting ++ (w, depth) ∷ [];
        local_seen = w ∷ f.local_seen;
      } in
      let rest =
        enqueue-Enqueued P pool ws depth g (Each-append P f.waiting (w, depth) h p)
          (λ x m. new x (ground arith)) in
      let less = lacking_less w f.local_seen pool pooled fresh in
      let longer = length-append f.waiting ((w, depth) ∷ []) in
      rw fresh record {
        cheaper = omega (arith, rest.cheaper);
        seen = λ x. ground (arith, rest.seen x);
        waits = λ x. ground (arith, rest.waits x, nodes_of-append f.waiting ((w, depth) ∷ []) x);
        holds = rest.holds;
      }
]
