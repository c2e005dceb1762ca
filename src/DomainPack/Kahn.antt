-- ===== src/DomainPack/Kahn.antt =====
-- The loop of `_reject_cycles` in domain/pack.py: what holds at each turn, and at its end.
use iknos.Prelude.{
  ℕ, suc, ◌+◌, ◌≤◌, ◌<◌, ◌≡◌, refl, inl, inr, true, false, ◌&&◌, ◌||◌, List, [], ◌∷◌, ◌++◌, arith,
  contains, append-Distinct, contains-append, Distinct, ltb, ◌==◌, if◌then◌else◌, Bool-cases,
}
use iknos.DomainPack.{PartOfRelation, linked, targets, lowered, raised, in_degrees, release}

-- how often `w` stands in a list
unfoldable pub times : List ℕ → ℕ → ℕ
times [] w = 0
times (x ∷ xs) w = if x == w then suc (times xs w) else times xs w

-- the relations into `w` from parts that are not done
unfoldable pub open_in : List ℕ → List PartOfRelation → ℕ → ℕ
open_in done [] w = 0
open_in done (r ∷ rs) w =
    if r.whole == w && (if contains done r.part then false else true)
    then suc (open_in done rs w)
    else open_in done rs w

pub contains-times : (xs : List ℕ) (w : ℕ) → contains xs w ≡ ltb 0 (times xs w)
unfolding contains times
contains-times [] w = refl
contains-times (x ∷ xs) w = ground (arith, contains-times xs w)

pub open_in-times :
    (done : List ℕ) (n : ℕ)
    → contains done n ≡ false
    → (rels : List PartOfRelation) (w : ℕ)
    → open_in done rels w ≡ open_in (n ∷ done) rels w + times (targets rels n) w
unfolding open_in times targets contains
open_in-times done n fresh [] w = refl
open_in-times done n fresh (r ∷ rs) w = elim (Bool-cases (r.part == n)) [
  | inl at ↦
      let e : r.part ≡ n = ground arith in
      let out : contains done r.part ≡ false = rw e fresh in
      ground (arith, open_in-times done n fresh rs w)
  | inr other ↦ ground (arith, open_in-times done n fresh rs w)
]

pub in_degrees-open_in :
    (rels : List PartOfRelation) (d : ℕ → ℕ) (w : ℕ) → in_degrees rels d w ≡ open_in [] rels w + d w
unfolding in_degrees open_in contains
in_degrees-open_in [] d w = omega arith
in_degrees-open_in (r ∷ rs) d w = ground (arith, in_degrees-open_in rs (raised r.whole d) w)

pub open_in_witness :
    (done : List ℕ) (rels : List PartOfRelation) (w : ℕ)
    → 0 < open_in done rels w
    → (p : ℕ) × (linked rels p w ≡ true) × (contains done p ≡ false)
unfolding open_in
open_in_witness done [] w h = absurd (omega arith)
open_in_witness done (r ∷ rs) w h = elim (Bool-cases (r.whole == w)) [
  | inl at ↦ elim (Bool-cases (contains done r.part)) [
    | inl gone ↦ let (p, l, n) = open_in_witness done rs w (ground arith) in (p, ground arith, n)
    | inr waits ↦ (r.part, ground arith, waits)
  ]
  | inr other ↦ let (p, l, n) = open_in_witness done rs w (ground arith) in (p, ground arith, n)
]

pub open_in-linked :
    (done : List ℕ) (rels : List PartOfRelation) (p w : ℕ)
    → open_in done rels w ≡ 0
    → linked rels p w ≡ true
    → contains done p ≡ true
unfolding open_in
open_in-linked done [] p w h l = cc
open_in-linked done (r ∷ rs) p w h l = elim (Bool-cases (r.part == p && r.whole == w)) [
  | inl at ↦ let e : r.part ≡ p = ground arith in rw (← e) (ground arith)
  | inr other ↦ open_in-linked done rs p w (ground arith) (ground arith)
]

-- what `release` does with the in-degrees and the queue
pub record Released (ws : List ℕ) (d : ℕ → ℕ) (q : List ℕ) (r : (ℕ → ℕ) × List ℕ) : Type 0 where
  pub counts : (w : ℕ) → r.0 w + times ws w ≡ d w
  pub joins : (w : ℕ) → contains r.1 w ≡ (contains q w || (contains ws w && r.0 w == 0))
  pub once : Distinct r.1

pub release-Released :
    (ws : List ℕ) (d : ℕ → ℕ) (q : List ℕ)
    → ((w : ℕ) → times ws w ≤ d w)
    → ((w : ℕ) → contains q w ≡ true → d w ≡ 0)
    → Distinct q
    → Released ws d q (release ws d q)
unfolding release times contains
release-Released [] d q enough idle once = record {
  counts = λ w. omega arith;
  joins = λ w. ground arith;
  once = once;
}
release-Released (x ∷ ws) d q enough idle once =
    let less : ℕ → ℕ = lowered x d in
    let more : List ℕ = if less x == 0 then q ++ x ∷ [] else q in
    let fresh : contains q x ≡ false = elim (Bool-cases (contains q x)) [
      | inl m ↦ absurd (let z = idle x m in let e = enough x in ground arith)
      | inr n ↦ n
    ] in
    let rest : Released ws less more (release ws less more) =
      release-Released ws less more (λ w. ground (arith, enough w))
        (λ w m. ground (arith, idle w, contains-append q (x ∷ []) w))
        (ground (arith, append-Distinct q x once fresh)) in
    record {
      counts = λ w. ground (arith, rest.counts w, enough w);
      joins = λ w. ground (
        arith,
        rest.joins w,
        rest.counts w,
        enough w,
        contains-append q (x ∷ []) w,
        contains-times ws w,
      );
      once = rest.once;
    }
