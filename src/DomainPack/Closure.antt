-- ===== src/DomainPack/Closure.antt =====
-- `transitive_closure` of domain/pack.py: the edges that roll up, against chains of relations.
use iknos.Prelude.{
  ℕ, ◌+◌, ◌≤◌, ◌≡◌, ◌↔◌, refl, ap, inl, inr, Bool, true, false, ◌&&◌, ◌||◌, List, [], ◌∷◌, ◌++◌,
  map, length, Each, arith, contains, contains-sorted, sorted, any, lacking, ◌==◌, Bool-cases,
}
use iknos.DomainPack.{
  Origin, direct, rollup, PartOfRelation, PartOfEdge, DomainPack, linked, targets, safe,
  rollups_from, rolled, rollup_edges, as_declared, keys, transitive_closure,
}
use iknos.DomainPack.Chains.{Chain, one, more}
use iknos.DomainPack.Structure.{WellFormed, Joins-linked}
use iknos.DomainPack.Rolls.{Placed, Search, roll_sound, roll_complete}
use iknos.DomainPack.Search.{nodes_of, targets-linked, wholes}

length-targets : (rels : List PartOfRelation) (n : ℕ) → length (targets (safe rels) n) ≤ length rels
unfolding targets safe
length-targets [] n = omega arith
length-targets (r ∷ rs) n = ground (arith, length-targets rs n)

lacking-wholes : (f : ℕ → Bool) (rels : List PartOfRelation) → lacking f (wholes rels) ≤ length rels
unfolding lacking
lacking-wholes f [] = omega arith
lacking-wholes f (r ∷ rs) = ground (arith, lacking-wholes f rs)

linked-safe :
    (rels : List PartOfRelation) (a b : ℕ) → linked (safe rels) a b ≡ true → linked rels a b ≡ true
unfolding safe
linked-safe [] a b l = cc
linked-safe (r ∷ rs) a b l = ground (arith, linked-safe rs a b)

abbrev firsts : List ℕ → List (ℕ × ℕ)
firsts = map (λ w. (w, 1))

length-firsts : (ws : List ℕ) → length (firsts ws) ≡ length ws
length-firsts [] = refl
length-firsts (w ∷ ws) = omega (arith, length-firsts ws)

nodes_of-firsts : (ws : List ℕ) → nodes_of (firsts ws) ≡ ws
nodes_of-firsts [] = refl
nodes_of-firsts (w ∷ ws) = ap (λ t. w ∷ t) (nodes_of-firsts ws)

firsts-Placed :
    (rels : List PartOfRelation) (start : ℕ) (ws : List ℕ)
    → ((w : ℕ) → contains ws w ≡ true → linked (safe rels) start w ≡ true)
    → Each (Placed rels start) (firsts ws)
unfolding contains
firsts-Placed rels start [] h = tt
firsts-Placed rels start (w ∷ ws) h =
    let l = h w (ground arith) in
    (
      (one l, omega arith, λ _. linked-safe rels start w l),
      firsts-Placed rels start ws (λ x m. h x (ground arith)),
    )

-- The search from `start` ends within its bound, and finds what a chain of relations that compose
-- leads to and no declared relation does.
rollups_from_iff :
    (rels : List PartOfRelation) (start x : ℕ)
    → (contains (rollups_from rels start) x ≡ true)
      ↔ (Chain (linked (safe rels)) start x × (linked rels start x ≡ false))
unfolding rollups_from contains
rollups_from_iff rels start x =
    let ws = targets (safe rels) start in
    let same = λ (w : ℕ). targets-linked (safe rels) start w in
    let placed = firsts-Placed rels start ws (λ w m. ground (arith, same w)) in
    let listed = λ (w : ℕ). ap (λ l. contains l w) (nodes_of-firsts ws) in
    let search : Search rels start [] (firsts ws) ws = record {
      placed = placed;
      covered = λ w m. ground (arith, listed w);
      first = λ w l. ground (arith, same w);
      closed = λ a b m l. cc;
    } in
    (
      roll_sound rels start (length rels + length rels) (firsts ws) ws placed x,
      λ (r, far).
          roll_complete rels start (length rels + length rels) [] (firsts ws) ws search
            (omega (
              arith,
              length-firsts ws,
              length-targets rels start,
              lacking-wholes (contains ws) rels,
            ))
            x r far refl,
    )

abbrev pub is_rollup : Origin → Bool
is_rollup direct = false
is_rollup rollup = true

-- the closure has a rolled-up edge from `p` to `w`
abbrev pub rolled_up : List PartOfEdge → ℕ → ℕ → Bool
rolled_up edges p w = any (λ e. is_rollup e.derivation && e.part == p && e.whole == w) edges

rolled_up-append :
    (xs ys : List PartOfEdge) (p w : ℕ)
    → rolled_up (xs ++ ys) p w ≡ (rolled_up xs p w || rolled_up ys p w)
rolled_up-append [] ys p w = refl
rolled_up-append (x ∷ xs) ys p w = ground (arith, rolled_up-append xs ys p w)

rolled_up-declared :
    (rs : List PartOfRelation) (p w : ℕ) → rolled_up (map as_declared rs) p w ≡ false
rolled_up-declared [] p w = refl
rolled_up-declared (r ∷ rs) p w = rolled_up-declared rs p w

rolled_up-rolled :
    (start : ℕ) (ws : List ℕ) (p w : ℕ)
    → rolled_up (map (rolled start) ws) p w ≡ (start == p && contains ws w)
unfolding contains
rolled_up-rolled start [] p w = ground arith
rolled_up-rolled start (x ∷ ws) p w = ground (arith, rolled_up-rolled start ws p w)

rolled_up-edges :
    (rels : List PartOfRelation) (starts : List ℕ) (p w : ℕ)
    → rolled_up (rollup_edges rels starts) p w
      ≡ (contains starts p && contains (rollups_from rels p) w)
unfolding rollup_edges contains
rolled_up-edges rels [] p w = refl
rolled_up-edges rels (start ∷ starts) p w =
    let ws = sorted (rollups_from rels start) in
    let split = rolled_up-append (map (rolled start) ws) (rollup_edges rels starts) p w in
    let here = rolled_up-rolled start ws p w in
    let found = contains-sorted (rollups_from rels start) w in
    elim (Bool-cases (start == p)) [
      | inl at ↦
          let e : start ≡ p = ground arith in
          let moved : contains (rollups_from rels start) w ≡ contains (rollups_from rels p) w =
            rw e refl in
          ground (arith, rolled_up-edges rels starts p w)
      | inr other ↦ ground (arith, rolled_up-edges rels starts p w)
    ]

Chain-start : {link : ℕ → ℕ → Bool} {a b : ℕ} → Chain link a b → (c : ℕ) × (link a c ≡ true)
Chain-start (one {a} {b} l) = (b, l)
Chain-start (more p l) = Chain-start p

-- The closure of a well-formed pack has a rolled-up edge exactly where a chain of component-integral
-- relations leads and no declared relation does.
pub transitive_closure_iff :
    (pack : DomainPack)
    → WellFormed pack
    → (p w : ℕ)
    → (rolled_up (transitive_closure pack) p w ≡ true)
      ↔ (Chain (linked (safe pack.part_of)) p w × (linked pack.part_of p w ≡ false))
unfolding transitive_closure
transitive_closure_iff pack h p w =
    let split =
      rolled_up-append (map as_declared pack.part_of)
        (rollup_edges pack.part_of (sorted (keys pack))) p w in
    let edges = rolled_up-edges pack.part_of (sorted (keys pack)) p w in
    let both = rollups_from_iff pack.part_of p w in
    let start = contains-sorted (keys pack) p in
    let none_declared = rolled_up-declared pack.part_of p w in
    (
      λ m. both.0 (ground arith),
      λ (chain, far).
          let (c, l) = Chain-start chain in
          let known =
            (Joins-linked (keys pack) pack.part_of p c h.relations
              (linked-safe pack.part_of p c l)).0 in
          let found = both.1 (chain, far) in ground arith,
    )
