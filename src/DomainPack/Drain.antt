-- ===== src/DomainPack/Drain.antt =====
-- The loop of `_reject_cycles` in domain/pack.py: its invariant, its end, and which nodes it leaves.
use iknos.Prelude.{
  ℕ, zero, suc, ◌+◌, ◌≤◌, ◌<◌, ◌≡◌, refl, true, false, ◌&&◌, ◌||◌, List, [], ◌∷◌, length, arith,
  contains, keep, contains-keep, keep-Distinct, Distinct, ◌==◌, length-subset_le,
}
use iknos.DomainPack.{PartOfRelation, linked, targets, in_degrees, release, Drained, drain, drained}
use iknos.DomainPack.Kahn.{
  open_in, contains-times, open_in-times, in_degrees-open_in, Released, release-Released,
}

module _ (rels : List PartOfRelation) (nodes : List ℕ)
    (closed : (a b : ℕ) → linked rels a b ≡ true → contains nodes b ≡ true) where
  -- each node was done after all the parts that link to it
  abbrev pub IsOrdered : List ℕ → Type 0
  IsOrdered [] = Unit
  IsOrdered (x ∷ xs) = (open_in xs rels x ≡ 0) × IsOrdered xs

  pub record Inv (done : List ℕ) (d : ℕ → ℕ) (q : List ℕ) : Type 0 where
    pub done_once : Distinct done
    pub queue_once : Distinct q
    pub apart : (w : ℕ) → contains q w ≡ true → contains done w ≡ false
    pub counts : (w : ℕ) → d w ≡ open_in done rels w
    pub idle : (w : ℕ) → (contains q w || contains done w) ≡ (contains nodes w && d w == 0)
    pub ordered : IsOrdered done

  targets-linked : (rs : List PartOfRelation) (a b : ℕ) → contains (targets rs a) b ≡ linked rs a b
  unfolding targets contains
  targets-linked [] a b = refl
  targets-linked (r ∷ rs) a b = ground (arith, targets-linked rs a b)

  Inv-release :
      (done : List ℕ) (d : ℕ → ℕ) (k : ℕ) (q : List ℕ)
      → Inv done d (k ∷ q)
      → let r = release (targets rels k) d q in Inv (k ∷ done) r.0 r.1
  unfolding contains
  Inv-release done d k q h =
      let fresh : contains done k ≡ false = h.apart k (ground arith) in
      let less = λ (w : ℕ). open_in-times done k fresh rels w in
      let rel : Released (targets rels k) d q (release (targets rels k) d q) =
        release-Released (targets rels k) d q (λ w. omega (arith, h.counts w, less w))
          (λ w m. ground (arith, h.idle w)) h.queue_once.1 in
      record {
        done_once = (fresh, h.done_once);
        queue_once = rel.once;
        apart = λ w m. ground (
          arith,
          rel.joins w,
          h.apart w,
          h.idle w,
          h.counts w,
          less w,
          rel.counts w,
          contains-times (targets rels k) w,
        );
        counts = λ w. omega (arith, h.counts w, less w, rel.counts w);
        idle = λ w. ground (
          arith,
          rel.joins w,
          rel.counts w,
          h.idle w,
          contains-times (targets rels k) w,
          targets-linked rels k w,
          closed k w,
        );
        ordered = (ground (arith, h.idle k, h.counts k), h.ordered);
      }

  -- the state in which the loop ends: no node waits
  pub record Finished (r : Drained) : Type 0 where
    pub done : List ℕ
    pub inv : Inv done r.indeg []
    pub visited : r.visited ≡ length done

  pub done-contains :
      (done : List ℕ) (d : ℕ → ℕ) (q : List ℕ)
      → Inv done d q
      → (w : ℕ) → contains done w ≡ true
      → contains nodes w ≡ true
  done-contains done d q h w m = ground (arith, h.idle w)

  length-done :
      (done : List ℕ) (d : ℕ → ℕ) (k : ℕ) (q : List ℕ)
      → Inv done d (k ∷ q)
      → length done < length nodes
  unfolding contains
  length-done done d k q h =
      length-subset_le (k ∷ done) nodes (h.apart k (ground arith), h.done_once)
        (λ w m. ground (arith, h.idle w))

  drain-Finished :
      (fuel : ℕ) (done : List ℕ) (d : ℕ → ℕ) (q : List ℕ)
      → Inv done d q
      → length nodes ≤ fuel + length done
      → Finished (drain fuel rels d q (length done))
  unfolding drain
  drain-Finished zero done d [] h enough = record { done = done; inv = h; visited = refl }
  drain-Finished zero done d (k ∷ q) h enough =
      absurd (let less = length-done done d k q h in omega arith)
  drain-Finished (suc fuel) done d [] h enough = record { done = done; inv = h; visited = refl }
  drain-Finished (suc fuel) done d (k ∷ q) h enough =
      let r = release (targets rels k) d q in
      drain-Finished fuel (k ∷ done) r.0 r.1 (Inv-release done d k q h) (omega arith)

  -- The loop ends within its bound.
  pub drained-Finished : Distinct nodes → Finished (drained rels nodes)
  unfolding drained contains
  drained-Finished once =
      let d = in_degrees rels (λ _. 0) in
      let start : Inv [] d (keep (λ k. d k == 0) nodes) = record {
        done_once = tt;
        queue_once = keep-Distinct (λ k. d k == 0) nodes once;
        apart = λ w m. refl;
        counts = λ w. omega (arith, in_degrees-open_in rels (λ _. 0) w);
        idle = λ w. ground (arith, contains-keep (λ k. d k == 0) nodes w);
        ordered = tt;
      } in
      drain-Finished (length nodes) [] d (keep (λ k. d k == 0) nodes) start (omega arith)
