-- ===== src/ComposedLoop/Outcome.antt =====
-- What `stabilize` returns, in terms of the orbit of the initial state.
use iknos.Prelude.{
  ℕ, zero, suc, ◌+◌, ◌≤◌, ◌<◌, ◌≡◌, ◌≢◌, refl, sym, ap, inl, inr, false, none, some, List, [], ◌∷◌,
  ◌++◌, drop, length, length-append, ◌==◌, Bool-cases, Option-cases, arith, pigeonhole,
}
use iknos.ComposedLoop.{
  converged, oscillating, diverged, StabilizationResult, Hashable, lookup, iterate_loop, stabilize,
}

module _ {ℓ κ} {S : Type ℓ} {K : Type κ} (keys : Hashable K) (step : S → S) (key : S → K) where
  -- the state after `n` steps, and the first `n` states
  unfoldable pub iterate : ℕ → S → S
  iterate zero s = s
  iterate (suc n) s = step (iterate n s)

  unfoldable pub orbit : ℕ → S → List S
  unfolding iterate
  orbit zero s = []
  orbit (suc n) s = orbit n s ++ iterate n s ∷ []

  -- the first `n` states have different keys
  abbrev pub Fresh : S → ℕ → Type κ
  Fresh s n = (a b : ℕ) → a < b → b < n → key (iterate a s) ≢ key (iterate b s)

  -- The three ways for the loop to end.
  pub data Ends (s : S) (bound : ℕ) : StabilizationResult S → Type (ℓ ⊔ κ) where
    converges :
        (n : ℕ)
        → n < bound
        → Fresh s (suc n)
        → key (iterate (suc n) s) ≡ key (iterate n s)
        → Ends s bound record {
          status = converged;
          state = iterate (suc n) s;
          iterations = suc n;
          trajectory = orbit (suc n) s;
          cycle = [];
        }
    oscillates :
        (n start : ℕ)
        → n < bound
        → start < n
        → Fresh s (suc n)
        → key (iterate (suc n) s) ≡ key (iterate start s)
        → Ends s bound record {
          status = oscillating;
          state = iterate (suc n) s;
          iterations = suc n;
          trajectory = orbit (suc (suc n)) s;
          cycle = drop start (orbit (suc n) s);
        }
    diverges :
        Fresh s (suc bound)
        → Ends s bound record {
          status = diverged;
          state = iterate bound s;
          iterations = bound;
          trajectory = orbit (suc bound) s;
          cycle = [];
        }

  pub length-orbit : (n : ℕ) (s : S) → length (orbit n s) ≡ n
  unfolding orbit
  length-orbit zero s = refl
  length-orbit (suc n) s =
      omega (arith, length-append (orbit n s) (iterate n s ∷ []), length-orbit n s)

  -- `seen` has the position of each of the first `n` states, and nothing else
  record Sees (s : S) (n : ℕ) (seen : List (K × ℕ)) : Type κ where
    found : (k : K) (i : ℕ) → lookup keys seen k ≡ some i → (i < n) × (key (iterate i s) ≡ k)
    missing : (k : K) → lookup keys seen k ≡ none → (i : ℕ) → i < n → key (iterate i s) ≢ k

  Sees-next :
      (s : S) (n : ℕ) (seen : List (K × ℕ))
      → Sees s n seen
      → Sees s (suc n) ((key (iterate n s), n) ∷ seen)
  unfolding lookup
  Sees-next s n seen h = record {
    found = λ k i e. elim (Bool-cases (keys.same (key (iterate n s)) k)) [
      | inl same ↦
          let at : n ≡ i = ground arith in (omega arith, rw (← at) ((keys.same_iff _ _).0 same))
      | inr other ↦ let (below, is) = h.found k i (ground arith) in (omega arith, is)
    ];
    missing = λ k e i below. elim (Bool-cases (keys.same (key (iterate n s)) k)) [
      | inl same ↦ cc
      | inr other ↦ elim (Bool-cases (i == n)) [
        | inl last ↦
            let at : i ≡ n = ground arith in
            rw at (λ same. let hit = (keys.same_iff _ _).1 same in cc)
        | inr before ↦ h.missing k (ground arith) i (ground arith)
      ]
    ];
  }

  Fresh-next :
      (s : S) (n : ℕ)
      → Fresh s (suc n)
      → ((i : ℕ) → i < suc n → key (iterate i s) ≢ key (iterate (suc n) s))
      → Fresh s (suc (suc n))
  Fresh-next s n old new a b less below = elim (Bool-cases (b == suc n)) [
    | inl last ↦ let at : b ≡ suc n = ground arith in rw at (new a (omega arith))
    | inr before ↦ old a b less (ground arith)
  ]

  loop-Ends :
      (s : S) (bound left done : ℕ) (seen : List (K × ℕ))
      → left + done ≡ bound
      → Sees s (suc done) seen
      → Fresh s (suc done)
      → Ends s bound
          (iterate_loop keys step key left done (iterate done s) (orbit (suc done) s) seen)
  unfolding iterate_loop iterate orbit
  loop-Ends s bound zero done seen e sees fresh =
      let at : done ≡ bound = omega arith in rw at (diverges (rw (← at) fresh))
  loop-Ends s bound (suc left) done seen e sees fresh =
      elim (Bool-cases (keys.same (key (iterate (suc done) s)) (key (iterate done s)))) [
        | inl same ↦
            rw (same, iterate_loop)
              (converges done (omega arith) fresh ((keys.same_iff _ _).0 same))
        | inr other ↦ elim (Option-cases (lookup keys seen (key (iterate (suc done) s)))) [
          | inl new ↦
              rw (other, new, iterate_loop)
                (loop-Ends s bound left (suc done) _ (omega arith)
                  (rw (length-orbit (suc done) s) (Sees-next s (suc done) seen sees))
                  (Fresh-next s done fresh (sees.missing _ new)))
          | inr (start, at) ↦
              let (below, is) = sees.found _ start at in
              rw (other, at, iterate_loop)
                (oscillates done start (omega arith) (earlier start below is other) fresh (sym is))
        ]
      ]
    where
      earlier :
          (start : ℕ)
          → start < suc done
          → key (iterate start s) ≡ key (iterate (suc done) s)
          → keys.same (key (iterate (suc done) s)) (key (iterate done s)) ≡ false
          → start < done
      earlier start below is other = elim (Bool-cases (start == done)) [
        | inl last ↦
            let at : start ≡ done = ground arith in
            let hit = (keys.same_iff _ _).1 (sym (rw at at is)) in cc
        | inr before ↦ ground arith
      ]

  -- With a bound of at least one, `stabilize` returns, within the bound, in one of three ways:
  -- converged, when the last step kept the key; oscillating, with the states since the first with
  -- the same key; or diverged, after `bound` steps. The states before the last step have different
  -- keys, and the trajectory is the orbit of the initial state.
  pub stabilize-Ends :
      (s : S) (bound : ℕ)
      → 0 < bound
      → (r : StabilizationResult S) × (stabilize keys step key s bound ≡ some r) × Ends s bound r
  unfolding stabilize iterate orbit
  stabilize-Ends s zero h = absurd (omega arith)
  stabilize-Ends s (suc bound) h = (
    _,
    refl,
    loop-Ends s (suc bound) (suc bound) 0 _ (omega arith)
        (Sees-next s 0 []
          (record { found = λ k i e. cc; missing = λ k e i below. absurd (omega arith) }))
        (λ a b less below. absurd (omega arith)),
  )

  pub Ends-of :
      (s : S) (bound : ℕ) (r : StabilizationResult S)
      → stabilize keys step key s bound ≡ some r
      → Ends s bound r
  unfolding stabilize
  Ends-of s zero r e = cc
  Ends-of s (suc bound) r e =
      let (r', e', ends) = stabilize-Ends s (suc bound) (omega arith) in
      let same : r' ≡ r = cc in rw (← same) ends

  Ends-fixpoint :
      (s : S) (bound : ℕ) (r : StabilizationResult S)
      → ((a b : S) → key a ≡ key b → a ≡ b)
      → Ends s bound r
      → r.status ≡ converged
      → step r.state ≡ r.state
  unfolding iterate
  Ends-fixpoint s bound _ injective (converges n less fresh same) c = ap step (injective _ _ same)
  Ends-fixpoint s bound _ injective (oscillates n start less early fresh same) c = cc
  Ends-fixpoint s bound _ injective (diverges fresh) c = cc

  Ends-finite :
      (s : S) (bound : ℕ) (code : K → ℕ) (limit : ℕ) (r : StabilizationResult S)
      → ((a b : K) → code a ≡ code b → a ≡ b)
      → ((n : ℕ) → code (key (iterate n s)) < limit)
      → limit ≤ bound
      → Ends s bound r
      → r.status ≢ diverged
  Ends-finite s bound code limit _ injective below fits (converges n less fresh same) = λ d. cc
  Ends-finite s bound code limit _ injective below fits (oscillates n start less early fresh same) =
      λ d. cc
  Ends-finite s bound code limit _ injective below fits (diverges fresh) =
      let few =
        pigeonhole (λ i. code (key (iterate i s))) (suc bound) limit
          (λ a b less at same. fresh a b less at (injective _ _ same)) (λ i at. below i) in
      absurd (omega arith)

  -- A result that has converged is a fixpoint of the step, where the key tells states apart.
  pub stabilize-fixpoint :
      (s : S) (bound : ℕ) (r : StabilizationResult S)
      → ((a b : S) → key a ≡ key b → a ≡ b)
      → stabilize keys step key s bound ≡ some r
      → r.status ≡ converged
      → step r.state ≡ r.state
  stabilize-fixpoint s bound r injective e c =
      Ends-fixpoint s bound r injective (Ends-of s bound r e) c

  -- If the keys that the loop can reach have codes below a limit, then a bound that is at least
  -- the limit suffices: the loop converges or oscillates, and never diverges.
  pub stabilize-finite :
      (s : S) (bound : ℕ) (code : K → ℕ) (limit : ℕ) (r : StabilizationResult S)
      → ((a b : K) → code a ≡ code b → a ≡ b)
      → ((n : ℕ) → code (key (iterate n s)) < limit)
      → limit ≤ bound
      → stabilize keys step key s bound ≡ some r
      → r.status ≢ diverged
  stabilize-finite s bound code limit r injective below fits e =
      Ends-finite s bound code limit r injective below fits (Ends-of s bound r e)
