-- ===== src/TruthMaintenance/Entries/Remove.antt =====
-- Tables that lose a key.
use iknos.Prelude.{
  ℕ, ◌≡◌, refl, Bool, false, not, ◌&&◌, List, [], ◌∷◌, none, arith, contains, keep, Distinct, ◌==◌,
  if◌then◌else◌,
}
use iknos.TruthMaintenance.Graph.{NodeId}
use iknos.TruthMaintenance.Entries.{Entry, ids, find, ids_using, ids_heading}

-- `del table[i]`
unfoldable pub remove_entry : ℕ → List Entry → List Entry
remove_entry i [] = []
remove_entry i ((j, d) ∷ es) =
    let rest = remove_entry i es in if i == j then rest else (j, d) ∷ rest

-- the elements other than `i`
abbrev pub other_than : ℕ → ℕ → Bool
other_than i j = not (i == j)

pub find-remove_entry :
    (i : ℕ) (es : List Entry) (j : ℕ)
    → find (remove_entry i es) j ≡ (if i == j then none else find es j)
unfolding remove_entry find
find-remove_entry i [] j = ground arith
find-remove_entry i ((k, d) ∷ es) j = ground (arith, find-remove_entry i es j)

pub contains-ids-remove_entry :
    (i : ℕ) (es : List Entry) (j : ℕ)
    → contains (ids (remove_entry i es)) j ≡ (other_than i j && contains (ids es) j)
unfolding remove_entry ids contains
contains-ids-remove_entry i [] j = ground arith
contains-ids-remove_entry i ((k, d) ∷ es) j = ground (arith, contains-ids-remove_entry i es j)

pub remove_entry-Distinct :
    (i : ℕ) (es : List Entry) → Distinct (ids es) → Distinct (ids (remove_entry i es))
unfolding remove_entry ids
remove_entry-Distinct i [] k = tt
remove_entry-Distinct i ((j, d) ∷ es) k =
    ground (arith, remove_entry-Distinct i es k.1, contains-ids-remove_entry i es j)

pub ids_using-remove_entry :
    (a : NodeId) (i : ℕ) (es : List Entry)
    → ids_using a (remove_entry i es) ≡ keep (other_than i) (ids_using a es)
unfolding remove_entry ids_using keep
ids_using-remove_entry a i [] = refl
ids_using-remove_entry a i ((j, d) ∷ es) = ground (arith, ids_using-remove_entry a i es)

pub ids_heading-remove_entry :
    (c : NodeId) (i : ℕ) (es : List Entry)
    → ids_heading c (remove_entry i es) ≡ keep (other_than i) (ids_heading c es)
unfolding remove_entry ids_heading keep
ids_heading-remove_entry c i [] = refl
ids_heading-remove_entry c i ((j, d) ∷ es) = ground (arith, ids_heading-remove_entry c i es)

-- to keep all but an absent element changes nothing
pub keep_absent : (i : ℕ) (l : List ℕ) → contains l i ≡ false → keep (other_than i) l ≡ l
unfolding keep contains
keep_absent i [] h = refl
keep_absent i (x ∷ l) h = ground (arith, keep_absent i l)

pub keep_twice :
    (i : ℕ) (l : List ℕ) → keep (other_than i) (keep (other_than i) l) ≡ keep (other_than i) l
unfolding keep
keep_twice i [] = refl
keep_twice i (x ∷ l) = ground (arith, keep_twice i l)
