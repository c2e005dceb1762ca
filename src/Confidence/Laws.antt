-- ===== src/Confidence/Laws.antt =====
-- The laws that core/confidence.py requires of a semiring, and the order they give.
use iknos.Prelude.{◌≡◌, refl, sym, ap, ◌∙◌, ◌⊎◌, inl, inr, List, [], ◌∷◌, map}
use mathlib.Core.List.{Memᴰ}
use iknos.Confidence.{Semiring, folded, combine_alternatives}

pub record Laws {V : Type 0} (semiring : Semiring V) : Type 0 where
  pub plus_comm : (a b : V) → semiring.plus a b ≡ semiring.plus b a
  pub plus_assoc :
      (a b c : V) → semiring.plus (semiring.plus a b) c ≡ semiring.plus a (semiring.plus b c)
  -- the best of two is one of the two; idempotence is a case of it
  pub plus_selects : (a b : V) → (semiring.plus a b ≡ a) ⊎ (semiring.plus a b ≡ b)
  pub plus_zero : (a : V) → semiring.plus semiring.zero a ≡ a
  pub absorbs_left : (a b : V) → semiring.plus (semiring.times a b) a ≡ a
  pub absorbs_right : (a b : V) → semiring.plus (semiring.times a b) b ≡ b
  pub times_mono_left :
      (a b c : V)
      → semiring.plus a b ≡ b
      → semiring.plus (semiring.times a c) (semiring.times b c) ≡ semiring.times b c
  pub times_mono_right :
      (a b c : V)
      → semiring.plus a b ≡ b
      → semiring.plus (semiring.times c a) (semiring.times c b) ≡ semiring.times c b

module _ {V : Type 0} {semiring : Semiring V} (laws : Laws semiring) where
  open semiring use {times, plus, one, zero}
  open laws use {
    plus_comm, plus_assoc, plus_selects, plus_zero, absorbs_left, absorbs_right, times_mono_left,
    times_mono_right,
  }

  infix 4 ◌≼◌
  abbrev pub ◌≼◌ : V → V → Type 0
  a ≼ b = plus a b ≡ b

  pub ≼_refl : (a : V) → a ≼ a
  ≼_refl a = elim (plus_selects a a) [ inl e ↦ e | inr e ↦ e ]

  pub ≼_trans : (a b c : V) → a ≼ b → b ≼ c → a ≼ c
  ≼_trans a b c p q = ap (plus a) (sym q) ∙ sym (plus_assoc a b c) ∙ ap (λ x. plus x c) p ∙ q

  pub ≼_antisym : (a b : V) → a ≼ b → b ≼ a → a ≡ b
  ≼_antisym a b p q = sym q ∙ plus_comm b a ∙ p

  plus_left : (a b : V) → a ≼ plus a b
  plus_left a b = sym (plus_assoc a a b) ∙ ap (λ x. plus x b) (≼_refl a)

  plus_right : (a b : V) → b ≼ plus a b
  plus_right a b = ap (plus b) (plus_comm a b) ∙ plus_left b a ∙ plus_comm b a

  plus_least : (a b c : V) → a ≼ c → b ≼ c → plus a b ≼ c
  plus_least a b c p q = plus_assoc a b c ∙ ap (plus a) q ∙ p

  folded_above : (acc : V) (vs : List V) → acc ≼ folded plus acc vs
  folded_above acc [] = ≼_refl acc
  folded_above acc (v ∷ vs) =
      ≼_trans acc (plus acc v) (folded plus (plus acc v) vs) (plus_left acc v)
        (folded_above (plus acc v) vs)

  folded_upper : (acc : V) (vs : List V) (v : V) → Memᴰ v vs → v ≼ folded plus acc vs
  folded_upper acc [] v m = elim m [ ]
  folded_upper acc (x ∷ vs) v (Memᴰ.head e) =
      ap (λ t. plus t (folded plus (plus acc x) vs)) e
      ∙ ≼_trans x (plus acc x) (folded plus (plus acc x) vs) (plus_right acc x)
          (folded_above (plus acc x) vs)
  folded_upper acc (x ∷ vs) v (Memᴰ.tail m) = folded_upper (plus acc x) vs v m

  folded_least :
      (acc : V) (vs : List V) (c : V)
      → acc ≼ c
      → ((v : V) → Memᴰ v vs → v ≼ c)
      → folded plus acc vs ≼ c
  folded_least acc [] c p h = p
  folded_least acc (x ∷ vs) c p h =
      folded_least (plus acc x) vs c (plus_least acc x c p (h x (Memᴰ.head refl)))
        (λ v m. h v (Memᴰ.tail m))

  folded_selects :
      (acc : V) (vs : List V)
      → (folded plus acc vs ≡ acc) ⊎ ((v : V) × Memᴰ v vs × (folded plus acc vs ≡ v))
  folded_selects acc [] = inl refl
  folded_selects acc (x ∷ vs) = elim (folded_selects (plus acc x) vs) [
    | inl e ↦ elim (plus_selects acc x) [
      | inl p ↦ inl (e ∙ p)
      | inr p ↦ inr (x, Memᴰ.head refl, e ∙ p)
    ]
    | inr (v, m, e) ↦ inr (v, Memᴰ.tail m, e)
  ]

  pub alternatives_upper : (vs : List V) (v : V) → Memᴰ v vs → v ≼ combine_alternatives semiring vs
  alternatives_upper vs v m = folded_upper zero vs v m

  pub alternatives_least :
      (vs : List V) (c : V) → ((v : V) → Memᴰ v vs → v ≼ c) → combine_alternatives semiring vs ≼ c
  alternatives_least vs c h = folded_least zero vs c (plus_zero c) h

  pub alternatives_selects :
      (vs : List V)
      → (combine_alternatives semiring vs ≡ zero)
        ⊎ ((v : V) × Memᴰ v vs × (combine_alternatives semiring vs ≡ v))
  alternatives_selects vs = folded_selects zero vs

  -- a product grows with its factors, and is below each of them
  pub body_mono :
      {A : Type 0} (f g : A → V) (xs : List A) (a b : V)
      → a ≼ b
      → ((x : A) → Memᴰ x xs → f x ≼ g x)
      → folded times a (map f xs) ≼ folded times b (map g xs)
  body_mono f g [] a b p h = p
  body_mono f g (x ∷ xs) a b p h =
      body_mono f g xs (times a (f x)) (times b (g x))
        (≼_trans (times a (f x)) (times b (f x)) (times b (g x)) (times_mono_left a b (f x) p)
          (times_mono_right (f x) (g x) b (h x (Memᴰ.head refl))))
        (λ y m. h y (Memᴰ.tail m))

  body_acc : (acc : V) (vs : List V) → folded times acc vs ≼ acc
  body_acc acc [] = ≼_refl acc
  body_acc acc (v ∷ vs) =
      ≼_trans (folded times (times acc v) vs) (times acc v) acc (body_acc (times acc v) vs)
        (absorbs_left acc v)

  pub body_below :
      {A : Type 0} (f : A → V) (xs : List A) (acc : V) (x : A)
      → Memᴰ x xs
      → folded times acc (map f xs) ≼ f x
  body_below f [] acc x m = elim m [ ]
  body_below f (y ∷ xs) acc x (Memᴰ.head e) =
      ≼_trans (folded times (times acc (f y)) (map f xs)) (times acc (f y)) (f x)
        (body_acc (times acc (f y)) (map f xs))
        (ap (λ t. plus (times acc (f y)) (f t)) e ∙ absorbs_right acc (f y) ∙ ap f (sym e))
  body_below f (y ∷ xs) acc x (Memᴰ.tail m) = body_below f xs (times acc (f y)) x m
