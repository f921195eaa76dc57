-- ===== src/Prelude/Related.antt =====
-- Two lists of one length whose elements are related place by place.
use mathlib.Core.Path.{◌≡◌, refl, ap₂, subst}
use mathlib.Core.List.{List, [], ◌∷◌, ◌++◌, map}
use codex_routecraft.Prelude.Lists.{All}
use codex_routecraft.Prelude.Results.{Result, ok, ◌>>=◌, map_result, >>=-eq-ok, ok-injective}

module _ {ℓ} {A : Type ℓ} (R : A → A → Type 0) where
  abbrev pub Pointwise : List A → List A → Type 0
  Pointwise [] [] = Unit
  Pointwise [] (y ∷ ys) = ⊥
  Pointwise (x ∷ xs) [] = ⊥
  Pointwise (x ∷ xs) (y ∷ ys) = R x y × Pointwise xs ys

  pub Pointwise-refl : ((x : A) → R x x) → (xs : List A) → Pointwise xs xs
  Pointwise-refl same [] = tt
  Pointwise-refl same (x ∷ xs) = (same x, Pointwise-refl same xs)

  pub Pointwise-trans :
      ((x y z : A) → R x y → R y z → R x z)
      → (xs ys zs : List A) → Pointwise xs ys
      → Pointwise ys zs
      → Pointwise xs zs
  Pointwise-trans trans [] [] [] p q = tt
  Pointwise-trans trans [] [] (z ∷ zs) p q = q
  Pointwise-trans trans [] (y ∷ ys) zs p q = absurd p
  Pointwise-trans trans (x ∷ xs) [] zs p q = absurd p
  Pointwise-trans trans (x ∷ xs) (y ∷ ys) [] p q = absurd q
  Pointwise-trans trans (x ∷ xs) (y ∷ ys) (z ∷ zs) p q =
      (trans x y z p.0 q.0, Pointwise-trans trans xs ys zs p.1 q.1)

  pub Pointwise-append :
      (xs ys us vs : List A) → Pointwise xs ys → Pointwise us vs → Pointwise (xs ++ us) (ys ++ vs)
  Pointwise-append [] [] us vs p q = q
  Pointwise-append [] (y ∷ ys) us vs p q = absurd p
  Pointwise-append (x ∷ xs) [] us vs p q = absurd p
  Pointwise-append (x ∷ xs) (y ∷ ys) us vs p q = (p.0, Pointwise-append xs ys us vs p.1 q)

  pub Pointwise-map : (f : A → A) → ((x : A) → R x (f x)) → (xs : List A) → Pointwise xs (map f xs)
  Pointwise-map f h [] = tt
  Pointwise-map f h (x ∷ xs) = (h x, Pointwise-map f h xs)

  pub Pointwise-map_result :
      {E : Type 0} (f : A → Result E A)
      → ((x y : A) → f x ≡ ok y → R x y)
      → (xs ys : List A) → map_result f xs ≡ ok ys
      → Pointwise xs ys
  unfolding map_result
  Pointwise-map_result f h [] [] e = tt
  Pointwise-map_result f h [] (y ∷ ys) e = cc
  Pointwise-map_result f h (x ∷ xs) zs e =
      let (y, is, more) = >>=-eq-ok (f x) (λ y. map_result f xs >>= λ ys. ok (y ∷ ys)) e in
      let (ys, are, last) = >>=-eq-ok (map_result f xs) (λ ys. ok (y ∷ ys)) more in
      subst (Pointwise (x ∷ xs)) (ok-injective last) (h x y is, Pointwise-map_result f h xs ys are)

  pub Pointwise-All :
      (P : A → Type 0)
      → ((x y : A) → R x y → P x → P y)
      → (xs ys : List A) → Pointwise xs ys
      → All P xs
      → All P ys
  Pointwise-All P h [] [] p all = tt
  Pointwise-All P h [] (y ∷ ys) p all = absurd p
  Pointwise-All P h (x ∷ xs) [] p all = absurd p
  Pointwise-All P h (x ∷ xs) (y ∷ ys) p all = (h x y p.0 all.0, Pointwise-All P h xs ys p.1 all.1)

  -- What related elements share, the lists share.
  pub map-eq_of_Pointwise {μ} :
      {B : Type μ} (f : A → B)
      → ((x y : A) → R x y → f x ≡ f y)
      → (xs ys : List A) → Pointwise xs ys
      → map f xs ≡ map f ys
  map-eq_of_Pointwise f h [] [] p = refl
  map-eq_of_Pointwise f h [] (y ∷ ys) p = absurd p
  map-eq_of_Pointwise f h (x ∷ xs) [] p = absurd p
  map-eq_of_Pointwise f h (x ∷ xs) (y ∷ ys) p =
      ap₂ ◌∷◌ (h x y p.0) (map-eq_of_Pointwise f h xs ys p.1)
