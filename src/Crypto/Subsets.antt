-- ===== src/Crypto/Subsets.antt =====
-- crypto.rs: points of an interpolation stay distinct when only some of them are used.
use threshold_password_authe.Base.{ℕ, zero, suc, List, [], ◌∷◌, map, take}
use threshold_password_authe.Primitives.{Primitives}
use threshold_password_authe.Crypto.Weights.{AreDistinct, Differs}

module _ (P : Primitives) {A : Type 0} (f : A → P.Scalar) where
  Differs-take :
      (c : P.Scalar) (n : ℕ) (xs : List A)
      → Differs P c (map f xs)
      → Differs P c (map f (take n xs))
  Differs-take c zero xs h = tt
  Differs-take c (suc n) [] h = tt
  Differs-take c (suc n) (x ∷ xs) h = (h.0, Differs-take c n xs h.1)

  -- Points stay distinct when only the first ones are taken.
  pub AreDistinct-take :
      (n : ℕ) (xs : List A) → AreDistinct P (map f xs) → AreDistinct P (map f (take n xs))
  AreDistinct-take zero xs h = tt
  AreDistinct-take (suc n) [] h = tt
  AreDistinct-take (suc n) (x ∷ xs) h = (Differs-take (f x) n xs h.0, AreDistinct-take n xs h.1)
