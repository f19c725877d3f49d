-- ===== src/Crypto/Weights.antt =====
-- crypto.rs: the weight of a point against the others in an interpolation at zero.
use threshold_password_authe.Base.{◌≡◌, ◌≢◌, refl, sym, ap, ◌∙◌, List, [], ◌∷◌, All}
use threshold_password_authe.Primitives.{Primitives, IsField}
use threshold_password_authe.Crypto.Field.{
  mul_zero, mul_left_comm, mul_cancel, mul_ne_zero, sub_ne_zero,
}

module _ (P : Primitives) where
  open P use {Scalar, scalar_zero, scalar_one, scalar_add, scalar_sub, scalar_mul, scalar_invert}

  -- The product of a factor over the points.
  abbrev pub prod : (Scalar → Scalar) → List Scalar → Scalar
  prod f [] = scalar_one
  prod f (x ∷ xs) = scalar_mul (f x) (prod f xs)

  -- The product over the points behind and before a point.
  abbrev pub both : (Scalar → Scalar) → List Scalar → List Scalar → Scalar
  both f done rest = scalar_mul (prod f done) (prod f rest)

  -- The coefficient of `c` against the points of `done` and `rest`.
  unfoldable pub weight : Scalar → List Scalar → List Scalar → Scalar
  weight c done rest =
      scalar_mul (both (λ y. y) done rest) (scalar_invert (both (λ y. scalar_sub y c) done rest))

  -- The weighted sum of a function's values at the points of `todo`, against all others.
  unfoldable pub weighted : (Scalar → Scalar) → List Scalar → List Scalar → Scalar
  unfolding weight
  weighted f done [] = scalar_zero
  weighted f done (c ∷ cs) =
      scalar_add (scalar_mul (f c) (weight c done cs)) (weighted f (c ∷ done) cs)

  abbrev pub Differs : Scalar → List Scalar → Type 0
  Differs c = All (λ y. y ≢ c)

  abbrev pub AreDistinct : List Scalar → Type 0
  AreDistinct [] = Unit
  AreDistinct (x ∷ xs) = Differs x xs × AreDistinct xs

  -- Two lists that the products do not tell apart.
  abbrev pub SameProducts : List Scalar → List Scalar → Type 0
  SameProducts xs ys = (f : Scalar → Scalar) → prod f xs ≡ prod f ys

  pub weight-same :
      (c : Scalar) (xs ys rest : List Scalar)
      → SameProducts xs ys
      → weight c xs rest ≡ weight c ys rest
  unfolding weight
  weight-same c xs ys rest h =
      ap
        (λ s. scalar_mul (scalar_mul s (prod (λ y. y) rest)) (
          scalar_invert
            (scalar_mul (prod (λ y. scalar_sub y c) xs) (prod (λ y. scalar_sub y c) rest))))
        (h (λ y. y))
      ∙ ap
          (λ s.
            scalar_mul (both (λ y. y) ys rest)
              (scalar_invert (scalar_mul s (prod (λ y. scalar_sub y c) rest))))
          (h (λ y. scalar_sub y c))

  pub weighted-same :
      (f : Scalar → Scalar) (xs ys todo : List Scalar)
      → SameProducts xs ys
      → weighted f xs todo ≡ weighted f ys todo
  unfolding weighted
  weighted-same f xs ys [] h = refl
  weighted-same f xs ys (c ∷ cs) h =
      ap (λ w. scalar_add (scalar_mul (f c) w) (weighted f (c ∷ xs) cs)) (weight-same c xs ys cs h)
      ∙ ap (scalar_add (scalar_mul (f c) (weight c ys cs)))
          (weighted-same f (c ∷ xs) (c ∷ ys) cs (λ g. ap (scalar_mul (g c)) (h g)))

  module _ (field : IsField P) where
    open field use {
      add_assoc, add_comm, mul_assoc, mul_comm, mul_one, mul_add, mul_invert, one_ne_zero,
    }

    pub swap-SameProducts :
        (x y : Scalar) (xs : List Scalar) → SameProducts (x ∷ y ∷ xs) (y ∷ x ∷ xs)
    swap-SameProducts x y xs f = mul_left_comm field (f x) (f y) (prod f xs)

    prod_ne_zero :
        (c : Scalar) (xs : List Scalar) → Differs c xs → prod (λ y. scalar_sub y c) xs ≢ scalar_zero
    prod_ne_zero c [] h = one_ne_zero
    prod_ne_zero c (x ∷ xs) h =
        mul_ne_zero field (scalar_sub x c) (prod (λ y. scalar_sub y c) xs)
          (sub_ne_zero field x c h.0) (prod_ne_zero c xs h.1)

    pub both_ne_zero :
        (c : Scalar) (done rest : List Scalar)
        → Differs c done
        → Differs c rest
        → both (λ y. scalar_sub y c) done rest ≢ scalar_zero
    both_ne_zero c done rest k l =
        mul_ne_zero field _ _ (prod_ne_zero c done k) (prod_ne_zero c rest l)

    pub whole : (e m : Scalar) → e ≢ scalar_zero → scalar_mul e (scalar_mul m (scalar_invert e)) ≡ m
    whole e m h =
        mul_left_comm field e m (scalar_invert e) ∙ ap (scalar_mul m) (mul_invert e h) ∙ mul_one m

    -- A factor above and another below, both cancelled against the whole.
    quotient-cons :
        (d x n b : Scalar)
        → d ≢ scalar_zero
        → b ≢ scalar_zero
        → scalar_mul d (scalar_mul (scalar_mul x n) (scalar_invert (scalar_mul d b)))
          ≡ scalar_mul x (scalar_mul n (scalar_invert b))
    quotient-cons d x n b d_ne b_ne = mul_cancel field b _ _ b_ne (
        mul_left_comm field b d _
        ∙ sym (mul_assoc d b _)
        ∙ whole (scalar_mul d b) (scalar_mul x n) (mul_ne_zero field d b d_ne b_ne)
        ∙ sym (ap (scalar_mul x) (whole b n b_ne))
        ∙ mul_left_comm field x b _)

    -- One more point `x` gives the weight the factor `x` over the difference to `x`.
    weight-cons :
        (x c : Scalar) (done rest : List Scalar)
        → x ≢ c
        → Differs c done
        → Differs c rest
        → scalar_mul (scalar_sub x c) (weight c (x ∷ done) rest) ≡ scalar_mul x (weight c done rest)
    unfolding weight
    weight-cons x c done rest h k l =
        ap (λ s. scalar_mul (scalar_sub x c) s)
          (regroup x (scalar_sub x c) (prod (λ y. y) done) (prod (λ y. scalar_sub y c) done)
            (prod (λ y. y) rest) (prod (λ y. scalar_sub y c) rest))
        ∙ quotient-cons (scalar_sub x c) x (both (λ y. y) done rest)
            (both (λ y. scalar_sub y c) done rest) (sub_ne_zero field x c h)
            (both_ne_zero c done rest k l)
      where
        regroup :
            (a b m n u v : Scalar)
            → scalar_mul
                (scalar_mul (scalar_mul a m) u)
                (scalar_invert (scalar_mul (scalar_mul b n) v))
              ≡ scalar_mul
                  (scalar_mul a (scalar_mul m u))
                  (scalar_invert (scalar_mul b (scalar_mul n v)))
        regroup a b m n u v = rw (mul_assoc a m u, mul_assoc b n v)

    pub apart :
        (c : Scalar) (done cs : List Scalar)
        → Differs c cs
        → All (λ d. Differs d done) cs
        → All (λ d. Differs d (c ∷ done)) cs
    apart c done [] h k = tt
    apart c done (d ∷ cs) h k = ((λ e. h.0 (sym e), k.0), apart c done cs h.1 k.1)

    -- A factor that vanishes at `x` takes the point `x` out of the sum.
    pub weighted-cons :
        (g : Scalar → Scalar) (x : Scalar) (done todo : List Scalar)
        → Differs x todo
        → All (λ c. Differs c done) todo
        → AreDistinct todo
        → weighted (λ c. scalar_mul (g c) (scalar_sub x c)) (x ∷ done) todo
          ≡ scalar_mul x (weighted g done todo)
    unfolding weighted
    weighted-cons g x done [] h k v = sym (mul_zero field x)
    weighted-cons g x done (c ∷ cs) h k v =
        let f : Scalar → Scalar = λ c. scalar_mul (g c) (scalar_sub x c) in
        ap (λ s. scalar_add s (weighted f (c ∷ x ∷ done) cs))
          (mul_assoc (g c) (scalar_sub x c) _
            ∙ ap (scalar_mul (g c)) (weight-cons x c done cs (λ e. h.0 (sym e)) k.0 (v.0))
            ∙ mul_left_comm field (g c) x _)
        ∙ ap (scalar_add (scalar_mul x (scalar_mul (g c) (weight c done cs)))) (
            weighted-same f (c ∷ x ∷ done) (x ∷ c ∷ done) cs (swap-SameProducts c x done)
            ∙ weighted-cons g x (c ∷ done) cs h.1 (apart c done cs v.0 k.1) v.1)
        ∙ sym (mul_add x _ _)
