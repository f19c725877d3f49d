-- ===== src/Crypto/Lagrange.antt =====
-- crypto.rs: the coefficients at any point, taken at zero, are the coefficients at zero.
use threshold_password_authe.Base.{
  ℕ, ◌+◌, ◌≡◌, ◌≢◌, refl, sym, ap, ◌∙◌, List, [], ◌∷◌, ◌++◌, map, length, All, arith, length-append,
}
use mathlib.Core.List.{append_assoc}
use threshold_password_authe.Primitives.{Primitives, IsField}
use threshold_password_authe.Crypto.{
  product_except, lambdas_at_zero, lagrange_coeffs_at_zero, lambdas_at, lagrange_coeffs_at,
}
use threshold_password_authe.Crypto.Field.{
  add_cancel, mul_cancel, mul_ne_zero, mul_left_comm, add_mul, mul_zero, zero_mul, one_mul,
  sub_ne_zero,
}
use threshold_password_authe.Crypto.Weights.{
  prod, both, weight, Differs, AreDistinct, both_ne_zero, whole,
}
use threshold_password_authe.Crypto.Products.{product_skips, lambda-weight}

module _ (P : Primitives) (field : IsField P) where
  open P use {
    Scalar, scalar_zero, scalar_one, scalar_add, scalar_sub, scalar_mul, scalar_invert, scalar_from,
  }
  open field use {add_assoc, add_comm, add_zero, add_sub, mul_assoc, mul_comm, mul_one, mul_add}

  -- The two differences of a pair cancel.
  sub_swap : (y c : Scalar) → scalar_add (scalar_sub y c) (scalar_sub c y) ≡ scalar_zero
  sub_swap y c = add_cancel field c _ scalar_zero (
      sym (add_assoc c (scalar_sub y c) (scalar_sub c y))
      ∙ ap (λ s. scalar_add s (scalar_sub c y)) (add_sub y c)
      ∙ add_sub c y
      ∙ sym (add_zero c))

  -- One factor of each fraction, crosswise.
  factor_swap :
      (y c : Scalar)
      → scalar_mul (scalar_sub scalar_zero y) (scalar_sub y c) ≡ scalar_mul y (scalar_sub c y)
  factor_swap y c = add_cancel field (scalar_mul y (scalar_sub y c)) _ _ (
      sym (add_mul field y (scalar_sub scalar_zero y) (scalar_sub y c))
      ∙ ap (λ s. scalar_mul s (scalar_sub y c)) (add_sub scalar_zero y)
      ∙ zero_mul field _
      ∙ sym (mul_zero field y)
      ∙ ap (scalar_mul y) (sym (sub_swap y c))
      ∙ mul_add y (scalar_sub y c) (scalar_sub c y))

  mul_mul :
      (a b c d : Scalar)
      → scalar_mul (scalar_mul a b) (scalar_mul c d) ≡ scalar_mul (scalar_mul a c) (scalar_mul b d)
  mul_mul a b c d =
      mul_assoc a b (scalar_mul c d)
      ∙ ap (scalar_mul a) (mul_left_comm field b c d)
      ∙ sym (mul_assoc a c (scalar_mul b d))

  prod_swap :
      (c : Scalar) (ys : List Scalar)
      → scalar_mul (prod P (scalar_sub scalar_zero) ys) (prod P (λ y. scalar_sub y c) ys)
        ≡ scalar_mul (prod P (λ y. y) ys) (prod P (scalar_sub c) ys)
  prod_swap c [] = refl
  prod_swap c (y ∷ ys) =
      mul_mul _ _ _ _ ∙ (λ i. scalar_mul (factor_swap y c i) (prod_swap c ys i)) ∙ mul_mul _ _ _ _

  both_swap :
      (c : Scalar) (pre post : List Scalar)
      → scalar_mul
          (both P (scalar_sub scalar_zero) pre post)
          (both P (λ y. scalar_sub y c) pre post)
        ≡ scalar_mul (both P (λ y. y) pre post) (both P (scalar_sub c) pre post)
  both_swap c pre post =
      mul_mul _ _ _ _ ∙ (λ i. scalar_mul (prod_swap c pre i) (prod_swap c post i)) ∙ mul_mul _ _ _ _

  -- Fractions that agree crosswise agree.
  fractions :
      (a b n d : Scalar)
      → b ≢ scalar_zero
      → d ≢ scalar_zero
      → scalar_mul a d ≡ scalar_mul n b
      → scalar_mul a (scalar_invert b) ≡ scalar_mul n (scalar_invert d)
  fractions a b n d hb hd e = mul_cancel field b _ _ hb (
      whole P field b a hb
      ∙ mul_cancel field d _ _ hd (
          mul_comm d a
          ∙ e
          ∙ sym (
              mul_left_comm field d b _ ∙ ap (scalar_mul b) (whole P field d n hd) ∙ mul_comm b n)))

  prod_other_ne_zero :
      (c : Scalar) (ys : List Scalar) → Differs P c ys → prod P (scalar_sub c) ys ≢ scalar_zero
  prod_other_ne_zero c [] h = field.one_ne_zero
  prod_other_ne_zero c (y ∷ ys) h =
      mul_ne_zero field (scalar_sub c y) _ (sub_ne_zero field c y (λ e. h.0 (sym e)))
        (prod_other_ne_zero c ys h.1)

  both_other_ne_zero :
      (c : Scalar) (pre post : List Scalar)
      → Differs P c pre
      → Differs P c post
      → both P (scalar_sub c) pre post ≢ scalar_zero
  both_other_ne_zero c pre post h k =
      mul_ne_zero field _ _ (prod_other_ne_zero c pre h) (prod_other_ne_zero c post k)

  Differs-snoc :
      (c d : Scalar) (pre : List Scalar) → Differs P d pre → c ≢ d → Differs P d (pre ++ c ∷ [])
  Differs-snoc c d [] h k = (k, tt)
  Differs-snoc c d (y ∷ pre) h k = (h.0, Differs-snoc c d pre h.1 k)

  all_apart :
      (c : Scalar) (pre cs : List Scalar)
      → Differs P c cs
      → All (λ d. Differs P d pre) cs
      → All (λ d. Differs P d (pre ++ c ∷ [])) cs
  all_apart c pre [] h k = tt
  all_apart c pre (d ∷ cs) h k =
      (Differs-snoc c d pre k.0 (λ e. h.0 (sym e)), all_apart c pre cs h.1 k.1)

  -- One coefficient of each kind, at the same position.
  lambda_at-weight :
      (i : ℕ) (pre : List Scalar) (c : Scalar) (post : List Scalar)
      → i ≡ length pre
      → Differs P c pre
      → Differs P c post
      → scalar_mul
          (product_except P (λ z. scalar_sub scalar_zero z) i 0 (pre ++ c ∷ post) scalar_one)
          (scalar_invert (product_except P (λ z. scalar_sub c z) i 0 (pre ++ c ∷ post) scalar_one))
        ≡ weight P c pre post
  unfolding weight
  lambda_at-weight i pre c post l h k =
      (λ j.
        scalar_mul
          ((product_skips P field (λ z. scalar_sub scalar_zero z) i 0 pre c post scalar_one
                (omega arith)
              ∙ one_mul field (both P (λ z. scalar_sub scalar_zero z) pre post))
            j)
          (scalar_invert (
            (product_skips P field (λ z. scalar_sub c z) i 0 pre c post scalar_one (omega arith)
                ∙ one_mul field (both P (λ z. scalar_sub c z) pre post))
              j)))
      ∙ fractions _ _ _ _ (both_other_ne_zero c pre post h k) (both_ne_zero P field c pre post h k)
          (both_swap c pre post)

  lambda_at-zero :
      (everything : List Scalar) (i : ℕ) (pre : List Scalar) (c : Scalar) (post : List Scalar)
      → everything ≡ pre ++ c ∷ post
      → i ≡ length pre
      → Differs P c pre
      → Differs P c post
      → scalar_mul
          (product_except P (λ z. scalar_sub scalar_zero z) i 0 everything scalar_one)
          (scalar_invert (product_except P (λ z. scalar_sub c z) i 0 everything scalar_one))
        ≡ scalar_mul
            (product_except P (λ y. y) i 0 everything scalar_one)
            (scalar_invert (product_except P (λ y. scalar_sub y c) i 0 everything scalar_one))
  lambda_at-zero everything i pre c post e l h k =
      rw e (lambda_at-weight i pre c post l h k ∙ sym (lambda-weight P field i pre c post l))

  lambdas_at-zero :
      (everything pre todo : List Scalar) (i : ℕ)
      → everything ≡ pre ++ todo
      → i ≡ length pre
      → All (λ c. Differs P c pre) todo
      → AreDistinct P todo
      → lambdas_at P scalar_zero everything i todo ≡ lambdas_at_zero P everything i todo
  unfolding lambdas_at lambdas_at_zero
  lambdas_at-zero everything pre [] i e l h v = refl
  lambdas_at-zero everything pre (c ∷ cs) i e l h v =
      let rest =
        lambdas_at-zero everything (pre ++ c ∷ []) cs (i + 1)
          (e ∙ sym (append_assoc pre (c ∷ []) cs)) (omega (arith, l, length-append pre (c ∷ [])))
          (all_apart c pre cs v.0 h.1) v.1 in
      λ j. lambda_at-zero everything i pre c cs e l h.0 v.0 j ∷ rest j

  -- Let the scalars be a field and the numbers distinct scalars. Then the interpolation
  -- coefficients at any point, taken at zero, are the coefficients at zero.
  pub lagrange_coeffs_at-zero :
      (ids : List ℕ)
      → AreDistinct P (map scalar_from ids)
      → lagrange_coeffs_at P ids scalar_zero ≡ lagrange_coeffs_at_zero P ids
  unfolding lagrange_coeffs_at lagrange_coeffs_at_zero
  lagrange_coeffs_at-zero ids v =
      let xs = map scalar_from ids in lambdas_at-zero xs [] xs 0 refl refl (apart_nothing xs) v
    where
      apart_nothing : (ys : List Scalar) → All (λ c. Differs P c []) ys
      apart_nothing [] = tt
      apart_nothing (y ∷ ys) = (tt, apart_nothing ys)
