-- ===== src/Crypto/Products.antt =====
-- crypto.rs: the products of a coefficient. The one position that a product leaves out splits the list.
use threshold_password_authe.Base.{
  ℕ, ◌+◌, ◌<◌, ◌≡◌, refl, sym, ap, ◌∙◌, List, [], ◌∷◌, ◌++◌, length, eqb, arith, true, false,
}
use threshold_password_authe.Primitives.{Primitives, IsField}
use threshold_password_authe.Crypto.{product_except}
use threshold_password_authe.Crypto.Field.{one_mul}
use threshold_password_authe.Crypto.Weights.{prod, both, weight}

module _ (P : Primitives) (field : IsField P) where
  open P use {
    Scalar, Point, scalar_zero, scalar_one, scalar_add, scalar_sub, scalar_mul, scalar_invert,
    scalar_from,
  }
  open field use {add_assoc, add_zero, mul_assoc, mul_comm, mul_one, mul_add, mul_invert}

  -- Behind the position that is left out, nothing is.
  product_later :
      (f : Scalar → Scalar) (i j : ℕ) (xs : List Scalar) (acc : Scalar)
      → i < j
      → product_except P f i j xs acc ≡ scalar_mul acc (prod P f xs)
  unfolding product_except
  product_later f i j [] acc h = sym (mul_one acc)
  product_later f i j (x ∷ xs) acc h =
      let other : eqb i j ≡ false = ground arith in
      rw (other, product_except)
        (product_later f i (j + 1) xs (scalar_mul acc (f x)) (omega arith) ∙ mul_assoc acc (f x) _)

  pub product_skips :
      (f : Scalar → Scalar) (i j : ℕ) (pre : List Scalar) (x : Scalar) (post : List Scalar)
      (acc : Scalar)
      → i ≡ j + length pre
      → product_except P f i j (pre ++ x ∷ post) acc ≡ scalar_mul acc (both P f pre post)
  unfolding product_except
  product_skips f i j [] x post acc h =
      let same : eqb i j ≡ true = ground arith in
      rw (same, product_except)
        (product_later f i (j + 1) post acc (omega arith)
          ∙ ap (scalar_mul acc) (sym (one_mul field _)))
  product_skips f i j (y ∷ pre) x post acc h =
      let other : eqb i j ≡ false = ground arith in
      rw (other, product_except)
        (product_skips f i (j + 1) pre x post (scalar_mul acc (f y)) (omega arith)
          ∙ mul_assoc acc (f y) _
          ∙ ap (scalar_mul acc) (sym (mul_assoc (f y) _ _)))

  -- One coefficient of the source is the weight of its point.
  pub lambda-weight :
      (i : ℕ) (pre : List Scalar) (x : Scalar) (post : List Scalar)
      → i ≡ length pre
      → scalar_mul
          (product_except P (λ y. y) i 0 (pre ++ x ∷ post) scalar_one)
          (scalar_invert (product_except P (λ y. scalar_sub y x) i 0 (pre ++ x ∷ post) scalar_one))
        ≡ weight P x pre post
  unfolding weight
  lambda-weight i pre x post h =
      rw
        (
          product_skips (λ y. y) i 0 pre x post scalar_one (omega arith),
          product_skips (λ y. scalar_sub y x) i 0 pre x post scalar_one (omega arith),
          one_mul field (both P (λ y. y) pre post),
          one_mul field (both P (λ y. scalar_sub y x) pre post),
        )
        refl
