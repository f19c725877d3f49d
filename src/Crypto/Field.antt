-- ===== src/Crypto/Field.antt =====
-- Equations of the scalar field that the proofs on interpolation use.
use threshold_password_authe.Base.{◌≡◌, ◌≢◌, sym, ap, ◌∙◌}
use threshold_password_authe.Primitives.{Primitives, IsField}

module _ {P : Primitives} (field : IsField P) where
  open P use {Scalar, scalar_zero, scalar_one, scalar_add, scalar_sub, scalar_mul, scalar_invert}
  open field use {
    add_assoc, add_comm, add_zero, add_sub, sub_add, mul_assoc, mul_comm, mul_one, mul_add,
    mul_invert,
  }

  pub add_cancel : (a b c : Scalar) → scalar_add a b ≡ scalar_add a c → b ≡ c
  add_cancel a b c h = sym (sub_add a b) ∙ ap (λ s. scalar_sub s a) h ∙ sub_add a c

  pub zero_add : (a : Scalar) → scalar_add scalar_zero a ≡ a
  zero_add a = add_comm scalar_zero a ∙ add_zero a

  pub one_mul : (a : Scalar) → scalar_mul scalar_one a ≡ a
  one_mul a = mul_comm scalar_one a ∙ mul_one a

  pub mul_zero : (a : Scalar) → scalar_mul a scalar_zero ≡ scalar_zero
  mul_zero a = add_cancel (scalar_mul a scalar_zero) (scalar_mul a scalar_zero) scalar_zero (
      sym (mul_add a scalar_zero scalar_zero)
      ∙ ap (scalar_mul a) (add_zero scalar_zero)
      ∙ sym (add_zero (scalar_mul a scalar_zero)))

  pub zero_mul : (a : Scalar) → scalar_mul scalar_zero a ≡ scalar_zero
  zero_mul a = mul_comm scalar_zero a ∙ mul_zero a

  pub add_mul :
      (a b c : Scalar)
      → scalar_mul (scalar_add a b) c ≡ scalar_add (scalar_mul a c) (scalar_mul b c)
  add_mul a b c = rw (mul_comm (scalar_add a b) c, mul_comm a c, mul_comm b c) (mul_add c a b)

  pub mul_left_comm :
      (a b c : Scalar) → scalar_mul a (scalar_mul b c) ≡ scalar_mul b (scalar_mul a c)
  mul_left_comm a b c =
      sym (mul_assoc a b c) ∙ ap (λ s. scalar_mul s c) (mul_comm a b) ∙ mul_assoc b a c

  pub add_left_comm :
      (a b c : Scalar) → scalar_add a (scalar_add b c) ≡ scalar_add b (scalar_add a c)
  add_left_comm a b c =
      sym (add_assoc a b c) ∙ ap (λ s. scalar_add s c) (add_comm a b) ∙ add_assoc b a c

  -- The sum of two sums, by their parts.
  pub add_add :
      (a b c d : Scalar)
      → scalar_add (scalar_add a b) (scalar_add c d) ≡ scalar_add (scalar_add a c) (scalar_add b d)
  add_add a b c d =
      add_assoc a b (scalar_add c d)
      ∙ ap (scalar_add a) (add_left_comm b c d)
      ∙ sym (add_assoc a c (scalar_add b d))

  -- A factor that is not zero cancels.
  pub mul_cancel : (a b c : Scalar) → a ≢ scalar_zero → scalar_mul a b ≡ scalar_mul a c → b ≡ c
  mul_cancel a b c h e = sym (undo b) ∙ ap (scalar_mul (scalar_invert a)) e ∙ undo c
    where
      undo : (s : Scalar) → scalar_mul (scalar_invert a) (scalar_mul a s) ≡ s
      undo s =
          sym (mul_assoc (scalar_invert a) a s)
          ∙ ap (λ t. scalar_mul t s) (mul_comm (scalar_invert a) a ∙ mul_invert a h)
          ∙ one_mul s

  pub sub_ne_zero : (a b : Scalar) → a ≢ b → scalar_sub a b ≢ scalar_zero
  sub_ne_zero a b h e = h (sym (add_sub a b) ∙ ap (scalar_add b) e ∙ add_zero b)

  pub sub_self : (a : Scalar) → scalar_sub a a ≡ scalar_zero
  sub_self a = ap (λ s. scalar_sub s a) (sym (add_zero a)) ∙ sub_add a scalar_zero

  -- Had the product a zero factor, one would be zero, and then any scalar.
  pub mul_ne_zero :
      (a b : Scalar) → a ≢ scalar_zero → b ≢ scalar_zero → scalar_mul a b ≢ scalar_zero
  mul_ne_zero a b h k e = k (mul_cancel a b scalar_zero h (e ∙ sym (mul_zero a)))
