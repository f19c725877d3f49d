-- ===== src/Crypto/Interpolation.antt =====
-- crypto.rs: interpolation at zero. The weighted sum of the values of a polynomial is its constant
-- term, whichever distinct points it is taken at.
use threshold_password_authe.Base.{
  ◌≤◌, ◌≡◌, ◌≢◌, refl, sym, ap, ◌∙◌, List, [], ◌∷◌, length, All, arith,
}
use threshold_password_authe.Primitives.{Primitives, IsField}
use threshold_password_authe.Crypto.Field.{
  one_mul, zero_mul, mul_zero, zero_add, add_mul, mul_cancel, add_cancel, add_add, add_left_comm,
  sub_ne_zero, sub_self,
}
use threshold_password_authe.Crypto.Weights.{
  weight, weighted, AreDistinct, Differs, weighted-same, weighted-cons, swap-SameProducts,
}

module _ (P : Primitives) where
  open P use {Scalar, scalar_zero, scalar_one, scalar_add, scalar_sub, scalar_mul, scalar_invert}

  -- The value of a polynomial, and its constant term.
  unfoldable pub horner : List Scalar → Scalar → Scalar
  horner [] x = scalar_zero
  horner (a ∷ coeffs) x = scalar_add a (scalar_mul (horner coeffs x) x)

  abbrev pub constant_term : List Scalar → Scalar
  constant_term [] = scalar_zero
  constant_term (a ∷ coeffs) = a

  weighted_ext :
      (f g : Scalar → Scalar) (done todo : List Scalar)
      → ((c : Scalar) → f c ≡ g c)
      → weighted P f done todo ≡ weighted P g done todo
  weighted_ext f g done todo h = ap (λ k. weighted P k done todo) (λ i c. h c i)

  module _ (field : IsField P) where
    open field use {
      add_assoc, add_comm, add_zero, add_sub, mul_assoc, mul_comm, mul_one, mul_add, mul_invert,
      one_ne_zero,
    }

    weighted-add :
        (f g : Scalar → Scalar) (done todo : List Scalar)
        → weighted P (λ c. scalar_add (f c) (g c)) done todo
          ≡ scalar_add (weighted P f done todo) (weighted P g done todo)
    unfolding weighted
    weighted-add f g done [] = sym (add_zero scalar_zero)
    weighted-add f g done (c ∷ cs) =
        ap (λ s. scalar_add s (weighted P (λ c. scalar_add (f c) (g c)) (c ∷ done) cs))
          (add_mul field (f c) (g c) _)
        ∙ ap (scalar_add _) (weighted-add f g (c ∷ done) cs)
        ∙ add_add field _ _ _ _

    weighted-mul :
        (a : Scalar) (f : Scalar → Scalar) (done todo : List Scalar)
        → weighted P (λ c. scalar_mul a (f c)) done todo ≡ scalar_mul a (weighted P f done todo)
    unfolding weighted
    weighted-mul a f done [] = sym (mul_zero field a)
    weighted-mul a f done (c ∷ cs) =
        ap (λ s. scalar_add s (weighted P (λ c. scalar_mul a (f c)) (c ∷ done) cs))
          (mul_assoc a (f c) _)
        ∙ ap (scalar_add _) (weighted-mul a f (c ∷ done) cs)
        ∙ sym (mul_add a _ _)

    weighted-zero :
        (done todo : List Scalar) → weighted P (λ c. scalar_zero) done todo ≡ scalar_zero
    weighted-zero done todo =
        weighted_ext (λ c. scalar_zero) (λ c. scalar_mul scalar_zero scalar_zero) done todo
          (λ c. sym (mul_zero field scalar_zero))
        ∙ weighted-mul scalar_zero (λ c. scalar_zero) done todo
        ∙ zero_mul field _

    -- A constant factor `x`, split at each point.
    weighted-split :
        (x : Scalar) (g : Scalar → Scalar) (done todo : List Scalar)
        → scalar_mul x (weighted P g done todo)
          ≡ scalar_add
              (weighted P (λ c. scalar_mul (g c) c) done todo)
              (weighted P (λ c. scalar_mul (g c) (scalar_sub x c)) done todo)
    weighted-split x g done todo =
        sym (weighted-mul x g done todo)
        ∙ weighted_ext (λ c. scalar_mul x (g c)) _ done todo
            (λ c.
              mul_comm x (g c)
              ∙ ap (scalar_mul (g c)) (sym (add_sub x c))
              ∙ mul_add (g c) c (scalar_sub x c))
        ∙ weighted-add (λ c. scalar_mul (g c) c) (λ c. scalar_mul (g c) (scalar_sub x c)) done todo

    -- A factor that vanishes at the first point leaves the sum over the others.
    weighted_head :
        (g : Scalar → Scalar) (x : Scalar) (xs : List Scalar)
        → AreDistinct P (x ∷ xs)
        → weighted P (λ c. scalar_mul (g c) (scalar_sub x c)) [] (x ∷ xs)
          ≡ scalar_mul x (weighted P g [] xs)
    unfolding weighted
    weighted_head g x xs v =
        ap (λ s. scalar_add s (weighted P (λ c. scalar_mul (g c) (scalar_sub x c)) (x ∷ []) xs))
          (ap (λ s. scalar_mul (scalar_mul (g x) s) (weight P x [] xs)) (sub_self field x)
            ∙ ap (λ s. scalar_mul s (weight P x [] xs)) (mul_zero field (g x))
            ∙ zero_mul field _)
        ∙ zero_add field _
        ∙ weighted-cons P field g x [] xs v.0 (all_apart xs) v.1
      where
        all_apart : (ys : List Scalar) → All (λ c. Differs P c []) ys
        all_apart [] = tt
        all_apart (y ∷ ys) = (tt, all_apart ys)

    weight_move :
        (c y : Scalar) (ys : List Scalar) → weight P c [] (y ∷ ys) ≡ weight P c (y ∷ []) ys
    unfolding weight
    weight_move c y ys = regroup y _ (scalar_sub y c) _
      where
        regroup :
            (a u b v : Scalar)
            → scalar_mul
                (scalar_mul scalar_one (scalar_mul a u))
                (scalar_invert (scalar_mul scalar_one (scalar_mul b v)))
              ≡ scalar_mul
                  (scalar_mul (scalar_mul a scalar_one) u)
                  (scalar_invert (scalar_mul (scalar_mul b scalar_one) v))
        regroup a u b v =
            rw
              (one_mul field (scalar_mul a u), one_mul field (scalar_mul b v), mul_one a, mul_one b)
              refl

    -- The first two points may change places.
    weighted_swap :
        (f : Scalar → Scalar) (x y : Scalar) (ys : List Scalar)
        → weighted P f [] (x ∷ y ∷ ys) ≡ weighted P f [] (y ∷ x ∷ ys)
    unfolding weighted
    weighted_swap f x y ys =
        let at_x = scalar_mul (f x) (weight P x (y ∷ []) ys) in
        let at_y = scalar_mul (f y) (weight P y (x ∷ []) ys) in
        ap (λ w. scalar_add (scalar_mul (f x) w) (scalar_add at_y (weighted P f (y ∷ x ∷ []) ys)))
          (weight_move x y ys)
        ∙ ap (λ s. scalar_add at_x (scalar_add at_y s))
            (weighted-same P f (y ∷ x ∷ []) (x ∷ y ∷ []) ys (swap-SameProducts P field y x []))
        ∙ add_left_comm field at_x at_y _
        ∙ ap (λ w. scalar_add (scalar_mul (f y) w) (scalar_add at_x (weighted P f (x ∷ y ∷ []) ys)))
            (sym (weight_move y x ys))

    weighted_single : (x : Scalar) → weighted P (λ c. scalar_one) [] (x ∷ []) ≡ scalar_one
    unfolding weighted weight
    weighted_single x =
        add_zero _
        ∙ one_mul field _
        ∙ mul_invert (scalar_mul scalar_one scalar_one)
            (λ e. one_ne_zero (sym (mul_one scalar_one) ∙ e))

    -- Two scalars that keep the same sum `k` from one multiple to another tell that it is one.
    one_of_two :
        (x y t k : Scalar)
        → x ≢ y
        → scalar_mul x t ≡ scalar_add k x
        → scalar_mul y t ≡ scalar_add k y
        → t ≡ scalar_one
    one_of_two x y t k h e f =
        let d = scalar_sub x y in
        let dt : scalar_add (scalar_mul y t) (scalar_mul d t) ≡ scalar_add (scalar_mul y t) d =
          sym (add_mul field y d t)
          ∙ ap (λ s. scalar_mul s t) (add_sub x y)
          ∙ e
          ∙ ap (scalar_add k) (sym (add_sub x y))
          ∙ sym (add_assoc k y d)
          ∙ ap (λ s. scalar_add s d) (sym f) in
        mul_cancel field d t scalar_one (sub_ne_zero field x y h)
          (add_cancel field (scalar_mul y t) _ _ dt ∙ sym (mul_one d))

    -- The weights of distinct points add up to one.
    pub weighted_one :
        (x : Scalar) (xs : List Scalar)
        → AreDistinct P (x ∷ xs)
        → weighted P (λ c. scalar_one) [] (x ∷ xs) ≡ scalar_one
    weighted_one x [] v = weighted_single x
    weighted_one x (y ∷ ys) v =
        one_of_two x y _ (weighted P (λ c. scalar_mul scalar_one c) [] (x ∷ y ∷ ys))
          (λ e. v.0.0 (sym e))
          (weighted-split x (λ c. scalar_one) [] (x ∷ y ∷ ys)
            ∙ ap (scalar_add _) (
                weighted_head (λ c. scalar_one) x (y ∷ ys) v
                ∙ ap (scalar_mul x) (weighted_one y ys v.1)
                ∙ mul_one x))
          (weighted-split y (λ c. scalar_one) [] (x ∷ y ∷ ys)
            ∙ ap (scalar_add _) (
                weighted_swap (λ c. scalar_mul scalar_one (scalar_sub y c)) x y ys
                ∙ weighted_head (λ c. scalar_one) y (x ∷ ys)
                    ((λ e. v.0.0 (sym e), v.1.0), (v.0.1, v.1.1))
                ∙ ap (scalar_mul y) (weighted_one x ys (v.0.1, v.1.1))
                ∙ mul_one y))

    -- A polynomial with at most as many coefficients as there are distinct points is interpolated to
    -- its constant term.
    pub weighted-horner :
        (coeffs points : List Scalar)
        → length coeffs ≤ length points
        → AreDistinct P points
        → weighted P (horner coeffs) [] points ≡ constant_term coeffs
    unfolding horner
    weighted-horner [] points h v = weighted-zero [] points
    weighted-horner (a ∷ coeffs) [] h v = absurd (omega arith)
    weighted-horner (a ∷ coeffs) (x ∷ xs) h v =
        let p = horner coeffs in
        let rest = weighted P (λ c. scalar_mul (p c) c) [] (x ∷ xs) in
        let whole = weighted-horner coeffs (x ∷ xs) (omega arith) v in
        let fewer = weighted-horner coeffs xs (omega arith) v.1 in
        let none_left : rest ≡ scalar_zero =
          add_cancel field (scalar_mul x (constant_term coeffs)) rest scalar_zero (
            add_comm _ rest
            ∙ ap (scalar_add rest) (sym (weighted_head p x xs v ∙ ap (scalar_mul x) fewer))
            ∙ sym (weighted-split x p [] (x ∷ xs))
            ∙ ap (scalar_mul x) whole
            ∙ sym (add_zero _)) in
        weighted-add (λ c. a) (λ c. scalar_mul (p c) c) [] (x ∷ xs)
        ∙ ap (scalar_add _) none_left
        ∙ add_zero _
        ∙ weighted_ext (λ c. a) (λ c. scalar_mul a scalar_one) [] (x ∷ xs) (λ c. sym (mul_one a))
        ∙ weighted-mul a (λ c. scalar_one) [] (x ∷ xs)
        ∙ ap (scalar_mul a) (weighted_one x xs v)
        ∙ mul_one a
