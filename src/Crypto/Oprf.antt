-- ===== src/Crypto/Oprf.antt =====
-- crypto.rs: the threshold OPRF. Enough shares give the output under the whole key, whichever they are.
use threshold_password_authe.Base.{
  ℕ, zero, suc, ◌+◌, ◌%◌, ◌≤◌, ◌<◌, ◌≡◌, ◌≢◌, refl, sym, All, ap, ◌∙◌, Bytes, List, [], ◌∷◌, ◌++◌,
  map, length, arith, length-append,
}
use mathlib.Core.Path.{subst}
use mathlib.Core.List.Memᴰ
use mathlib.Core.List.{Memᴰ, append_assoc}
use threshold_password_authe.Primitives.{Primitives, IsField, IsAction}
use threshold_password_authe.Crypto.{
  product_except, lambdas_at_zero, lagrange_coeffs_at_zero, combine, eval_from, eval, shares_from,
  toprf_gen, toprf_client_eval_from_partials, hash_to_point, oprf_finalize,
}
use threshold_password_authe.Crypto.Field.{one_mul, mul_left_comm, zero_add, mul_zero}
use threshold_password_authe.Crypto.Weights.{
  prod, weight, weighted, SameProducts, AreDistinct, weight-same, whole,
}
use threshold_password_authe.Crypto.Interpolation.{horner, constant_term, weighted-horner}
use threshold_password_authe.Crypto.Products.{lambda-weight}

module _ (P : Primitives) (field : IsField P) where
  open P use {
    Scalar, Point, scalar_zero, scalar_one, scalar_add, scalar_sub, scalar_mul, scalar_invert,
    scalar_from,
  }
  open field use {add_assoc, add_zero, mul_assoc, mul_comm, mul_one, mul_add, mul_invert}

  snoc-SameProducts :
      (pre done : List Scalar) (c : Scalar)
      → SameProducts P pre done
      → SameProducts P (pre ++ c ∷ []) (c ∷ done)
  snoc-SameProducts pre done c h f = snoc pre ∙ ap (scalar_mul (f c)) (h f)
    where
      snoc : (xs : List Scalar) → prod P f (xs ++ c ∷ []) ≡ scalar_mul (f c) (prod P f xs)
      snoc [] = refl
      snoc (x ∷ xs) = ap (scalar_mul (f x)) (snoc xs) ∙ mul_left_comm field (f x) (f c) _

  -- The powers of the source and the nesting of Horner's scheme.
  eval_from-horner :
      (coeffs : List Scalar) (acc pow x : Scalar)
      → eval_from P acc pow coeffs x ≡ scalar_add acc (scalar_mul pow (horner P coeffs x))
  unfolding eval_from horner
  eval_from-horner [] acc pow x = sym (ap (scalar_add acc) (mul_zero field pow) ∙ add_zero acc)
  eval_from-horner (a ∷ coeffs) acc pow x =
      let h = horner P coeffs x in
      eval_from-horner coeffs (scalar_add acc (scalar_mul a pow)) (scalar_mul pow x) x
      ∙ add_assoc acc (scalar_mul a pow) _
      ∙ ap (λ s. scalar_add acc (scalar_add s (scalar_mul (scalar_mul pow x) h))) (mul_comm a pow)
      ∙ ap (λ s. scalar_add acc (scalar_add (scalar_mul pow a) s))
          (mul_assoc pow x h ∙ ap (scalar_mul pow) (mul_comm x h))
      ∙ ap (scalar_add acc) (sym (mul_add pow a (scalar_mul h x)))

  pub eval-horner : (coeffs : List Scalar) (x : Scalar) → eval P coeffs x ≡ horner P coeffs x
  unfolding eval
  eval-horner coeffs x =
      eval_from-horner coeffs scalar_zero scalar_one x ∙ zero_add field _ ∙ one_mul field _

  -- Every share is the polynomial's value at its number.
  abbrev pub IsShare : List Scalar → ℕ × Scalar → Type 0
  IsShare coeffs s = s.1 ≡ horner P coeffs (scalar_from s.0)

  shares_from-IsShare :
      (coeffs : List Scalar) (k i : ℕ) (s : ℕ × Scalar)
      → i + k ≤ 4294967296
      → Memᴰ s (shares_from P coeffs k i)
      → IsShare coeffs s
  unfolding shares_from
  shares_from-IsShare coeffs zero i s h m = absurd (Memᴰ.not-nil m)
  shares_from-IsShare coeffs (suc k) i s h (Memᴰ.head e) =
      let small : i ≡ i % 4294967296 = omega arith in
      subst (IsShare coeffs) (sym e)
        (eval-horner coeffs (scalar_from i) ∙ ap (λ j. horner P coeffs (scalar_from j)) small)
  shares_from-IsShare coeffs (suc k) i s h (Memᴰ.tail m) =
      shares_from-IsShare coeffs k (i + 1) s (omega arith) m

  module _ (action : IsAction P) where
    open action use {
      point_mul_add, point_mul_mul, point_mul_one, point_mul_zero, point_add_assoc, add_identity,
      identity_add,
    }

    -- The points of the partial evaluations, and the weighted sum that they stand for.
    combine-weighted :
        (b : Point) (f : Scalar → Scalar) (everything pre done todo : List Scalar) (i : ℕ)
        (acc : Point)
        → everything ≡ pre ++ todo
        → i ≡ length pre
        → SameProducts P pre done
        → combine P (map (λ c. P.point_mul b (f c)) todo) (lambdas_at_zero P everything i todo) acc
          ≡ P.point_add acc (P.point_mul b (weighted P f done todo))
    unfolding combine lambdas_at_zero weighted
    combine-weighted b f everything pre done [] i acc e l h =
        sym (ap (P.point_add acc) (point_mul_zero b) ∙ add_identity acc)
    combine-weighted b f everything pre done (c ∷ cs) i acc e l h =
        let w = weighted P f (c ∷ done) cs in
        let q =
          scalar_mul (product_except P (λ y. y) i 0 everything scalar_one)
            (scalar_invert (product_except P (λ y. scalar_sub y c) i 0 everything scalar_one)) in
        let is_weight : q ≡ weight P c done cs =
          rw e (lambda-weight P field i pre c cs l) ∙ weight-same P c pre done cs h in
        combine-weighted b f everything (pre ++ c ∷ []) (c ∷ done) cs (i + 1)
          (P.point_add acc (P.point_mul (P.point_mul b (f c)) q))
          (e ∙ sym (append_assoc pre (c ∷ []) cs)) (omega (arith, l, length-append pre (c ∷ [])))
          (snoc-SameProducts pre done c h)
        ∙ point_add_assoc acc _ _
        ∙ ap (λ t. P.point_add acc (P.point_add t (P.point_mul b w)))
            (point_mul_mul b (f c) q ∙ ap (λ s. P.point_mul b (scalar_mul (f c) s)) is_weight)
        ∙ ap (P.point_add acc) (sym (point_mul_add b _ w))

    partials-horner :
        (b : Point) (coeffs : List Scalar) (chosen : List (ℕ × Scalar))
        → All (IsShare coeffs) chosen
        → map (λ s. P.point_mul b s.1) chosen
          ≡ map (λ c. P.point_mul b (horner P coeffs c)) (map scalar_from (map (λ s. s.0) chosen))
    partials-horner b coeffs [] h = refl
    partials-horner b coeffs (s ∷ chosen) h =
        ap (λ y. P.point_mul b y ∷ map (λ s. P.point_mul b s.1) chosen) h.0
        ∙ ap (λ ys. P.point_mul b (horner P coeffs (scalar_from s.0)) ∷ ys)
            (partials-horner b coeffs chosen h.1)

    length_points :
        (chosen : List (ℕ × Scalar))
        → length (map scalar_from (map (λ s. s.0) chosen)) ≡ length chosen
    length_points [] = refl
    length_points (s ∷ chosen) = ap suc (length_points chosen)

    -- What the partial evaluations of the shares of some providers combine to.
    combine_shares :
        (b : Point) (coeffs : List Scalar) (chosen : List (ℕ × Scalar))
        → All (IsShare coeffs) chosen
        → AreDistinct P (map scalar_from (map (λ s. s.0) chosen))
        → length coeffs ≤ length chosen
        → combine P
            (map (λ s. P.point_mul b s.1) chosen)
            (lagrange_coeffs_at_zero P (map (λ s. s.0) chosen))
            P.identity
          ≡ P.point_mul b (constant_term P coeffs)
    unfolding lagrange_coeffs_at_zero
    combine_shares b coeffs chosen shares distinct enough =
        let xs = map scalar_from (map (λ s. s.0) chosen) in
        ap (λ ys. combine P ys (lambdas_at_zero P xs 0 xs) P.identity)
          (partials-horner b coeffs chosen shares)
        ∙ combine-weighted b (horner P coeffs) xs [] [] xs 0 P.identity refl refl (λ f. refl)
        ∙ identity_add _
        ∙ ap (P.point_mul b) (
            weighted-horner P field coeffs xs (omega (arith, enough, length_points chosen))
              distinct)

    -- Shares of a polynomial give the output under its constant term.
    pub toprf_client_eval-shares :
        (password : Bytes) (blind : Scalar) (coeffs : List Scalar) (chosen : List (ℕ × Scalar))
        → All (IsShare coeffs) chosen
        → AreDistinct P (map scalar_from (map (λ s. s.0) chosen))
        → length coeffs ≤ length chosen
        → blind ≢ scalar_zero
        → toprf_client_eval_from_partials P password blind
            (map (λ s. P.point_mul (P.point_mul (hash_to_point P password) blind) s.1) chosen)
            (lagrange_coeffs_at_zero P (map (λ s. s.0) chosen))
          ≡ oprf_finalize P password
              (P.point_mul (hash_to_point P password) (constant_term P coeffs))
    unfolding toprf_client_eval_from_partials
    toprf_client_eval-shares password blind coeffs chosen shares distinct enough h =
        let point = hash_to_point P password in
        let key = constant_term P coeffs in
        ap (λ y. oprf_finalize P password (P.point_mul y (scalar_invert blind)))
          (combine_shares (P.point_mul point blind) coeffs chosen shares distinct enough)
        ∙ ap (oprf_finalize P password) (
            ap (λ y. P.point_mul y (scalar_invert blind)) (point_mul_mul point blind key)
            ∙ point_mul_mul point (scalar_mul blind key) (scalar_invert blind)
            ∙ ap (P.point_mul point) (mul_assoc blind key _ ∙ whole P field blind key h))

    -- Let the scalars be a field that acts on the group, and let a key and its shares come from
    -- `toprf_gen` for fewer than 2^32 providers. Let a client blind with a scalar that is not zero
    -- and combine the evaluations of any shares whose numbers are distinct scalars, at least as
    -- many as the polynomial has coefficients. Then the output is that of the whole key at the
    -- password: it depends neither on which shares are taken nor on the blinding.
    pub toprf_client_eval-toprf_gen :
        (password : Bytes) (blind a0 : Scalar) (rest : List Scalar) (nsp : ℕ)
        (chosen : List (ℕ × Scalar))
        → nsp < 4294967296
        → All (λ s. Memᴰ s (toprf_gen P nsp a0 rest).1) chosen
        → AreDistinct P (map scalar_from (map (λ s. s.0) chosen))
        → length rest < length chosen
        → blind ≢ scalar_zero
        → toprf_client_eval_from_partials P password blind
            (map (λ s. P.point_mul (P.point_mul (hash_to_point P password) blind) s.1) chosen)
            (lagrange_coeffs_at_zero P (map (λ s. s.0) chosen))
          ≡ oprf_finalize P password
              (P.point_mul (hash_to_point P password) (toprf_gen P nsp a0 rest).0)
    unfolding toprf_gen
    toprf_client_eval-toprf_gen password blind a0 rest nsp chosen small drawn distinct enough h =
        toprf_client_eval-shares password blind (a0 ∷ rest) chosen (shares chosen drawn) distinct
          (omega arith) h
      where
        shares :
            (some_of : List (ℕ × Scalar))
            → All (λ s. Memᴰ s (shares_from P (a0 ∷ rest) nsp 1)) some_of
            → All (IsShare (a0 ∷ rest)) some_of
        shares [] m = tt
        shares (s ∷ some_of) m =
            (shares_from-IsShare (a0 ∷ rest) nsp 1 s (omega arith) m.0, shares some_of m.1)
