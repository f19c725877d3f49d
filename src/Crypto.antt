-- ===== src/Crypto.antt =====
-- crates/upspa-quorum/src/crypto.rs: sealed blobs, the hash functions with their domain tags, and the
-- threshold oblivious pseudo-random function. What the source draws from its generator (a nonce, a
-- scalar) is an argument here.
pub mod Blob
pub mod Combinations
pub mod Field
pub mod Weights
pub mod Subsets
pub mod Interpolation
pub mod Products
pub mod Oprf
pub mod Lagrange
pub use Blob.*
use threshold_password_authe.Base.{
  ℕ, zero, suc, ◌+◌, ◌%◌, Bytes, codes, le_bytes, List, [], ◌∷◌, ◌++◌, map, Option, eqb,
  if◌then◌else◌,
}
use threshold_password_authe.Primitives.{Primitives}

module _ (P : Primitives) where
  open P use {
    Scalar, Point, hash, hash_wide, scalar_zero, scalar_one, scalar_add, scalar_sub, scalar_mul,
    scalar_invert, scalar_from, identity, point_add, point_mul, compress, from_uniform_bytes,
    encrypt, decrypt,
  }

  unfoldable pub hash_to_point : Bytes → Point
  hash_to_point msg = from_uniform_bytes (hash_wide (codes "uptspa/hash_to_point" ++ msg))

  unfoldable pub oprf_finalize : Bytes → Point → Bytes
  oprf_finalize password y = hash (codes "uptspa/oprf_finalize" ++ (password ++ compress y))

  unfoldable pub xchacha_encrypt_detached : Bytes → Bytes → Bytes → Bytes → CtBlob
  xchacha_encrypt_detached key aad plaintext nonce =
      let (ct, tag) = encrypt key nonce aad plaintext in
      record { nonce = nonce; ct = ct; tag = tag }

  unfoldable pub xchacha_decrypt_detached : Bytes → Bytes → CtBlob → Option Bytes
  xchacha_decrypt_detached key aad blob = decrypt key blob.nonce aad blob.ct blob.tag

  unfoldable pub hash_suid : Bytes → Bytes → ℕ → Bytes
  hash_suid rsp lsj i = hash (codes "uptspa/suid" ++ (rsp ++ (lsj ++ le_bytes 4 i)))

  unfoldable pub hash_roupspa_suid : Bytes → Bytes → Bytes
  hash_roupspa_suid rsp lsj = hash (codes "roupspa/suid/v1" ++ (rsp ++ lsj))

  unfoldable pub hash_vinfo : Bytes → Bytes → Bytes
  hash_vinfo rlsj lsj = hash (codes "uptspa/vinfo" ++ (rlsj ++ lsj))

  -- The loop of `eval`, over the coefficients that are left.
  unfoldable pub eval_from : Scalar → Scalar → List Scalar → Scalar → Scalar
  eval_from acc pow [] x = acc
  eval_from acc pow (c ∷ coeffs) x =
      eval_from (scalar_add acc (scalar_mul c pow)) (scalar_mul pow x) coeffs x

  unfoldable pub eval : List Scalar → Scalar → Scalar
  unfolding eval_from
  eval coeffs x = eval_from scalar_zero scalar_one coeffs x

  -- The shares of the `k` providers `i`, `i + 1`, …, each with its id as a `u32`.
  unfoldable pub shares_from : List Scalar → ℕ → ℕ → List (ℕ × Scalar)
  shares_from coeffs zero i = []
  shares_from coeffs (suc k) i =
      (i % 4294967296, eval coeffs (scalar_from i)) ∷ shares_from coeffs k (i + 1)

  -- The key, and a share for each provider. `a0` and `rest` are the `tsp` scalars that are drawn. The
  -- source also asserts `1 <= tsp <= nsp`, which the threshold check of a new client has established.
  unfoldable pub toprf_gen : ℕ → Scalar → List Scalar → Scalar × List (ℕ × Scalar)
  unfolding shares_from eval
  toprf_gen nsp a0 rest = (a0, shares_from (a0 ∷ rest) nsp 1)

  -- The inner loop: the product of `top x_j` over that of `bottom x_j`, for `j` other than `i`.
  unfoldable pub product_except : (Scalar → Scalar) → ℕ → ℕ → List Scalar → Scalar → Scalar
  product_except factor i j [] acc = acc
  product_except factor i j (x ∷ xs) acc =
      product_except factor i (j + 1) xs (if eqb i j then acc else scalar_mul acc (factor x))

  unfoldable pub lambdas_at_zero : List Scalar → ℕ → List Scalar → List Scalar
  unfolding product_except
  lambdas_at_zero all i [] = []
  lambdas_at_zero all i (x ∷ xs) =
      scalar_mul (product_except (λ y. y) i 0 all scalar_one)
        (scalar_invert (product_except (λ y. scalar_sub y x) i 0 all scalar_one))
      ∷ lambdas_at_zero all (i + 1) xs

  unfoldable pub lagrange_coeffs_at_zero : List ℕ → List Scalar
  unfolding lambdas_at_zero
  lagrange_coeffs_at_zero ids = let xs = map scalar_from ids in lambdas_at_zero xs 0 xs

  unfoldable pub lambdas_at : Scalar → List Scalar → ℕ → List Scalar → List Scalar
  unfolding product_except
  lambdas_at x all i [] = []
  lambdas_at x all i (y ∷ ys) =
      scalar_mul (product_except (λ z. scalar_sub x z) i 0 all scalar_one)
        (scalar_invert (product_except (λ z. scalar_sub y z) i 0 all scalar_one))
      ∷ lambdas_at x all (i + 1) ys

  unfoldable pub lagrange_coeffs_at : List ℕ → Scalar → List Scalar
  unfolding lambdas_at
  lagrange_coeffs_at ids x = let xs = map scalar_from ids in lambdas_at x xs 0 xs

  -- The loop over `partials.iter().zip(lambdas)`.
  unfoldable pub combine : List Point → List Scalar → Point → Point
  combine [] lambdas acc = acc
  combine (y ∷ ys) [] acc = acc
  combine (y ∷ ys) (l ∷ ls) acc = combine ys ls (point_add acc (point_mul y l))

  unfoldable pub toprf_client_eval_from_partials : Bytes → Scalar → List Point → List Scalar → Bytes
  unfolding combine oprf_finalize
  toprf_client_eval_from_partials password r partials lambdas =
      oprf_finalize password (point_mul (combine partials lambdas identity) (scalar_invert r))
