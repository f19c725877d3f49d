-- ===== src/Thresholds.antt =====
-- crates/upspa-quorum/src/protocols/roupspa.rs: the threshold and the quorum size.
pub mod Errors
pub mod Intersection
use threshold_password_authe.Base.{
  ℕ, zero, suc, ◌+◌, ◌-◌, ◌*◌, Result, ok, err, ok_or, ◌>>=◌, Option, none, some, Bool, true, false,
  not, ◌&&◌, ◌||◌, leb, ltb, eqb, if◌then◌else◌,
}
use Errors.{PhaseError, invalid_threshold}

-- `2 * qsp - nsp > tsp - 1` over the integers, where no side is negative here.
abbrev pub intersects : ℕ → ℕ → ℕ → Bool
intersects nsp tsp qsp = ltb (tsp + nsp) (2 * qsp + 1)

unfoldable pub validate_thresholds : ℕ → ℕ → ℕ → Result PhaseError (Unit {0})
validate_thresholds nsp tsp qsp =
    let valid_range = leb 1 nsp && leb 1 tsp && leb tsp qsp && leb qsp nsp in
    if not valid_range || not (intersects nsp tsp qsp)
    then err (invalid_threshold nsp tsp qsp)
    else ok tt

-- `find` over the `rounds` candidates from `qsp` upwards.
unfoldable pub find_quorum : ℕ → ℕ → ℕ → ℕ → Option ℕ
find_quorum nsp tsp zero qsp = none
find_quorum nsp tsp (suc rounds) qsp =
    let rest = find_quorum nsp tsp rounds (qsp + 1) in
    if intersects nsp tsp qsp then some qsp else rest

unfoldable pub minimum_quorum_size : ℕ → ℕ → Result PhaseError ℕ
unfolding find_quorum
minimum_quorum_size nsp tsp =
    if eqb nsp 0 || eqb tsp 0 || ltb nsp tsp
    then err (invalid_threshold nsp tsp 0)
    else ok_or (find_quorum nsp tsp (nsp + 1 - tsp) tsp) (invalid_threshold nsp tsp nsp)

-- `expect` panics where there is no quorum size; so does this with an error.
unfoldable pub max_quorum_unavailable : ℕ → ℕ → Result PhaseError ℕ
unfolding minimum_quorum_size
max_quorum_unavailable nsp tsp = do qsp ← minimum_quorum_size nsp tsp; ok (nsp - qsp)
