-- ===== src/Base/Maps.antt =====
-- `HashMap`: a function from keys. The source never depends on the order of a map's entries, except
-- where Groups.antt says so.
use mathlib.Core.Path.{◌≡◌}
use mathlib.Core.Logic.{◌≢◌}
use mathlib.Core.Bool.{Bool, true, false}
use mathlib.Core.Option.{Option, none, some}
use native.Mathlib.Omega.{arith}
use threshold_password_authe.Base.Tests.{Eq, ◌==◌, if◌then◌else◌, is_some}

abbrev pub Map : Type 0 → Type 0 → Type 0
Map K V = K → Option V

module _ {K V : Type 0} where
  abbrev pub empty : Map K V
  empty k = none

  abbrev pub contains_key : Map K V → K → Bool
  contains_key m k = is_some (m k)

module _ {K V : Type 0} ⦃e : Eq K⦄ where
  abbrev pub insert : Map K V → K → V → Map K V
  insert m k v j = if j == k then some v else m j

  abbrev pub remove : Map K V → K → Map K V
  remove m k j = if j == k then none else m j

  pub insert_self : (m : Map K V) (k : K) (v : V) → insert m k v k ≡ some v
  insert_self m k v = ground arith

  pub insert_ne : (m : Map K V) (k j : K) (v : V) → j ≢ k → insert m k v j ≡ m j
  insert_ne m k j v h = ground arith

  pub remove_self : (m : Map K V) (k : K) → remove m k k ≡ none
  remove_self m k = ground arith

  pub remove_ne : (m : Map K V) (k j : K) → j ≢ k → remove m k j ≡ m j
  remove_ne m k j h = ground arith

-- `HashSet`, by its membership test.
abbrev pub HashSet : Type 0 → Type 0
HashSet K = K → Bool

module _ {K : Type 0} where
  abbrev pub no_members : HashSet K
  no_members k = false

module _ {K : Type 0} ⦃e : Eq K⦄ where
  abbrev pub add_member : HashSet K → K → HashSet K
  add_member m k j = if j == k then true else m j

  abbrev pub remove_member : HashSet K → K → HashSet K
  remove_member m k j = if j == k then false else m j

-- `map.get(key) == Some(&value)`, and `option.as_ref() == Some(&value)`.
abbrev pub is_value : {A : Type 0} ⦃e : Eq A⦄ → Option A → A → Bool
is_value none b = false
is_value (some a) b = a == b
