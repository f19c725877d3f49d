-- ===== src/UpSpa/TwoPhase.antt =====
-- The contract that UpSPA's login server and providers promise for one key: a committed value that
-- changes only when what was proposed for it is stored.
use threshold_password_authe.Base.{◌≡◌, ◌⊎◌, Option, none, some, List, [], ◌∷◌, Bool, true, false}

module _ (A : Type 0) where
  pub record Cell : Type 0 where
    pub committed : Option A
    pub proposed : Option A

  -- What a call asks of the key, and whether it is granted: to propose, store or discard a value, or
  -- nothing.
  pub data Action : Type 0 where
    proposes stores discards : Bool → A → Action
    nothing : Action

  abbrev pub Stays : Cell → Cell → Type 0
  Stays c d = (d.committed ≡ c.committed) × (d.proposed ≡ c.proposed)

  -- One step of the contract, from `c` to `d`. What is not granted changes nothing, and a Store that
  -- is repeated may be granted again.
  abbrev pub CellStep : Action → Cell → Cell → Type 0
  CellStep (proposes true a) c d =
      ((c.proposed ≡ none) ⊎ (c.proposed ≡ some a))
      × ((d.committed ≡ c.committed) × (d.proposed ≡ some a))
  CellStep (stores true a) c d =
      ((c.proposed ≡ some a) × ((d.committed ≡ some a) × (d.proposed ≡ none)))
      ⊎ ((c.proposed ≡ none) × Stays c d)
  CellStep (discards true a) c d =
      (c.proposed ≡ some a) × ((d.committed ≡ c.committed) × (d.proposed ≡ none))
  CellStep (proposes false a) c d = Stays c d
  CellStep (stores false a) c d = Stays c d
  CellStep (discards false a) c d = Stays c d
  CellStep nothing c d = Stays c d

  -- A run of the contract through a list of actions.
  pub data CellRun : List Action → Cell → Cell → Type 0 where
    done : (c : Cell) → CellRun [] c c
    next :
        (action : Action) (actions : List Action) (c d e : Cell)
        → CellStep action c d
        → CellRun actions d e
        → CellRun (action ∷ actions) c e
