-- ===== src/System/Setup/Install.antt =====
-- roupspa.rs: the loop of the set-up gives every provider its share and the first record.
use threshold_password_authe.Base.{
  ℕ, suc, ◌+◌, ◌%◌, ◌≤◌, ◌<◌, ◌≡◌, refl, sym, ap, ◌∙◌, Bytes, bytes_eq, ok, Map, insert,
  insert_self, insert_ne, contains_key, true, false, ◌||◌, List, [], ◌∷◌, length, All, Option, none,
  some, arith,
}
use mathlib.Core.Path.{subst}
use threshold_password_authe.Primitives.{Primitives}
use threshold_password_authe.Crypto.{shares_from, eval}
use threshold_password_authe.Provider.{
  RoUpSpaProvider, ProviderError, SignedIdentificationRecord, install_setup, active,
}
use threshold_password_authe.System.Setup.{id_eq, install_all}
use threshold_password_authe.System.Writes.Counting.{Numbered}

module _ (P : Primitives) (uid : Bytes) (svk : P.VerifyingKey) (r : SignedIdentificationRecord P)
    (coeffs : List P.Scalar) where
  -- A provider that can be set up for the user.
  abbrev pub IsFresh : RoUpSpaProvider P → Type 0
  IsFresh p =
      (p.reachable ≡ true)
      × ((contains_key p.identifications uid || contains_key p.shares uid) ≡ false)

  -- The provider keeps the record as its active root under the key, and its share of the
  -- polynomial, which the client has committed to.
  abbrev pub IsEnrolled : Map ℕ Bytes → RoUpSpaProvider P → Type 0
  IsEnrolled commitments p =
      (share : P.Scalar) × (p.shares uid ≡ some share)
      × (share ≡ eval P coeffs (P.scalar_from p.id))
      × (commitments p.id ≡ some (P.scalar_bytes share))
      × (p.identifications uid
          ≡ some
              (record { svk = svk; current = r; status = active; tentative_identification = none }))
      × (p.reachable ≡ true)

  -- The provider after its set-up.
  abbrev enrolled : RoUpSpaProvider P → P.Scalar → RoUpSpaProvider P
  enrolled p share = record p {
    shares = insert p.shares uid share;
    identifications =
        insert p.identifications uid
          (record { svk = svk; current = r; status = active; tentative_identification = none });
  }

  -- What the loop leaves, from the provider `i` on: the error, the providers, the commitments.
  pub record Installed (n i : ℕ) (before : Map ℕ Bytes)
      (out : Option ProviderError × List (RoUpSpaProvider P) × Map ℕ Bytes) : Type 0 where
    pub succeeds : out.0 ≡ none
    pub everywhere : All (IsEnrolled out.2) out.1
    pub numbered : Numbered P i out.1
    pub size : length out.1 ≡ n
    pub earlier : (j : ℕ) → j < i → out.2 j ≡ before j

  module _ (zeroth : r.ctrid ≡ 0) (unsigned : r.signature ≡ none) where
    install_setup-IsFresh :
        (p : RoUpSpaProvider P) (share : P.Scalar)
        → IsFresh p
        → install_setup P p uid svk r share ≡ ok (enrolled p share)
    unfolding install_setup
    install_setup-IsFresh p share h = ground (arith, zeroth, unsigned)

    install_all-cons :
        (i : ℕ) (share : P.Scalar) (shares : List (ℕ × P.Scalar)) (p : RoUpSpaProvider P)
        (ps : List (RoUpSpaProvider P)) (before : Map ℕ Bytes)
        → IsFresh p
        → p.id ≡ i
        → share ≡ eval P coeffs (P.scalar_from i)
        → Installed
            (length ps)
            (i + 1)
            (insert before i (P.scalar_bytes share))
            (install_all P uid svk r shares ps (insert before i (P.scalar_bytes share)))
        → Installed
            (suc (length ps))
            i
            before
            (install_all P uid svk r ((i, share) ∷ shares) (p ∷ ps) before)
    unfolding install_all
    install_all-cons i share shares p ps before fresh here origin rest =
        let q = enrolled p share in
        let committed = insert before i (P.scalar_bytes share) in
        rw (install_setup-IsFresh p share fresh, install_all)
          (record {
            succeeds = rest.succeeds;
            everywhere = (
              (
                share,
                insert_self p.shares uid share,
                origin ∙ ap (λ j. eval P coeffs (P.scalar_from j)) (sym here),
                ap (install_all P uid svk r shares ps committed).2 here
                    ∙ rest.earlier i (omega arith)
                    ∙ insert_self before i (P.scalar_bytes share),
                insert_self p.identifications uid _,
                fresh.0,
              ),
              rest.everywhere,
            );
            numbered = (here, rest.numbered);
            size = ap suc rest.size;
            earlier = λ j lt.
                rest.earlier j (omega arith)
                ∙ insert_ne before i j (P.scalar_bytes share) (omega arith);
          })

    pub install_all-Installed :
        (i : ℕ) (ps : List (RoUpSpaProvider P)) (before : Map ℕ Bytes)
        → i + length ps ≤ 4294967296
        → Numbered P i ps
        → All IsFresh ps
        → Installed
            (length ps)
            i
            before
            (install_all P uid svk r (shares_from P coeffs (length ps) i) ps before)
    unfolding install_all shares_from
    install_all-Installed i [] before h n f = record {
      succeeds = refl;
      everywhere = tt;
      numbered = tt;
      size = refl;
      earlier = λ j lt. refl;
    }
    install_all-Installed i (p ∷ ps) before h n f =
        let share = eval P coeffs (P.scalar_from i) in
        let small : i % 4294967296 ≡ i = omega arith in
        subst
          (λ k. Installed (suc (length ps)) i before (
            install_all P uid svk r ((k, share) ∷ shares_from P coeffs (length ps) (i + 1)) (p ∷ ps)
              before))
          (sym small)
          (install_all-cons i share _ p ps before f.0 n.0 refl
            (install_all-Installed (i + 1) ps _ (omega arith) n.1 f.1))
