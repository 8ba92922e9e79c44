-- ===== src/Activation/Prepared.antt =====
-- internal/nmplugin/service.go, `prepareDaemonProfile`, over the client of grpc.go: the profile that the
-- daemon is switched to is the one that the settings name.
use network_manager_vpn_plug.Prelude.{
  ◌≡◌, refl, ap, subst, arith, Text, is_empty, Result, ok, err, Bool-cases, inl, inr, [], ◌∷◌,
}
use network_manager_vpn_plug.Go.Decimal.{ℤ}
use network_manager_vpn_plug.Go.Strings.{trim_space}
use network_manager_vpn_plug.Go.Unicode.{Tables}
use network_manager_vpn_plug.Daemon.{ProfileRef, empty, handle}
use network_manager_vpn_plug.Daemon.Messages.{RpcError}
use network_manager_vpn_plug.Grpc.Calls.{
  Stub, CallError, add_profile, answered, profile_client, switch_profile, with_id,
}
use network_manager_vpn_plug.Grpc.Dial.{Deadline}
use network_manager_vpn_plug.Profile.Defs.{Client, ProfileError, ensure_exists, prepare_activation}
use network_manager_vpn_plug.Activation.{
  PrepareError, prepare_daemon_profile, switch_daemon_profile, switched, then_ensured,
  then_switched, with_process_user,
}
use network_manager_vpn_plug.Activation.Names.{
  AddsNamed, Names, Names-self, Names_of_Follows, Names_trans, ProfilesEnabled, ensure-Names,
  prepare-Follows,
}

module _ (stub : Stub) (rpc_timeout : ℤ) (deadline : Deadline) where
  open stub use {World}

  abbrev pub client : Client
  client = profile_client stub rpc_timeout deadline

  with_id_keeps :
      (d : ProfileRef) (id : Text)
      → ((with_id d id).profile_name ≡ d.profile_name) × ((with_id d id).username ≡ d.username)
  unfolding with_id
  with_id_keeps d [] = (refl, refl)
  with_id_keeps d (c ∷ s) = (refl, refl)

  answer_ok :
      {A : Type 0} {a b : A} {u v : World}
      → ◌≡◌ {A = Result RpcError A × World} (ok a, u) (ok b, v)
      → a ≡ b
  answer_ok h = cc (ap (λ p. p.0) h)

  answered-ok :
      {A B : Type 0} (op : Text) (f : A → B) (x : Result CallError A × World) {b : B} {v : World}
      → answered op f x ≡ (ok b, v)
      → (a : A) × (f a ≡ b)
  answered-ok op f (ok a, w) h = (a, answer_ok h)
  answered-ok op f (err e, w) h = absurd (cc)

  adds_named : AddsNamed client
  unfolding add_profile
  adds_named d c w v h =
      let (id, e) = answered-ok _ (with_id d) _ h in let (n, u) = with_id_keeps d id in ground arith

  prepared_ok :
      {a b : ProfileRef} {u v : World}
      → ◌≡◌ {A = Result PrepareError ProfileRef × World} (ok a, u) (ok b, v)
      → a ≡ b
  prepared_ok h = cc (ap (λ p. p.0) h)

  switched-ok :
      (x : Result RpcError ProfileRef × World) {r : ProfileRef} {v : World}
      → switched stub rpc_timeout deadline x ≡ (ok r, v)
      → (q : ProfileRef) × (z : World) × (x ≡ (ok q, z)) × (q ≡ r)
  switched-ok (ok q, z) h = (q, z, refl, prepared_ok h)
  switched-ok (err e, z) h = absurd (cc)

  then_ensured-ok :
      (tables : Tables) (x : Result ProfileError ProfileRef × World) {r : ProfileRef} {v : World}
      → then_ensured stub rpc_timeout deadline tables x ≡ (ok r, v)
      → (a : ProfileRef) × (u : World) × (x ≡ (ok a, u))
        × (then_switched stub rpc_timeout deadline (ensure_exists tables client a u) ≡ (ok r, v))
  then_ensured-ok tables (ok a, u) h = (a, u, refl, h)
  then_ensured-ok tables (err e, u) h = absurd (cc)

  then_switched-ok :
      (x : Result ProfileError ProfileRef × World) {r : ProfileRef} {v : World}
      → then_switched stub rpc_timeout deadline x ≡ (ok r, v)
      → (a : ProfileRef) × (u : World) × (x ≡ (ok a, u))
        × (switch_daemon_profile stub rpc_timeout deadline a u ≡ (ok r, v))
  then_switched-ok (ok a, u) h = (a, u, refl, h)
  then_switched-ok (err e, u) h = absurd (cc)

  switch_profile-Names :
      (d : ProfileRef) (w v : World) {r : ProfileRef}
      → switch_profile stub rpc_timeout deadline d w ≡ (ok r, v)
      → Names r d
  unfolding switch_profile
  switch_profile-Names d w v {r} h = elim (Bool-cases (empty d)) [
    | inl e ↦ subst (λ x. Names x d) (answer_ok (rw e at h)) (Names-self d)
    | inr e ↦
        let (id, k) = answered-ok _ (with_id d) _ (rw e at h) in
        let (n, u) = with_id_keeps d id in
        rw (← k) (record { name = λ _. ap trim_space n; user = λ _. ap trim_space u })
  ]

  switch-Names :
      (d : ProfileRef) (w v : World) {r : ProfileRef}
      → switch_daemon_profile stub rpc_timeout deadline d w ≡ (ok r, v)
      → Names r d
  unfolding switch_daemon_profile switch_profile
  switch-Names d w v {r} h = elim (Bool-cases (is_empty (handle d))) [
    | inl e ↦ subst (λ x. Names x d) (prepared_ok (rw e at h)) (Names-self d)
    | inr e ↦
        let (q, z, k, same) =
          switched-ok (switch_profile stub rpc_timeout deadline d w) (rw e at h) in
        rw (← same) (switch_profile-Names d w z k)
  ]

  -- While the daemon has profiles, whenever it is asked, the profile that `prepareDaemonProfile` returns
  -- has the name and the user that the settings ask for, where these are not blank, and the process's
  -- user if there is a name and no user.
  pub prepared-Names :
      (tables : Tables) (current : Text) (p : ProfileRef) (w v : World) {r : ProfileRef}
      → ProfilesEnabled client
      → prepare_daemon_profile stub rpc_timeout deadline tables current p w ≡ (ok r, v)
      → Names r (with_process_user current p)
  unfolding prepare_daemon_profile
  prepared-Names tables current p w v {r} enabled h =
      let d = with_process_user current p in
      let (a, u, prepared, h₁) = then_ensured-ok tables (prepare_activation tables client d w) h in
      let (b, t, ensured, h₂) = then_switched-ok (ensure_exists tables client a u) h₁ in
      Names_trans r b d (switch-Names b t v h₂) (
        Names_trans b a d (ensure-Names tables client a u t enabled adds_named ensured)
          (Names_of_Follows a d (prepare-Follows tables client d w u enabled prepared)))
