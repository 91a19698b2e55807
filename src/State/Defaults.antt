-- ===== src/State/Defaults.antt =====
-- state.go: the defaults are set once: on their own result they change nothing.
mod Home
use loramapr_receiver.Base.{
  ℕ, ◌<◌, Bool, true, false, ◌≡◌, refl, sym, ap, ◌∙◌, subst, ◌≢◌, Option, none, some, List, [], ◌∷◌,
  map, Text, codes, compare_text, trim, is_empty, is_space, Result, ok, err, arith, if◌then◌else◌,
  ◌⊎◌, inl, inr, Bool-cases, reverse, not, text_eq_refl, ◌==◌, text_eq, All, ◌≤◌, >>=-eq-ok,
}
use loramapr_receiver.State.Defaults.Home.{
  filled, IsHomeDefaulted, default_home-filled, default_home_again, filled-IsHomeDefaulted,
}
use loramapr_receiver.Outbox.Types.{Time}
use loramapr_receiver.Outbox.Store.{is_some}
use loramapr_receiver.State.Types.{Data, HomeAutoSessionState, PairingPhase, unset, unpaired}
use loramapr_receiver.State.Store.{Platform, stamped}
use loramapr_receiver.State.Migrate.{
  is_blank, set_when, set_home, default_module_state, default_control_state,
  default_active_state_source, default_reconciliation_state, default_config_source,
  default_config_version, default_applied_version, default_apply_result, default_desired_enabled,
  default_desired_mode, default_config, default_home, is_unset, install_type_from_profile,
  is_known_update_status, default_install_type, default_update_status, default_identity,
  default_phase, default_schema, ensure_defaults,
}

module _ (p : Platform) where
  -- Nothing is left to set by default.
  pub record IsDefaulted (d : Data) : Type 0 where
    schema_version : (d.schema_version == 0) ≡ false
    id : is_empty d.installation.id ≡ false
    created_at : (d.installation.created_at == 0) ≡ false
    last_started_at : (d.installation.last_started_at == 0) ≡ false
    phase : is_unset d.pairing.phase ≡ false
    install_type : is_empty d.runtime.install_type ≡ false
    status : is_known_update_status p d.update.status ≡ true
    home : IsHomeDefaulted d.home_auto_session

  pub ensure_defaults_again :
      (now : Time) (new_id : Result Text) (d : Data)
      → IsDefaulted d
      → ensure_defaults p now new_id d ≡ ok (d, false)
  unfolding ensure_defaults default_identity default_phase default_schema default_install_type
      default_update_status
  ensure_defaults_again now new_id d h = ground (
    arith,
    h.schema_version,
    h.id,
    h.created_at,
    h.last_started_at,
    h.phase,
    h.install_type,
    h.status,
    default_home_again d false h.home,
  )

  pub stamped-IsDefaulted : (now : Time) (d : Data) → IsDefaulted d → IsDefaulted (stamped now d)
  stamped-IsDefaulted now d h = record {
    schema_version = h.schema_version;
    id = h.id;
    created_at = h.created_at;
    last_started_at = h.last_started_at;
    phase = h.phase;
    install_type = h.install_type;
    status = h.status;
    home = h.home;
  }

  map-to_lower : (t : Text) → All (λ c. (97 ≤ c) × (c ≤ 122)) t → map p.to_lower t ≡ t
  map-to_lower [] h = refl
  map-to_lower (c ∷ t) h = cc (p.to_lower_letter c h.0.0 h.0.1, map-to_lower t h.1)

  unknown_is_known : is_known_update_status p (codes "unknown") ≡ true
  unfolding is_known_update_status trim compare_text
  unknown_is_known = rw (map-to_lower (codes "unknown") (ground arith))

  install_type_nonempty : (t : Text) → is_empty (install_type_from_profile p t) ≡ false
  unfolding install_type_from_profile
  install_type_nonempty t = ground arith

  -- The steps before those of the home session.
  front : Time → Text → Data → Data × Bool
  front now id d = default_update_status p (
      default_install_type p
        (default_phase p (default_identity p now id (default_schema p (d, false)))))

  record IsFront (d : Data) : Type 0 where
    schema_version : (d.schema_version == 0) ≡ false
    id : is_empty d.installation.id ≡ false
    created_at : (d.installation.created_at == 0) ≡ false
    last_started_at : (d.installation.last_started_at == 0) ≡ false
    phase : is_unset d.pairing.phase ≡ false
    install_type : is_empty d.runtime.install_type ≡ false
    status : is_known_update_status p d.update.status ≡ true

  identify : Time → Text → Data → Data × Bool
  identify now id d = default_identity p now id (default_schema p (d, false))

  record IsIdentified (d d' : Data) : Type 0 where
    schema_version : (d'.schema_version == 0) ≡ false
    id : is_empty d'.installation.id ≡ false
    created_at : (d'.installation.created_at == 0) ≡ false
    last_started_at : (d'.installation.last_started_at == 0) ≡ false
    version : (d.schema_version == 0) ≡ false → d'.schema_version ≡ d.schema_version
    phase : d'.pairing.phase ≡ d.pairing.phase

  identify-IsIdentified :
      (now : Time) (id : Text) (d : Data)
      → (now == 0) ≡ false
      → (is_empty d.installation.id ≡ true → is_empty id ≡ false)
      → IsIdentified d (identify now id d).0
  unfolding identify default_identity default_schema
  identify-IsIdentified now id d n i = ground (arith, n, i)

  settle : Data × Bool → Data × Bool
  settle s = default_update_status p (default_install_type p (default_phase p s))

  record IsSettled (d d' : Data) : Type 0 where
    phase : is_unset d'.pairing.phase ≡ false
    unset_phase : d.pairing.phase ≡ unset → d'.pairing.phase ≡ unpaired
    kept : is_unset d.pairing.phase ≡ false → d'.pairing.phase ≡ d.pairing.phase
    install_type : is_empty d'.runtime.install_type ≡ false
    status : is_known_update_status p d'.update.status ≡ true
    schema_version : d'.schema_version ≡ d.schema_version
    installation : d'.installation ≡ d.installation

  settled_phase : Data → Data
  settled_phase d = record d {
    pairing = record d.pairing {
      phase = if is_unset d.pairing.phase then unpaired else d.pairing.phase;
    };
  }

  settled_phase_lem : (s : Data × Bool) → (default_phase p s).0 ≡ settled_phase s.0
  unfolding settled_phase default_phase
  settled_phase_lem (d, c) = ground arith

  settled_type : Data → Data
  settled_type d = record d {
    runtime = record d.runtime {
      install_type =
          if is_empty d.runtime.install_type
          then install_type_from_profile p d.runtime.profile
          else d.runtime.install_type;
    };
  }

  settled_type_lem : (s : Data × Bool) → (default_install_type p s).0 ≡ settled_type s.0
  unfolding settled_type default_install_type
  settled_type_lem (d, c) = ground arith

  settled_status : Data → Data
  settled_status d = record d {
    update = record d.update {
      status =
          if not (is_known_update_status p d.update.status)
          then codes "unknown"
          else d.update.status;
    };
  }

  settled_status_lem : (s : Data × Bool) → (default_update_status p s).0 ≡ settled_status s.0
  unfolding settled_status default_update_status
  settled_status_lem (d, c) = ground arith

  settled : Data → Data
  unfolding settled_phase settled_type settled_status
  settled d = settled_status (settled_type (settled_phase d))

  settle-settled : (s : Data × Bool) → (settle s).0 ≡ settled s.0
  unfolding settle settled
  settle-settled s =
      settled_status_lem (default_install_type p (default_phase p s))
      ∙ ap settled_status (settled_type_lem (default_phase p s))
      ∙ ap (λ d. settled_status (settled_type d)) (settled_phase_lem s)

  settled-IsSettled : (d : Data) → IsSettled d (settled d)
  unfolding settled settled_phase settled_type settled_status
  settled-IsSettled d = record {
    phase = ground arith;
    unset_phase = λ h. rw h;
    kept = λ h. rw h;
    install_type = ground (arith, install_type_nonempty d.runtime.profile);
    status = ground (arith, unknown_is_known);
    schema_version = refl;
    installation = refl;
  }

  settle-IsSettled : (s : Data × Bool) → IsSettled s.0 (settle s).0
  settle-IsSettled s = subst (IsSettled s.0) (sym (settle-settled s)) (settled-IsSettled s.0)

  front-IsFront :
      (now : Time) (id : Text) (d : Data)
      → (now == 0) ≡ false
      → (is_empty d.installation.id ≡ true → is_empty id ≡ false)
      → IsFront (front now id d).0
  unfolding front identify settle
  front-IsFront now id d n i =
      let a = identify-IsIdentified now id d n i in
      let b = settle-IsSettled (identify now id d) in
      record {
        schema_version = cc (b.schema_version, a.schema_version);
        id = cc (b.installation, a.id);
        created_at = cc (b.installation, a.created_at);
        last_started_at = cc (b.installation, a.last_started_at);
        phase = b.phase;
        install_type = b.install_type;
        status = b.status;
      }

  IsFront-IsDefaulted : (d : Data) → IsFront d → IsDefaulted (set_home filled d)
  IsFront-IsDefaulted d f = record {
    schema_version = f.schema_version;
    id = f.id;
    created_at = f.created_at;
    last_started_at = f.last_started_at;
    phase = f.phase;
    install_type = f.install_type;
    status = f.status;
    home = filled-IsHomeDefaulted d.home_auto_session;
  }

  -- What `ensure_defaults` gives.
  pub record Defaulted (d d' : Data) : Type 0 where
    pub defaulted : IsDefaulted d'
    pub version : (d.schema_version == 0) ≡ false → d'.schema_version ≡ d.schema_version
    pub phase : is_unset d.pairing.phase ≡ false → d'.pairing.phase ≡ d.pairing.phase
    pub unset_phase : d.pairing.phase ≡ unset → d'.pairing.phase ≡ unpaired

  pub ensure_defaults-Defaulted :
      (now : Time) (new_id : Result Text) (d d' : Data) (changed : Bool)
      → 0 < now
      → ((id : Text) → new_id ≡ ok id → id ≢ [])
      → ensure_defaults p now new_id d ≡ ok (d', changed)
      → Defaulted d d'
  unfolding ensure_defaults front settle identify
  ensure_defaults-Defaulted now new_id d d' changed n i h =
      let (id, e, r) =
        >>=-eq-ok (if is_empty d.installation.id then new_id else ok [])
          (λ id. ok (default_home (front now id d))) h in
      let same : (default_home (front now id d)).0 ≡ d' = cc r in
      let zero : (now == 0) ≡ false = ground (arith, n) in
      let new : is_empty d.installation.id ≡ true → is_empty id ≡ false =
        λ b. ground (arith, b, e, i id) in
      let a = identify-IsIdentified now id d zero new in
      let b = settle-IsSettled (identify now id d) in
      subst (Defaulted d) ((sym (default_home-filled (front now id d))) ∙ same) (record {
        defaulted = IsFront-IsDefaulted (front now id d).0 (front-IsFront now id d zero new);
        version = λ v. b.schema_version ∙ a.version v;
        phase = λ v. b.kept (ap is_unset a.phase ∙ v) ∙ a.phase;
        unset_phase = λ v. b.unset_phase (a.phase ∙ v);
      })
