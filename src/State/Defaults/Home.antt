-- ===== src/State/Defaults/Home.antt =====
-- state.go: the defaults of the home session are a function of each field.
use loramapr_receiver.Base.{
  Bool, true, false, ◌≡◌, refl, ap, ◌∙◌, none, some, Text, codes, trim, arith, if◌then◌else◌,
}
use loramapr_receiver.Outbox.Store.{is_some}
use loramapr_receiver.State.Types.{Data, HomeAutoSessionState}
use loramapr_receiver.State.Migrate.{
  is_blank, set_home, default_module_state, default_control_state, default_active_state_source,
  default_reconciliation_state, default_config_source, default_config_version,
  default_applied_version, default_apply_result, default_desired_enabled, default_desired_mode,
  default_config, default_home,
}

-- A blank text is replaced.
unfoldable fill : Text → Text → Text
fill x t = if is_blank t then x else t

fill-is_blank : (x t : Text) → is_blank x ≡ false → is_blank (fill x t) ≡ false
unfolding fill
fill-is_blank x t h = ground arith

pub filled : HomeAutoSessionState → HomeAutoSessionState
unfolding fill
filled h = record h {
  module_state = fill (codes "disabled") h.module_state;
  control_state = fill (codes "disabled") h.control_state;
  active_state_source = fill (codes "none") h.active_state_source;
  reconciliation_state = fill (codes "clean_idle") h.reconciliation_state;
  effective_config_source = fill (codes "local_fallback") h.effective_config_source;
  effective_config_version = fill (codes "local-default") h.effective_config_version;
  last_applied_config_ver =
      fill (fill (codes "local-default") h.effective_config_version) h.last_applied_config_ver;
  last_config_apply_result = fill (codes "local_config_applied") h.last_config_apply_result;
  desired_config_enabled = some (elim h.desired_config_enabled [ none ↦ false | some b ↦ b ]);
  desired_config_mode = fill (codes "off") h.desired_config_mode;
}

filled_activity : HomeAutoSessionState → HomeAutoSessionState
unfolding fill
filled_activity h = record h {
  module_state = fill (codes "disabled") h.module_state;
  control_state = fill (codes "disabled") h.control_state;
}

filled_activity_lem :
    (s : Data × Bool)
    → (default_control_state (default_module_state s)).0 ≡ set_home filled_activity s.0
unfolding filled_activity default_module_state default_control_state fill
filled_activity_lem (d, c) = ground arith

filled_sources : HomeAutoSessionState → HomeAutoSessionState
unfolding fill
filled_sources h = record h {
  active_state_source = fill (codes "none") h.active_state_source;
  reconciliation_state = fill (codes "clean_idle") h.reconciliation_state;
}

filled_sources_lem :
    (s : Data × Bool)
    → (default_reconciliation_state (default_active_state_source s)).0 ≡ set_home filled_sources s.0
unfolding filled_sources default_active_state_source default_reconciliation_state fill
filled_sources_lem (d, c) = ground arith

filled_effective : HomeAutoSessionState → HomeAutoSessionState
unfolding fill
filled_effective h = record h {
  effective_config_source = fill (codes "local_fallback") h.effective_config_source;
  effective_config_version = fill (codes "local-default") h.effective_config_version;
}

filled_effective_lem :
    (s : Data × Bool)
    → (default_config_version (default_config_source s)).0 ≡ set_home filled_effective s.0
unfolding filled_effective default_config_source default_config_version fill
filled_effective_lem (d, c) = ground arith

filled_applied : HomeAutoSessionState → HomeAutoSessionState
unfolding fill
filled_applied h = record h {
  last_applied_config_ver = fill h.effective_config_version h.last_applied_config_ver;
  last_config_apply_result = fill (codes "local_config_applied") h.last_config_apply_result;
}

filled_applied_lem :
    (s : Data × Bool)
    → (default_apply_result (default_applied_version s)).0 ≡ set_home filled_applied s.0
unfolding filled_applied default_applied_version default_apply_result fill
filled_applied_lem (d, c) = ground arith

filled_desired : HomeAutoSessionState → HomeAutoSessionState
unfolding fill
filled_desired h = record h {
  desired_config_enabled = some (elim h.desired_config_enabled [ none ↦ false | some b ↦ b ]);
  desired_config_mode = fill (codes "off") h.desired_config_mode;
}

filled_desired_lem :
    (s : Data × Bool)
    → (default_desired_mode (default_desired_enabled s)).0 ≡ set_home filled_desired s.0
unfolding filled_desired default_desired_enabled default_desired_mode fill
filled_desired_lem (d, c) = ground arith

pub default_home-filled : (s : Data × Bool) → (default_home s).0 ≡ set_home filled s.0
unfolding default_config default_home fill filled filled_activity filled_sources filled_effective
    filled_applied filled_desired
default_home-filled s =
    let s1 = default_control_state (default_module_state s) in
    let s2 = default_reconciliation_state (default_active_state_source s1) in
    let s3 = default_config_version (default_config_source s2) in
    let s4 = default_apply_result (default_applied_version s3) in
    filled_desired_lem s4
    ∙ ap (set_home filled_desired) (filled_applied_lem s3)
    ∙ ap (λ d. set_home filled_desired (set_home filled_applied d)) (filled_effective_lem s2)
    ∙ ap (λ d. set_home filled_desired (set_home filled_applied (set_home filled_effective d)))
        (filled_sources_lem s1)
    ∙ ap
        (λ d.
          set_home filled_desired
            (set_home filled_applied (set_home filled_effective (set_home filled_sources d))))
        (filled_activity_lem s)

pub record IsHomeDefaulted (h : HomeAutoSessionState) : Type 0 where
  pub module_state : is_blank h.module_state ≡ false
  pub control_state : is_blank h.control_state ≡ false
  pub active_state_source : is_blank h.active_state_source ≡ false
  pub reconciliation_state : is_blank h.reconciliation_state ≡ false
  pub effective_config_source : is_blank h.effective_config_source ≡ false
  pub effective_config_version : is_blank h.effective_config_version ≡ false
  pub last_applied_config_ver : is_blank h.last_applied_config_ver ≡ false
  pub last_config_apply_result : is_blank h.last_config_apply_result ≡ false
  pub desired_config_enabled : is_some h.desired_config_enabled ≡ true
  pub desired_config_mode : is_blank h.desired_config_mode ≡ false

module_state_off :
    (d : Data) (c : Bool)
    → IsHomeDefaulted d.home_auto_session
    → default_module_state (d, c) ≡ (d, c)
unfolding default_module_state
module_state_off d c h = ground (arith, h.module_state)

control_state_off :
    (d : Data) (c : Bool)
    → IsHomeDefaulted d.home_auto_session
    → default_control_state (d, c) ≡ (d, c)
unfolding default_control_state
control_state_off d c h = ground (arith, h.control_state)

active_state_source_off :
    (d : Data) (c : Bool)
    → IsHomeDefaulted d.home_auto_session
    → default_active_state_source (d, c) ≡ (d, c)
unfolding default_active_state_source
active_state_source_off d c h = ground (arith, h.active_state_source)

reconciliation_state_off :
    (d : Data) (c : Bool)
    → IsHomeDefaulted d.home_auto_session
    → default_reconciliation_state (d, c) ≡ (d, c)
unfolding default_reconciliation_state
reconciliation_state_off d c h = ground (arith, h.reconciliation_state)

config_source_off :
    (d : Data) (c : Bool)
    → IsHomeDefaulted d.home_auto_session
    → default_config_source (d, c) ≡ (d, c)
unfolding default_config_source
config_source_off d c h = ground (arith, h.effective_config_source)

config_version_off :
    (d : Data) (c : Bool)
    → IsHomeDefaulted d.home_auto_session
    → default_config_version (d, c) ≡ (d, c)
unfolding default_config_version
config_version_off d c h = ground (arith, h.effective_config_version)

applied_version_off :
    (d : Data) (c : Bool)
    → IsHomeDefaulted d.home_auto_session
    → default_applied_version (d, c) ≡ (d, c)
unfolding default_applied_version
applied_version_off d c h = ground (arith, h.last_applied_config_ver)

apply_result_off :
    (d : Data) (c : Bool)
    → IsHomeDefaulted d.home_auto_session
    → default_apply_result (d, c) ≡ (d, c)
unfolding default_apply_result
apply_result_off d c h = ground (arith, h.last_config_apply_result)

desired_enabled_off :
    (d : Data) (c : Bool)
    → IsHomeDefaulted d.home_auto_session
    → default_desired_enabled (d, c) ≡ (d, c)
unfolding default_desired_enabled
desired_enabled_off d c h = ground (arith, h.desired_config_enabled)

desired_mode_off :
    (d : Data) (c : Bool)
    → IsHomeDefaulted d.home_auto_session
    → default_desired_mode (d, c) ≡ (d, c)
unfolding default_desired_mode
desired_mode_off d c h = ground (arith, h.desired_config_mode)

pub default_home_again :
    (d : Data) (c : Bool) → IsHomeDefaulted d.home_auto_session → default_home (d, c) ≡ (d, c)
unfolding default_config default_home
default_home_again d c h = cc (
  module_state_off d c h,
  control_state_off d c h,
  active_state_source_off d c h,
  reconciliation_state_off d c h,
  config_source_off d c h,
  config_version_off d c h,
  applied_version_off d c h,
  apply_result_off d c h,
  desired_enabled_off d c h,
  desired_mode_off d c h,
)

pub filled-IsHomeDefaulted : (h : HomeAutoSessionState) → IsHomeDefaulted (filled h)
unfolding filled trim
filled-IsHomeDefaulted h = record {
  module_state = fill-is_blank (codes "disabled") h.module_state refl;
  control_state = fill-is_blank (codes "disabled") h.control_state refl;
  active_state_source = fill-is_blank (codes "none") h.active_state_source refl;
  reconciliation_state = fill-is_blank (codes "clean_idle") h.reconciliation_state refl;
  effective_config_source = fill-is_blank (codes "local_fallback") h.effective_config_source refl;
  effective_config_version = fill-is_blank (codes "local-default") h.effective_config_version refl;
  last_applied_config_ver =
      fill-is_blank (fill (codes "local-default") h.effective_config_version)
        h.last_applied_config_ver
        (fill-is_blank (codes "local-default") h.effective_config_version refl);
  last_config_apply_result =
      fill-is_blank (codes "local_config_applied") h.last_config_apply_result refl;
  desired_config_enabled = refl;
  desired_config_mode = fill-is_blank (codes "off") h.desired_config_mode refl;
}
