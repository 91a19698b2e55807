-- ===== src/State/Opening.antt =====
-- state.go: what `Open` makes of a stored state.
use loramapr_receiver.Base.{
  ℕ, suc, ◌≤◌, ◌<◌, Bool, true, false, ◌||◌, ◌≡◌, ◌≢◌, refl, ◌∙◌, sym, subst, [], Text, Result, ok,
  err, ◌>>=◌, >>=-eq-ok, arith, if◌then◌else◌,
}
use loramapr_receiver.Outbox.Types.{Time}
use loramapr_receiver.State.Types.{Data}
use loramapr_receiver.State.Store.{
  Platform, Store, WriteOutcome, written, not_renamed, not_synced, save, save_copy, stamped, commit,
}
use loramapr_receiver.State.Migrate.{
  current_schema_version, upgrade, keep_last_samples, upgrade_to_9, finish_migration, first_version,
  migrate, ensure_defaults, saved_store, open_decoded,
}
use loramapr_receiver.State.Defaults.{
  IsDefaulted, ensure_defaults-Defaulted, ensure_defaults_again, stamped-IsDefaulted,
}

module _ (p : Platform) where
  finish_migration-current :
      (s : ℕ × Data × Bool) (d' : Data) (b : Bool)
      → current_schema_version ≤ s.0
      → finish_migration s ≡ ok (d', b)
      → d'.schema_version ≡ current_schema_version
  finish_migration-current (v, d, c) d' b h e = ground (arith, h, e)

  upgrade_last : (f : Data → Data) (s : ℕ × Data × Bool) → 10 ≤ (upgrade 9 f s).0
  upgrade_last f (v, d, c) = ground arith

  migrate-current :
      (d d' : Data) (b : Bool)
      → migrate p d ≡ ok (d', b)
      → d'.schema_version ≡ current_schema_version
  unfolding migrate
  migrate-current d d' b h =
      finish_migration-current (upgrade 9 keep_last_samples (upgrade_to_9 p (first_version p d))) d'
        b (upgrade_last keep_last_samples (upgrade_to_9 p (first_version p d))) h

  upgrade_over :
      (n : ℕ) (f : Data → Data) (d : Data) (c : Bool)
      → suc n ≤ 10
      → upgrade n f (10, d, c) ≡ (10, d, c)
  upgrade_over n f d c h = ground (arith, h)

  migrate_again :
      (d : Data) → d.schema_version ≡ current_schema_version → migrate p d ≡ ok (d, false)
  unfolding migrate upgrade_to_9
  migrate_again d h = ground (arith, h)

  -- A state that `Open` leaves as it is.
  pub record IsCurrent (d : Data) : Type 0 where
    pub schema_version : d.schema_version ≡ current_schema_version
    pub defaulted : IsDefaulted p d

  opened_again :
      (now : Time) (new_id : Result Text) (w : WriteOutcome) (d : Data)
      → IsCurrent d
      → open_decoded p now new_id w false d ≡ ok (record { memory = d; file = d })
  unfolding open_decoded
  opened_again now new_id w d c =
      rw (migrate_again d c.schema_version, ensure_defaults_again p now new_id d c.defaulted)

  commit-IsCurrent :
      (w : WriteOutcome) (d : Data) (s s' : Store)
      → IsCurrent d
      → saved_store p (commit w d s) ≡ ok s'
      → IsCurrent s'.memory
  commit-IsCurrent written d s s' c h = subst (λ x. IsCurrent x) (ground (arith, h)) c
  commit-IsCurrent (not_renamed e) d s s' c h = cc
  commit-IsCurrent (not_synced e) d s s' c h = cc

  save_copy-IsCurrent :
      (now : Time) (w : WriteOutcome) (s s' : Store) (copy : Result Data)
      → ((d : Data) → copy ≡ ok d → d ≡ s.memory)
      → IsCurrent s.memory
      → saved_store p (save_copy p now w s copy) ≡ ok s'
      → IsCurrent s'.memory
  save_copy-IsCurrent now w s s' (err e) same c h = cc
  save_copy-IsCurrent now w s s' (ok d) same c h =
      let c' : IsCurrent d = subst (λ x. IsCurrent x) (sym (same d refl)) c in
      commit-IsCurrent w (stamped now d) s s'
        (record {
          schema_version = c'.schema_version;
          defaulted = stamped-IsDefaulted p now d c'.defaulted;
        })
        h

  save-IsCurrent :
      (now : Time) (w : WriteOutcome) (s s' : Store)
      → IsCurrent s.memory
      → saved_store p (save p now w s) ≡ ok s'
      → IsCurrent s'.memory
  unfolding save
  save-IsCurrent now w s s' c h =
      save_copy-IsCurrent now w s s' (p.clone s.memory) (λ d. p.clone-eq s.memory d) c h

  finish_open : Time → WriteOutcome → Bool → Store → Result Store
  finish_open now w saves s = if saves then saved_store p (save p now w s) else ok s

  finish_open-IsCurrent :
      (now : Time) (w : WriteOutcome) (saves : Bool) (s s' : Store)
      → IsCurrent s.memory
      → finish_open now w saves s ≡ ok s'
      → IsCurrent s'.memory
  unfolding finish_open
  finish_open-IsCurrent now w true s s' c h = save-IsCurrent now w s s' c h
  finish_open-IsCurrent now w false s s' c h = subst (λ x. IsCurrent x) (ground (arith, h)) c

  -- A state that `Open` has read, with a clock past year 1 and new identifiers that are not empty, has the current
  -- schema and every default, and opened again, at any time, it is unchanged and not written.
  pub open_decoded_again :
      (now : Time) (new_id : Result Text) (w : WriteOutcome) (recovered : Bool) (d : Data)
      (s : Store)
      → 0 < now
      → ((id : Text) → new_id ≡ ok id → id ≢ [])
      → open_decoded p now new_id w recovered d ≡ ok s
      → IsCurrent s.memory
        × ((now' : Time) (new_id' : Result Text) (w' : WriteOutcome)
            → open_decoded p now' new_id' w' false s.memory
              ≡ ok (record { memory = s.memory; file = s.memory }))
  unfolding open_decoded finish_open
  open_decoded_again now new_id w recovered d s n i h =
      let (m, e, rest) =
        >>=-eq-ok (migrate p d)
          (λ m. ensure_defaults p now new_id m.0 >>= λ x.
            finish_open now w (x.1 || m.1 || recovered) (record { memory = x.0; file = d }))
          h in
      let (x, f, last) =
        >>=-eq-ok (ensure_defaults p now new_id m.0)
          (λ x. finish_open now w (x.1 || m.1 || recovered) (record { memory = x.0; file = d }))
          rest in
      let v = migrate-current d m.0 m.1 e in
      let t = ensure_defaults-Defaulted p now new_id m.0 x.0 x.1 n i f in
      let c =
        finish_open-IsCurrent now w (x.1 || m.1 || recovered) _ s
          (record { schema_version = t.version (ground (arith, v)) ∙ v; defaulted = t.defaulted })
          last in
      (c, λ now' new_id' w'. opened_again now' new_id' w' s.memory c)
