-- ===== src/Runtime/Repairing.antt =====
-- manager.go and installation_rotation.go: a new pairing code for a bound installation.
use loramapr_receiver.Base.{
  true, some, ◌≡◌, ◌≢◌, refl, sym, subst, ap, ◌∙◌, Text, codes, Result, ok, err, arith,
}
use loramapr_receiver.Outbox.Types.{Time, InstallationRotation, state_rotated}
use loramapr_receiver.Outbox.Platform.{Platform}
use loramapr_receiver.Outbox.Store.{Store, view}
use loramapr_receiver.Outbox.Rotation.{read_rotation}
use loramapr_receiver.Outbox.Operations.Validity.{StoreIsValid}
use loramapr_receiver.State.Types.{Data, code_entered}
use loramapr_receiver.State.Store as StateStore
use loramapr_receiver.State.Updates.{next_data, update-Updated}
use loramapr_receiver.Pairing.Types.{Status, Host, Moment, World, Manager}
use loramapr_receiver.Pairing.Lifecycle.{
  enter_code, show_result, update_then, after_rotation, rotate_with, rotate_if, submit_normalized,
  submit_pairing_code, normalize_pairing_code, show_code_entered,
}
use loramapr_receiver.Pairing.Coherence.{next_data-pairing}
use loramapr_receiver.Runtime.Rotation.{RotationMoment, validate_rotated_state, rotate_installation}
use loramapr_receiver.Runtime.Completed.{IsRotated, Updated-eq-ok}
use loramapr_receiver.Runtime.Rotated.{Rotated, Began, Began-differs, rotate_installation-Rotated}

module _ (p : Platform) (q : StateStore.Platform) where
  show_result-eq-ok :
      (show : Status → Status) (w w' : World (Store p)) (o : StateStore.Store × Result (Unit {0}))
      → show_result show w o ≡ (w', ok tt)
      → (o.1 ≡ ok tt) × (w'.store ≡ o.0) × (w'.own ≡ w.own)
  show_result-eq-ok show w w' (s, ok u) h =
      (refl, ap (λ x. x.0.store) (sym h), ap (λ x. x.0.own) (sym h))
  show_result-eq-ok show w w' (s, err e) h = absurd (ground (arith, h))

  after_rotation-eq-ok :
      (w w' : World (Store p)) (rest : World (Store p) → World (Store p) × Result (Unit {0}))
      (o : (StateStore.Store × Store p) × Result Text)
      → after_rotation w rest o ≡ (w', ok tt)
      → (id : Text) × (v : World (Store p)) × (o ≡ ((v.store, v.own), ok id))
        × (rest v ≡ (w', ok tt))
  after_rotation-eq-ok w w' rest ((s, own), err e) h = absurd (ground (arith, h))
  after_rotation-eq-ok w w' rest ((s, own), ok id) h = (id, _, refl, h)

  entered-IsRotated :
      (now at : Time) (code id : Text) (d : Data)
      → IsRotated id d
      → IsRotated id (next_data q now (enter_code at code) d)
  unfolding StateStore.normalize_generations StateStore.normalize_binding
      StateStore.normalize_credential validate_rotated_state
  entered-IsRotated now at code id d r = record {
    identity = ground (arith, r.identity);
    valid = ground (arith, r.valid);
  }

  -- What a new code for a bound installation has done.
  pub record Repaired (w w' : World (Store p)) : Type 0 where
    pub id : Text
    pub state : IsRotated id w'.store.memory
    pub phase : w'.store.memory.pairing.phase ≡ code_entered
    pub between : StateStore.Store
    pub journal : InstallationRotation
    pub rotated : Rotated p q journal w.store.memory (between, w'.own) id
    pub began : Began p q (w.store, w.own) journal
    pub another : id ≢ w.store.memory.installation.id

  rotated_then_entered :
      (t : RotationMoment) (at : Moment) (code : Text) (w w' : World (Store p))
      → w.store.memory.installation.bound ≡ true
      → StoreIsValid p w.own
      → ((j : InstallationRotation)
          → view p w.own (read_rotation p) ≡ ok (some j)
          → j.phase ≢ state_rotated)
      → ((j : InstallationRotation)
          → view p w.own (read_rotation p) ≡ ok (some j)
          → j.new_installation_id ≢ j.old_installation_id)
      → rotate_with
          (some (rotate_installation p q t))
          (codes "re_pair")
          w
          (update_then q at (enter_code at.now code) show_code_entered)
        ≡ (w', ok tt)
      → Repaired w w'
  rotated_then_entered t at code w w' b valid n d h =
      let fn = enter_code at.now code in
      let rest = update_then q at fn show_code_entered in
      let (id, v, turned, entered) =
        after_rotation-eq-ok w w' rest
          (rotate_installation p q t (codes "re_pair") (w.store, w.own)) h in
      let (j, r, began) =
        rotate_installation-Rotated p q t (codes "re_pair") (w.store, w.own) (v.store, v.own) id
          valid n turned in
      let o = StateStore.update q at.stamped_at at.write fn v.store in
      let (fine, store, own) = show_result-eq-ok show_code_entered v w' o entered in
      let m =
        ap (λ s. s.memory) store
        ∙ Updated-eq-ok p q (next_data q at.stamped_at fn v.store.memory) v.store o
            (update-Updated q at.stamped_at at.write fn v.store) fine in
      record {
        id = id;
        state =
            subst (IsRotated id) (sym m)
              (entered-IsRotated at.stamped_at at.now code id v.store.memory r.rotated);
        phase =
            ap (λ d. d.pairing.phase) m
            ∙ ap (λ s. s.phase) (next_data-pairing q at.stamped_at fn v.store.memory);
        between = v.store;
        journal = j;
        rotated = subst (λ o. Rotated p q j w.store.memory (v.store, o) id) (sym own) r;
        began = began;
        another = λ e.
            Began-differs p q (w.store, w.own) j d began
              (sym r.renamed.new_id ∙ e ∙ r.renamed.old_id b);
      }

  normalized_or_not :
      (t : RotationMoment) (m : Manager (Store p)) (at : Moment) (code : Result Text)
      (w w' : World (Store p))
      → m.rotator ≡ some (rotate_installation p q t)
      → w.store.memory.installation.bound ≡ true
      → StoreIsValid p w.own
      → ((j : InstallationRotation)
          → view p w.own (read_rotation p) ≡ ok (some j)
          → j.phase ≢ state_rotated)
      → ((j : InstallationRotation)
          → view p w.own (read_rotation p) ≡ ok (some j)
          → j.new_installation_id ≢ j.old_installation_id)
      → submit_normalized q m at code w ≡ (w', ok tt)
      → Repaired w w'
  normalized_or_not t m at (err e) w w' r b valid n d h = absurd (ground (arith, h))
  normalized_or_not t m at (ok code) w w' r b valid n d h =
      rotated_then_entered t at code w w' b valid n d (
        subst
          (λ x.
            rotate_with x (codes "re_pair") w
              (update_then q at (enter_code at.now code) show_code_entered)
            ≡ (w', ok tt))
          r
          (subst
            (λ x.
              rotate_if x m.rotator (codes "re_pair") w
                (update_then q at (enter_code at.now code) show_code_entered)
              ≡ (w', ok tt))
            b h))

  -- If the manager takes a pairing code while the installation is bound, with the rotation of the
  -- service as its rotator, a valid outbox, and no journal or one not in the phase after the state was
  -- rotated and with two different identities, then the code is entered under an identity that is not
  -- the one of before, that of a completed rotation, without owner, agent, secret or clock samples; and if that rotation began with this call, or stood in the phase
  -- of the intent, no delivery of the old installation is queued.
  pub submit_pairing_code-Repaired :
      (t : RotationMoment) (host : Host) (m : Manager (Store p)) (at : Moment) (code : Text)
      (w w' : World (Store p))
      → m.rotator ≡ some (rotate_installation p q t)
      → w.store.memory.installation.bound ≡ true
      → StoreIsValid p w.own
      → ((j : InstallationRotation)
          → view p w.own (read_rotation p) ≡ ok (some j)
          → j.phase ≢ state_rotated)
      → ((j : InstallationRotation)
          → view p w.own (read_rotation p) ≡ ok (some j)
          → j.new_installation_id ≢ j.old_installation_id)
      → submit_pairing_code q host m at code w ≡ (w', ok tt)
      → Repaired w w'
  unfolding submit_pairing_code
  submit_pairing_code-Repaired t host m at code w w' r b valid n d h =
      normalized_or_not t m at (normalize_pairing_code host code) w w' r b valid n d h
