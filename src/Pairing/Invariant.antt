-- ===== src/Pairing/Invariant.antt =====
-- manager.go: the coherence of the state is kept by every call of the manager.
use loramapr_receiver.Base.{
  ℕ, ◌+◌, Bool, true, false, ◌&&◌, Option, none, some, ◌≡◌, refl, [], Text, Result, ok, err, arith,
  inl, inr, Bool-cases, subst, sym, codes, lifecycle_change_invalid,
}
use loramapr_receiver.Outbox.Types.{Time}
use loramapr_receiver.State.Types.{Data, activated}
use loramapr_receiver.State.Store.{Platform, Store, update}
use loramapr_receiver.Pairing.Types.{
  Status, BootstrapExchange, ActivationResult, Host, Moment, World, Manager,
}
use loramapr_receiver.Pairing.Lifecycle.{
  LifecycleChange, enter_code, apply_change, show_result, update_then, after_rotation, Rotate,
  rotate_with, rotate_if, submit_normalized, submit_pairing_code, apply_lifecycle_change,
  reset_pairing, normalize_pairing_code, show_code_entered, change_reason, ends_installation,
  change_text, show_change, is_lifecycle_change_valid, local_reset, local_deauthorized,
}
use loramapr_receiver.Pairing.Attempts.{apply_exchange, apply_activation, apply_retry, apply_revert}
use loramapr_receiver.Pairing.Process.{apply_steady}
use loramapr_receiver.Pairing.Steps.{
  Change, exchanges, activates, retries, reverts, completes, Ends, unchanged, changed,
}
use loramapr_receiver.State.Updates.{next_data}
use loramapr_receiver.Pairing.Coherence.{
  next_data-IsCoherent, Updated-StoreIsCoherent, IsAttempting, IsCoherent, StoreIsCoherent,
  update-StoreIsCoherent,
}

enter_code-IsCoherent : (now : Time) (code : Text) (d : Data) → IsCoherent (enter_code now code d)
enter_code-IsCoherent now code d = ground arith

apply_change-IsCoherent :
    (now : Time) (change : LifecycleChange) (reason : Text) (b : Bool) (d : Data)
    → IsCoherent (apply_change now change reason b d)
apply_change-IsCoherent now change reason true d = ground arith
apply_change-IsCoherent now change reason false d = ground arith

apply_exchange-IsCoherent :
    (now : Time) (r : BootstrapExchange) (d : Data) → IsCoherent (apply_exchange now r d)
unfolding apply_exchange
apply_exchange-IsCoherent now r d = ground arith

apply_activation-IsCoherent :
    (now : Time) (r : ActivationResult) (d : Data) → IsCoherent (apply_activation now r d)
unfolding apply_activation
apply_activation-IsCoherent now r d = ground arith

apply_retry-IsCoherent :
    (now : Time) (count : ℕ) (message change : Text) (d : Data)
    → IsAttempting d.pairing.phase
    → IsCoherent d
    → IsCoherent (apply_retry now d.pairing.phase count message change d)
unfolding apply_retry
apply_retry-IsCoherent now count message change d a c = record {
  no_token = c.no_token;
  no_code = c.no_code;
  no_retry = λ n. absurd (n a);
  bound = c.bound;
}

apply_revert-IsCoherent :
    (now : Time) (message change : Text) (d : Data) → IsCoherent (apply_revert now message change d)
unfolding apply_revert
apply_revert-IsCoherent now message change d = ground arith

apply_steady-IsCoherent :
    (now : Time) (d : Data)
    → d.pairing.phase ≡ activated
    → IsCoherent d
    → IsCoherent (apply_steady now d)
apply_steady-IsCoherent now d e c = ground (arith, e, c.no_token, c.no_code, c.no_retry, c.bound)

Change-IsCoherent :
    (t : Moment) (d : Data) (fn : Data → Data) → Change t d fn → IsCoherent d → IsCoherent (fn d)
Change-IsCoherent t d fn (exchanges h r) c = apply_exchange-IsCoherent t.now r d
Change-IsCoherent t d fn (activates h r) c = apply_activation-IsCoherent t.now r d
Change-IsCoherent t d fn (retries phase h a message change) c =
    subst (λ x. IsCoherent (apply_retry t.failed_at x (d.pairing.retry_count + 1) message change d))
      h
      (apply_retry-IsCoherent t.failed_at (d.pairing.retry_count + 1) message change d
        (subst IsAttempting (sym h) a) c)
Change-IsCoherent t d fn (reverts a message change) c =
    apply_revert-IsCoherent t.failed_at message change d
Change-IsCoherent t d fn (completes h) c = apply_steady-IsCoherent t.now d h c

-- The rotator keeps the state coherent.
abbrev pub KeepsCoherence : {R : Type 0} → Option (Rotate R) → Type 0
KeepsCoherence none = Unit
KeepsCoherence {R} (some rotate) =
    (reason : Text) (s : Store) (own : R)
    → StoreIsCoherent s
    → StoreIsCoherent (rotate reason (s, own)).0.0

-- A call leaves the state coherent, whatever it returns.
pub record EndsCoherent {R : Type 0} (o : World R × Result (Unit {0})) : Type 0 where
  pub store : StoreIsCoherent o.0.store

module _ (p : Platform) {R : Type 0} where
  show_result-store :
      (show : Status → Status) (w : World R) (o : Store × Result (Unit {0}))
      → (show_result show w o).0.store ≡ o.0
  show_result-store show w (s, ok u) = refl
  show_result-store show w (s, err e) = refl

  update_then-IsCoherent :
      (t : Moment) (fn : Data → Data) (show : Status → Status) (w : World R)
      → IsCoherent (fn w.store.memory)
      → StoreIsCoherent w.store
      → EndsCoherent (update_then p t fn show w)
  update_then-IsCoherent t fn show w n c = record {
    store =
        subst StoreIsCoherent
          (sym (show_result-store show w (update p t.stamped_at t.write fn w.store)))
          (update-StoreIsCoherent p t.stamped_at t.write fn w.store n c);
  }

  after_rotation-IsCoherent :
      (w : World R) (rest : World R → World R × Result (Unit {0})) (o : (Store × R) × Result Text)
      → StoreIsCoherent o.0.0
      → ((w' : World R) → StoreIsCoherent w'.store → EndsCoherent (rest w'))
      → EndsCoherent (after_rotation w rest o)
  after_rotation-IsCoherent w rest ((s, own), err e) c k = record { store = c }
  after_rotation-IsCoherent w rest ((s, own), ok id) c k = k _ c

  rotate_with-IsCoherent :
      (rotator : Option (Rotate R)) (reason : Text) (w : World R)
      (rest : World R → World R × Result (Unit {0}))
      → KeepsCoherence rotator
      → StoreIsCoherent w.store
      → ((w' : World R) → StoreIsCoherent w'.store → EndsCoherent (rest w'))
      → EndsCoherent (rotate_with rotator reason w rest)
  rotate_with-IsCoherent none reason w rest keeps c k = record { store = c }
  rotate_with-IsCoherent (some rotate) reason w rest keeps c k =
      after_rotation-IsCoherent w rest (rotate reason (w.store, w.own))
        (keeps reason w.store w.own c) k

  rotate_if-IsCoherent :
      (b : Bool) (rotator : Option (Rotate R)) (reason : Text) (w : World R)
      (rest : World R → World R × Result (Unit {0}))
      → KeepsCoherence rotator
      → StoreIsCoherent w.store
      → ((w' : World R) → StoreIsCoherent w'.store → EndsCoherent (rest w'))
      → EndsCoherent (rotate_if b rotator reason w rest)
  rotate_if-IsCoherent false rotator reason w rest keeps c k = k w c
  rotate_if-IsCoherent true rotator reason w rest keeps c k =
      rotate_with-IsCoherent rotator reason w rest keeps c k

  submit_normalized-IsCoherent :
      (m : Manager R) (t : Moment) (code : Result Text) (w : World R)
      → KeepsCoherence m.rotator
      → StoreIsCoherent w.store
      → EndsCoherent (submit_normalized p m t code w)
  submit_normalized-IsCoherent m t (err e) w keeps c = record { store = c }
  submit_normalized-IsCoherent m t (ok code) w keeps c =
      rotate_if-IsCoherent w.store.memory.installation.bound m.rotator (codes "re_pair") w
        (update_then p t (enter_code t.now code) show_code_entered) keeps c
        (λ w'.
          update_then-IsCoherent t (enter_code t.now code) show_code_entered w'
            (enter_code-IsCoherent t.now code w'.store.memory))

  pub submit_pairing_code-IsCoherent :
      (host : Host) (m : Manager R) (t : Moment) (code : Text) (w : World R)
      → KeepsCoherence m.rotator
      → StoreIsCoherent w.store
      → EndsCoherent (submit_pairing_code p host m t code w)
  unfolding submit_pairing_code
  submit_pairing_code-IsCoherent host m t code w keeps c =
      submit_normalized-IsCoherent m t (normalize_pairing_code host code) w keeps c

  pub apply_lifecycle_change-IsCoherent :
      (m : Manager R) (t : Moment) (change : LifecycleChange) (detail : Text) (b : Bool)
      (w : World R)
      → KeepsCoherence m.rotator
      → StoreIsCoherent w.store
      → EndsCoherent (apply_lifecycle_change p m t change detail b w)
  unfolding apply_lifecycle_change
  apply_lifecycle_change-IsCoherent m t change detail b w keeps c =
      let fn = apply_change t.now change (change_reason change detail) b in
      let done =
        rotate_if-IsCoherent (w.store.memory.installation.bound && ends_installation change)
          m.rotator (change_text change) w (update_then p t fn (show_change change)) keeps c
          (λ w'. update_then-IsCoherent t fn (show_change change) w' (
            apply_change-IsCoherent t.now change (change_reason change detail) b
              w'.store.memory)) in
      let invalid : EndsCoherent (w, err lifecycle_change_invalid) = record { store = c } in
      elim (Bool-cases (is_lifecycle_change_valid change)) [
        | inl e ↦ ground (arith, e, done)
        | inr e ↦ ground (arith, e, invalid)
      ]

  pub Ends-IsCoherent :
      (t : Moment) (s : Store) (o : World R × Result (Unit {0}))
      → Ends p t s o
      → StoreIsCoherent s
      → EndsCoherent o
  Ends-IsCoherent t s o (unchanged e) c = record { store = subst StoreIsCoherent (sym e) c }
  Ends-IsCoherent t s o (changed fn step r u) c = record {
    store =
        Updated-StoreIsCoherent p (next_data p t.stamped_at fn s.memory) s (o.0.store, r) u
          (next_data-IsCoherent p t.stamped_at fn s.memory
            (Change-IsCoherent t s.memory fn step c.memory))
          c;
  }

  pub reset_pairing-IsCoherent :
      (m : Manager R) (t : Moment) (deauthorize : Bool) (w : World R)
      → KeepsCoherence m.rotator
      → StoreIsCoherent w.store
      → EndsCoherent (reset_pairing p m t deauthorize w)
  unfolding reset_pairing
  reset_pairing-IsCoherent m t true w k c =
      apply_lifecycle_change-IsCoherent m t local_deauthorized
        (codes "local receiver deauthorization requested") true w k c
  reset_pairing-IsCoherent m t false w k c =
      apply_lifecycle_change-IsCoherent m t local_reset [] false w k c
