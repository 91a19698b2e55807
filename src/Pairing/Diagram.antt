-- ===== src/Pairing/Diagram.antt =====
-- manager.go: the phases through which `Process` goes.
use loramapr_receiver.Base.{◌≡◌, refl, sym, subst, ap, inl, inr, Result}
use loramapr_receiver.State.Types.{
  Data, PairingPhase, unpaired, code_entered, bootstrap_exchanged, activated, steady_state,
}
use loramapr_receiver.State.Store.{Platform, Store}
use loramapr_receiver.State.Updates.{Updated, saved, failed, unsynced, next_data}
use loramapr_receiver.Pairing.Types.{Host, Moment, World, Manager}
use loramapr_receiver.Pairing.Attempts.{apply_exchange, apply_activation, apply_retry, apply_revert}
use loramapr_receiver.Pairing.Process.{process}
use loramapr_receiver.Pairing.Coherence.{next_data-pairing}
use loramapr_receiver.Pairing.Steps.{
  Change, exchanges, activates, retries, reverts, completes, Ends, unchanged, changed, process-Ends,
}

-- The steps of the pairing.
pub data Moves : PairingPhase → PairingPhase → Type 0 where
  stays : (phase : PairingPhase) → Moves phase phase
  redeems : Moves code_entered bootstrap_exchanged
  activates_receiver : Moves bootstrap_exchanged activated
  settles : Moves activated steady_state
  refuses_code : Moves code_entered unpaired
  refuses_activation : Moves bootstrap_exchanged unpaired

move : {a b c d : PairingPhase} → a ≡ c → b ≡ d → Moves c d → Moves a b
move {a} {b} {c} {d} e f m = subst (λ x. Moves x b) (sym e) (subst (λ y. Moves c y) (sym f) m)

Change-Moves :
    (t : Moment) (d : Data) (fn : Data → Data)
    → Change t d fn
    → Moves d.pairing.phase (fn d).pairing.phase
unfolding apply_exchange apply_activation apply_retry apply_revert
Change-Moves t d fn (exchanges h r) = move h refl redeems
Change-Moves t d fn (activates h r) = move h refl activates_receiver
Change-Moves t d fn (retries phase h a message change) = move h refl (stays phase)
Change-Moves t d fn (reverts (inl h) message change) = move h refl refuses_code
Change-Moves t d fn (reverts (inr h) message change) = move h refl refuses_activation
Change-Moves t d fn (completes h) = move h refl settles

module _ (p : Platform) where
  Updated-Moves :
      (t : Moment) (s : Store) (fn : Data → Data) (o : Store × Result (Unit {0}))
      → Change t s.memory fn
      → Updated p (next_data p t.stamped_at fn s.memory) s o
      → Moves s.memory.pairing.phase o.0.memory.pairing.phase
  Updated-Moves t s fn o c saved =
      move refl (ap (λ x. x.phase) (next_data-pairing p t.stamped_at fn s.memory))
        (Change-Moves t s.memory fn c)
  Updated-Moves t s fn o c (failed e) = stays s.memory.pairing.phase
  Updated-Moves t s fn o c (unsynced e) = stays s.memory.pairing.phase

  module _ {R : Type 0} where
    Ends-Moves :
        (t : Moment) (s : Store) (o : World R × Result (Unit {0}))
        → Ends p t s o
        → Moves s.memory.pairing.phase o.0.store.memory.pairing.phase
    Ends-Moves t s o (unchanged e) =
        subst (λ x. Moves s.memory.pairing.phase x.memory.pairing.phase) (sym e)
          (stays s.memory.pairing.phase)
    Ends-Moves t s o (changed fn c r u) = Updated-Moves t s fn (o.0.store, r) c u

    -- A call of `Process` leaves the phase, or goes from an entered code to the exchange, from there to
    -- the activation, from there to the steady state, or from an entered code or the exchange back to
    -- no pairing, whatever the cloud answers and however the write ends.
    pub process-Moves :
        (host : Host) (m : Manager R) (t : Moment) (w : World R)
        → Moves w.store.memory.pairing.phase (process p host m t w).0.store.memory.pairing.phase
    process-Moves host m t w =
        Ends-Moves t w.store (process p host m t w) (process-Ends p host m t w)
