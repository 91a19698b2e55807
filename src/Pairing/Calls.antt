-- ===== src/Pairing/Calls.antt =====
-- manager.go: sequences of calls of the manager.
use loramapr_receiver.Base.{Bool, Option, List, [], ◌∷◌, Text, Result}
use loramapr_receiver.State.Store.{Platform}
use loramapr_receiver.Pairing.Types.{PairingClient, Host, Moment, World, Manager}
use loramapr_receiver.Pairing.Lifecycle.{
  LifecycleChange, submit_pairing_code, apply_lifecycle_change, reset_pairing,
}
use loramapr_receiver.Pairing.Process.{process}
use loramapr_receiver.Pairing.Coherence.{StoreIsCoherent}
use loramapr_receiver.Pairing.Steps.{process-Ends}
use loramapr_receiver.Pairing.Invariant.{
  KeepsCoherence, EndsCoherent, submit_pairing_code-IsCoherent, apply_lifecycle_change-IsCoherent,
  reset_pairing-IsCoherent, Ends-IsCoherent,
}

-- A call, at its moment; the cloud that `Process` meets may be another each time.
pub data Call : Type 0 where
  submits : Text → Call
  changes_lifecycle : LifecycleChange → Text → Bool → Call
  resets : Bool → Call
  processes : Option PairingClient → Call

module _ (p : Platform) (host : Host) {R : Type 0} (m : Manager R) where
  abbrev pub perform : Moment → Call → World R → World R × Result (Unit {0})
  perform t (submits code) w = submit_pairing_code p host m t code w
  perform t (changes_lifecycle change detail clear) w =
      apply_lifecycle_change p m t change detail clear w
  perform t (resets deauthorize) w = reset_pairing p m t deauthorize w
  perform t (processes client) w = process p host (record m { client = client }) t w

  abbrev pub perform_all : List (Moment × Call) → World R → World R
  perform_all [] w = w
  perform_all ((t, call) ∷ calls) w = perform_all calls (perform t call w).0

  perform-IsCoherent :
      (t : Moment) (call : Call) (w : World R)
      → KeepsCoherence m.rotator
      → StoreIsCoherent w.store
      → EndsCoherent (perform t call w)
  perform-IsCoherent t (submits code) w k c = submit_pairing_code-IsCoherent p host m t code w k c
  perform-IsCoherent t (changes_lifecycle change detail clear) w k c =
      apply_lifecycle_change-IsCoherent p m t change detail clear w k c
  perform-IsCoherent t (resets deauthorize) w k c = reset_pairing-IsCoherent p m t deauthorize w k c
  perform-IsCoherent t (processes client) w k c =
      Ends-IsCoherent p t w.store _ (process-Ends p host (record m { client = client }) t w) c

  -- If the rotator keeps the state coherent, so does every sequence of calls of the manager, whatever
  -- the cloud answers and however the writes end: in memory and in the file, a token is kept only
  -- between the exchange and the activation, a code and a planned retry only while the receiver waits
  -- for the cloud, and a paired installation is bound.
  pub perform_all-IsCoherent :
      (calls : List (Moment × Call)) (w : World R)
      → KeepsCoherence m.rotator
      → StoreIsCoherent w.store
      → StoreIsCoherent (perform_all calls w).store
  perform_all-IsCoherent [] w k c = c
  perform_all-IsCoherent ((t, call) ∷ calls) w k c =
      perform_all-IsCoherent calls (perform t call w).0 k (perform-IsCoherent t call w k c).store
