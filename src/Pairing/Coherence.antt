-- ===== src/Pairing/Coherence.antt =====
-- manager.go: what the phase of the pairing says about the rest of the state.
use loramapr_receiver.Base.{Bool, true, none, ◌≡◌, ◌≢◌, [], Result, arith, ◌⊎◌, subst, sym, ap}
use loramapr_receiver.Outbox.Types.{Time}
use loramapr_receiver.State.Types.{
  Data, PairingState, PairingPhase, code_entered, bootstrap_exchanged, activated, steady_state,
}
use loramapr_receiver.State.Store.{
  Platform, Store, WriteOutcome, normalize_generations, normalize_credential, normalize_binding,
  update,
}
use loramapr_receiver.State.Updates.{Updated, saved, failed, unsynced, next_data, update-Updated}

-- The phases in which the receiver waits for the cloud.
abbrev pub IsAttempting : PairingPhase → Type 0
IsAttempting phase = (phase ≡ code_entered) ⊎ (phase ≡ bootstrap_exchanged)

abbrev pub IsPaired : PairingPhase → Type 0
IsPaired phase = (phase ≡ activated) ⊎ (phase ≡ steady_state)

-- A token is kept only between the exchange and the activation; a code and a planned retry only while
-- the receiver waits for the cloud; and a paired installation is bound.
pub record Coherent (s : PairingState) (is_bound : Bool) : Type 0 where
  pub no_token :
      s.phase ≢ bootstrap_exchanged → (s.activation_token ≡ []) × (s.activation_expires ≡ none)
  pub no_code : ¬ IsAttempting s.phase → s.pairing_code ≡ []
  pub no_retry : ¬ IsAttempting s.phase → (s.retry_count ≡ 0) × (s.next_retry_at ≡ none)
  pub bound : IsPaired s.phase → is_bound ≡ true

abbrev pub IsCoherent : Data → Type 0
IsCoherent d = Coherent d.pairing d.installation.bound

-- In memory and in the file.
pub record StoreIsCoherent (s : Store) : Type 0 where
  pub memory : IsCoherent s.memory
  pub file : IsCoherent s.file

module _ (p : Platform) where
  -- `Update` leaves what is not of the cloud as the function has made it.
  pub next_data-pairing :
      (now : Time) (fn : Data → Data) (d : Data) → (next_data p now fn d).pairing ≡ (fn d).pairing
  unfolding normalize_generations normalize_binding normalize_credential
  next_data-pairing now fn d = ground arith

  pub next_data-installation :
      (now : Time) (fn : Data → Data) (d : Data)
      → (next_data p now fn d).installation ≡ (fn d).installation
  unfolding normalize_generations normalize_binding normalize_credential
  next_data-installation now fn d = ground arith

  pub next_data-IsCoherent :
      (now : Time) (fn : Data → Data) (d : Data)
      → IsCoherent (fn d)
      → IsCoherent (next_data p now fn d)
  next_data-IsCoherent now fn d c =
      subst (λ b. Coherent (next_data p now fn d).pairing b)
        (ap (λ i. i.bound) (sym (next_data-installation now fn d)))
        (subst (λ s. Coherent s (fn d).installation.bound) (sym (next_data-pairing now fn d)) c)

  pub Updated-StoreIsCoherent :
      (next : Data) (s : Store) (r : Store × Result (Unit {0}))
      → Updated p next s r
      → IsCoherent next
      → StoreIsCoherent s
      → StoreIsCoherent r.0
  Updated-StoreIsCoherent next s r saved n c = record { memory = n; file = n }
  Updated-StoreIsCoherent next s r (failed e) n c = c
  Updated-StoreIsCoherent next s r (unsynced e) n c = record { memory = c.memory; file = n }

  pub update-StoreIsCoherent :
      (now : Time) (w : WriteOutcome) (fn : Data → Data) (s : Store)
      → IsCoherent (fn s.memory)
      → StoreIsCoherent s
      → StoreIsCoherent (update p now w fn s).0
  update-StoreIsCoherent now w fn s n c =
      Updated-StoreIsCoherent (next_data p now fn s.memory) s (update p now w fn s)
        (update-Updated p now w fn s) (next_data-IsCoherent now fn s.memory n) c
