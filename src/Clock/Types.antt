-- ===== src/Clock/Types.antt =====
-- internal/clockattestation/clock.go: the claims of an attestation, a candidate and a sample.
use loramapr_receiver.Base.{Text}
use loramapr_receiver.Outbox.Types.{Time}

pub record Claims : Type 0 where
  pub expires_at : Time
  pub installation_id : Text
  pub issued_at : Time
  pub nonce : Text
  pub receiver_agent_id : Text

pub record Candidate : Type 0 where
  pub token : Text
  pub received_at : Time
  pub claims : Claims

pub record Sample : Type 0 where
  pub token : Text
  pub received_at : Time
  pub issued_at : Time
  pub expires_at : Time
  pub nonce : Text
  pub receiver_agent_id : Text
  pub installation_id : Text
