-- ===== src/Clock/Tests.antt =====
-- The clock attestations at concrete inputs.
use loramapr_receiver.Base.{[], ◌∷◌, ◌≡◌, refl, some, codes, compare_text, arith}
use loramapr_receiver.Clock.Types.{Sample}
use loramapr_receiver.Clock.Samples.{add, attestation, envelope}
use loramapr_receiver.Clock.Envelopes.{Attested, envelope-Attested}

-- The first sample was received a second after its issue, the second two seconds.
abbrev earlier : Sample
earlier = record {
  token = codes "v1.a";
  received_at = 11000000000;
  issued_at = 10000000000;
  expires_at = 910000000000;
  nonce = codes "one";
  receiver_agent_id = codes "agent";
  installation_id = codes "here";
}

abbrev later : Sample
later = record {
  token = codes "v1.b";
  received_at = 22000000000;
  issued_at = 20000000000;
  expires_at = 920000000000;
  nonce = codes "two";
  receiver_agent_id = codes "agent";
  installation_id = codes "here";
}

attests :
    envelope (add (earlier ∷ []) later) 30000000000 (codes "agent") (codes "here")
    ≡ some (attestation earlier later)
unfolding add envelope compare_text
attests = refl

envelope-Attested_example :
    Attested 30000000000
      (codes "agent")
      (codes "here")
      later
      (add (earlier ∷ []) later)
      (attestation earlier later)
envelope-Attested_example =
    envelope-Attested (earlier ∷ []) later 30000000000 (codes "agent") (codes "here")
      (attestation earlier later) (omega arith, tt) (omega arith) attests
