-- ===== src/Outbox/Engine/Draining.antt =====
-- engine.go: after `Close` the writer can always come to its end, with every accepted delivery reported.
use loramapr_receiver.Base.{true, List, ◌≡◌, Text}
use loramapr_receiver.Outbox.Platform.{Platform}
use loramapr_receiver.Outbox.Store.{Store}
use loramapr_receiver.Outbox.Engine.{EngineConfig, StagedDelivery, selecting, returned, Engine}
use loramapr_receiver.Outbox.Engine.Runs.{Reaches}

module _ (p : Platform) where
  module _ (s : Store p) (cfg : EngineConfig) (accepted : List Text) where
    -- A run with the same accepted deliveries to a writer in its select, with this closed stage.
    record Selects (stage : List StagedDelivery) : Type 0 where
      pub reported : List Text
      pub engine : Engine p
      pub run : Reaches p s cfg accepted reported engine
      pub selects : engine.writer ≡ selecting
      pub staged : engine.stage ≡ stage
      pub closed : engine.closed ≡ true

    -- A run with the same accepted deliveries to a writer that has returned.
    record Returns : Type 0 where
      pub reported : List Text
      pub engine : Engine p
      pub run : Reaches p s cfg accepted reported engine
      pub done : engine.writer ≡ returned
