-- ===== src/Outbox/Collisions.antt =====
-- A pause for a collision, and a delivery that leaves the queue meanwhile.
use loramapr_receiver.Base.{
  ℕ, false, none, some, ◌≡◌, ◌∙◌, Text, ok, err, delivery_not_found, arith, >>=-eq-ok, ◌>>=◌, trim,
  text_eq_of_eq, length,
}
use loramapr_receiver.Outbox.Types.{
  Delivery, DispatchPause, DispatchPauseKind, Config, Time, AttemptFailure, Binding,
}
use loramapr_receiver.Outbox.Platform.{Platform}
use loramapr_receiver.Outbox.Db.{Db}
use loramapr_receiver.Outbox.Quarantine.{Scan, quarantine_by_receiver, of_receiver, move_matching}
use loramapr_receiver.Outbox.Pause.{clear_resolved_pause, resolve_delivery_collision, resolves}
use loramapr_receiver.Outbox.Matching.{move_matching-eq-ok, Matching-SameRest}
use loramapr_receiver.Outbox.Index.{Holding}
use loramapr_receiver.Outbox.Validity.{IsValid}
use loramapr_receiver.Outbox.Separation.{quarantine_by_receiver-Isolated}

module _ (p : Platform) where
  open p use {Raw, get, unmarshal_pause}

  -- The database has a pause for a collision of the delivery `id`.
  pub record IsCollided (db : Db p) (id : Text) : Type 0 where
    pub raw : Raw
    pub pause : DispatchPause
    pub stored : db.dispatch_pause ≡ some raw
    pub decoded : unmarshal_pause raw ≡ ok pause
    pub kind : pause.kind ≡ DispatchPauseKind.collision
    pub names : pause.delivery_id ≡ id

  pause_kept :
      (cfg : Config) (now : Time) (agent reason : Text) (f : AttemptFailure) (db : Db p)
      (r : Db p × ℕ)
      → quarantine_by_receiver p cfg now agent reason f db ≡ ok r
      → r.0.dispatch_pause ≡ db.dispatch_pause
  unfolding quarantine_by_receiver
  pause_kept cfg now agent reason f db r h =
      let counted : (move_matching p cfg (of_receiver now (trim agent) reason f) db
            >>= λ (o : Db p × Scan p). ok (o.0, length o.1.matches))
          ≡ ok r =
        ground arith in
      let (o, moved, rest) =
        >>=-eq-ok (move_matching p cfg (of_receiver now (trim agent) reason f) db)
          (λ (o : Db p × Scan p). ok (o.0, length o.1.matches)) counted in
      let same =
        Matching-SameRest p
          (move_matching-eq-ok p cfg (of_receiver now (trim agent) reason f) db o.0 o.1 moved) in
      ground (arith, same.dispatch_pause, rest)

  unresolvable :
      (cfg : Config) (now : Time) (id : Text) (db : Db p)
      → IsCollided db id
      → get db.deliveries id ≡ none
      → resolve_delivery_collision p cfg now id db ≡ err delivery_not_found
  unfolding resolve_delivery_collision
  unresolvable cfg now id db c gone =
      ground (arith, c.stored, c.decoded, c.kind, text_eq_of_eq c.names)

  uncleared :
      (b : Binding) (db : Db p) (id : Text)
      → IsCollided db id
      → clear_resolved_pause p b db ≡ ok (db, false)
  unfolding clear_resolved_pause resolves
  uncleared b db id c = ground (arith, c.stored, c.decoded, c.kind)

  -- If `QuarantineByReceiver` succeeds on a valid database while the dispatch is paused for a collision
  -- of one of that agent's queued deliveries, the pause stays, no binding clears it, and
  -- `ResolveDeliveryCollision` of that delivery fails, as it does not find it.
  pub quarantine_by_receiver-IsCollided :
      (cfg : Config) (now : Time) (agent reason : Text) (f : AttemptFailure) (db : Db p)
      (r : Db p × ℕ) (id : Text) (d : Delivery)
      → IsValid p db
      → IsCollided db id
      → Holding p db.deliveries id d
      → d.receiver_agent_id_snapshot ≡ trim agent
      → quarantine_by_receiver p cfg now agent reason f db ≡ ok r
      → IsCollided r.0 id
        × ((b : Binding) → clear_resolved_pause p b r.0 ≡ ok (r.0, false))
        × ((at : Time) → resolve_delivery_collision p cfg at id r.0 ≡ err delivery_not_found)
  quarantine_by_receiver-IsCollided cfg now agent reason f db r id d v c held own h =
      let moved =
        (quarantine_by_receiver-Isolated p cfg now agent reason f db r v h).moved id d held own in
      let c' : IsCollided r.0 id = record {
        raw = c.raw;
        pause = c.pause;
        stored = pause_kept cfg now agent reason f db r h ∙ c.stored;
        decoded = c.decoded;
        kind = c.kind;
        names = c.names;
      } in
      (c', λ b. uncleared b r.0 id c', λ at. unresolvable cfg at id r.0 c' moved.0)
