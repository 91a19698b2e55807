-- ===== src/Dispatch/Standing.antt =====
-- A pause that the binding does not resolve: what leaves one, and what it does to a dispatch.
use loramapr_receiver.Base.{ℕ, Bool, false, none, some, ◌≡◌, ◌≢◌, refl, Text, ok, arith}
use loramapr_receiver.Outbox.Types.{
  Delivery, DispatchPause, DispatchPauseKind, Binding, AttemptFailure, Time,
}
use loramapr_receiver.Outbox.Platform.{Platform}
use loramapr_receiver.Outbox.Db.{Db}
use loramapr_receiver.Outbox.Store.{Store, update, view}
use loramapr_receiver.Outbox.Transactions.{update-Done}
use loramapr_receiver.Outbox.Pause.{
  clear_resolved_pause, read_pause, pause_delivery, resolves, stamp_pause,
}
use loramapr_receiver.Outbox.Operations.{plain}
use loramapr_receiver.Outbox.Accounts.{write_counters-eq-ok}
use loramapr_receiver.Outbox.Effects.{pause_delivery-eq-ok}
use loramapr_receiver.Dispatch.Classify.{Disposition}
use loramapr_receiver.Dispatch.Once.{
  Client, stopped, dispatch_once, after_clear, after_pause, pause_for,
}

module _ (p : Platform) (b : Binding) where
  open p use {Raw, unmarshal_pause}

  -- The store has a pause that the binding does not resolve.
  pub record Standing (s : Store p) (pause : DispatchPause) : Type 0 where
    pub db : Db p
    pub raw : Raw
    pub opened : s.db ≡ some db
    pub stored : db.dispatch_pause ≡ some raw
    pub decoded : unmarshal_pause raw ≡ ok pause
    pub unresolved : resolves b pause ≡ ok false

  clear-Standing :
      (s : Store p) (pause : DispatchPause)
      → Standing s pause
      → update p s (clear_resolved_pause p b) ≡ (s, ok false)
  unfolding update clear_resolved_pause
  clear-Standing s pause h = ground (arith, h.opened, h.stored, h.decoded, h.unresolved)

  read-Standing :
      (s : Store p) (pause : DispatchPause)
      → Standing s pause
      → view p s (read_pause p) ≡ ok (some pause)
  unfolding view read_pause
  read-Standing s pause h = ground (arith, h.opened, h.stored, h.decoded)

  -- While a pause stands, `DispatchOnce` leaves the store and attempts nothing.
  pub dispatch_once-Standing :
      {C S : Type 0} (to_lower to_upper : ℕ → ℕ) (post : Client C S) (api_key : Text)
      (now clock : Time) (s : Store p) (pause : DispatchPause)
      → Standing s pause
      → dispatch_once p to_lower to_upper post api_key b now clock s ≡ (s, stopped pause, none)
  unfolding dispatch_once after_clear after_pause
  dispatch_once-Standing to_lower to_upper post api_key now clock s pause h =
      rw (clear-Standing s pause h) (rw (read-Standing s pause h) refl)

  -- After a clearing, a pause that is still read stands.
  -- A pause that is left was not resolved.
  left-Standing :
      (c : Bool) (before after : Db p) (raw : Raw) (pause : DispatchPause)
      → clear_resolved_pause p b before ≡ ok (after, c)
      → after.dispatch_pause ≡ some raw
      → unmarshal_pause raw ≡ ok pause
      → resolves b pause ≡ ok false
  unfolding clear_resolved_pause
  left-Standing c before after raw pause h k e = ground arith

  pub cleared-Standing :
      (s s' : Store p) (c : Bool) (pause : DispatchPause)
      → update p s (clear_resolved_pause p b) ≡ (s', ok c)
      → view p s' (read_pause p) ≡ ok (some pause)
      → Standing s' pause
  unfolding view read_pause
  cleared-Standing s s' c pause h k =
      let d = update-Done p (clear_resolved_pause p b) s s' c h in
      let (raw, stored, decoded) = read d.after d.left k in
      record {
        db = d.after;
        raw = raw;
        opened = d.left;
        stored = stored;
        decoded = decoded;
        unresolved = left-Standing c d.before d.after raw pause d.ran stored decoded;
      }
    where
      read :
          (db : Db p)
          → s'.db ≡ some db
          → view p s' (read_pause p) ≡ ok (some pause)
          → (raw : Raw) × (db.dispatch_pause ≡ some raw) × (unmarshal_pause raw ≡ ok pause)
      read db e h = ground arith

  own_pause :
      (clock now : Time) (r : Delivery) (d : Disposition) (f : AttemptFailure)
      → d.pause_kind ≢ DispatchPauseKind.empty
      → d.pause_kind ≢ DispatchPauseKind.other
      → resolves b (stamp_pause clock r.delivery_id (pause_for now b r d f)) ≡ ok false
  unfolding resolves
  own_pause clock now r d f h k = ground arith

  pub paused-Standing :
      (clock now : Time) (s s' : Store p) (r : Delivery) (d : Disposition) (f : AttemptFailure)
      (u : Unit {0})
      → d.pause_kind ≢ DispatchPauseKind.empty
      → d.pause_kind ≢ DispatchPauseKind.other
      → update p s (plain p (pause_delivery p s.cfg clock r.delivery_id (pause_for now b r d f) f))
        ≡ (s', ok u)
      → Standing s' (stamp_pause clock r.delivery_id (pause_for now b r d f))
  paused-Standing clock now s s' r d f u h k e =
      let pause = pause_for now b r d f in
      let o =
        update-Done p (plain p (pause_delivery p s.cfg clock r.delivery_id pause f)) s s' u e in
      let w =
        pause_delivery-eq-ok p s.cfg clock r.delivery_id pause f o.before o.after
          (ran o.before o.after o.ran) in
      record {
        db = o.after;
        raw = w.pause_bytes;
        opened = o.left;
        stored = ground (arith, write_counters-eq-ok p _ _ _ w.written);
        decoded = p.unmarshal-marshal_pause _ w.pause_bytes w.pause_marshalled;
        unresolved = own_pause clock now r d f h k;
      }
    where
      ran :
          (x y : Db p)
          → plain p (pause_delivery p s.cfg clock r.delivery_id (pause_for now b r d f) f) x
            ≡ ok (y, u)
          → pause_delivery p s.cfg clock r.delivery_id (pause_for now b r d f) f x ≡ ok y
      ran x y h = ground arith
