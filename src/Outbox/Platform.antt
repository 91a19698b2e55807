-- ===== src/Outbox/Platform.antt =====
-- What the outbox takes from outside the repository: bbolt buckets, and encoding/json as the codec
-- of the stored values. A bucket is an ordered map from keys to values; its content is seen through
-- `entries`, in key order, as `Bucket.ForEach` and a `Cursor` visit it.
use loramapr_receiver.Base.{ℕ, ◌<◌, Bool, ◌≡◌, Option, List, [], Text, Result, ok}
use loramapr_receiver.Base.Entries.{lookup, insert, remove}
use loramapr_receiver.Outbox.Types.{
  Delivery, DispatchPause, InstallationRotation, ReconciledBinding,
}

pub record Platform : Type 1 where
  -- An encoded JSON document, and its length in bytes.
  pub Raw : Type 0
  pub raw_size : Raw → ℕ
  -- json.Marshal and json.Unmarshal
  pub marshal_delivery : Delivery → Result Raw
  pub unmarshal_delivery : Raw → Result Delivery
  pub marshal_pause : DispatchPause → Result Raw
  pub unmarshal_pause : Raw → Result DispatchPause
  pub marshal_rotation : InstallationRotation → Result Raw
  pub unmarshal_rotation : Raw → Result InstallationRotation
  pub marshal_binding : ReconciledBinding → Result Raw
  pub unmarshal_binding : Raw → Result ReconciledBinding
  -- An encoded document is not empty, and decodes to what was encoded.
  pub raw_size-marshal : (r : Delivery) (raw : Raw) → marshal_delivery r ≡ ok raw → 0 < raw_size raw
  pub unmarshal-marshal_delivery :
      (r : Delivery) (raw : Raw) → marshal_delivery r ≡ ok raw → unmarshal_delivery raw ≡ ok r
  pub unmarshal-marshal_pause :
      (r : DispatchPause) (raw : Raw) → marshal_pause r ≡ ok raw → unmarshal_pause raw ≡ ok r
  pub unmarshal-marshal_rotation :
      (r : InstallationRotation) (raw : Raw)
      → marshal_rotation r ≡ ok raw
      → unmarshal_rotation raw ≡ ok r
  pub unmarshal-marshal_binding :
      (r : ReconciledBinding) (raw : Raw)
      → marshal_binding r ≡ ok raw
      → unmarshal_binding raw ≡ ok r
  -- bbolt: `Put` refuses some keys and values (an empty or an oversized key, an oversized value).
  pub Bucket : Type 0 → Type 0
  pub accepts : {V : Type 0} → Text → V → Bool
  pub empty : {V : Type 0} → Bucket V
  pub get : {V : Type 0} → Bucket V → Text → Option V
  pub put : {V : Type 0} → Bucket V → Text → V → Bucket V
  pub delete : {V : Type 0} → Bucket V → Text → Bucket V
  pub entries : {V : Type 0} → Bucket V → List (Text × V)
  pub entries-empty : {V : Type 0} → entries (empty {V = V}) ≡ []
  pub get-entries : {V : Type 0} (b : Bucket V) (k : Text) → get b k ≡ lookup k (entries b)
  pub entries-put :
      {V : Type 0} (b : Bucket V) (k : Text) (v : V) → entries (put b k v) ≡ insert k v (entries b)
  pub entries-delete :
      {V : Type 0} (b : Bucket V) (k : Text) → entries (delete b k) ≡ remove k (entries b)
