-- ===== src/Outbox/Listed.antt =====
-- A platform that runs: a document is the value that it encodes, a bucket is the list of its entries.
use loramapr_receiver.Base.{
  ℕ, ◌+◌, ◌<◌, true, List, [], ◌≡◌, refl, Text, Result, ok, err, decode_failed, arith, length,
}
use loramapr_receiver.Base.Entries.{lookup, insert, remove}
use loramapr_receiver.Outbox.Types.{
  Delivery, DispatchPause, InstallationRotation, ReconciledBinding,
}
use loramapr_receiver.Outbox.Platform.{Platform}

pub data Document : Type 0 where
  delivery : Delivery → Document
  pause : DispatchPause → Document
  rotation : InstallationRotation → Document
  reconciled : ReconciledBinding → Document

abbrev pub document_size : Document → ℕ
document_size (delivery r) = 64 + length r.envelope
document_size _ = 32

abbrev pub to_delivery : Document → Result Delivery
to_delivery (delivery r) = ok r
to_delivery _ = err decode_failed

abbrev pub to_pause : Document → Result DispatchPause
to_pause (pause r) = ok r
to_pause _ = err decode_failed

abbrev pub to_rotation : Document → Result InstallationRotation
to_rotation (rotation r) = ok r
to_rotation _ = err decode_failed

abbrev pub to_reconciled : Document → Result ReconciledBinding
to_reconciled (reconciled r) = ok r
to_reconciled _ = err decode_failed

pub size_pos :
    (r : Delivery) (raw : Document)
    → ◌≡◌ {A = Result Document} (ok (delivery r)) (ok raw)
    → 0 < document_size raw
size_pos r (delivery x) h = omega arith
size_pos r (pause x) h = omega arith
size_pos r (rotation x) h = omega arith
size_pos r (reconciled x) h = omega arith

pub to_delivery_of :
    (r : Delivery) (raw : Document)
    → ◌≡◌ {A = Result Document} (ok (delivery r)) (ok raw)
    → to_delivery raw ≡ ok r
to_delivery_of r raw h = ground arith

pub to_pause_of :
    (r : DispatchPause) (raw : Document)
    → ◌≡◌ {A = Result Document} (ok (pause r)) (ok raw)
    → to_pause raw ≡ ok r
to_pause_of r raw h = ground arith

pub to_rotation_of :
    (r : InstallationRotation) (raw : Document)
    → ◌≡◌ {A = Result Document} (ok (rotation r)) (ok raw)
    → to_rotation raw ≡ ok r
to_rotation_of r raw h = ground arith

pub to_reconciled_of :
    (r : ReconciledBinding) (raw : Document)
    → ◌≡◌ {A = Result Document} (ok (reconciled r)) (ok raw)
    → to_reconciled raw ≡ ok r
to_reconciled_of r raw h = ground arith

abbrev pub listed : Platform
listed = record {
  Raw = Document;
  raw_size = document_size;
  marshal_delivery = λ r. ok (delivery r);
  unmarshal_delivery = to_delivery;
  marshal_pause = λ r. ok (pause r);
  unmarshal_pause = to_pause;
  marshal_rotation = λ r. ok (rotation r);
  unmarshal_rotation = to_rotation;
  marshal_binding = λ r. ok (reconciled r);
  unmarshal_binding = to_reconciled;
  raw_size-marshal = size_pos;
  unmarshal-marshal_delivery = to_delivery_of;
  unmarshal-marshal_pause = to_pause_of;
  unmarshal-marshal_rotation = to_rotation_of;
  unmarshal-marshal_binding = to_reconciled_of;
  Bucket = λ V. List (Text × V);
  accepts = λ k v. true;
  empty = [];
  get = λ b k. lookup k b;
  put = λ b k v. insert k v b;
  delete = λ b k. remove k b;
  entries = λ b. b;
  entries-empty = refl;
  get-entries = λ b k. refl;
  entries-put = λ b k v. refl;
  entries-delete = λ b k. refl;
}
