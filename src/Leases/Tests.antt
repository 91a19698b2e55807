-- ===== src/Leases/Tests.antt =====
-- Leases on concrete inputs.
use loramapr_receiver.Base.{true, [], ◌∷◌, ◌≡◌, refl, Text, codes, trim, ok, All}
use loramapr_receiver.Base.Entries.{lookup, insert}
use loramapr_receiver.Leases.{
  Registry, Lease, acquire, acquire_at, normalize_device_path, lease_of, release, unleased,
}
use loramapr_receiver.Leases.Exclusion.{
  Acquired, acquire-Acquired, release_again, IsFree, unleased-IsFree,
}

-- A file system without links.
abbrev plain : Text → Text
plain path = path

abbrev radio : Lease
radio = lease_of plain (codes "/dev/ttyUSB0") (codes "meshcore") true

acquires :
    acquire plain (codes "/dev/ttyUSB0 ") (codes "meshcore") []
    ≡ ok ((codes "/dev/ttyUSB0", codes "meshcore") ∷ [], radio)
unfolding acquire acquire_at normalize_device_path trim lookup insert
acquires = refl

acquire-Acquired_example :
    Acquired plain
      (codes "/dev/ttyUSB0 ")
      (codes "meshcore")
      []
      ((codes "/dev/ttyUSB0", codes "meshcore") ∷ [])
      radio
acquire-Acquired_example =
    acquire-Acquired plain (codes "/dev/ttyUSB0 ") (codes "meshcore") []
      ((codes "/dev/ttyUSB0", codes "meshcore") ∷ [], radio) acquires

abbrev taken_over : Registry
taken_over = (codes "/dev/ttyUSB0", codes "meshtastic") ∷ []

release_again_example :
    release (release radio ((codes "/dev/ttyUSB0", codes "meshcore") ∷ [])).1 taken_over
    ≡ (taken_over, (release radio ((codes "/dev/ttyUSB0", codes "meshcore") ∷ [])).1)
release_again_example =
    release_again radio ((codes "/dev/ttyUSB0", codes "meshcore") ∷ []) taken_over

unleased-IsFree_example :
    All
      (IsFree taken_over)
      (unleased plain (codes "/dev/ttyUSB0" ∷ codes "/dev/ttyUSB1" ∷ []) taken_over)
unleased-IsFree_example =
    unleased-IsFree plain (codes "/dev/ttyUSB0" ∷ codes "/dev/ttyUSB1" ∷ []) taken_over
