-- ===== src/Leases.antt =====
-- internal/protocoladapter/lease.go: the registry of leases on serial devices.
pub mod Exclusion
pub mod Tests
use loramapr_receiver.Base.{
  Bool, true, false, ◌&&◌, ◌||◌, not, Option, none, some, List, [], ◌∷◌, Text, trim, is_empty,
  text_eq, Result, ok, err, ◌>>=◌, ◌>>◌, refuse, device_required, adapter_required, device_leased,
  if◌then◌else◌,
}
use loramapr_receiver.Base.Entries.{lookup, insert, remove}

-- The map `owners`; the mutex makes each method one step.
abbrev pub Registry : Type 0
Registry = List (Text × Text)

-- `r.owners[path]`: Go's map gives the empty string for a missing key.
abbrev pub found_owner : Option Text → Text
found_owner none = []
found_owner (some owner) = owner

abbrev pub owner_at : Registry → Text → Text
owner_at r path = found_owner (lookup path r)

-- The function that `Acquire` returns, with its captured variables. One that an owner gets for a device
-- that it has already does nothing.
pub record Lease : Type 0 where
  pub path : Text
  pub adapter : Text
  pub is_active : Bool
  pub released : Bool

-- `resolve` is what `normalizeDevicePath` makes of a path that is not empty, from the file system.
module _ (resolve : Text → Text) where
  unfoldable pub normalize_device_path : Text → Text
  normalize_device_path path = if is_empty (trim path) then [] else resolve (trim path)

  abbrev pub lease_of : Text → Text → Bool → Lease
  lease_of path adapter is_active = record {
    path = path;
    adapter = adapter;
    is_active = is_active;
    released = false;
  }

  -- `Acquire` on a normalized path and a trimmed name.
  unfoldable pub acquire_at : Text → Text → Registry → Result (Registry × Lease)
  acquire_at path adapter r =
      if not (is_empty (owner_at r path))
      then (if text_eq (owner_at r path) adapter
          then ok (r, lease_of path adapter false)
          else err device_leased)
      else ok (insert path adapter r, lease_of path adapter true)

  unfoldable pub acquire : Text → Text → Registry → Result (Registry × Lease)
  unfolding acquire_at
  acquire path adapter r = do
    refuse (is_empty (normalize_device_path path)) device_required
    refuse (is_empty (trim adapter)) adapter_required
    acquire_at (normalize_device_path path) (trim adapter) r

  -- `Owner`
  unfoldable pub owner : Text → Registry → Option Text
  owner path r = lookup (normalize_device_path path) r

  -- `Unleased`
  unfoldable pub unleased : List Text → Registry → List Text
  unleased [] r = []
  unleased (p ∷ ps) r =
      let rest = unleased ps r in
      if is_empty (normalize_device_path p) || not (is_empty (owner_at r (normalize_device_path p)))
      then rest
      else normalize_device_path p ∷ rest

-- A call of the function that `Acquire` returned.
unfoldable pub release : Lease → Registry → Registry × Lease
release l r = if not l.is_active || l.released then (r, l) else (
  if text_eq (owner_at r l.path) l.adapter then remove l.path r else r,
  record l { released = true },
)
