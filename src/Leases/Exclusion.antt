-- ===== src/Leases/Exclusion.antt =====
-- A device has one owner at a time, and a release ends its own lease only.
use loramapr_receiver.Base.{
  true, false, ◌||◌, not, List, [], ◌∷◌, ◌≡◌, refl, ap, ◌∙◌, Text, trim, is_empty, text_eq,
  text_eq_refl, text_eq_sound, ok, err, device_leased, arith, Bool-cases, ◌⊎◌, inl, inr, All,
}
use loramapr_receiver.Base.Entries.{lookup, insert, lookup-insert, lookup-remove}
use loramapr_receiver.Leases.{
  Registry, Lease, owner_at, acquire_at, acquire, release, normalize_device_path, lease_of,
  unleased,
}

module _ (resolve : Text → Text) where
  -- What a successful `Acquire` leaves.
  pub record Acquired (path adapter : Text) (r r' : Registry) (l : Lease) : Type 0 where
    pub owned : owner_at r' (normalize_device_path resolve path) ≡ trim adapter
    pub others :
        (q : Text)
        → text_eq (normalize_device_path resolve path) q ≡ false
        → lookup q r' ≡ lookup q r
    pub exclusive :
        (rival : Text)
        → is_empty (trim rival) ≡ false
        → text_eq (trim adapter) (trim rival) ≡ false
        → acquire resolve path rival r' ≡ err device_leased
    pub returned :
        (q : Text)
        → is_empty (owner_at r (normalize_device_path resolve path)) ≡ true
        → owner_at (release l r').0 q ≡ owner_at r q

  acquired_at :
      (path adapter : Text) (r : Registry) (o : Registry × Lease)
      → acquire resolve path adapter r ≡ ok o
      → (is_empty (normalize_device_path resolve path) ≡ false)
        × (is_empty (trim adapter) ≡ false)
        × (acquire_at resolve (normalize_device_path resolve path) (trim adapter) r ≡ ok o)
  unfolding acquire
  acquired_at path adapter r o h = (ground arith, ground arith, ground arith)

  -- The device was the owner's already, or was free.
  acquire_at-cases :
      (path adapter : Text) (r : Registry) (o : Registry × Lease)
      → acquire_at resolve path adapter r ≡ ok o
      → ((owner_at r path ≡ adapter) × (o ≡ (r, lease_of resolve path adapter false)))
        ⊎ ((is_empty (owner_at r path) ≡ true)
            × (o ≡ (insert path adapter r, lease_of resolve path adapter true)))
  unfolding acquire_at
  acquire_at-cases path adapter r o h = elim (Bool-cases (is_empty (owner_at r path))) [
    | inl e ↦ inr (e, ground (arith, e))
    | inr e ↦ elim (Bool-cases (text_eq (owner_at r path) adapter)) [
      | inl f ↦ inl (text_eq_sound _ _ f, ground (arith, e, f))
      | inr f ↦ absurd (ground (arith, e, f))
    ]
  ]

  is_empty-eq : (t : Text) → is_empty t ≡ true → t ≡ []
  is_empty-eq [] h = refl
  is_empty-eq (c ∷ cs) h = cc h

  owned_after :
      (path adapter : Text) (r : Registry) (o : Registry × Lease)
      → acquire_at resolve path adapter r ≡ ok o
      → owner_at o.0 path ≡ adapter
  owned_after path adapter r o h = elim (acquire_at-cases path adapter r o h) [
    | inl (e, same) ↦ ap (λ (x : Registry × Lease). owner_at x.0 path) same ∙ e
    | inr (e, new) ↦
        ap (λ (x : Registry × Lease). owner_at x.0 path) new
        ∙ ground (arith, lookup-insert path path adapter r, text_eq_refl path)
  ]

  others_after :
      (path adapter : Text) (r : Registry) (o : Registry × Lease) (q : Text)
      → acquire_at resolve path adapter r ≡ ok o
      → text_eq path q ≡ false
      → lookup q o.0 ≡ lookup q r
  others_after path adapter r o q h n = elim (acquire_at-cases path adapter r o h) [
    | inl (e, same) ↦ ap (λ (x : Registry × Lease). lookup q x.0) same
    | inr (e, new) ↦
        ap (λ (x : Registry × Lease). lookup q x.0) new
        ∙ ground (arith, lookup-insert path q adapter r)
  ]

  released_new :
      (path adapter : Text) (r : Registry) (q : Text)
      → is_empty (owner_at r path) ≡ true
      → owner_at (release (lease_of resolve path adapter true) (insert path adapter r)).0 q
        ≡ owner_at r q
  unfolding release
  released_new path adapter r q e = elim (Bool-cases (text_eq path q)) [
    | inl f ↦ ground (
      arith,
      lookup-insert path path adapter r,
      text_eq_refl path,
      text_eq_refl adapter,
      lookup-remove path q (insert path adapter r),
      is_empty-eq (owner_at r path) e,
      ap (owner_at r) (text_eq_sound path q f),
    )
    | inr f ↦ ground (
      arith,
      lookup-insert path path adapter r,
      text_eq_refl path,
      text_eq_refl adapter,
      lookup-remove path q (insert path adapter r),
      lookup-insert path q adapter r,
    )
  ]

  returned_after :
      (path adapter : Text) (r : Registry) (o : Registry × Lease) (q : Text)
      → acquire_at resolve path adapter r ≡ ok o
      → is_empty adapter ≡ false
      → is_empty (owner_at r path) ≡ true
      → owner_at (release o.1 o.0).0 q ≡ owner_at r q
  returned_after path adapter r o q h g a = elim (acquire_at-cases path adapter r o h) [
    | inl (e, same) ↦ absurd (cc (ap is_empty e, a, g))
    | inr (e, new) ↦
        ap (λ (x : Registry × Lease). owner_at (release x.1 x.0).0 q) new
        ∙ released_new path adapter r q e
  ]

  excluded :
      (path rival : Text) (r : Registry)
      → is_empty (normalize_device_path resolve path) ≡ false
      → is_empty (trim rival) ≡ false
      → is_empty (owner_at r (normalize_device_path resolve path)) ≡ false
      → text_eq (owner_at r (normalize_device_path resolve path)) (trim rival) ≡ false
      → acquire resolve path rival r ≡ err device_leased
  unfolding acquire acquire_at
  excluded path rival r a b c d = ground arith

  -- When `Acquire` succeeds, the adapter owns the device, no other device has changed, every other
  -- adapter is refused the device, and if the device was free, releasing the lease at once gives every
  -- device the owner that it had before.
  pub acquire-Acquired :
      (path adapter : Text) (r : Registry) (o : Registry × Lease)
      → acquire resolve path adapter r ≡ ok o
      → Acquired path adapter r o.0 o.1
  acquire-Acquired path adapter r o h =
      let (named, given, rest) = acquired_at path adapter r o h in
      let own = owned_after (normalize_device_path resolve path) (trim adapter) r o rest in
      record {
        owned = own;
        others =
            λ q n. others_after (normalize_device_path resolve path) (trim adapter) r o q rest n;
        exclusive = λ rival some_rival differs.
            excluded path rival o.0 named some_rival (ap is_empty own ∙ given)
              (ap (λ x. text_eq x (trim rival)) own ∙ differs);
        returned = λ q a.
            returned_after (normalize_device_path resolve path) (trim adapter) r o q rest given a;
      }

-- A lease that is released a second time, whatever has happened to the registry in between, changes
-- nothing more.
pub release_again :
    (l : Lease) (r r' : Registry) → release (release l r).1 r' ≡ (r', (release l r).1)
unfolding release
release_again l r r' = elim (Bool-cases l.is_active) [
  | inr e ↦ ground (arith, e)
  | inl e ↦ elim (Bool-cases l.released) [
    | inl f ↦ ground (arith, e, f)
    | inr f ↦ ground (arith, e, f)
  ]
]

-- What is offered is a device with a path and without an owner.
abbrev pub IsFree : Registry → Text → Type 0
IsFree r q = (is_empty q ≡ false) × (is_empty (owner_at r q) ≡ true)

-- `Unleased` offers only devices that have a path and no owner.
pub unleased-IsFree :
    (resolve : Text → Text) (paths : List Text) (r : Registry)
    → All (IsFree r) (unleased resolve paths r)
unfolding unleased
unleased-IsFree resolve [] r = tt
unleased-IsFree resolve (p ∷ ps) r =
    elim (Bool-cases (
      is_empty (normalize_device_path resolve p)
      || not (is_empty (owner_at r (normalize_device_path resolve p))))) [
        | inl e ↦ rw e (unleased-IsFree resolve ps r)
        | inr e ↦ rw e ((ground (arith, e), ground (arith, e)), unleased-IsFree resolve ps r)
      ]
