-- ===== src/State/Generations.antt =====
-- state.go: what `Update` makes of the generations of the credential and of the binding.
use loramapr_receiver.Base.{
  ◌⊎◌, inl, inr, ◌≡◌, ◌≢◌, refl, sym, [], ◌∷◌, ◌++◌, Text, arith, text_eq, text_eq_sound,
  text_eq_of_eq, All, Bool-cases, subst,
}
use loramapr_receiver.State.Types.{Data}
use loramapr_receiver.State.Store.{
  Platform, succ64, binding_text, credential_fingerprint, normalize_credential, normalize_binding,
  normalize_generations,
}

abbrev pub NoNul : Text → Type 0
NoNul = All (λ c. c ≢ 0)

split_at_nul :
    (a b c d : Text) → NoNul a → NoNul c → (a ++ (0 ∷ b)) ≡ (c ++ (0 ∷ d)) → (a ≡ c) × (b ≡ d)
split_at_nul [] b [] d na nc h = (refl, cc)
split_at_nul [] b (x ∷ c) d na nc h = absurd (nc.0 cc)
split_at_nul (x ∷ a) b [] d na nc h = absurd (na.0 cc)
split_at_nul (x ∷ a) b (y ∷ c) d na nc h = let (p, q) = split_at_nul a b c d na.1 nc.1 cc in (cc, q)

-- The three identities that a binding consists of are free of NUL.
pub record IsPlain (d : Data) : Type 0 where
  pub owner : NoNul d.cloud.owner_id
  pub receiver : NoNul d.cloud.receiver_id

pub record SameBinding (d d' : Data) : Type 0 where
  pub owner : d.cloud.owner_id ≡ d'.cloud.owner_id
  pub receiver : d.cloud.receiver_id ≡ d'.cloud.receiver_id
  pub installation : d.installation.id ≡ d'.installation.id

binding_text-SameBinding :
    (d d' : Data) → IsPlain d → IsPlain d' → binding_text d ≡ binding_text d' → SameBinding d d'
unfolding binding_text
binding_text-SameBinding d d' n n' h =
    let (owner, rest) = split_at_nul d.cloud.owner_id _ d'.cloud.owner_id _ n.owner n'.owner h in
    let (receiver, installation) =
      split_at_nul d.cloud.receiver_id _ d'.cloud.receiver_id _ n.receiver n'.receiver rest in
    record { owner = owner; receiver = receiver; installation = installation }

SameBinding-binding_text : (d d' : Data) → SameBinding d d' → binding_text d ≡ binding_text d'
unfolding binding_text
SameBinding-binding_text d d' s = cc (s.owner, s.receiver, s.installation)

abbrev pub IsBinding : Data → Type 0
IsBinding d = (d.cloud.owner_id ≢ []) × (d.cloud.receiver_id ≢ [])

module _ (p : Platform) where
  -- The fingerprint is that of the credential.
  abbrev pub IsFingerprinted : Data → Type 0
  IsFingerprinted d =
      d.cloud.credential_fingerprint ≡ credential_fingerprint p d.cloud.ingest_api_key

  -- The generation of the credential counts its changes, that of the binding the bindings.
  pub record Generations (d d' : Data) : Type 0 where
    pub fingerprinted : IsFingerprinted d'
    pub credential :
        (((d'.cloud.credential_fingerprint ≡ d.cloud.credential_fingerprint)
            ⊎ (d'.cloud.ingest_api_key ≡ []))
          × (d'.cloud.credential_generation ≡ d.cloud.credential_generation))
        ⊎ ((d'.cloud.credential_fingerprint ≢ d.cloud.credential_fingerprint)
            × (d'.cloud.ingest_api_key ≢ [])
            × (d'.cloud.credential_generation ≡ succ64 d.cloud.credential_generation))
    pub binding :
        (SameBinding d d' × (d'.cloud.binding_generation ≡ d.cloud.binding_generation))
        ⊎ ((¬ SameBinding d d')
            × (d'.cloud.clock_samples ≡ [])
            × ((IsBinding d' × (d'.cloud.binding_generation ≡ succ64 d.cloud.binding_generation))
                ⊎ ((¬ IsBinding d') × (d'.cloud.binding_generation ≡ d.cloud.binding_generation))))

  -- What the functions that the program passes to `Update` leave alone.
  pub record Keeps (d d' : Data) : Type 0 where
    pub fingerprint : d'.cloud.credential_fingerprint ≡ d.cloud.credential_fingerprint
    pub credential : d'.cloud.credential_generation ≡ d.cloud.credential_generation
    pub binding : d'.cloud.binding_generation ≡ d.cloud.binding_generation

  fingerprint_nonempty : (secret : Text) → credential_fingerprint p secret ≡ [] → secret ≡ []
  unfolding credential_fingerprint
  fingerprint_nonempty [] h = refl
  fingerprint_nonempty (x ∷ xs) h = absurd (p.sha256_hex_nonempty (x ∷ xs) h)

  -- Everything that the credential half leaves alone, and what it does.
  record Credential (d n m : Data) : Type 0 where
    fingerprinted : IsFingerprinted m
    same : SameBinding n m
    binding : m.cloud.binding_generation ≡ n.cloud.binding_generation
    credential :
        (((m.cloud.credential_fingerprint ≡ d.cloud.credential_fingerprint)
            ⊎ (m.cloud.ingest_api_key ≡ []))
          × (m.cloud.credential_generation ≡ d.cloud.credential_generation))
        ⊎ ((m.cloud.credential_fingerprint ≢ d.cloud.credential_fingerprint)
            × (m.cloud.ingest_api_key ≢ [])
            × (m.cloud.credential_generation ≡ succ64 d.cloud.credential_generation))

  normalize_credential-Credential :
      (d n : Data) → Keeps d n → Credential d n (normalize_credential p d n)
  unfolding normalize_credential credential_fingerprint
  normalize_credential-Credential d n k =
      let print = credential_fingerprint p n.cloud.ingest_api_key in
      ground (
        arith,
        k.fingerprint,
        k.credential,
        text_eq_sound print d.cloud.credential_fingerprint,
        text_eq_of_eq {a = print} {b = d.cloud.credential_fingerprint},
        fingerprint_nonempty n.cloud.ingest_api_key,
      )

  normalize_binding-Generations :
      (d n m : Data)
      → IsPlain d
      → IsPlain n
      → Keeps d n
      → Credential d n m
      → Generations d (normalize_binding p d m)
  unfolding normalize_binding
  normalize_binding-Generations d n m plain_d plain_n k c =
      let plain_m : IsPlain m = record {
        owner = subst NoNul c.same.owner plain_n.owner;
        receiver = subst NoNul c.same.receiver plain_n.receiver;
      } in
      elim (Bool-cases (text_eq (binding_text m) (binding_text d))) [
        | inl e ↦
            let s = binding_text-SameBinding m d plain_m plain_d (text_eq_sound _ _ e) in
            ground (arith, e, s, c.fingerprinted, c.credential, c.binding, k.binding)
        | inr e ↦
            let other : ¬ SameBinding d m =
              λ s. cc (e, text_eq_of_eq (sym (SameBinding-binding_text d m s))) in
            let bare : ¬ SameBinding d (normalize_binding p d m) =
              λ s. other (ground (arith, e, s.owner, s.receiver, s.installation)) in
            ground (arith, e, bare, c.fingerprinted, c.credential, c.binding, k.binding)
      ]

  pub normalize_generations-Generations :
      (d n : Data) → IsPlain d → IsPlain n → Keeps d n → Generations d (normalize_generations p d n)
  unfolding normalize_generations
  normalize_generations-Generations d n plain_d plain_n k =
      normalize_binding-Generations d n (normalize_credential p d n) plain_d plain_n k
        (normalize_credential-Credential d n k)
