-- ===== src/State/Store.antt =====
-- internal/state/state.go: the store of the durable state, `Update` and the generations.
-- The store is what it holds in memory and what stands in its file. A write ends before the file is
-- renamed, after it (the directory is not synced), or well.
use loramapr_receiver.Base.{
  ℕ, ◌+◌, ◌%◌, ◌^◌, ◌≤◌, ◌&&◌, not, [], ◌∷◌, ◌++◌, ◌≡◌, ◌≢◌, Text, is_empty, text_eq, Result, ok,
  err, Error, if◌then◌else◌,
}
use loramapr_receiver.Outbox.Types.{Time}
use loramapr_receiver.State.Types.{Data, CloudState}

-- What the state takes from the libraries. `sha256_hex` is `hex.EncodeToString` of `sha256.Sum256`,
-- which has 64 digits; `clone` is `json.Unmarshal` of `json.Marshal`, which gives back what it took.
pub record Platform : Type 0 where
  pub sha256_hex : Text → Text
  pub clone : Data → Result Data
  pub to_lower : ℕ → ℕ
  pub sha256_hex_nonempty : (secret : Text) → sha256_hex secret ≢ []
  -- A lower-case letter is its own lower case.
  pub to_lower_letter : (c : ℕ) → 97 ≤ c → c ≤ 122 → to_lower c ≡ c
  pub clone-eq : (d d' : Data) → clone d ≡ ok d' → d' ≡ d

pub record Store : Type 0 where
  pub memory : Data
  pub file : Data

pub data WriteOutcome : Type 0 where
  written : WriteOutcome
  not_renamed : Error → WriteOutcome
  not_synced : Error → WriteOutcome

-- `write`, and the assignment that follows it on success.
abbrev pub commit : WriteOutcome → Data → Store → Store × Result (Unit {0})
commit written d s = (record { memory = d; file = d }, ok tt)
commit (not_renamed e) d s = (s, err e)
commit (not_synced e) d s = (record s { file = d }, err e)

abbrev pub stamped : Time → Data → Data
stamped now d = record d { metadata = record { updated_at = now } }

-- A `uint64`'s successor.
abbrev pub succ64 : ℕ → ℕ
succ64 n = (n + 1) % 2 ^ 64

-- The owner, the agent and the installation, with NUL between them.
unfoldable pub binding_text : Data → Text
binding_text d = d.cloud.owner_id ++ (0 ∷ (d.cloud.receiver_id ++ (0 ∷ d.installation.id)))

abbrev pub set_cloud : (CloudState → CloudState) → Data → Data
set_cloud f d = record d { cloud = f d.cloud }

module _ (p : Platform) where
  open p use {sha256_hex, clone}

  unfoldable pub credential_fingerprint : Text → Text
  credential_fingerprint secret = if is_empty secret then [] else sha256_hex secret

  -- The first half: the fingerprint and the generation of the credential.
  unfoldable pub normalize_credential : Data → Data → Data
  unfolding credential_fingerprint
  normalize_credential previous next =
      let fingerprint = credential_fingerprint next.cloud.ingest_api_key in
      if text_eq fingerprint previous.cloud.credential_fingerprint
      then next
      else set_cloud
          (λ c.
            record (if is_empty fingerprint then c else record c {
              credential_generation = succ64 previous.cloud.credential_generation;
            }) { credential_fingerprint = fingerprint })
          next

  -- The second half: the clock samples and the generation of the binding.
  unfoldable pub normalize_binding : Data → Data → Data
  normalize_binding previous next =
      if text_eq (binding_text next) (binding_text previous)
      then next
      else set_cloud
          (λ c.
            let bare = record c { clock_samples = [] } in
            if not (is_empty c.owner_id) && not (is_empty c.receiver_id)
            then record bare { binding_generation = succ64 previous.cloud.binding_generation }
            else bare)
          next

  unfoldable pub normalize_generations : Data → Data → Data
  normalize_generations previous next =
      normalize_binding previous (normalize_credential previous next)

  -- `Update` on the copy that `cloneData` gives.
  abbrev pub change :
      Time → WriteOutcome → (Data → Data) → Store → Result Data → Store × Result (Unit {0})
  change now w fn s (err e) = (s, err e)
  change now w fn s (ok copy) = commit w (stamped now (normalize_generations s.memory (fn copy))) s

  -- `Update`
  unfoldable pub update : Time → WriteOutcome → (Data → Data) → Store → Store × Result (Unit {0})
  update now w fn s = change now w fn s (clone s.memory)

  -- `Save` on the copy that `cloneData` gives.
  abbrev pub save_copy : Time → WriteOutcome → Store → Result Data → Store × Result (Unit {0})
  save_copy now w s (err e) = (s, err e)
  save_copy now w s (ok copy) = commit w (stamped now copy) s

  -- `Save`
  unfoldable pub save : Time → WriteOutcome → Store → Store × Result (Unit {0})
  save now w s = save_copy now w s (clone s.memory)
