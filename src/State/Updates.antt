-- ===== src/State/Updates.antt =====
-- state.go: what `Update` does to the store, on success and on failure.
use loramapr_receiver.Base.{◌≡◌, refl, Result, ok, err, Error, arith, subst, sym}
use loramapr_receiver.Outbox.Types.{Time}
use loramapr_receiver.State.Types.{Data}
use loramapr_receiver.State.Store.{
  Platform, Store, WriteOutcome, written, not_renamed, not_synced, stamped, commit, change,
  normalize_generations, update,
}
use loramapr_receiver.State.Generations.{
  IsPlain, Keeps, Generations, normalize_generations-Generations,
}

module _ (p : Platform) where
  -- What `Update` writes.
  abbrev pub next_data : Time → (Data → Data) → Data → Data
  next_data now fn d = stamped now (normalize_generations p d (fn d))

  -- On success the memory and the file hold the new data; on failure the memory is as before, and the
  -- file holds the old or the new.
  pub data Updated (next : Data) (s : Store) : Store × Result (Unit {0}) → Type 0 where
    saved : Updated next s (record { memory = next; file = next }, ok tt)
    failed : (e : Error) → Updated next s (s, err e)
    unsynced : (e : Error) → Updated next s (record s { file = next }, err e)

  commit-Updated : (w : WriteOutcome) (d : Data) (s : Store) → Updated d s (commit w d s)
  commit-Updated written d s = saved
  commit-Updated (not_renamed e) d s = failed e
  commit-Updated (not_synced e) d s = unsynced e

  change-Updated :
      (now : Time) (w : WriteOutcome) (fn : Data → Data) (s : Store) (copy : Result Data)
      → ((d : Data) → copy ≡ ok d → d ≡ s.memory)
      → Updated (next_data now fn s.memory) s (change p now w fn s copy)
  change-Updated now w fn s (err e) h = failed e
  change-Updated now w fn s (ok d) h =
      subst (λ x. Updated (next_data now fn s.memory) s (change p now w fn s (ok x)))
        (sym (h d refl)) (commit-Updated w (next_data now fn s.memory) s)

  pub update-Updated :
      (now : Time) (w : WriteOutcome) (fn : Data → Data) (s : Store)
      → Updated (next_data now fn s.memory) s (update p now w fn s)
  unfolding update
  update-Updated now w fn s =
      change-Updated now w fn s (p.clone s.memory) (λ d. p.clone-eq s.memory d)

  -- If the function leaves the fingerprint and the generations alone and no identity contains NUL,
  -- then after an `Update`, whatever its outcome, the memory and the file hold each the data of before
  -- or the new data, both the new on success, and the memory that of before on failure; and the new
  -- data has the fingerprint of its credential, a generation of the credential that rises by one (in 64
  -- bits) exactly if the fingerprint has changed and there is a credential, and a generation of the
  -- binding that rises by one (in 64 bits) exactly if owner, agent or installation have changed and
  -- there are an owner and an agent; a change of those clears the clock samples.
  pub update-Generations :
      (now : Time) (w : WriteOutcome) (fn : Data → Data) (s : Store)
      → IsPlain s.memory
      → IsPlain (fn s.memory)
      → Keeps p s.memory (fn s.memory)
      → Updated (next_data now fn s.memory) s (update p now w fn s)
        × Generations p s.memory (next_data now fn s.memory)
  update-Generations now w fn s plain plain' k =
      let g = normalize_generations-Generations p s.memory (fn s.memory) plain plain' k in
      (
        update-Updated now w fn s,
        record {
          fingerprinted = g.fingerprinted;
          credential = g.credential;
          binding = ground (arith, g.binding);
        },
      )
