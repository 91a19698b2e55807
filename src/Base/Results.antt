-- ===== src/Base/Results.antt =====
-- Go's `(T, error)`: a value or an error. The errors are those of the modelled packages.
use mathlib.Core.Path.{◌≡◌, refl}
use mathlib.Core.Logic.{◌⊎◌, inl, inr}
use mathlib.Core.Bool.{Bool, true, false, not}

pub data Error : Type 0 where
  delivery_required delivery_exists delivery_not_found delivery_not_pending dispatch_pause_mismatch
        pause_kind_required unknown_pause_kind outbox_full outbox_prune_failed outbox_closed
        unknown_schema counters_underflow receiver_required binding_required rotation_ids_required
        rotation_missing rotation_phase_mismatch invalid_durable_state encode_failed decode_failed
        put_refused stage_full engine_closed version_empty not_semver_like empty_part not_a_number
        unexpected_marker invalid_length oversized_frame truncated_frame short_write device_required
        adapter_required device_leased newer_schema pairing_code_short rotation_required
        lifecycle_change_invalid pairing_failed rotation_unavailable installation_missing
        rotation_diverged rotated_state_bound rotation_stopped unexpected_eof invalid_varint
        invalid_key unsupported_wire_type :
      Error

-- The value of a call that returned no error, or its error.
pub data Result {ℓ} (V : Type ℓ) : Type ℓ where
  err : Error → Result V
  ok : V → Result V

-- `if failing { return e }`
abbrev pub refuse : (failing : Bool) → Error → Result (Unit {0})
refuse false e = ok tt
refuse true e = err e

-- `if !passing { return e }`
abbrev pub guard : (passing : Bool) → Error → Result (Unit {0})
guard passing e = refuse (not passing) e

-- `v, err := call(); if err != nil { return err }`, and the rest with `v`
infixl 5 ◌>>=◌
abbrev pub ◌>>=◌ {ℓ ℓ'} :
    {V : Type ℓ} {W : Type ℓ'} (call : Result V) (rest : V → Result W) → Result W
err e >>= rest = err e
ok v >>= rest = rest v

-- The same for a call that gives only an error.
infixl 5 ◌>>◌
abbrev pub ◌>>◌ {ℓ} : {W : Type ℓ} (call : Result (Unit {0})) (rest : Result W) → Result W
call >> rest = call >>= λ u. rest

-- A sequence of calls that succeeds has run each of them with success.
pub >>=-eq-ok {ℓ ℓ'} :
    {V : Type ℓ} {W : Type ℓ'} (call : Result V) (rest : V → Result W) {w : W}
    → (call >>= rest) ≡ ok w
    → (v : V) × (call ≡ ok v) × (rest v ≡ ok w)
>>=-eq-ok (err e) rest h = cc
>>=-eq-ok (ok v) rest h = (v, refl, h)

pub refuse-eq-ok {ℓ} :
    {B : Type ℓ} (b : Bool) (e : Error) (k : Result B) {r : B}
    → (refuse b e >> k) ≡ ok r
    → (b ≡ false) × (k ≡ ok r)
refuse-eq-ok true e k h = cc
refuse-eq-ok false e k h = (refl, h)

pub guard-eq-ok {ℓ} :
    {B : Type ℓ} (b : Bool) (e : Error) (k : Result B) {r : B}
    → (guard b e >> k) ≡ ok r
    → (b ≡ true) × (k ≡ ok r)
guard-eq-ok true e k h = (refl, h)
guard-eq-ok false e k h = cc

pub Result-cases {ℓ} :
    {A : Type ℓ} (r : Result A) → ((a : A) × (r ≡ ok a)) ⊎ ((e : Error) × (r ≡ err e))
Result-cases (ok a) = inl (a, refl)
Result-cases (err e) = inr (e, refl)

pub Error-discrete : Discrete Error
Error-discrete = hlevel
