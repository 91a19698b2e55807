-- ===== src/Outbox/Keys.antt =====
-- store.go: the keys of the due index. A key is 8 bytes of the due time and 8 bytes of the sequence
-- number, big endian, and the delivery's identifier.
pub mod Order
use loramapr_receiver.Base.{
  ℕ, zero, suc, ◌+◌, ◌-◌, ◌*◌, ◌/◌, ◌%◌, ◌^◌, List, [], ◌∷◌, ◌++◌, Text, length, take, ltb,
  if◌then◌else◌,
}
use loramapr_receiver.Outbox.Types.{Time}

-- The Unix epoch, in nanoseconds since year 1.
abbrev pub unix_epoch : ℕ
unix_epoch = 62135596800000000000

-- uint64(at.UnixNano()). The epoch lies above 3 * 2 ^ 64, hence the four moduli.
unfoldable pub unix_nano : Time → ℕ
unix_nano at = (at + 4 * 2 ^ 64 - unix_epoch) % 2 ^ 64

-- time.Unix(0, int64(n)).UTC()
unfoldable pub time_of_unix_nano : ℕ → Time
time_of_unix_nano n = if ltb n (2 ^ 63) then unix_epoch + n else unix_epoch + n - 2 ^ 64

-- binary.BigEndian.PutUint64, on `width` bytes
unfoldable pub big_endian : ℕ → ℕ → List ℕ
big_endian zero n = []
big_endian (suc width) n = n / 256 ^ width % 256 ∷ big_endian width (n % 256 ^ width)

-- binary.BigEndian.Uint64
unfoldable pub from_big_endian : List ℕ → ℕ
from_big_endian [] = 0
from_big_endian (b ∷ bs) = b * 256 ^ length bs + from_big_endian bs

unfoldable pub due_key : Time → ℕ → Text → Text
due_key at sequence delivery_id =
    big_endian 8 (unix_nano at) ++ (big_endian 8 sequence ++ delivery_id)

unfoldable pub due_timestamp : Text → Time
due_timestamp key =
    if ltb (length key) 8 then 0 else time_of_unix_nano (from_big_endian (take 8 key))
