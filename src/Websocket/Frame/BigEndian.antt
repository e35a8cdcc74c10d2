-- ===== src/Websocket/Frame/BigEndian.antt =====
-- The byte orders of encoding/binary.
use share.Base.{ℕ, zero, suc, ◌+◌, ◌*◌, ◌/◌, ◌^◌, ◌<◌, ◌≡◌, [], ◌∷◌, arith, u8, Bytes}

-- `binary.BigEndian.Uint16` and `Uint64`, over all bytes given.
abbrev pub big_endian : ℕ → Bytes → ℕ
big_endian acc [] = acc
big_endian acc (b ∷ bs) = big_endian (acc * 256 + b) bs

-- `binary.BigEndian.PutUint16` and `PutUint64`, over `k` bytes.
abbrev pub put_big_endian : ℕ → ℕ → Bytes
put_big_endian zero v = []
put_big_endian (suc k) v = u8 (v / 256 ^ k) ∷ put_big_endian k v

-- `binary.LittleEndian.PutUint32`.
abbrev pub put_little_endian : ℕ → ℕ → Bytes
put_little_endian zero v = []
put_little_endian (suc k) v = u8 v ∷ put_little_endian k (v / 256)

pub big_endian-put_two : (v : ℕ) → v < 2 ^ 16 → big_endian 0 (put_big_endian 2 v) ≡ v
big_endian-put_two v h = omega arith

pub big_endian-put_eight : (v : ℕ) → v < 2 ^ 64 → big_endian 0 (put_big_endian 8 v) ≡ v
big_endian-put_eight v h = omega arith
