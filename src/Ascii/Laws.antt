-- ===== src/Ascii/Laws.antt =====
-- Laws of lib/ascii/ascii.go.
use share.Base.{
  ℕ, zero, suc, ◌+◌, ◌≤◌, ◌<◌, ◌≡◌, ◌≢◌, ◌↔◌, ◌⊎◌, refl, ap, ap₂, true, [], ◌∷◌, some, arith,
  length, get_elem?, Bytes, All,
}
use share.Ascii.{is_hex, lower_byte, upper_byte, to_lower, to_upper, random_from, random}

abbrev pub IsUpper : ℕ → Type 0
IsUpper b = (b'A' ≤ b) × (b ≤ b'Z')

lower_byte_lem :
    (b : ℕ)
    → (upper_byte (lower_byte b) ≡ upper_byte b)
      × (lower_byte (lower_byte b) ≡ lower_byte b)
      × (lower_byte (upper_byte b) ≡ lower_byte b)
      × ¬ IsUpper (lower_byte b)
unfolding lower_byte upper_byte
lower_byte_lem b = ground arith

-- `ToLower` and `ToUpper` undo one another's effect and nothing else: each after the other is
-- itself alone, `ToLower` keeps the length, is the same done twice, and leaves no upper case letter.
pub to_lower-to_upper :
    (bs : Bytes)
    → (to_lower (to_upper bs) ≡ to_lower bs)
      × (to_upper (to_lower bs) ≡ to_upper bs)
      × (to_lower (to_lower bs) ≡ to_lower bs)
      × (length (to_lower bs) ≡ length bs)
      × All (λ b. ¬ IsUpper b) (to_lower bs)
unfolding to_lower to_upper
to_lower-to_upper [] = (refl, refl, refl, refl, tt)
to_lower-to_upper (b ∷ bs) =
    let (lu, ul, ll, len, upper) = to_lower-to_upper bs in
    let (ul', ll', lu', upper') = lower_byte_lem b in
    (ap₂ ◌∷◌ lu' lu, ap₂ ◌∷◌ ul' ul, ap₂ ◌∷◌ ll' ll, ap suc len, (upper', upper))

abbrev pub IsHexDigit : ℕ → Type 0
IsHexDigit b = ((b'0' ≤ b) × (b ≤ b'9')) ⊎ ((b'a' ≤ b) × (b ≤ b'f')) ⊎ ((b'A' ≤ b) × (b ≤ b'F'))

-- `IsHex` accepts exactly the hexadecimal digits other than '0'.
pub is_hex_iff : (b : ℕ) → (is_hex b ≡ true) ↔ (IsHexDigit b × (b ≢ b'0'))
unfolding is_hex
is_hex_iff b = grind arith

-- `b` stands in `source`.
abbrev pub StandsIn : Bytes → ℕ → Type 0
StandsIn source b = (i : ℕ) × (get_elem? source i ≡ some b)

get_elem?-some : (xs : Bytes) (i : ℕ) → i < length xs → (b : ℕ) × (get_elem? xs i ≡ some b)
get_elem?-some [] i h = absurd (omega arith)
get_elem?-some (x ∷ xs) zero h = (x, refl)
get_elem?-some (x ∷ xs) (suc i) h = get_elem?-some xs i (omega arith)

random_from_lem :
    (intn : ℕ → ℕ → ℕ) (source : Bytes) (x n : ℕ)
    → ((x k : ℕ) → 0 < k → intn x k < k)
    → 0 < length source
    → (bs : Bytes) × (random_from intn source x n ≡ some bs)
      × (length bs ≡ n)
      × All (StandsIn source) bs
unfolding random_from
random_from_lem intn source x zero below pos = ([], refl, refl, tt)
random_from_lem intn source x (suc n) below pos =
    let i = intn x (length source) in
    let (b, e) = get_elem?-some source i (below x (length source) pos) in
    let (bs, e', len, all) = random_from_lem intn source (x + 1) n below pos in
    (b ∷ bs, ground (arith, e, e'), ap suc len, ((i, e), all))

-- `Random` returns `n` bytes of a source that is not empty, whatever the generator draws, if
-- `rand.Intn(k)` is below `k`.
pub random_total :
    (intn : ℕ → ℕ → ℕ) (source : Bytes) (n : ℕ)
    → ((x k : ℕ) → 0 < k → intn x k < k)
    → 0 < length source
    → (bs : Bytes) × (random intn source n ≡ some bs) × (length bs ≡ n) × All (StandsIn source) bs
unfolding random
random_total intn source n = random_from_lem intn source 0 n
