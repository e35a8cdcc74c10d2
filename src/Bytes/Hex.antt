-- ===== src/Bytes/Hex.antt =====
-- `ReadHexByte` of lib/bytes/bytes.go.
use share.Base.{
  ℕ, ◌+◌, ◌-◌, ◌*◌, ◌/◌, ◌%◌, ◌^◌, ◌<◌, ◌≡◌, ◌⊎◌, inl, inr, ◌∙◌, Bool, true, false, ◌&&◌, List, [],
  ◌∷◌, ◌++◌, Option, none, some, arith, ltb, leb, if◌then◌else◌, get_elem?, get_elem?-some,
  Option-cases, Bool-cases, length, length-append, get_elem?-append_right, bit_or, u8, Bytes,
}
use share.Base.Bits.{bit_or_fields}

-- The cases of the `switch`: what is shifted into the result. A byte difference wraps.
unfoldable pub hex_digit : ℕ → Option ℕ
hex_digit c =
    if leb b'0' c && leb c b'9'
    then some (u8 (c + 2 ^ 8 - b'0'))
    else if leb b'A' c && leb c b'F'
    then some (u8 (c + 2 ^ 8 - (b'A' - 10)))
    else if leb b'a' c && leb c b'f'
    then some (u8 (c + 2 ^ 8 - (b'a' - 10)))
    else none

-- The loop, over the shifts `y` that are left. An index out of range panics: `none`.
hex_loop : Bytes → ℕ → ℕ → List ℕ → Option (ℕ × Bool)
hex_loop d x b [] = some (b, true)
hex_loop d x b (y ∷ ys) = elim (get_elem? d x) [
  | none ↦ none
  | some c ↦ elim (hex_digit c) [
    | none ↦ some (b, false)
    | some n ↦ hex_loop d (x + 1) (bit_or b (u8 (n * 2 ^ y))) ys
  ]
]

unfoldable pub read_hex_byte : Bytes → ℕ → Option (ℕ × Bool)
unfolding hex_loop hex_digit
read_hex_byte d x = if ltb (length d) (x + 2) then some (0, false) else hex_loop d x 0 (4 ∷ 0 ∷ [])

-- The digit of a number below 16, with `a` or `A` for ten.
abbrev pub hex_char : ℕ → ℕ → ℕ
hex_char ten n = if ltb n 10 then b'0' + n else ten + n - 10

hex_digit-hex_char :
    (ten n : ℕ) → (ten ≡ b'a') ⊎ (ten ≡ b'A') → n < 16 → hex_digit (hex_char ten n) ≡ some n
unfolding hex_digit
hex_digit-hex_char ten n t h = ground arith

-- `ReadHexByte` reads the two hexadecimal digits of a byte, in upper or lower case, at any place.
pub read_hex_byte_digits :
    (d rest : Bytes) (ten b : ℕ)
    → (ten ≡ b'a') ⊎ (ten ≡ b'A')
    → b < 2 ^ 8
    → read_hex_byte (d ++ (hex_char ten (b / 16) ∷ hex_char ten (b % 16) ∷ rest)) (length d)
      ≡ some (b, true)
unfolding read_hex_byte
read_hex_byte_digits d rest ten b t h =
    let tail = hex_char ten (b / 16) ∷ hex_char ten (b % 16) ∷ rest in
    ground (
      arith,
      length-append d tail,
      get_elem?-append_right d tail 0 (length d) (omega arith),
      get_elem?-append_right d tail 1 (length d + 1) (omega arith),
      hex_digit-hex_char ten (b / 16) t (omega arith),
      hex_digit-hex_char ten (b % 16) t (omega arith),
      bit_or_fields 4 (b / 16) (b % 16) (omega arith),
      bit_or_fields 8 0 (b / 16 * 16) (omega arith),
    )

hex_digit-lt : (c n : ℕ) → hex_digit c ≡ some n → n < 16
unfolding hex_digit
hex_digit-lt c n e = ground arith

-- What `ReadHexByte` answers with two bytes left, by the digits that stand there.
module _ (d : Bytes) (x a b : ℕ) (ea : get_elem? d x ≡ some a)
    (eb : get_elem? d (x + 1) ≡ some b) where
  hex_loop_two :
      {hi lo : ℕ}
      → hex_digit a ≡ some hi
      → hex_digit b ≡ some lo
      → hex_loop d x 0 (4 ∷ 0 ∷ []) ≡ some (hi * 16 + lo, true)
  unfolding hex_loop
  hex_loop_two {hi} {lo} ha hb = ground (
    arith,
    hex_digit-lt a hi ha,
    hex_digit-lt b lo hb,
    bit_or_fields 4 hi lo (hex_digit-lt b lo hb),
    bit_or_fields 8 0 (hi * 16) (omega (arith, hex_digit-lt a hi ha)),
  )

  hex_loop_bad :
      (hex_digit a ≡ none) ⊎ (hex_digit b ≡ none)
      → (v : ℕ) × (hex_loop d x 0 (4 ∷ 0 ∷ []) ≡ some (v, false))
  unfolding hex_loop
  hex_loop_bad (inl h) = (0, ground arith)
  hex_loop_bad (inr h) = elim (Option-cases (hex_digit a)) [
    | inl e ↦ (0, ground arith)
    | inr (n, e) ↦ (bit_or 0 (u8 (n * 2 ^ 4)), ground arith)
  ]

-- `ReadHexByte` always returns. Its flag is true exactly if two bytes are left and both are
-- hexadecimal digits, and then the byte is the number that they write.
pub read_hex_byte_cases :
    (d : Bytes) (x : ℕ)
    → ((a b hi lo : ℕ) × (get_elem? d x ≡ some a)
        × (get_elem? d (x + 1) ≡ some b)
        × (hex_digit a ≡ some hi)
        × (hex_digit b ≡ some lo)
        × (read_hex_byte d x ≡ some (hi * 16 + lo, true)))
      ⊎ ((length d < x + 2) × (read_hex_byte d x ≡ some (0, false)))
      ⊎ ((a b v : ℕ) × (get_elem? d x ≡ some a)
          × (get_elem? d (x + 1) ≡ some b)
          × ((hex_digit a ≡ none) ⊎ (hex_digit b ≡ none))
          × (read_hex_byte d x ≡ some (v, false)))
read_hex_byte_cases d x = elim (Bool-cases (ltb (length d) (x + 2))) [
  | inl short ↦ inr (inl (ground arith, unfold read_hex_byte in ground arith))
  | inr long ↦
      let (a, ea) = get_elem?-some d x (ground arith) in
      let (b, eb) = get_elem?-some d (x + 1) (ground arith) in
      let run : read_hex_byte d x ≡ hex_loop d x 0 (4 ∷ 0 ∷ []) = unfold read_hex_byte in rw long in
      elim (Option-cases (hex_digit a)) [
        | inl ha ↦
            let (v, e) = hex_loop_bad d x a b ea eb (inl ha) in
            inr (inr (a, b, v, ea, eb, inl ha, run ∙ e))
        | inr (hi, ha) ↦ elim (Option-cases (hex_digit b)) [
          | inl hb ↦
              let (v, e) = hex_loop_bad d x a b ea eb (inr hb) in
              inr (inr (a, b, v, ea, eb, inr hb, run ∙ e))
          | inr (lo, hb) ↦
              inl (a, b, hi, lo, ea, eb, ha, hb, run ∙ hex_loop_two d x a b ea eb ha hb)
        ]
      ]
]
