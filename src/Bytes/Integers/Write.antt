-- ===== src/Bytes/Integers/Write.antt =====
-- What a write in the middle of a slice changes.
use share.Base.{
  ◌>>=◌, ℕ, ◌+◌, ◌/◌, ◌^◌, ◌<◌, ◌≤◌, ◌≡◌, ◌≢◌, ◌⊎◌, ap, ◌∙◌, sym, none, some, arith, get_elem?, set,
  length, length-set, get_elem?-set_self, get_elem?-set_ne, u8, Bytes,
}
use share.Bytes.Integers.{
  pattern32, read_uint16, read_uint32, write_byte, write_uint16, write_uint32,
}
use share.Bytes.Integers.RoundTrip.{pattern16_sum, pattern32_sum}

-- The result of a write of two bytes, and of four.
abbrev pub set_two : Bytes → ℕ → ℕ → ℕ → ℕ → Bytes
set_two d x y a b = set (set d x a) y b

abbrev set_four : Bytes → ℕ → ℕ → ℕ → ℕ → ℕ → Bytes
set_four d x a b c e = set_two (set_two d x (x + 1) a b) (x + 2) (x + 3) c e

module _ (d : Bytes) (x y a b : ℕ) where
  pub length-set_two : length (set_two d x y a b) ≡ length d
  length-set_two = length-set (set d x a) y b ∙ length-set d x a

  pub set_two_other : (j : ℕ) → j ≢ x → j ≢ y → get_elem? (set_two d x y a b) j ≡ get_elem? d j
  set_two_other j h k =
      get_elem?-set_ne (set d x a) b (λ e. k (sym e)) ∙ get_elem?-set_ne d a (λ e. h (sym e))

  pub set_two_first : x < y → x < length d → get_elem? (set_two d x y a b) x ≡ some a
  set_two_first lt h = get_elem?-set_ne (set d x a) b (omega arith) ∙ get_elem?-set_self d x a h

  pub set_two_second : y < length d → get_elem? (set_two d x y a b) y ≡ some b
  set_two_second h = get_elem?-set_self (set d x a) y b (omega (arith, length-set d x a))

  pub write_two :
      x < length d
      → y < length d
      → (write_byte d x a >>= λ d1. write_byte d1 y b) ≡ some (set_two d x y a b)
  write_two h k = ground (arith, length-set d x a)

-- `j` lies outside `x`, …, `x + n`.
abbrev pub Outside : ℕ → ℕ → ℕ → Type 0
Outside x n j = (j < x) ⊎ (x + n < j)

-- `WriteUint16` with both bytes in range keeps the length and all other bytes, and `ReadUint16`
-- reads the number back; with the last byte out of range it panics.
pub read_uint16-write_uint16 :
    (d : Bytes) (x v : ℕ)
    → v < 2 ^ 16
    → (x + 1 < length d
        → (d' : Bytes) × (write_uint16 d x v ≡ some d')
          × (read_uint16 d' x ≡ some v)
          × (length d' ≡ length d)
          × ((j : ℕ) → Outside x 1 j → get_elem? d' j ≡ get_elem? d j))
      × (length d ≤ x + 1 → write_uint16 d x v ≡ none)
unfolding write_uint16 read_uint16
read_uint16-write_uint16 d x v hv = (
  λ h. (
    set_two d x (x + 1) (u8 (v / 2 ^ 8)) (u8 v),
    write_two d x (x + 1) _ _ (omega arith) h,
    rw (set_two_first d x (x + 1) (u8 (v / 2 ^ 8)) (u8 v) (omega arith) (omega arith)) (
        rw (set_two_second d x (x + 1) (u8 (v / 2 ^ 8)) (u8 v) h) (
          ap some
            (pattern16_sum (u8 (v / 2 ^ 8)) (u8 v) (omega arith) (omega arith) ∙ omega arith))),
    length-set_two d x (x + 1) _ _,
    λ j o. set_two_other d x (x + 1) _ _ j (ground arith) (ground arith),
  ),
  λ h. ground (arith, length-set d x (u8 (v / 2 ^ 8))),
)

module _ (d : Bytes) (x a b c e : ℕ) where
  length-set_four : length (set_four d x a b c e) ≡ length d
  length-set_four =
      length-set_two (set_two d x (x + 1) a b) (x + 2) (x + 3) c e ∙ length-set_two d x (x + 1) a b

  set_four_other : (j : ℕ) → Outside x 3 j → get_elem? (set_four d x a b c e) j ≡ get_elem? d j
  set_four_other j o =
      set_two_other (set_two d x (x + 1) a b) (x + 2) (x + 3) c e j (ground arith) (ground arith)
      ∙ set_two_other d x (x + 1) a b j (ground arith) (ground arith)

  read-set_four : x + 3 < length d → read_uint32 (set_four d x a b c e) x ≡ some (pattern32 a b c e)
  unfolding read_uint32
  read-set_four h =
      let pair = set_two d x (x + 1) a b in
      let at0 =
        set_two_other pair (x + 2) (x + 3) c e x (omega arith) (omega arith)
        ∙ set_two_first d x (x + 1) a b (omega arith) (omega arith) in
      let at1 =
        set_two_other pair (x + 2) (x + 3) c e (x + 1) (omega arith) (omega arith)
        ∙ set_two_second d x (x + 1) a b (omega arith) in
      let at2 =
        set_two_first pair (x + 2) (x + 3) c e (omega arith)
          (omega (arith, length-set_two d x (x + 1) a b)) in
      let at3 =
        set_two_second pair (x + 2) (x + 3) c e (omega (arith, length-set_two d x (x + 1) a b)) in
      rw at0 (rw at1 (rw at2 (rw at3)))

  write_four :
      x + 3 < length d
      → (write_byte d x a >>= λ d1. write_byte d1 (x + 1) b >>= λ d2.
          write_byte d2 (x + 2) c >>= λ d3. write_byte d3 (x + 3) e)
        ≡ some (set_four d x a b c e)
  write_four h = ground (
    arith,
    length-set d x a,
    length-set (set d x a) (x + 1) b,
    length-set (set_two d x (x + 1) a b) (x + 2) c,
  )

  write_four_short :
      length d ≤ x + 3
      → (write_byte d x a >>= λ d1. write_byte d1 (x + 1) b >>= λ d2.
          write_byte d2 (x + 2) c >>= λ d3. write_byte d3 (x + 3) e)
        ≡ none
  write_four_short h = ground (
    arith,
    length-set d x a,
    length-set (set d x a) (x + 1) b,
    length-set (set_two d x (x + 1) a b) (x + 2) c,
  )

-- `WriteUint32` with all four bytes in range keeps the length and all other bytes, and
-- `ReadUint32` reads the number back; with the last byte out of range it panics.
pub read_uint32-write_uint32 :
    (d : Bytes) (x v : ℕ)
    → v < 2 ^ 32
    → (x + 3 < length d
        → (d' : Bytes) × (write_uint32 d x v ≡ some d')
          × (read_uint32 d' x ≡ some v)
          × (length d' ≡ length d)
          × ((j : ℕ) → Outside x 3 j → get_elem? d' j ≡ get_elem? d j))
      × (length d ≤ x + 3 → write_uint32 d x v ≡ none)
unfolding write_uint32
read_uint32-write_uint32 d x v hv =
    let a = u8 (v / 2 ^ 24) in
    let b = u8 (v / 2 ^ 16) in
    let c = u8 (v / 2 ^ 8) in
    let e = u8 v in
    (
      λ h. (
        set_four d x a b c e,
        write_four d x a b c e h,
        read-set_four d x a b c e h
            ∙ ap some (
                pattern32_sum a b c e (omega arith) (omega arith) (omega arith) (omega arith)
                ∙ omega arith),
        length-set_four d x a b c e,
        set_four_other d x a b c e,
      ),
      write_four_short d x a b c e,
    )
