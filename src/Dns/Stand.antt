-- ===== src/Dns/Stand.antt =====
-- Bytes that stand at a place of a packet, and the integers read there.
use share.Base.{
  ℕ, ◌+◌, ◌/◌, ◌^◌, ◌<◌, ◌≡◌, ap, ◌∙◌, subst, [], ◌∷◌, ◌++◌, append_assoc, some, arith, get_elem?,
  get_elem?-append_right, length, length-append, u8, Bytes,
}
use share.Base.Int.{ℤ}
use share.Bytes.Integers.{
  signed, shift_right, byte_of, append_int16, append_int32, append_uint16, append_uint32,
  read_int16, read_int32, read_uint16, read_uint32,
}
use share.Bytes.Integers.RoundTrip.{
  pattern16_sum, pattern32_sum, FitsSigned, signed16_bytes, signed32_bytes, byte_of-IsByte,
}
use share.Dns.Name.Decode.{View, StandAt}

pub stand_here :
    (pre w rest : Bytes) (x : ℕ) → x ≡ length pre → StandAt (get_elem? (pre ++ (w ++ rest))) x w
stand_here pre [] rest x e = tt
stand_here pre (b ∷ w) rest x e = (
  get_elem?-append_right pre (b ∷ (w ++ rest)) 0 x (omega arith),
  subst (λ p. StandAt (get_elem? p) (x + 1) w) (append_assoc pre (b ∷ []) (w ++ rest))
      (stand_here (pre ++ (b ∷ [])) w rest (x + 1) (omega (arith, length-append pre (b ∷ [])))),
)

pub stand_split :
    (v : View) (a b : Bytes) (x : ℕ)
    → StandAt v x (a ++ b)
    → StandAt v x a × StandAt v (x + length a) b
stand_split v [] b x at = (tt, subst (λ y. StandAt v y b) (omega arith) at)
stand_split v (c ∷ a) b x (e, at) =
    let (front, back) = stand_split v a b (x + 1) at in
    ((e, front), subst (λ y. StandAt v y b) (omega arith) back)

-- The bytes of an integer.
abbrev pub word16 : ℕ → Bytes
word16 v = u8 (v / 2 ^ 8) ∷ u8 v ∷ []

abbrev pub word32 : ℕ → Bytes
word32 v = u8 (v / 2 ^ 24) ∷ u8 (v / 2 ^ 16) ∷ u8 (v / 2 ^ 8) ∷ u8 v ∷ []

abbrev pub int16 : ℤ → Bytes
int16 v = byte_of (shift_right v 8) ∷ byte_of v ∷ []

abbrev pub int32 : ℤ → Bytes
int32 v =
    byte_of (shift_right v 24)
    ∷ byte_of (shift_right v 16)
    ∷ byte_of (shift_right v 8)
    ∷ byte_of v
    ∷ []

pub append_uint16_lem : (p : Bytes) (v : ℕ) → append_uint16 p v ≡ p ++ word16 v
unfolding append_uint16
append_uint16_lem p v = append_assoc p (u8 (v / 2 ^ 8) ∷ []) (u8 v ∷ [])

pub append_int16_lem : (p : Bytes) (v : ℤ) → append_int16 p v ≡ p ++ int16 v
unfolding append_int16
append_int16_lem p v = append_assoc p (byte_of (shift_right v 8) ∷ []) (byte_of v ∷ [])

pub append_uint32_lem : (p : Bytes) (v : ℕ) → append_uint32 p v ≡ p ++ word32 v
unfolding append_uint32
append_uint32_lem p v = simp append_assoc

pub append_int32_lem : (p : Bytes) (v : ℤ) → append_int32 p v ≡ p ++ int32 v
unfolding append_int32
append_int32_lem p v = simp append_assoc

module _ (p : Bytes) (x : ℕ) where
  pub read_uint16_stand :
      (v : ℕ) → v < 2 ^ 16 → StandAt (get_elem? p) x (word16 v) → read_uint16 p x ≡ some v
  unfolding read_uint16
  read_uint16_stand v h (e0, (e1, end)) = rw e0 (
      rw e1
        (ap some (pattern16_sum (u8 (v / 2 ^ 8)) (u8 v) (omega arith) (omega arith) ∙ omega arith)))

  pub read_int16_stand :
      (v : ℤ) → FitsSigned 15 v → StandAt (get_elem? p) x (int16 v) → read_int16 p x ≡ some v
  unfolding read_int16
  read_int16_stand v h (e0, (e1, end)) = rw e0 (
      rw e1 (
        ap (λ (t : ℕ). some (signed 16 t))
          (pattern16_sum (byte_of (shift_right v 8)) (byte_of v) (byte_of-IsByte _)
            (byte_of-IsByte v))
        ∙ ap some (signed16_bytes v h)))

  pub read_uint32_stand :
      (v : ℕ) → v < 2 ^ 32 → StandAt (get_elem? p) x (word32 v) → read_uint32 p x ≡ some v
  unfolding read_uint32
  read_uint32_stand v h (e0, (e1, (e2, (e3, end)))) =
      let f2 : get_elem? p (x + 2) ≡ some (u8 (v / 2 ^ 8)) = ap (get_elem? p) (omega arith) ∙ e2 in
      let f3 : get_elem? p (x + 3) ≡ some (u8 v) = ap (get_elem? p) (omega arith) ∙ e3 in
      rw e0 (
        rw e1 (
          rw f2 (
            rw f3 (
              ap some (
                pattern32_sum (u8 (v / 2 ^ 24)) (u8 (v / 2 ^ 16)) (u8 (v / 2 ^ 8)) (u8 v)
                  (omega arith) (omega arith) (omega arith) (omega arith)
                ∙ omega arith)))))

  pub read_int32_stand :
      (v : ℤ) → FitsSigned 31 v → StandAt (get_elem? p) x (int32 v) → read_int32 p x ≡ some v
  unfolding read_int32
  read_int32_stand v h (e0, (e1, (e2, (e3, end)))) =
      let f2 : get_elem? p (x + 2) ≡ some (byte_of (shift_right v 8)) =
        ap (get_elem? p) (omega arith) ∙ e2 in
      let f3 : get_elem? p (x + 3) ≡ some (byte_of v) = ap (get_elem? p) (omega arith) ∙ e3 in
      rw e0 (
        rw e1 (
          rw f2 (
            rw f3 (
              ap (λ (t : ℕ). some (signed 32 t))
                (pattern32_sum (byte_of (shift_right v 24)) (byte_of (shift_right v 16))
                  (byte_of (shift_right v 8)) (byte_of v) (byte_of-IsByte _) (byte_of-IsByte _)
                  (byte_of-IsByte _) (byte_of-IsByte v))
              ∙ ap some (signed32_bytes v h)))))
