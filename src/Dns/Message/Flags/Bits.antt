-- ===== src/Dns/Message/Flags/Bits.antt =====
-- The bytes of flags as the setters change them.
use share.Base.{
  ℕ, ◌*◌, ◌/◌, ◌^◌, ◌<◌, ◌≡◌, refl, Bool, true, false, ltb, ltb→lt, ◌==◌, ==_iff, if◌then◌else◌,
  bit_and, bit_or,
}
use share.Base.Bits.{every, every-lt}
use share.Dns.Header.{
  header_is_response, header_is_aa, header_is_tc, header_is_rd, header_is_ra, has,
}
use share.Dns.Header.RoundTrip.{both, all_flags, by_flags, eqb, eqb_holds}

-- The third byte with the flag RD set or not.
module _ (on : Bool) (c : ℕ) (h : c < 2 ^ 8) where
  pub rd_response :
      has (if on then bit_or c header_is_rd else bit_and c 0xfe) header_is_response
      ≡ has c header_is_response
  unfolding every all_flags both
  rd_response = eqb_holds _ _ (
      by_flags
        (λ on u v w c.
          eqb (has (if on then bit_or c header_is_rd else bit_and c 0xfe) header_is_response)
            (has c header_is_response))
        refl on on on on c h)

  pub rd_aa :
      has (if on then bit_or c header_is_rd else bit_and c 0xfe) header_is_aa ≡ has c header_is_aa
  unfolding every all_flags both
  rd_aa = eqb_holds _ _ (
      by_flags
        (λ on u v w c.
          eqb (has (if on then bit_or c header_is_rd else bit_and c 0xfe) header_is_aa)
            (has c header_is_aa))
        refl on on on on c h)

  pub rd_tc :
      has (if on then bit_or c header_is_rd else bit_and c 0xfe) header_is_tc ≡ has c header_is_tc
  unfolding every all_flags both
  rd_tc = eqb_holds _ _ (
      by_flags
        (λ on u v w c.
          eqb (has (if on then bit_or c header_is_rd else bit_and c 0xfe) header_is_tc)
            (has c header_is_tc))
        refl on on on on c h)

  pub rd_rd : has (if on then bit_or c header_is_rd else bit_and c 0xfe) header_is_rd ≡ on
  unfolding every all_flags both
  rd_rd = eqb_holds _ _ (
      by_flags
        (λ on u v w c.
          eqb (has (if on then bit_or c header_is_rd else bit_and c 0xfe) header_is_rd) (on))
        refl on on on on c h)

  pub rd_op : bit_and (if on then bit_or c header_is_rd else bit_and c 0xfe) 0x78 ≡ bit_and c 0x78
  unfolding every all_flags both
  rd_op = (==_iff _ _).0 (
      by_flags
        (λ on u v w c.
          (bit_and (if on then bit_or c header_is_rd else bit_and c 0xfe) 0x78) == (bit_and c 0x78))
        refl on on on on c h)

-- The third byte with the flag AA set or not.
module _ (on : Bool) (c : ℕ) (h : c < 2 ^ 8) where
  pub aa_response :
      has (if on then bit_or c header_is_aa else bit_and c 0xfb) header_is_response
      ≡ has c header_is_response
  unfolding every all_flags both
  aa_response = eqb_holds _ _ (
      by_flags
        (λ on u v w c.
          eqb (has (if on then bit_or c header_is_aa else bit_and c 0xfb) header_is_response)
            (has c header_is_response))
        refl on on on on c h)

  pub aa_aa : has (if on then bit_or c header_is_aa else bit_and c 0xfb) header_is_aa ≡ on
  unfolding every all_flags both
  aa_aa = eqb_holds _ _ (
      by_flags
        (λ on u v w c.
          eqb (has (if on then bit_or c header_is_aa else bit_and c 0xfb) header_is_aa) (on))
        refl on on on on c h)

  pub aa_tc :
      has (if on then bit_or c header_is_aa else bit_and c 0xfb) header_is_tc ≡ has c header_is_tc
  unfolding every all_flags both
  aa_tc = eqb_holds _ _ (
      by_flags
        (λ on u v w c.
          eqb (has (if on then bit_or c header_is_aa else bit_and c 0xfb) header_is_tc)
            (has c header_is_tc))
        refl on on on on c h)

  pub aa_rd :
      has (if on then bit_or c header_is_aa else bit_and c 0xfb) header_is_rd ≡ has c header_is_rd
  unfolding every all_flags both
  aa_rd = eqb_holds _ _ (
      by_flags
        (λ on u v w c.
          eqb (has (if on then bit_or c header_is_aa else bit_and c 0xfb) header_is_rd)
            (has c header_is_rd))
        refl on on on on c h)

  pub aa_op : bit_and (if on then bit_or c header_is_aa else bit_and c 0xfb) 0x78 ≡ bit_and c 0x78
  unfolding every all_flags both
  aa_op = (==_iff _ _).0 (
      by_flags
        (λ on u v w c.
          (bit_and (if on then bit_or c header_is_aa else bit_and c 0xfb) 0x78) == (bit_and c 0x78))
        refl on on on on c h)

-- The third byte of a query, and of a response, and the fourth byte of a query.
module _ (c : ℕ) (h : c < 2 ^ 8) where
  pub query_response : has (bit_and c 0x71) header_is_response ≡ false
  unfolding every all_flags both
  query_response = eqb_holds _ _ (
      by_flags (λ on u v w c. eqb (has (bit_and c 0x71) header_is_response) (false)) refl true true
        true true c h)

  pub query_aa : has (bit_and c 0x71) header_is_aa ≡ false
  unfolding every all_flags both
  query_aa = eqb_holds _ _ (
      by_flags (λ on u v w c. eqb (has (bit_and c 0x71) header_is_aa) (false)) refl true true true
        true c h)

  pub query_tc : has (bit_and c 0x71) header_is_tc ≡ false
  unfolding every all_flags both
  query_tc = eqb_holds _ _ (
      by_flags (λ on u v w c. eqb (has (bit_and c 0x71) header_is_tc) (false)) refl true true true
        true c h)

  pub query_rd : has (bit_and c 0x71) header_is_rd ≡ has c header_is_rd
  unfolding every all_flags both
  query_rd = eqb_holds _ _ (
      by_flags (λ on u v w c. eqb (has (bit_and c 0x71) header_is_rd) (has c header_is_rd)) refl
        true true true true c h)

  pub query_op : bit_and (bit_and c 0x71) 0x78 / 2 ^ 2 ≡ bit_and c 0x78 / 2 ^ 2 / 4 * 4
  unfolding every all_flags both
  query_op = (==_iff _ _).0 (
      by_flags
        (λ on u v w c. (bit_and (bit_and c 0x71) 0x78 / 2 ^ 2) == (bit_and c 0x78 / 2 ^ 2 / 4 * 4))
        refl true true true true c h)

  pub reply_response : has (bit_or c header_is_response) header_is_response ≡ true
  unfolding every all_flags both
  reply_response = eqb_holds _ _ (
      by_flags (λ on u v w c. eqb (has (bit_or c header_is_response) header_is_response) (true))
        refl true true true true c h)

  pub reply_aa : has (bit_or c header_is_response) header_is_aa ≡ has c header_is_aa
  unfolding every all_flags both
  reply_aa = eqb_holds _ _ (
      by_flags
        (λ on u v w c. eqb (has (bit_or c header_is_response) header_is_aa) (has c header_is_aa))
        refl true true true true c h)

  pub reply_tc : has (bit_or c header_is_response) header_is_tc ≡ has c header_is_tc
  unfolding every all_flags both
  reply_tc = eqb_holds _ _ (
      by_flags
        (λ on u v w c. eqb (has (bit_or c header_is_response) header_is_tc) (has c header_is_tc))
        refl true true true true c h)

  pub reply_rd : has (bit_or c header_is_response) header_is_rd ≡ has c header_is_rd
  unfolding every all_flags both
  reply_rd = eqb_holds _ _ (
      by_flags
        (λ on u v w c. eqb (has (bit_or c header_is_response) header_is_rd) (has c header_is_rd))
        refl true true true true c h)

  pub reply_op : bit_and (bit_or c header_is_response) 0x78 ≡ bit_and c 0x78
  unfolding every all_flags both
  reply_op = (==_iff _ _).0 (
      by_flags (λ on u v w c. (bit_and (bit_or c header_is_response) 0x78) == (bit_and c 0x78)) refl
        true true true true c h)

  pub query_ra : has (bit_and c 0x7f) header_is_ra ≡ false
  unfolding every all_flags both
  query_ra = eqb_holds _ _ (
      by_flags (λ on u v w c. eqb (has (bit_and c 0x7f) header_is_ra) (false)) refl true true true
        true c h)

  pub query_rcode : bit_and 0x0f (bit_and c 0x7f) ≡ bit_and 0x0f c
  unfolding every all_flags both
  query_rcode = (==_iff _ _).0 (
      by_flags (λ on u v w c. (bit_and 0x0f (bit_and c 0x7f)) == (bit_and 0x0f c)) refl true true
        true true c h)

  pub ok_ra : has (bit_and c 0xf0) header_is_ra ≡ has c header_is_ra
  unfolding every all_flags both
  ok_ra = eqb_holds _ _ (
      by_flags (λ on u v w c. eqb (has (bit_and c 0xf0) header_is_ra) (has c header_is_ra)) refl
        true true true true c h)

  pub ok_rcode : bit_and 0x0f (bit_and c 0xf0) ≡ 0
  unfolding every all_flags both
  ok_rcode =
      (==_iff _ _).0 (
        by_flags (λ on u v w c. (bit_and 0x0f (bit_and c 0xf0)) == (0)) refl true true true true c
          h)

-- A test of a byte and four more bits, by its table.
byte_and_four :
    (test : ℕ → ℕ → Bool)
    → every (λ c. every (test c) 16) 256 ≡ true
    → (c k : ℕ) → c < 2 ^ 8
    → k < 16
    → test c k ≡ true
byte_and_four test table c k h low =
    every-lt (test c) 16 k (every-lt (λ d. every (test d) 16) 256 c table h) low

-- The fourth byte with the bits of a response code added.
module _ (c code : ℕ) (h : c < 2 ^ 8) (small : code < 2 ^ 8) where
  low_nibble : bit_and 0x0f code < 16
  unfolding every
  low_nibble = ltb→lt _ _ (every-lt (λ n. ltb (bit_and 0x0f n) 16) 256 code refl small)

  pub code_ra : has (bit_or c (bit_and 0x0f code)) header_is_ra ≡ has c header_is_ra
  unfolding every
  code_ra = eqb_holds _ _ (
      byte_and_four (λ c k. eqb (has (bit_or c k) header_is_ra) (has c header_is_ra)) refl c _ h
        low_nibble)

  pub code_rcode :
      bit_and 0x0f (bit_or c (bit_and 0x0f code)) ≡ bit_or (bit_and 0x0f c) (bit_and 0x0f code)
  unfolding every
  code_rcode = (==_iff _ _).0 (
      byte_and_four (λ c k. bit_and 0x0f (bit_or c k) == bit_or (bit_and 0x0f c) k) refl c _ h
        low_nibble)
