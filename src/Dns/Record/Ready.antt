-- ===== src/Dns/Record/Ready.antt =====
-- The packer between two names, and the two bytes of a length that is written last.
use share.Base.{
  ℕ, ◌+◌, ◌/◌, ◌^◌, ◌≤◌, ◌<◌, ◌≡◌, ◌≢◌, sym, ap, ◌∙◌, Bool, false, ◌||◌, ◌++◌, some, arith, ◌==◌,
  get_elem?, length, length-append, u8, u16, Bytes,
}
use share.Bytes.Integers.{write_uint16}
use share.Bytes.Integers.Write.{
  set_two, length-set_two, set_two_other, set_two_first, set_two_second, write_two,
}
use share.Dns.Name.{Packer}
use share.Dns.Name.Decode.{View, StandAt, weaken-Decodes}
use share.Dns.Name.Pack.{view, Below, get_elem?-append_some, Entry-append}
use share.Dns.Name.Wrote.{AllValid}
use share.Dns.Name.RoundTrip.{nothing, view_seen, view_visible}
use share.Dns.Question.Finish.{get_elem?_within}
use share.Dns.Record.Pack.{write_rdlength}
use share.Dns.Stand.{word16}

-- Where a packer stands between two names: `off` is the length of the packet, and the kept places are
-- good.
pub record Ready (hidden : ℕ → Bool) (m : Packer) : Type 0 where
  pub at_end : m.off ≡ length m.packet
  pub valid : AllValid hidden m

-- Bytes appended, and `off` moved past them.
abbrev pub put : Packer → Bytes → Packer
put m q = record m { packet = m.packet ++ q; off = u16 (m.off + length q) }

pub put-Ready :
    (hidden : ℕ → Bool) (m : Packer) (q : Bytes)
    → Ready hidden m
    → length m.packet + length q < 2 ^ 16
    → Ready hidden (put m q)
put-Ready hidden m q ready fits = record {
  at_end = omega (arith, ready.at_end, length-append m.packet q);
  valid = λ key o e. Entry-append hidden m.packet q key o (ready.valid key o e);
}

-- All that is known of a packet is known of another.
abbrev pub Extends : View → View → Type 0
Extends v w = (y b : ℕ) → v y ≡ some b → w y ≡ some b

-- The two bytes at `o`.
abbrev pub hides : ℕ → ℕ → Bool
hides o x = x == o || x == (o + 1)

pub hides-Below : (o k : ℕ) → o + 2 ≤ k → Below (hides o) k
hides-Below o k h x past =
    let first : (x == o) ≡ false = ground arith in
    let second : (x == (o + 1)) ≡ false = ground arith in simp (first, second)

pub hides_before : (o x : ℕ) → x < o → hides o x ≡ false
hides_before o x h =
    let first : (x == o) ≡ false = ground arith in
    let second : (x == (o + 1)) ≡ false = ground arith in simp (first, second)

hides_not : (o x : ℕ) → hides o x ≡ false → (x ≢ o) × (x ≢ o + 1)
hides_not o x e = (λ f. hidden_first f, λ f. hidden_second f)
  where
    hidden_first : x ≢ o
    hidden_first f = ground arith

    hidden_second : x ≢ o + 1
    hidden_second f = ground arith

-- What was known before the two bytes were reserved.
pub enter-Ready :
    (m : Packer) (q : Bytes)
    → Ready nothing m
    → length m.packet + length q < 2 ^ 16
    → Ready (hides (length m.packet)) (put m q)
enter-Ready m q ready fits = record {
  at_end = omega (arith, ready.at_end, length-append m.packet q);
  valid = λ key o e.
      let (end, d, low) = ready.valid key o e in
      (
        end,
        weaken-Decodes (view nothing m.packet) (view (hides (length m.packet)) (m.packet ++ q)) seen
            d,
        low,
      );
}
  where
    seen : Extends (view nothing m.packet) (view (hides (length m.packet)) (m.packet ++ q))
    seen y b e =
        let there = view_seen nothing m.packet y b e in
        rw (hides_before (length m.packet) y (get_elem?_within m.packet y b there))
          (get_elem?-append_some m.packet q y b there)

-- The packet after the length is written.
pub record Sealed (m m' : Packer) (o n : ℕ) : Type 0 where
  pub ready : Ready nothing m'
  pub long : length m'.packet ≡ length m.packet
  pub rdlength : StandAt (get_elem? m'.packet) o (word16 n)
  pub keeps : Extends (view (hides o) m.packet) (get_elem? m'.packet)

pub write_rdlength-Sealed :
    (m : Packer) (o n : ℕ)
    → Ready (hides o) m
    → o + 1 < length m.packet
    → n < 2 ^ 16
    → (m' : Packer) × (write_rdlength m o n ≡ some m') × Sealed m m' o n
unfolding write_uint16 write_rdlength
write_rdlength-Sealed m o n ready within small =
    let p = set_two m.packet o (o + 1) (u8 (u16 n / 2 ^ 8)) (u8 (u16 n)) in
    let written : write_uint16 m.packet o (u16 n) ≡ some p =
      write_two m.packet o (o + 1) (u8 (u16 n / 2 ^ 8)) (u8 (u16 n)) (omega arith) within in
    let long : length p ≡ length m.packet = length-set_two m.packet o (o + 1) _ _ in
    let m' : Packer = record m { packet = p } in
    let keeps : Extends (view (hides o) m.packet) (get_elem? p) = λ y b e. kept y b e in
    (
      m',
      simp written,
      record {
        ready = record {
          at_end = ready.at_end ∙ sym long;
          valid = λ key k e.
              let (end, d, low) = ready.valid key k e in
              (end, weaken-Decodes (view (hides o) m.packet) (view nothing p) keeps d, low);
        };
        long = long;
        rdlength = (
          set_two_first m.packet o (o + 1) _ _ (omega arith) (omega arith) ∙ ap some (omega arith),
          (set_two_second m.packet o (o + 1) _ _ within ∙ ap some (omega arith), tt),
        );
        keeps = keeps;
      },
    )
  where
    kept :
        Extends
          (view (hides o) m.packet)
          (get_elem? (set_two m.packet o (o + 1) (u8 (u16 n / 2 ^ 8)) (u8 (u16 n))))
    kept y b e =
        let (first, second) = hides_not o y (view_visible (hides o) m.packet y b e) in
        set_two_other m.packet o (o + 1) _ _ y first second ∙ view_seen (hides o) m.packet y b e
