-- ===== src/Dns/Name/Labels.antt =====
-- Names as lists of labels, and one label of `packDomainName`.
use share.Base.{
  ℕ, zero, suc, ◌+◌, ◌^◌, ◌<◌, ◌≡◌, refl, sym, ap, ap₂, ◌∙◌, Bool, true, false, List, [], ◌∷◌, ◌++◌,
  append-nil, append_assoc, some, arith, ltb, lt→ltb, ◌==◌, set, length, length-append, u8, u16,
  Bytes, All,
}
use share.Ascii.{to_lower, lower_byte}
use share.Dns.Name.{Packer, bytes_eq, end_label, push, pack_loop}
use share.Dns.Name.Decode.{IsNameByte, IsLabel, dotted}

-- The text of a name.
abbrev pub join : List Bytes → Bytes
join [] = []
join (l ∷ ls) = dotted l (join ls)

pub join_cons :
    (l : Bytes) (ls : List Bytes) → IsLabel l → (b : ℕ) × (bs : Bytes) × (join (l ∷ ls) ≡ b ∷ bs)
join_cons [] ls good = absurd (omega (arith, good.nonempty))
join_cons (b ∷ l) ls good = go (join ls)
  where
    go : (rest : Bytes) → (c : ℕ) × (bs : Bytes) × (dotted (b ∷ l) rest ≡ c ∷ bs)
    go [] = (b, l, refl)
    go (c ∷ rest) = (b, l ++ (b'.' ∷ (c ∷ rest)), refl)

-- A name of two labels or more.
pub join_two :
    (l l2 : Bytes) (ls : List Bytes)
    → IsLabel l2
    → join (l ∷ (l2 ∷ ls)) ≡ l ++ (b'.' ∷ join (l2 ∷ ls))
join_two l l2 ls good =
    let (b, bs, e) = join_cons l2 ls good in ap (dotted l) e ∙ ap (λ t. l ++ (b'.' ∷ t)) (sym e)

lower_byte_same : (b : ℕ) → IsNameByte b → lower_byte b ≡ b
unfolding lower_byte
lower_byte_same b h = ground (arith, h.small)

to_lower_same : (l : Bytes) → All IsNameByte l → to_lower l ≡ l
unfolding to_lower
to_lower_same [] good = refl
to_lower_same (b ∷ l) (h, good) = ap₂ ◌∷◌ (lower_byte_same b h) (to_lower_same l good)

to_lower-append : (xs ys : Bytes) → to_lower (xs ++ ys) ≡ to_lower xs ++ to_lower ys
unfolding to_lower
to_lower-append [] ys = refl
to_lower-append (x ∷ xs) ys = ap (◌∷◌ (lower_byte x)) (to_lower-append xs ys)

to_lower-dotted :
    (l rest : Bytes)
    → All IsNameByte l
    → to_lower rest ≡ rest
    → to_lower (dotted l rest) ≡ dotted l rest
to_lower-dotted l [] good e = to_lower_same l good
to_lower-dotted l (b ∷ bs) good e =
    to_lower-append l (b'.' ∷ (b ∷ bs))
    ∙ ap₂ ◌++◌ (to_lower_same l good) (unfold to_lower lower_byte in ap (◌∷◌ b'.') e)

pub to_lower-join : (ls : List Bytes) → All IsLabel ls → to_lower (join ls) ≡ join ls
to_lower-join [] good = unfold to_lower in refl
to_lower-join (l ∷ ls) (h, good) = to_lower-dotted l (join ls) h.name_bytes (to_lower-join ls good)

pub bytes_eq_sound : (xs ys : Bytes) → bytes_eq xs ys ≡ true → xs ≡ ys
bytes_eq_sound [] [] h = refl
bytes_eq_sound [] (y ∷ ys) h = cc h
bytes_eq_sound (x ∷ xs) [] h = cc h
bytes_eq_sound (x ∷ xs) (y ∷ ys) h = ap₂ ◌∷◌ (ground arith) (bytes_eq_sound xs ys (ground arith))

pub bytes_eq_refl : (xs : Bytes) → bytes_eq xs xs ≡ true
bytes_eq_refl [] = refl
bytes_eq_refl (x ∷ xs) = ground (arith, bytes_eq_refl xs)

-- Bytes of a label are appended to the packet.
pub pack_loop-plain :
    (c ie : Bool) (n count : ℕ) (m : Packer) (l rest : Bytes)
    → All IsNameByte l
    → count + length l < 256
    → pack_loop c ie 0 count n m (l ++ rest)
      ≡ pack_loop c ie 0 (count + length l) n (record m { packet = m.packet ++ l }) rest
unfolding pack_loop
pack_loop-plain c ie n count m [] rest good h =
    ap₂ (λ (k : ℕ) (p : Bytes). pack_loop c ie 0 k n (record m { packet = p }) rest) (omega arith)
      (sym (append-nil m.packet))
pack_loop-plain c ie n count m (b ∷ l) rest (g, good) h =
    let no_escape : (b == b'\\') ≡ false = ground (arith, g.no_escape) in
    let no_dot : (b == b'.') ≡ false = ground (arith, g.no_dot) in
    let counted : u8 (count + 1) ≡ count + 1 = omega arith in
    simp (no_escape, no_dot, counted)
      (pack_loop-plain c ie n (count + 1) (push m b) l rest good (omega arith)
        ∙ ap₂ (λ (k : ℕ) (p : Bytes). pack_loop c ie 0 k n (record m { packet = p }) rest)
            (omega arith) (append_assoc m.packet (b ∷ []) l))

set-append : (p l : Bytes) (x v b : ℕ) → x ≡ length p → set (p ++ (b ∷ l)) x v ≡ p ++ (v ∷ l)
set-append [] l zero v b e = refl
set-append [] l (suc x) v b e = absurd (omega arith)
set-append (c ∷ p) l zero v b e = absurd (omega arith)
set-append (c ∷ p) l (suc x) v b e = ap (◌∷◌ c) (set-append p l x v b (omega arith))

-- The end of a label whose length is still 0 in the packet.
pub end_label_lem :
    (m : Packer) (p l : Bytes)
    → m.packet ≡ p ++ (0 ∷ l)
    → m.off ≡ length p
    → length l < 255
    → length p + length l + 1 < 2 ^ 16
    → end_label m (length l)
      ≡ some (record m { packet = p ++ (length l ∷ l); off = length p + length l + 1 })
unfolding end_label
end_label_lem m p l is at short fits =
    let inside : ltb m.off (length m.packet) ≡ true =
      lt→ltb m.off (length m.packet) (omega (arith, ap length is, length-append p (0 ∷ l))) in
    let filled : set m.packet m.off (length l) ≡ p ++ (length l ∷ l) =
      ap (λ q. set q m.off (length l)) is ∙ set-append p l m.off (length l) 0 at in
    let past : u16 (m.off + u8 (length l + 1)) ≡ length p + length l + 1 = omega arith in
    simp (inside, filled, past)
