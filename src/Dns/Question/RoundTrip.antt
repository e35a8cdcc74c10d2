-- ===== src/Dns/Question/RoundTrip.antt =====
-- The question that `packQuestion` writes as `SectionQuestion.unpack` reads it.
use share.Base.{
  ℕ, zero, suc, ◌+◌, ◌^◌, ◌≤◌, ◌<◌, ◌≡◌, refl, sym, ap, ap₂, ◌∙◌, subst, false, List, [], ◌∷◌, ◌++◌,
  append-nil, append_assoc, some, arith, leb, ltb, ◌==◌, get_elem?, set, length, length-append,
  Bytes, All,
}
use share.Dns.Result.{ok, ◌>>>◌}
use share.Dns.Name.Decode.{IsNameByte, IsLabel, StandAt, set_same}
use share.Dns.Name.Labels.{join, join_two}
use share.Dns.Name.Wire.{wire}
use share.Dns.Question.{SectionQuestion, Scan, scan_label, scan, scan_end, unpack}
use share.Dns.Stand.{stand_here, stand_split, word16, read_uint16_stand}

abbrev at_name : Bytes → Bytes → ℕ → Scan
at_name name packet x = record { name = name; packet = packet; x = x }

scan_label_lem :
    (l name p : Bytes) (x : ℕ)
    → All IsNameByte l
    → StandAt (get_elem? p) x l
    → x + length l < length p
    → scan_label (length l) (at_name name p x) ≡ ok (at_name (name ++ l) p (x + length l))
unfolding scan_label
scan_label_lem [] name p x good at fits =
    ap₂ (λ (n : Bytes) (y : ℕ). ok (at_name n p y)) (sym (append-nil name)) (omega arith)
scan_label_lem (b ∷ l) name p x (h, good) (e, at) fits =
    let on : leb (length p) (x + 1) ≡ false = ground arith in
    let same : set p x b ≡ p = set_same p x b e in
    simp (e, h.small, same, on)
      (scan_label_lem l (name ++ (b ∷ [])) p (x + 1) good at (omega arith)
        ∙ ap₂ (λ (n : Bytes) (y : ℕ). ok (at_name n p y)) (append_assoc name (b ∷ []) l)
            (omega arith))

-- One label of the loop, and the last.
module _ (fuel : ℕ) (l name p : Bytes) (x : ℕ) (good : IsLabel l)
    (at : StandAt (get_elem? p) x l) where
  scan_last :
      x + length l < length p
      → get_elem? p (x + length l) ≡ some 0
      → scan (suc fuel) (length l) (at_name name p x)
        ≡ ok (at_name (name ++ l) p (x + length l + 1))
  unfolding scan
  scan_last fits ends =
      let some_there : (length l == 0) ≡ false = ground (arith, good.nonempty) in
      simp (some_there, scan_label_lem l name p x good.name_bytes at fits, ends)

  scan_more :
      (k : ℕ)
      → 0 < k
      → x + length l + 1 < length p
      → get_elem? p (x + length l) ≡ some k
      → scan (suc fuel) (length l) (at_name name p x)
        ≡ scan fuel k (at_name ((name ++ l) ++ (b'.' ∷ [])) p (x + length l + 1))
  unfolding scan
  scan_more k more fits next =
      let some_there : (length l == 0) ≡ false = ground (arith, good.nonempty) in
      let again : (k == 0) ≡ false = ground arith in
      let on : leb (length p) (x + length l + 1) ≡ false = ground arith in
      simp (some_there, scan_label_lem l name p x good.name_bytes at (omega arith), next, again, on)

scan-wire :
    (fuel : ℕ) (l : Bytes) (ls : List Bytes) (name p : Bytes) (x : ℕ)
    → IsLabel l
    → All IsLabel ls
    → StandAt (get_elem? p) x (l ++ wire ls)
    → x + length (l ++ wire ls) ≤ length p
    → length ls < fuel
    → scan fuel (length l) (at_name name p x)
      ≡ ok (at_name (name ++ join (l ∷ ls)) p (x + length (l ++ wire ls)))
scan-wire zero l ls name p x good more at fits enough = absurd (omega arith)
scan-wire (suc fuel) l [] name p x good more at fits enough =
    let (front, (next, end)) = stand_split (get_elem? p) l (0 ∷ []) x at in
    let long : length (l ++ (0 ∷ [])) ≡ length l + 1 = length-append l (0 ∷ []) in
    scan_last fuel l name p x good front (omega arith) next
    ∙ ap (λ (k : ℕ). ok (at_name (name ++ l) p k)) (omega arith)
scan-wire (suc fuel) l (l2 ∷ ls) name p x good (good2, more) at fits enough =
    let (front, (next, back)) = stand_split (get_elem? p) l (wire (l2 ∷ ls)) x at in
    let long = length-append l (wire (l2 ∷ ls)) in
    scan_more fuel l name p x good front (length l2) good2.nonempty
      (omega (arith, long, length-append l2 (wire ls), good2.nonempty)) next
    ∙ scan-wire fuel l2 ls ((name ++ l) ++ (b'.' ∷ [])) p (x + length l + 1) good2 more back
        (omega (arith, long)) (omega arith)
    ∙ ap (λ (k : ℕ). ok (at_name (((name ++ l) ++ (b'.' ∷ [])) ++ join (l2 ∷ ls)) p k))
        (omega (arith, long))
    ∙ ap (λ (n : Bytes). ok (at_name n p (x + length (l ++ wire (l2 ∷ ls)))))
        (append_assoc (name ++ l) (b'.' ∷ []) (join (l2 ∷ ls))
          ∙ append_assoc name l (b'.' ∷ join (l2 ∷ ls))
          ∙ ap (◌++◌ name) (sym (join_two l l2 ls good2)))

pub wire_longer : (ls : List Bytes) → length ls < length (wire ls)
wire_longer [] = omega arith
wire_longer (l ∷ ls) = omega (arith, wire_longer ls, length-append l (wire ls))

-- The bytes of a question.
abbrev pub question_wire : List Bytes → ℕ → ℕ → Bytes
question_wire ls qtype qclass = wire ls ++ (word16 qtype ++ word16 qclass)

scan_end_lem :
    (question : SectionQuestion) (name p : Bytes) (x qtype qclass : ℕ)
    → qtype < 2 ^ 16
    → qclass < 2 ^ 16
    → x + 4 ≤ length p
    → StandAt (get_elem? p) x (word16 qtype ++ word16 qclass)
    → scan_end question (at_name name p x)
      ≡ ok (record { name = name; qtype = qtype; qclass = qclass }, p)
unfolding scan_end
scan_end_lem question name p x qtype qclass ht hc fits at =
    let (t, c) = stand_split (get_elem? p) (word16 qtype) (word16 qclass) x at in
    let long : ltb (length p) (x + 4) ≡ false = ground arith in
    simp (long, read_uint16_stand p x qtype ht t, read_uint16_stand p (x + 2) qclass hc c)

-- A question whose name is of one or more labels, each of 1 to 63 small bytes without a dot or a
-- backslash, is read from its bytes, whatever follows them: the name is added to the name that the
-- question has, and the packet is not changed.
pub unpack-question_wire :
    (question : SectionQuestion) (l : Bytes) (ls : List Bytes) (qtype qclass : ℕ) (rest : Bytes)
    → IsLabel l
    → All IsLabel ls
    → qtype < 2 ^ 16
    → qclass < 2 ^ 16
    → unpack question (question_wire (l ∷ ls) qtype qclass ++ rest)
      ≡ ok (
        record { name = question.name ++ join (l ∷ ls); qtype = qtype; qclass = qclass },
        question_wire (l ∷ ls) qtype qclass ++ rest,
      )
unfolding unpack
unpack-question_wire question l ls qtype qclass rest good more ht hc =
    let p = question_wire (l ∷ ls) qtype qclass ++ rest in
    let fields = word16 qtype ++ word16 qclass in
    let w = l ++ wire ls in
    let size : length p ≡ 5 + length w + length rest = omega (
      arith,
      length-append (length l ∷ w) fields,
      length-append (question_wire (l ∷ ls) qtype qclass) rest,
    ) in
    let front : StandAt (get_elem? p) 0 (question_wire (l ∷ ls) qtype qclass) =
      stand_here [] (question_wire (l ∷ ls) qtype qclass) rest 0 refl in
    let (named, after) = stand_split (get_elem? p) (length l ∷ w) fields 0 front in
    let scanned =
      scan-wire (length p) l ls question.name p 1 good more named.1 (omega arith)
        (omega (arith, wire_longer ls, length-append l (wire ls))) in
    ap (λ r. r >>> scan_end question) scanned
    ∙ scan_end_lem question (question.name ++ join (l ∷ ls)) p (1 + length w) qtype qclass ht hc
        (omega arith) (subst (λ y. StandAt (get_elem? p) y fields) (omega arith) after)
