-- ===== src/Dns/Question.antt =====
-- The question section of a message: lib/dns/sectionquestion.go.
pub mod Finish
pub mod RoundTrip
use share.Base.{
  ◌>>=◌, ℕ, zero, suc, ◌+◌, ◌-◌, Bool, true, false, List, [], ◌∷◌, ◌++◌, Option, none, some, leb,
  ltb, ◌==◌, if◌then◌else◌, get_elem?, set, length, Bytes,
}
use share.Bytes.Integers.{read_uint16}
use share.Dns.Name.{lower_letter}
use share.Dns.Result.{Error, invalid_question, Result, ok, fail, no_fuel, ◌>>>◌, or_panic}

abbrev pub query_type_a : ℕ
query_type_a = 1

abbrev pub query_class_in : ℕ
query_class_in = 1

pub record SectionQuestion : Type 0 where
  pub name : Bytes
  pub qtype : ℕ
  pub qclass : ℕ

unfoldable pub reset : SectionQuestion → SectionQuestion
reset question = record { name = []; qtype = query_type_a; qclass = query_class_in }

abbrev pub size : SectionQuestion → ℕ
size question = length question.name + 6

-- The name so far, the packet with its capitals made small, and `x`.
pub record Scan : Type 0 where
  pub name : Bytes
  pub packet : Bytes
  pub x : ℕ

-- The loop over the bytes of a label.
unfoldable pub scan_label : ℕ → Scan → Result Scan
scan_label zero s = ok s
scan_label (suc k) s = or_panic (get_elem? s.packet s.x) >>> λ c.
    let p = set s.packet s.x (lower_letter c) in
    let rest =
      scan_label k (record { name = s.name ++ (lower_letter c ∷ []); packet = p; x = s.x + 1 }) in
    if leb (length p) (s.x + 1) then fail invalid_question else rest

-- `question.Name = append(question.Name, '.')`
abbrev pub dot : Scan → Scan
dot s = record s { name = s.name ++ (b'.' ∷ []) }

-- `x++`
abbrev pub step : Scan → Scan
step s = record s { x = s.x + 1 }

-- The loop of `unpack`, with fuel; `count` is the length of the label that comes.
unfoldable pub scan : ℕ → ℕ → Scan → Result Scan
scan zero count s = no_fuel
scan (suc fuel) count s =
    let skipped = or_panic (get_elem? s.packet s.x) >>> λ next.
    let rest = scan fuel next (step (dot s)) in
    if leb (length s.packet) (s.x + 1) then fail invalid_question else rest in
    let labelled = scan_label count s >>> λ t. or_panic (get_elem? t.packet t.x) >>> λ next.
    let rest = scan fuel next (dot (step t)) in
    if next == 0
    then ok (step t)
    else if leb (length t.packet) (t.x + 1)
    then fail invalid_question
    else rest in
    if count == 0 then skipped else labelled

-- The fields after the name.
unfoldable pub scan_end : SectionQuestion → Scan → Result (SectionQuestion × Bytes)
scan_end question s =
    let fields = or_panic (read_uint16 s.packet s.x) >>> λ t.
    or_panic (read_uint16 s.packet (s.x + 2)) >>> λ c.
    ok (record { name = s.name; qtype = t; qclass = c }, s.packet) in
    if ltb (length s.packet) (s.x + 4) then fail invalid_question else fields

-- The question and the packet after it. What an error leaves in the question is not kept.
unfoldable pub unpack : SectionQuestion → Bytes → Result (SectionQuestion × Bytes)
unpack question [] = ok (question, [])
unpack question (count ∷ packet) =
    scan (length (count ∷ packet)) count
      (record { name = question.name; packet = count ∷ packet; x = 1 })
    >>> scan_end question
