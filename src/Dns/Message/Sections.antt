-- ===== src/Dns/Message/Sections.antt =====
-- The sections of a message, packed and read.
use share.Base.{
  ℕ, suc, ◌+◌, ◌^◌, ◌≤◌, ◌<◌, ◌≡◌, inl, inr, refl, ap, List, [], ◌∷◌, some, arith, ltb, ltb→lt,
  Bool-cases, get_elem?, get_elem?-some, length, Bytes, All,
}
use share.Dns.Result.{ok}
use share.Dns.Name.{Packer}
use share.Dns.Name.Decode.{View}
use share.Dns.Name.RoundTrip.{nothing}
use share.Dns.Question.Finish.{get_elem?_within}
use share.Dns.Record.{Net, ResourceRecord, new_resource_record}
use share.Dns.Record.Pack.{pack_rr}
use share.Dns.Record.Unpack
use share.Dns.Record.Ready.{Ready, Extends}
use share.Dns.Record.PackRecord.{
  IsRecord, room, RecordStands, weaken-RecordStands, pack_rr-RecordDone,
}
use share.Dns.Record.RoundTrip.{SameRecord, unpack-SameRecord}
use share.Dns.Message.{pack_section, unpack_section}

-- The records stand one after another from `x` to `e`.
abbrev pub SectionStands : Net → View → ℕ → List ResourceRecord → ℕ → Type 0
SectionStands net v x [] e = x ≡ e
SectionStands net v x (rr ∷ rrs) e =
    (y : ℕ) × RecordStands net v x rr y × (y ≤ e) × SectionStands net v y rrs e

pub weaken-SectionStands :
    (net : Net) (v w : View) (x : ℕ) (rrs : List ResourceRecord) (e : ℕ)
    → Extends v w
    → SectionStands net v x rrs e
    → SectionStands net w x rrs e
weaken-SectionStands net v w x [] e h stands = stands
weaken-SectionStands net v w x (rr ∷ rrs) e h (y, first, before, rest) = (
  y,
  weaken-RecordStands net v w x rr y h first,
  before,
  weaken-SectionStands net v w y rrs e h rest,
)

abbrev pub rooms : List ResourceRecord → ℕ
rooms [] = 0
rooms (rr ∷ rrs) = room rr + rooms rrs

pub Extends-longer : (p q : Bytes) → Extends (get_elem? p) (get_elem? q) → length p ≤ length q
Extends-longer p q h = elim (Bool-cases (ltb (length q) (length p))) [
  | inl over ↦
      let (b, e) = get_elem?-some p (length q) (ltb→lt (length q) (length p) over) in
      absurd (omega (arith, get_elem?_within q (length q) b (h (length q) b e)))
  | inr fits ↦ ground arith
]

-- What packing a section leaves behind.
pub record SectionDone (net : Net) (m m' : Packer) (rrs : List ResourceRecord) : Type 0 where
  pub ready : Ready nothing m'
  pub stands : SectionStands net (get_elem? m'.packet) (length m.packet) rrs (length m'.packet)
  pub extends : Extends (get_elem? m.packet) (get_elem? m'.packet)
  pub bounded : length m'.packet ≤ length m.packet + rooms rrs

section_run :
    (net : Net) (m m1 m2 : Packer) (rr rr1 : ResourceRecord) (rrs rrs1 : List ResourceRecord)
    → pack_rr net m rr ≡ some (m1, rr1)
    → pack_section net m1 rrs ≡ some (m2, rrs1)
    → pack_section net m (rr ∷ rrs) ≡ some (m2, rr1 ∷ rrs1)
unfolding pack_section
section_run net m m1 m2 rr rr1 rrs rrs1 first rest = simp (first, rest)

pub pack_section-SectionDone :
    (net : Net) (m : Packer) (rrs : List ResourceRecord)
    → All (IsRecord net) rrs
    → Ready nothing m
    → length m.packet + rooms rrs < 2 ^ 14
    → (m' : Packer) × (rrs' : List ResourceRecord) × (pack_section net m rrs ≡ some (m', rrs'))
      × SectionDone net m m' rrs
pack_section-SectionDone net m [] good ready fits = (
  m,
  [],
  unfold pack_section in refl,
  record { ready = ready; stands = refl; extends = λ y b e. e; bounded = omega arith },
)
pack_section-SectionDone net m (rr ∷ rrs) (good, more) ready fits =
    let (m1, rr1, run1, done1) = pack_rr-RecordDone net m rr good ready (omega arith) in
    let (m2, rrs1, run2, done2) =
      pack_section-SectionDone net m1 rrs more done1.ready (omega (arith, done1.bounded)) in
    (
      m2,
      rr1 ∷ rrs1,
      section_run net m m1 m2 rr rr1 rrs rrs1 run1 run2,
      record {
        ready = done2.ready;
        stands = (
          length m1.packet,
          weaken-RecordStands net (get_elem? m1.packet) (get_elem? m2.packet) (length m.packet) rr
              (length m1.packet) done2.extends done1.stands,
          Extends-longer m1.packet m2.packet done2.extends,
          done2.stands,
        );
        extends = λ y b e. done2.extends y b (done1.extends y b e);
        bounded = omega (arith, done1.bounded, done2.bounded);
      },
    )

-- The same records, in their order.
abbrev pub SameRecords : List ResourceRecord → List ResourceRecord → Type 0
SameRecords [] [] = Unit
SameRecords [] (rr2 ∷ rrs2) = ⊥
SameRecords (rr ∷ rrs) [] = ⊥
SameRecords (rr ∷ rrs) (rr2 ∷ rrs2) = SameRecord rr rr2 × SameRecords rrs rrs2

unpack_run :
    (net : Net) (fuel n : ℕ) (p : Bytes) (x y e : ℕ) (rr : ResourceRecord)
    (rrs : List ResourceRecord)
    → share.Dns.Record.Unpack.unpack net fuel new_resource_record p x ≡ ok ((rr, p), y)
    → unpack_section net fuel n p y ≡ ok (rrs, p, e)
    → unpack_section net fuel (suc n) p x ≡ ok (rr ∷ rrs, p, e)
unfolding unpack_section
unpack_run net fuel n p x y e rr rrs first rest = simp (first, rest)

pub unpack_section-SameRecords :
    (net : Net) (p : Bytes) (x e : ℕ) (rrs : List ResourceRecord)
    → All (IsRecord net) rrs
    → SectionStands net (get_elem? p) x rrs e
    → e ≤ length p
    → (k : ℕ) × ((fuel : ℕ)
        → k ≤ fuel
        → (rrs2 : List ResourceRecord) × (unpack_section net fuel (length rrs) p x
            ≡ ok (rrs2, p, e))
          × SameRecords rrs rrs2)
unpack_section-SameRecords net p x e [] good stands within =
    (0, λ fuel enough. ([], unfold unpack_section in ap (λ (y : ℕ). ok ([], p, y)) stands, tt))
unpack_section-SameRecords net p x e (rr ∷ rrs) (good, more) (y, first, before, rest) within =
    let (k1, read1) = unpack-SameRecord net p x rr y good first (omega arith) in
    let (k2, read2) = unpack_section-SameRecords net p y e rrs more rest within in
    (
      k1 + k2,
      λ fuel enough.
          let (rr2, run1, same1) = read1 fuel (omega arith) in
          let (rrs2, run2, same2) = read2 fuel (omega arith) in
          (rr2 ∷ rrs2, unpack_run net fuel (length rrs) p x y e rr2 rrs2 run1 run2, (same1, same2)),
    )
