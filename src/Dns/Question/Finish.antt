-- ===== src/Dns/Question/Finish.antt =====
-- The loop of `SectionQuestion.unpack` ends.
use share.Base.{
  ℕ, zero, suc, ◌+◌, ◌≤◌, ◌<◌, ◌≡◌, inl, inr, refl, ◌∙◌, subst, [], ◌∷◌, ◌++◌, some, arith, leb,
  ltb, ◌==◌, Bool-cases, Option-cases, get_elem?, set, length, length-set, Bytes,
}
use share.Bytes.Integers.{read_uint16}
use share.Dns.Name.{lower_letter}
use share.Dns.Result.{
  invalid_question, Result, ok, fail, panic, no_fuel, Finishes, Finishes-ok, Finishes-fail,
  Finishes-panic, Finishes-then,
}
use share.Dns.Question.{SectionQuestion, Scan, scan_label, dot, step, scan, scan_end, unpack}

pub get_elem?_within : (p : Bytes) (x b : ℕ) → get_elem? p x ≡ some b → x < length p
get_elem?_within [] x b e = cc e
get_elem?_within (c ∷ p) zero b e = omega arith
get_elem?_within (c ∷ p) (suc x) b e = omega (arith, get_elem?_within p x b e)

-- A label that is read, by how far.
ReadsOn : Scan → Result Scan → Type 0
ReadsOn s (ok t) = (s.x ≤ t.x) × (length t.packet ≡ length s.packet)
ReadsOn s (fail e) = Unit
ReadsOn s panic = Unit
ReadsOn s no_fuel = ⊥

ReadsOn-later :
    (s t : Scan) (r : Result Scan)
    → s.x ≤ t.x
    → length t.packet ≡ length s.packet
    → ReadsOn t r
    → ReadsOn s r
unfolding ReadsOn
ReadsOn-later s t (ok u) far same (on, kept) = (omega arith, kept ∙ same)
ReadsOn-later s t (fail e) far same on = tt
ReadsOn-later s t panic far same on = tt
ReadsOn-later s t no_fuel far same on = on

scan_label-ReadsOn : (k : ℕ) (s : Scan) → ReadsOn s (scan_label k s)
unfolding scan_label ReadsOn
scan_label-ReadsOn zero s = (omega arith, refl)
scan_label-ReadsOn (suc k) s = elim (Option-cases (get_elem? s.packet s.x)) [
  | inl e ↦ rw e tt
  | inr (c, e) ↦
      rw e (elim (Bool-cases (leb (length (set s.packet s.x (lower_letter c))) (s.x + 1))) [
        | inl out ↦ rw out tt
        | inr within ↦
            let t : Scan = record {
              name = s.name ++ (lower_letter c ∷ []);
              packet = set s.packet s.x (lower_letter c);
              x = s.x + 1;
            } in
            rw within (
              ReadsOn-later s t _ (omega arith) (length-set s.packet s.x (lower_letter c))
                (scan_label-ReadsOn k t))
      ])
]

ReadsOn-Finishes : (s : Scan) (r : Result Scan) → ReadsOn s r → Finishes r
unfolding ReadsOn
ReadsOn-Finishes s (ok t) on = Finishes-ok t
ReadsOn-Finishes s (fail e) on = Finishes-fail e
ReadsOn-Finishes s panic on = Finishes-panic
ReadsOn-Finishes s no_fuel on = absurd on

ReadsOn-to :
    (s t : Scan) (r : Result Scan)
    → r ≡ ok t
    → ReadsOn s r
    → (s.x ≤ t.x) × (length t.packet ≡ length s.packet)
unfolding ReadsOn
ReadsOn-to s t r e on = subst (ReadsOn s) e on

scan-Finishes :
    (fuel count : ℕ) (s : Scan)
    → length s.packet < fuel + s.x
    → s.x ≤ length s.packet
    → Finishes (scan fuel count s)
unfolding scan
scan-Finishes zero count s enough within = absurd (omega arith)
scan-Finishes (suc fuel) count s enough within = elim (Bool-cases (count == 0)) [
  | inl z ↦ rw z (elim (Option-cases (get_elem? s.packet s.x)) [
    | inl e ↦ rw e Finishes-panic
    | inr (next, e) ↦ rw e (elim (Bool-cases (leb (length s.packet) (s.x + 1))) [
      | inl out ↦ rw out (Finishes-fail invalid_question)
      | inr on ↦ rw on (
          scan-Finishes fuel next (step (dot s)) (omega arith)
            (omega (arith, get_elem?_within s.packet s.x next e)))
    ])
  ])
  | inr more ↦
      let on = scan_label-ReadsOn count s in
      rw more (
        Finishes-then (scan_label count s) _ (ReadsOn-Finishes s (scan_label count s) on) (λ t e.
          elim (Option-cases (get_elem? t.packet t.x)) [
            | inl f ↦ rw f Finishes-panic
            | inr (next, f) ↦
                let (far, same) = ReadsOn-to s t (scan_label count s) e on in
                let at = get_elem?_within t.packet t.x next f in
                rw f (elim (Bool-cases (next == 0)) [
                  | inl z ↦ rw z (Finishes-ok (step t))
                  | inr nz ↦ rw nz (elim (Bool-cases (leb (length t.packet) (t.x + 1))) [
                    | inl out ↦ rw out (Finishes-fail invalid_question)
                    | inr rest ↦
                        rw rest (scan-Finishes fuel next (dot (step t)) (omega arith) (omega arith))
                  ])
                ])
          ]))
]

scan_end-Finishes : (question : SectionQuestion) (s : Scan) → Finishes (scan_end question s)
unfolding scan_end
scan_end-Finishes question s = elim (Bool-cases (ltb (length s.packet) (s.x + 4))) [
  | inl short ↦ rw short (Finishes-fail invalid_question)
  | inr long ↦ rw long (elim (Option-cases (read_uint16 s.packet s.x)) [
    | inl e ↦ rw e Finishes-panic
    | inr (t, e) ↦ rw e (elim (Option-cases (read_uint16 s.packet (s.x + 2))) [
      | inl f ↦ rw f Finishes-panic
      | inr (c, f) ↦ rw f (Finishes-ok (record { name = s.name; qtype = t; qclass = c }, s.packet))
    ])
  ])
]

-- `SectionQuestion.unpack` ends on every packet: the length of the packet is fuel enough.
pub unpack-Finishes :
    (question : SectionQuestion) (packet : Bytes) → Finishes (unpack question packet)
unfolding unpack
unpack-Finishes question [] = Finishes-ok (question, [])
unpack-Finishes question (count ∷ packet) =
    let s : Scan = record { name = question.name; packet = count ∷ packet; x = 1 } in
    Finishes-then (scan (length (count ∷ packet)) count s) (scan_end question)
      (scan-Finishes (length (count ∷ packet)) count s (omega arith) (omega arith))
      (λ t e. scan_end-Finishes question t)
