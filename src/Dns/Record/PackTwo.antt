-- ===== src/Dns/Record/PackTwo.antt =====
-- `packMX` and `packMINFO`, and `packRData` for the data that is considered.
use share.Base.{
  ℕ, ◌+◌, ◌^◌, ◌<◌, ◌≡◌, refl, sym, ap, ◌∙◌, subst, true, false, ◌++◌, append_assoc, some, arith,
  ◌==◌, inl, inr, Bool-cases, get_elem?, length, length-append, Bytes,
}
use share.Base.Int.{ℤ}
use share.Bytes.Integers.RoundTrip.{FitsSigned}
use share.Dns.Name.{Packer, pack_domain_name}
use share.Dns.Name.Decode.{StandAt, Decodes, weaken-Decodes}
use share.Dns.Name.Pack.{view, view-append}
use share.Dns.Name.RoundTrip.{nothing}
use share.Dns.Record.{
  Net, ResourceRecord, query_type_a, query_type_mx, query_type_minfo, names_domain,
}
use share.Dns.Record.Pack.{write_rdlength, pack_minfo, pack_mx, pack_rdata}
use share.Dns.Record.Ready.{Ready, put, put-Ready, hides, hides-Below, enter-Ready}
use share.Dns.Record.Stands.{
  IsName, pack_name_step, Wrote-Ready, put16_lem, put_int16_lem, exchange, mailboxes, mx_room,
  minfo_room, data_room, DataDone,
}
use share.Dns.Stand.{stand_here, word16, int16}
use share.Dns.Record.PackData.{
  view-StandAt, patch_data, pack_text_as_domain-DataDone, pack_a-DataDone,
}
use share.Dns.Record.Stands.{IsData, of_domain, of_address, of_exchange, of_mailboxes}

pub domain_not : (t k : ℕ) → names_domain k ≡ false → names_domain t ≡ true → (t == k) ≡ false
domain_not t k off on = elim (Bool-cases (t == k)) [
  | inl e ↦ let same : t ≡ k = ground arith in absurd (cc (off, on, same))
  | inr e ↦ e
]

module _ (net : Net) (m : Packer) (rr : ResourceRecord) (ready : Ready nothing m)
    (fits : length m.packet + data_room rr < 2 ^ 14) where
  exchange_run :
      (preference : ℤ) (name : Bytes) (m2 m3 : Packer) (n : ℕ)
      → rr.mx ≡ some (record { preference = preference; exchange = name })
      → pack_domain_name (put (put m (word16 0)) (int16 preference)) name true ≡ some (m2, n)
      → write_rdlength m2 (length m.packet) (n + 2) ≡ some m3
      → pack_mx m rr ≡ some m3
  unfolding pack_mx
  exchange_run preference name m2 m3 n mx named written = simp (
    put16_lem,
    mx,
    put_int16_lem (put m (word16 0)) preference,
    named,
    ap (λ (o : ℕ). write_rdlength m2 o (n + 2)) ready.at_end ∙ written,
  )

  pub pack_mx-DataDone :
      (preference : ℤ) (name : Bytes)
      → rr.rtype ≡ query_type_mx
      → rr.mx ≡ some (record { preference = preference; exchange = name })
      → FitsSigned 15 preference
      → IsName name
      → (m' : Packer) × (pack_mx m rr ≡ some m') × DataDone net m m' rr
  pack_mx-DataDone preference name t mx signed good =
      let o = length m.packet in
      let m1 = put m (word16 0) in
      let m2 = put m1 (int16 preference) in
      let room : mx_room rr.mx ≡ length name = ap mx_room mx in
      let one : length m1.packet ≡ o + 2 = length-append m.packet (word16 0) in
      let two : length m2.packet ≡ o + 4 =
        length-append m1.packet (int16 preference) ∙ omega arith in
      let ready2 =
        put-Ready (hides o) m1 (int16 preference) (enter-Ready m (word16 0) ready (omega arith))
          (omega arith) in
      let (m3, w, named, wrote) =
        pack_name_step (hides o) m2 true name good ready2
          (hides-Below o (length m2.packet) (omega arith)) (omega arith) in
      let q = word16 0 ++ (int16 preference ++ w) in
      let grown : m3.packet ≡ m1.packet ++ (int16 preference ++ w) =
        wrote.grown ∙ append_assoc m1.packet (int16 preference) w in
      let (m4, written, done) =
        patch_data net m m3 rr q (length w + 2) (Wrote-Ready (hides o) m2 m3 name w wrote)
          (grown ∙ append_assoc m.packet (word16 0) (int16 preference ++ w)) (omega arith)
          (omega (arith, wrote.short)) (omega (arith, wrote.short))
          (exchange preference name t mx signed
            (view-StandAt (hides o) m3.packet (int16 preference) (o + 2)
              (hides-Below o (o + 2) (omega arith))
              (subst (λ p. StandAt (get_elem? p) (o + 2) (int16 preference)) (sym grown)
                (stand_here m1.packet (int16 preference) w (o + 2) (sym one))))
            (subst (λ x. Decodes (view (hides o) m3.packet) x name (length m3.packet))
              (two ∙ omega arith) wrote.decodes)) in
      (m4, exchange_run preference name m3 m4 (length w) mx named written, done)

  mailboxes_run :
      (rmail_box email_box : Bytes) (m2 m3 m4 : Packer) (n1 n2 : ℕ)
      → rr.minfo ≡ some (record { rmail_box = rmail_box; email_box = email_box })
      → pack_domain_name (put m (word16 0)) rmail_box true ≡ some (m2, n1)
      → pack_domain_name m2 email_box true ≡ some (m3, n2)
      → write_rdlength m3 (length m.packet) (n1 + n2) ≡ some m4
      → pack_minfo m rr ≡ some m4
  unfolding pack_minfo
  mailboxes_run rmail_box email_box m2 m3 m4 n1 n2 minfo named1 named2 written = simp (
    put16_lem,
    minfo,
    named1,
    named2,
    ap (λ (o : ℕ). write_rdlength m3 o (n1 + n2)) ready.at_end ∙ written,
  )

  pub pack_minfo-DataDone :
      (rmail_box email_box : Bytes)
      → rr.rtype ≡ query_type_minfo
      → rr.minfo ≡ some (record { rmail_box = rmail_box; email_box = email_box })
      → IsName rmail_box
      → IsName email_box
      → (m' : Packer) × (pack_minfo m rr ≡ some m') × DataDone net m m' rr
  pack_minfo-DataDone rmail_box email_box t minfo good1 good2 =
      let o = length m.packet in
      let m1 = put m (word16 0) in
      let room : minfo_room rr.minfo ≡ length rmail_box + length email_box = ap minfo_room minfo in
      let one : length m1.packet ≡ o + 2 = length-append m.packet (word16 0) in
      let (m2, w1, named1, wrote1) =
        pack_name_step (hides o) m1 true rmail_box good1
          (enter-Ready m (word16 0) ready (omega arith))
          (hides-Below o (length m1.packet) (omega arith)) (omega arith) in
      let two : length m2.packet ≡ length m1.packet + length w1 =
        ap length wrote1.grown ∙ length-append m1.packet w1 in
      let (m3, w2, named2, wrote2) =
        pack_name_step (hides o) m2 true email_box good2
          (Wrote-Ready (hides o) m1 m2 rmail_box w1 wrote1)
          (hides-Below o (length m2.packet) (omega arith)) (omega (arith, wrote1.short)) in
      let grown : m3.packet ≡ m.packet ++ (word16 0 ++ (w1 ++ w2)) =
        wrote2.grown
        ∙ ap (λ p. p ++ w2) wrote1.grown
        ∙ append_assoc m1.packet w1 w2
        ∙ append_assoc m.packet (word16 0) (w1 ++ w2) in
      let size : length (w1 ++ w2) ≡ length w1 + length w2 = length-append w1 w2 in
      let d1 =
        weaken-Decodes (view (hides o) m2.packet) (view (hides o) m3.packet)
          (λ y b e.
            subst (λ p. view (hides o) p y ≡ some b) (sym wrote2.grown)
              (view-append (hides o) m2.packet w2 y b e))
          wrote1.decodes in
      let (m4, written, done) =
        patch_data net m m3 rr (word16 0 ++ (w1 ++ w2)) (length w1 + length w2)
          (Wrote-Ready (hides o) m2 m3 email_box w2 wrote2) grown (omega arith)
          (omega (arith, wrote1.short, wrote2.short)) (omega (arith, wrote1.short, wrote2.short))
          (mailboxes rmail_box email_box (length m2.packet) t minfo good1
            (subst (λ x. Decodes (view (hides o) m3.packet) x rmail_box (length m2.packet)) one d1)
            wrote2.decodes) in
      (
        m4,
        mailboxes_run rmail_box email_box m2 m3 m4 (length w1) (length w2) minfo named1 named2
            written,
        done,
      )

  -- `packRData` by the type of the record.
  pub pack_rdata-DataDone :
      IsData net rr → (m' : Packer) × (pack_rdata net m rr ≡ some m') × DataDone net m m' rr
  unfolding pack_rdata
  pack_rdata-DataDone (of_domain name t text good) =
      let (m', run, done) = pack_text_as_domain-DataDone net m rr ready fits name t text good in
      let other : (rr.rtype == query_type_a) ≡ false =
        domain_not rr.rtype query_type_a (unfold names_domain in refl) t in
      (m', simp (other, t, run), done)
  pack_rdata-DataDone (of_address value ip ipv4 t text parsed short long printed) =
      let (m', run, done) =
        pack_a-DataDone net m rr ready fits value ip ipv4 t text parsed short long printed in
      (m', simp (t, run), done)
  pack_rdata-DataDone (of_exchange preference name t mx signed good) =
      let (m', run, done) = pack_mx-DataDone preference name t mx signed good in
      let none_here : names_domain query_type_mx ≡ false = unfold names_domain in refl in
      (m', simp (t, none_here, run), done)
  pack_rdata-DataDone (of_mailboxes rmail_box email_box t minfo good1 good2) =
      let (m', run, done) = pack_minfo-DataDone rmail_box email_box t minfo good1 good2 in
      let none_here : names_domain query_type_minfo ≡ false = unfold names_domain in refl in
      (m', simp (t, none_here, run), done)
