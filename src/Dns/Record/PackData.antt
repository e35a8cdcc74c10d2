-- ===== src/Dns/Record/PackData.antt =====
-- `packRData` writes the data of a record, and then its length before it.
use share.Base.{
  ℕ, ◌+◌, ◌^◌, ◌≤◌, ◌<◌, ◌≡◌, refl, sym, ap, ◌∙◌, subst, Bool, true, false, [], ◌∷◌, ◌++◌,
  append-nil, append_assoc, some, arith, get_elem?, length, length-append, Bytes,
}
use share.Dns.Name.{Packer, pack_domain_name}
use share.Dns.Name.Decode.{StandAt, Decodes}
use share.Dns.Name.Pack.{view, Below, get_elem?-append_some}
use share.Dns.Name.RoundTrip.{nothing}
use share.Dns.Question.Finish.{get_elem?_within}
use share.Dns.Record.{Net, ResourceRecord, query_type_a, names_domain}
use share.Dns.Record.Pack.{write_rdlength, pack_a, pack_text_as_domain}
use share.Dns.Record.Ready.{
  Ready, put, put-Ready, hides, hides-Below, hides_before, enter-Ready, write_rdlength-Sealed,
}
use share.Dns.Record.Stands.{
  IsName, pack_name_step, Wrote-Ready, put16_lem, put_bytes_lem, DataStands, domain, address,
  weaken-DataStands, text_room, data_room, DataDone,
}
use share.Dns.Stand.{stand_here, word16}

pub view-StandAt :
    (hidden : ℕ → Bool) (p w : Bytes) (x : ℕ)
    → Below hidden x
    → StandAt (get_elem? p) x w
    → StandAt (view hidden p) x w
view-StandAt hidden p [] x low at = tt
view-StandAt hidden p (b ∷ w) x low (e, at) =
    let seen : hidden x ≡ false = low x (omega arith) in
    (rw seen e, view-StandAt hidden p w (x + 1) (λ y h. low y (omega arith)) at)

-- The length is written at last.
pub patch_data :
    (net : Net) (m m2 : Packer) (rr : ResourceRecord) (q : Bytes) (n : ℕ)
    → Ready (hides (length m.packet)) m2
    → m2.packet ≡ m.packet ++ q
    → length q ≡ n + 2
    → n + 2 ≤ data_room rr
    → n < 2 ^ 16
    → DataStands net
        (view (hides (length m.packet)) m2.packet)
        (length m.packet + 2)
        rr
        (length m2.packet)
    → (m3 : Packer) × (write_rdlength m2 (length m.packet) n ≡ some m3) × DataDone net m m3 rr
patch_data net m m2 rr q n ready grown size room small stands =
    let o = length m.packet in
    let total : length m2.packet ≡ o + length q = ap length grown ∙ length-append m.packet q in
    let (m3, run, sealed) = write_rdlength-Sealed m2 o n ready (omega arith) small in
    (
      m3,
      run,
      record {
        ready = sealed.ready;
        rdlength = n;
        small = room;
        long = omega (arith, sealed.long);
        length_stands = sealed.rdlength;
        data_stands =
            subst (DataStands net (get_elem? m3.packet) (o + 2) rr) (sym sealed.long)
              (weaken-DataStands net _ _ (o + 2) rr (length m2.packet) sealed.keeps stands);
        extends = λ y b e. sealed.keeps y b (
            rw (hides_before o y (get_elem?_within m.packet y b e)) (
              subst (λ p. get_elem? p y ≡ some b) (sym grown)
                (get_elem?-append_some m.packet q y b e)));
      },
    )

module _ (net : Net) (m : Packer) (rr : ResourceRecord) (ready : Ready nothing m)
    (fits : length m.packet + data_room rr < 2 ^ 14) where
  domain_run :
      (name : Bytes) (m2 m3 : Packer) (n : ℕ)
      → rr.text ≡ some (record { value = name })
      → pack_domain_name (put m (word16 0)) name true ≡ some (m2, n)
      → write_rdlength m2 (length m.packet) n ≡ some m3
      → pack_text_as_domain m rr ≡ some m3
  unfolding pack_text_as_domain
  domain_run name m2 m3 n text named written =
      simp (put16_lem, text, named, ap (λ (o : ℕ). write_rdlength m2 o n) ready.at_end ∙ written)

  pub pack_text_as_domain-DataDone :
      (name : Bytes)
      → names_domain rr.rtype ≡ true
      → rr.text ≡ some (record { value = name })
      → IsName name
      → (m' : Packer) × (pack_text_as_domain m rr ≡ some m') × DataDone net m m' rr
  pack_text_as_domain-DataDone name t text good =
      let o = length m.packet in
      let m1 = put m (word16 0) in
      let room : text_room rr.text ≡ length name = ap text_room text in
      let (m2, w, named, wrote) =
        pack_name_step (hides o) m1 true name good (enter-Ready m (word16 0) ready (omega arith))
          (hides-Below o (length m1.packet) (omega (arith, length-append m.packet (word16 0))))
          (omega (arith, length-append m.packet (word16 0))) in
      let (m3, written, done) =
        patch_data net m m2 rr (word16 0 ++ w) (length w) (Wrote-Ready (hides o) m1 m2 name w wrote)
          (wrote.grown ∙ append_assoc m.packet (word16 0) w) (omega arith)
          (omega (arith, wrote.short)) (omega (arith, wrote.short))
          (domain name t text (
            subst (λ x. Decodes (view (hides o) m2.packet) x name (length m2.packet))
              (length-append m.packet (word16 0)) wrote.decodes)) in
      (m3, domain_run name m2 m3 (length w) text named written, done)

  address_run :
      (value ip ipv4 : Bytes)
      → rr.text ≡ some (record { value = value })
      → net.parse_ip value ≡ some ip
      → net.to4 ip ≡ some ipv4
      → length ipv4 ≡ 4
      → pack_a net m rr ≡ some (put (put m (word16 4)) ipv4)
  unfolding pack_a
  address_run value ip ipv4 text parsed short long =
      simp (put16_lem, text, parsed, short, put_bytes_lem (put m (word16 4)) ipv4 4 long)

  pub pack_a-DataDone :
      (value ip ipv4 : Bytes)
      → rr.rtype ≡ query_type_a
      → rr.text ≡ some (record { value = value })
      → net.parse_ip value ≡ some ip
      → net.to4 ip ≡ some ipv4
      → length ipv4 ≡ 4
      → net.to_string ipv4 ≡ value
      → (m' : Packer) × (pack_a net m rr ≡ some m') × DataDone net m m' rr
  pack_a-DataDone value ip ipv4 t text parsed short long printed =
      let o = length m.packet in
      let m1 = put m (word16 4) in
      let m' = put m1 ipv4 in
      let before : length m1.packet ≡ o + 2 = length-append m.packet (word16 4) in
      let total : length m'.packet ≡ length m1.packet + 4 =
        length-append m1.packet ipv4 ∙ omega arith in
      let grown : m'.packet ≡ m.packet ++ (word16 4 ++ ipv4) =
        append_assoc m.packet (word16 4) ipv4 in
      (
        m',
        address_run value ip ipv4 text parsed short long,
        record {
          ready =
              put-Ready nothing m1 ipv4 (put-Ready nothing m (word16 4) ready (omega arith))
                (omega arith);
          rdlength = 4;
          small = omega arith;
          long = omega arith;
          length_stands =
              subst (λ p. StandAt (get_elem? p) o (word16 4)) (sym grown)
                (stand_here m.packet (word16 4) ipv4 o refl);
          data_stands =
              address value ipv4 t text long printed
                (subst (λ p. StandAt (get_elem? p) (o + 2) ipv4)
                  (ap (◌++◌ m1.packet) (append-nil ipv4))
                  (stand_here m1.packet ipv4 [] (o + 2) (sym before)))
                (omega arith);
          extends = λ y b e.
              get_elem?-append_some m1.packet ipv4 y b
                (get_elem?-append_some m.packet (word16 4) y b e);
        },
      )
