-- ===== src/Dns/Record/UnpackData.antt =====
-- `unpackRData` on data that stands in the packet.
use share.Base.{
  ℕ, zero, suc, ◌+◌, ◌≤◌, ◌<◌, ◌≡◌, refl, ap, ◌∙◌, Bool, true, false, ◌||◌, [], ◌∷◌, some, arith,
  ltb, ◌==◌, get_elem?, length, take, drop, Bytes,
}
use share.Base.Int.{ℤ}
use share.Bytes.Integers.RoundTrip.{FitsSigned}
use share.Dns.Result.{ok}
use share.Dns.Name.{Named}
use share.Dns.Name.Decode.{StandAt, Decodes, calls}
use share.Dns.Name.Labels.{join_cons}
use share.Dns.Name.Read.{inline_size, Located, kept, inline, pointed, unpack_name-Reads}
use share.Dns.Record.{
  Net, ResourceRecord, query_type_a, query_type_mx, query_type_minfo, names_domain, keeps_text,
  rdata_of,
}
use share.Dns.Record.Unpack.{
  name_end, owner_end, unpack_a, unpack_text_domain, unpack_minfo, unpack_mx, unpack_rdata,
}
use share.Dns.Record.PackTwo.{domain_not}
use share.Dns.Record.Stands.{IsName}
use share.Dns.Stand.{int16, read_int16_stand}

stand_drop : (p : Bytes) (x b : ℕ) → get_elem? p x ≡ some b → drop x p ≡ b ∷ drop (x + 1) p
stand_drop [] x b e = cc e
stand_drop (c ∷ p) zero b e = cc e
stand_drop (c ∷ p) (suc x) b e =
    let next : suc (x + 1) ≡ suc x + 1 = omega arith in
    stand_drop p x b e ∙ ap (λ (y : ℕ). b ∷ drop y (c ∷ p)) next

pub stand_take :
    (p w : Bytes) (x n : ℕ) → n ≡ length w → StandAt (get_elem? p) x w → take n (drop x p) ≡ w
stand_take p [] x zero e at = refl
stand_take p [] x (suc n) e at = absurd (omega arith)
stand_take p (b ∷ w) x zero e at = absurd (omega arith)
stand_take p (b ∷ w) x (suc n) e (here, at) =
    ap (take (suc n)) (stand_drop p x b here)
    ∙ ap (◌∷◌ b) (stand_take p w (x + 1) n (omega arith) at)

inline_size_full : (name : Bytes) → 0 < length name → inline_size name ≡ length name + 2
inline_size_full [] h = absurd (omega arith)
inline_size_full (b ∷ bs) h = refl

pub IsName-full : (name : Bytes) → IsName name → 0 < length name
IsName-full name good =
    let (b, bs, cons) = join_cons good.first good.others good.first_label in
    omega (arith, ap length (good.joined ∙ cons))

abbrev pub named : Bytes → Bytes → ℕ → Named
named out packet off = record { out = out; packet = packet; off = off }

-- Where the reader finds the end of a name.
pub located_end :
    (off x : ℕ) (name p : Bytes) (e : ℕ)
    → 0 < length name
    → Located 0 off x name e
    → (name_end x (named name p off) ≡ e) × (owner_end x (named name p off) ≡ e)
located_end off x name p e full (kept pos same) = absurd (omega arith)
located_end off x name p e full (inline z same end) =
    let no_pointer : ltb 0 off ≡ false = ground arith in
    let some_name : (length name == 0) ≡ false = ground arith in
    let size = inline_size_full name full in
    (rw no_pointer (omega arith), rw no_pointer (rw some_name (omega arith)))
located_end off x name p e full (pointed z pos end) =
    let by_pointer : ltb 0 off ≡ true = ground arith in
    (rw by_pointer (omega arith), rw by_pointer (omega arith))

-- What is read has the data of `rr` and the other fields of `rr1`.
pub record SameData (rr rr1 rr2 : ResourceRecord) : Type 0 where
  pub same_name : rr2.name ≡ rr1.name
  pub same_type : rr2.rtype ≡ rr1.rtype
  pub same_class : rr2.rclass ≡ rr1.rclass
  pub same_ttl : rr2.ttl ≡ rr1.ttl
  pub same_off_ttl : rr2.off_ttl ≡ rr1.off_ttl
  pub same_rdlen : rr2.rdlen ≡ rr1.rdlen
  pub same_data : rdata_of rr2 ≡ rdata_of rr

abbrev pub ReadsData : Net → ℕ → ResourceRecord → ResourceRecord → Bytes → ℕ → Type 0
ReadsData net fuel rr rr1 p x =
    (rr2 : ResourceRecord) × (unpack_rdata net fuel rr1 p x ≡ ok (rr2, p)) × SameData rr rr1 rr2

or_true : (b : Bool) → (b || true) ≡ true
or_true true = refl
or_true false = refl

module _ (net : Net) (rr rr1 : ResourceRecord) (p : Bytes) (x : ℕ)
    (same : rr1.rtype ≡ rr.rtype) where
  pub read_domain :
      (fuel e : ℕ) (name : Bytes)
      → names_domain rr.rtype ≡ true
      → rr.text ≡ some (record { value = name })
      → (d : Decodes (get_elem? p) x name e) → calls d ≤ fuel
      → ReadsData net fuel rr rr1 p x
  unfolding unpack_rdata unpack_text_domain rdata_of
  read_domain fuel e name t text d enough =
      let (off, run, located) = unpack_name-Reads p fuel rr1.off [] d enough in
      let other : (rr.rtype == query_type_a) ≡ false =
        domain_not rr.rtype query_type_a (unfold names_domain in refl) t in
      let rr2 : ResourceRecord = record rr1 { text = some (record { value = name }); off = off } in
      (
        rr2,
        simp (same, other, t, run),
        record {
          same_name = refl;
          same_type = refl;
          same_class = refl;
          same_ttl = refl;
          same_off_ttl = refl;
          same_rdlen = refl;
          same_data = simp (same, t, text, or_true);
        },
      )

  pub read_address :
      (fuel : ℕ) (value ip : Bytes)
      → rr.rtype ≡ query_type_a
      → rr.text ≡ some (record { value = value })
      → net.to_string ip ≡ value
      → length ip ≡ 4
      → rr1.rdata ≡ ip
      → rr1.rdlen ≡ 4
      → ReadsData net fuel rr rr1 p x
  unfolding unpack_rdata unpack_a rdata_of keeps_text
  read_address fuel value ip t text printed long bytes size =
      let rr2 : ResourceRecord = record rr1 {
        text = some (record { value = net.to_string rr1.rdata });
      } in
      let four : (length ip == 4) ≡ true = ground arith in
      (
        rr2,
        simp (same, t, size, bytes, four),
        record {
          same_name = refl;
          same_type = refl;
          same_class = refl;
          same_ttl = refl;
          same_off_ttl = refl;
          same_rdlen = refl;
          same_data = simp (same, t, text, bytes, printed);
        },
      )

  pub read_exchange :
      (fuel e : ℕ) (preference : ℤ) (name : Bytes)
      → rr.rtype ≡ query_type_mx
      → rr.mx ≡ some (record { preference = preference; exchange = name })
      → FitsSigned 15 preference
      → StandAt (get_elem? p) x (int16 preference)
      → (d : Decodes (get_elem? p) (x + 2) name e) → calls d ≤ fuel
      → ReadsData net fuel rr rr1 p x
  unfolding unpack_rdata unpack_mx rdata_of keeps_text names_domain
  read_exchange fuel e preference name t mx fits at d enough =
      let (off, run, located) = unpack_name-Reads p fuel 0 [] d enough in
      let rr2 : ResourceRecord = record rr1 {
        mx = some (record { preference = preference; exchange = name });
        off = off;
      } in
      (
        rr2,
        simp (same, t, read_int16_stand p x preference fits at, run),
        record {
          same_name = refl;
          same_type = refl;
          same_class = refl;
          same_ttl = refl;
          same_off_ttl = refl;
          same_rdlen = refl;
          same_data = simp (same, t, mx);
        },
      )

  pub read_mailboxes :
      (fuel y e : ℕ) (rmail_box email_box : Bytes)
      → rr.rtype ≡ query_type_minfo
      → rr.minfo ≡ some (record { rmail_box = rmail_box; email_box = email_box })
      → IsName rmail_box
      → (d1 : Decodes (get_elem? p) x rmail_box y) (d2 : Decodes (get_elem? p) y email_box e)
      → calls d1 ≤ fuel
      → calls d2 ≤ fuel
      → ReadsData net fuel rr rr1 p x
  unfolding unpack_rdata unpack_minfo rdata_of keeps_text names_domain
  read_mailboxes fuel y e rmail_box email_box t minfo good d1 d2 enough1 enough2 =
      let (off1, run1, located) = unpack_name-Reads p fuel 0 [] d1 enough1 in
      let (off2, run2, located2) = unpack_name-Reads p fuel 0 [] d2 enough2 in
      let end = (located_end off1 x rmail_box p y (IsName-full rmail_box good) located).0 in
      let rr2 : ResourceRecord = record rr1 {
        minfo = some (record { rmail_box = rmail_box; email_box = email_box });
        off = off2;
      } in
      (
        rr2,
        simp (same, t, run1, end, run2),
        record {
          same_name = refl;
          same_type = refl;
          same_class = refl;
          same_ttl = refl;
          same_off_ttl = refl;
          same_rdlen = refl;
          same_data = simp (same, t, minfo);
        },
      )
