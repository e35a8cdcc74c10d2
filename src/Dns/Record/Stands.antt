-- ===== src/Dns/Record/Stands.antt =====
-- What stands for a record in a packet, and which records are considered.
use share.Base.{
  ℕ, ◌+◌, ◌^◌, ◌≤◌, ◌<◌, ◌≡◌, sym, ap, subst, Bool, true, List, ◌∷◌, ◌++◌, Option, none, some,
  arith, get_elem?, length, u16, Bytes, All,
}
use share.Base.Int.{ℤ}
use share.Bytes.Integers.{append_int16}
use share.Bytes.Integers.RoundTrip.{FitsSigned}
use share.Dns.Name.{Packer, pack_domain_name}
use share.Dns.Name.Decode.{IsLabel, View, StandAt, Decodes, weaken-Decodes, weaken-StandAt}
use share.Dns.Name.Labels.{join}
use share.Dns.Name.Pack.{Below}
use share.Dns.Name.Wrote.{Wrote, pack_domain_name-Wrote}
use share.Dns.Name.RoundTrip.{nothing}
use share.Dns.Record.{
  Net, RdataText, RdataMinfo, RdataMx, ResourceRecord, query_type_a, query_type_minfo,
  query_type_mx, names_domain,
}
use share.Dns.Record.Pack.{put16, put32, put_bytes, advance}
use share.Dns.Record.Ready.{Ready, put, Extends}
use share.Dns.Stand.{word16, word32, int16, append_uint16_lem, append_uint32_lem, append_int16_lem}

-- A name of one or more labels.
pub record IsName (name : Bytes) : Type 0 where
  pub first : Bytes
  pub others : List Bytes
  pub first_label : IsLabel first
  pub other_labels : All IsLabel others
  pub joined : name ≡ join (first ∷ others)

pub pack_name_step :
    (hidden : ℕ → Bool) (m : Packer) (c : Bool) (name : Bytes)
    → IsName name
    → Ready hidden m
    → Below hidden (length m.packet)
    → length m.packet + length name + 2 < 2 ^ 14
    → (m' : Packer) × (w : Bytes) × (pack_domain_name m name c ≡ some (m', length w))
      × Wrote hidden m m' name w
pack_name_step hidden m c name good ready low fits =
    subst
      (λ n.
        (m' : Packer) × (w : Bytes) × (pack_domain_name m n c ≡ some (m', length w))
        × Wrote hidden m m' n w)
      (sym good.joined)
      (pack_domain_name-Wrote hidden m c good.first good.others good.first_label good.other_labels
        ready.at_end low (omega (arith, ap length good.joined)) ready.valid)

pub Wrote-Ready :
    (hidden : ℕ → Bool) (m m' : Packer) (name w : Bytes)
    → Wrote hidden m m' name w
    → Ready hidden m'
Wrote-Ready hidden m m' name w wrote = record { at_end = wrote.at_end; valid = wrote.valid }

pub put16_lem : (m : Packer) (v : ℕ) → advance (put16 m v) 2 ≡ put m (word16 v)
unfolding put16 advance
put16_lem m v =
    ap (λ p. record m { packet = p; off = u16 (m.off + 2) }) (append_uint16_lem m.packet v)

pub put32_lem : (m : Packer) (v : ℕ) → advance (put32 m v) 4 ≡ put m (word32 v)
unfolding put32 advance
put32_lem m v =
    ap (λ p. record m { packet = p; off = u16 (m.off + 4) }) (append_uint32_lem m.packet v)

pub put_int16_lem :
    (m : Packer) (v : ℤ)
    → advance (record m { packet = append_int16 m.packet v }) 2 ≡ put m (int16 v)
unfolding advance
put_int16_lem m v =
    ap (λ p. record m { packet = p; off = u16 (m.off + 2) }) (append_int16_lem m.packet v)

pub put_bytes_lem :
    (m : Packer) (q : Bytes) (k : ℕ) → length q ≡ k → advance (put_bytes m q) k ≡ put m q
unfolding put_bytes advance
put_bytes_lem m q k e =
    ap (λ (j : ℕ). record m { packet = m.packet ++ q; off = u16 (m.off + j) }) (sym e)

-- The data of a record from `x` to `e`.
pub data DataStands (net : Net) (v : View) (x : ℕ) (rr : ResourceRecord) (e : ℕ) : Type 0 where
  domain :
      (name : Bytes)
      → names_domain rr.rtype ≡ true
      → rr.text ≡ some (record { value = name })
      → Decodes v x name e
      → DataStands net v x rr e
  address :
      (value ip : Bytes)
      → rr.rtype ≡ query_type_a
      → rr.text ≡ some (record { value = value })
      → length ip ≡ 4
      → net.to_string ip ≡ value
      → StandAt v x ip
      → e ≡ x + 4
      → DataStands net v x rr e
  exchange :
      (preference : ℤ) (name : Bytes)
      → rr.rtype ≡ query_type_mx
      → rr.mx ≡ some (record { preference = preference; exchange = name })
      → FitsSigned 15 preference
      → StandAt v x (int16 preference)
      → Decodes v (x + 2) name e
      → DataStands net v x rr e
  mailboxes :
      (rmail_box email_box : Bytes) (y : ℕ)
      → rr.rtype ≡ query_type_minfo
      → rr.minfo ≡ some (record { rmail_box = rmail_box; email_box = email_box })
      → IsName rmail_box
      → Decodes v x rmail_box y
      → Decodes v y email_box e
      → DataStands net v x rr e

pub weaken-DataStands :
    (net : Net) (v w : View) (x : ℕ) (rr : ResourceRecord) (e : ℕ)
    → Extends v w
    → DataStands net v x rr e
    → DataStands net w x rr e
weaken-DataStands net v w x rr e h (domain name t text d) =
    domain name t text (weaken-Decodes v w h d)
weaken-DataStands net v w x rr e h (address value ip t text long back at end) =
    address value ip t text long back (weaken-StandAt v w x ip h at) end
weaken-DataStands net v w x rr e h (exchange preference name t mx fits at d) =
    exchange preference name t mx fits (weaken-StandAt v w x (int16 preference) h at)
      (weaken-Decodes v w h d)
weaken-DataStands net v w x rr e h (mailboxes rmail_box email_box y t minfo good d1 d2) =
    mailboxes rmail_box email_box y t minfo good (weaken-Decodes v w h d1) (weaken-Decodes v w h d2)

-- The data that is considered: one domain name, an address of four bytes in the text that package net
-- prints, a mail exchange, or two mail boxes.
pub data IsData (net : Net) (rr : ResourceRecord) : Type 0 where
  of_domain :
      (name : Bytes)
      → names_domain rr.rtype ≡ true
      → rr.text ≡ some (record { value = name })
      → IsName name
      → IsData net rr
  of_address :
      (value ip ipv4 : Bytes)
      → rr.rtype ≡ query_type_a
      → rr.text ≡ some (record { value = value })
      → net.parse_ip value ≡ some ip
      → net.to4 ip ≡ some ipv4
      → length ipv4 ≡ 4
      → net.to_string ipv4 ≡ value
      → IsData net rr
  of_exchange :
      (preference : ℤ) (name : Bytes)
      → rr.rtype ≡ query_type_mx
      → rr.mx ≡ some (record { preference = preference; exchange = name })
      → FitsSigned 15 preference
      → IsName name
      → IsData net rr
  of_mailboxes :
      (rmail_box email_box : Bytes)
      → rr.rtype ≡ query_type_minfo
      → rr.minfo ≡ some (record { rmail_box = rmail_box; email_box = email_box })
      → IsName rmail_box
      → IsName email_box
      → IsData net rr

-- How many bytes the data can take, with its length.
abbrev pub text_room : Option RdataText → ℕ
text_room none = 0
text_room (some text) = length text.value

abbrev pub mx_room : Option RdataMx → ℕ
mx_room none = 0
mx_room (some mx) = length mx.exchange

abbrev pub minfo_room : Option RdataMinfo → ℕ
minfo_room none = 0
minfo_room (some minfo) = length minfo.rmail_box + length minfo.email_box

abbrev pub data_room : ResourceRecord → ℕ
data_room rr = text_room rr.text + mx_room rr.mx + minfo_room rr.minfo + 6

-- The length and the data, written at the end of the packet of `m`.
pub record DataDone (net : Net) (m m' : Packer) (rr : ResourceRecord) : Type 0 where
  pub ready : Ready nothing m'
  pub rdlength : ℕ
  pub small : rdlength + 2 ≤ data_room rr
  pub long : length m'.packet ≡ length m.packet + 2 + rdlength
  pub length_stands : StandAt (get_elem? m'.packet) (length m.packet) (word16 rdlength)
  pub data_stands : DataStands net (get_elem? m'.packet) (length m.packet + 2) rr (length m'.packet)
  pub extends : Extends (get_elem? m.packet) (get_elem? m'.packet)
