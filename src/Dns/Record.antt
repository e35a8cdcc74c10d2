-- ===== src/Dns/Record.antt =====
-- Resource records: the types of lib/dns/resourcerecord.go and of the lib/dns/rdata*.go files.
pub mod Pack
pub mod Unpack
pub mod Ready
pub mod Stands
pub mod PackData
pub mod PackTwo
pub mod PackRecord
pub mod UnpackData
pub mod RoundTrip
use share.Base.{
  ℕ, Bool, false, List, [], Option, none, some, ◌>>=◌, ◌||◌, ◌==◌, if◌then◌else◌, Bytes,
}
use share.Ascii.{to_lower}
use share.Base.Int.{ℤ}

-- What lib/dns uses of package net: `net.ParseIP`, `IP.To4` (both can return nil) and `IP.String`.
pub record Net : Type 0 where
  pub parse_ip : Bytes → Option Bytes
  pub to4 : Bytes → Option Bytes
  pub to_string : Bytes → Bytes

pub record RdataText : Type 0 where
  pub value : Bytes

pub record RdataSoa : Type 0 where
  pub mname : Bytes
  pub rname : Bytes
  pub serial : ℕ
  pub refresh : ℤ
  pub retry : ℤ
  pub expire : ℤ
  pub minimum : ℕ

pub record RdataWks : Type 0 where
  pub address : Bytes
  pub protocol : ℕ
  pub bit_map : Bytes

pub record RdataHinfo : Type 0 where
  pub cpu : Bytes
  pub os : Bytes

pub record RdataMinfo : Type 0 where
  pub rmail_box : Bytes
  pub email_box : Bytes

pub record RdataMx : Type 0 where
  pub preference : ℤ
  pub exchange : Bytes

pub record RdataOpt : Type 0 where
  pub ext_rcode : ℕ
  pub version : ℕ
  pub dnssec_ok : Bool
  pub code : ℕ
  pub opt_length : ℕ
  pub data_bytes : Bytes

pub record RdataSrv : Type 0 where
  pub service : Bytes
  pub proto : Bytes
  pub name : Bytes
  pub priority : ℕ
  pub weight : ℕ
  pub port : ℕ
  pub target : Bytes

-- A pointer that can be nil is an `Option`.
pub record ResourceRecord : Type 0 where
  pub name : Bytes
  pub rtype : ℕ
  pub rclass : ℕ
  pub ttl : ℕ
  pub rdlen : ℕ
  pub rdata : Bytes
  pub text : Option RdataText
  pub soa : Option RdataSoa
  pub wks : Option RdataWks
  pub hinfo : Option RdataHinfo
  pub minfo : Option RdataMinfo
  pub mx : Option RdataMx
  pub opt : Option RdataOpt
  pub srv : Option RdataSrv
  pub off : ℕ
  pub off_ttl : ℕ

abbrev pub new_resource_record : ResourceRecord
new_resource_record = record {
  name = [];
  rtype = 0;
  rclass = 0;
  ttl = 0;
  rdlen = 0;
  rdata = [];
  text = some (record { value = [] });
  soa = none;
  wks = none;
  hinfo = none;
  minfo = none;
  mx = none;
  opt = none;
  srv = none;
  off = 0;
  off_ttl = 0;
}

abbrev pub query_type_a : ℕ
query_type_a = 1

abbrev pub query_type_soa : ℕ
query_type_soa = 6

abbrev pub query_type_null : ℕ
query_type_null = 10

abbrev pub query_type_wks : ℕ
query_type_wks = 11

abbrev pub query_type_hinfo : ℕ
query_type_hinfo = 13

abbrev pub query_type_minfo : ℕ
query_type_minfo = 14

abbrev pub query_type_mx : ℕ
query_type_mx = 15

abbrev pub query_type_txt : ℕ
query_type_txt = 16

abbrev pub query_type_aaaa : ℕ
query_type_aaaa = 28

abbrev pub query_type_srv : ℕ
query_type_srv = 33

abbrev pub query_type_opt : ℕ
query_type_opt = 41

-- The types whose data is one domain name: NS, CNAME, MB, MG, MR and PTR.
unfoldable pub names_domain : ℕ → Bool
names_domain t = t == 2 || t == 5 || t == 7 || t == 8 || t == 9 || t == 12

abbrev pub mask_opt_do : ℕ
mask_opt_do = 0x8000

abbrev pub rdata_ipv4_size : ℕ
rdata_ipv4_size = 4

abbrev pub rdata_ipv6_size : ℕ
rdata_ipv6_size = 16

-- What `RData` returns: a text, a pointer by the type of the record, or nil.
pub data Rdata : Type 0 where
  text_data : Bytes → Rdata
  soa_data : Option RdataSoa → Rdata
  wks_data : Option RdataWks → Rdata
  hinfo_data : Option RdataHinfo → Rdata
  minfo_data : Option RdataMinfo → Rdata
  mx_data : Option RdataMx → Rdata
  srv_data : Option RdataSrv → Rdata
  opt_data : Option RdataOpt → Rdata
  no_data : Rdata

-- `rr.Text.Value`; `none` is a panic.
abbrev pub text_value : Option RdataText → Option Rdata
text_value none = none
text_value (some text) = some (text_data text.value)

-- The types whose data is kept as a text but is no domain name: A, NULL, TXT and AAAA.
unfoldable pub keeps_text : ℕ → Bool
keeps_text t =
    t == query_type_a || t == query_type_null || t == query_type_txt || t == query_type_aaaa

-- `RData`
unfoldable pub rdata_of : ResourceRecord → Option Rdata
rdata_of rr =
    if keeps_text rr.rtype || names_domain rr.rtype
    then text_value rr.text
    else if rr.rtype == query_type_soa
    then some (soa_data rr.soa)
    else if rr.rtype == query_type_wks
    then some (wks_data rr.wks)
    else if rr.rtype == query_type_hinfo
    then some (hinfo_data rr.hinfo)
    else if rr.rtype == query_type_minfo
    then some (minfo_data rr.minfo)
    else if rr.rtype == query_type_mx
    then some (mx_data rr.mx)
    else if rr.rtype == query_type_srv
    then some (srv_data rr.srv)
    else if rr.rtype == query_type_opt
    then some (opt_data rr.opt)
    else some no_data

-- `packDomainName` makes the slice that it is given small in place; these are the names of the data
-- of a record by its type.
unfoldable pub lowered_data : ResourceRecord → ResourceRecord
lowered_data rr =
    if names_domain rr.rtype || rr.rtype == query_type_null
    then record rr { text = (do t ← rr.text; some (record { value = to_lower t.value })) }
    else if rr.rtype == query_type_soa
    then record rr {
      soa = (do t ← rr.soa; some (record t { mname = to_lower t.mname; rname = to_lower t.rname }));
    }
    else if rr.rtype == query_type_minfo
    then record rr {
      minfo = (do
        t ← rr.minfo
        some (record { rmail_box = to_lower t.rmail_box; email_box = to_lower t.email_box }));
    }
    else if rr.rtype == query_type_mx
    then record rr { mx = (do t ← rr.mx; some (record t { exchange = to_lower t.exchange })) }
    else if rr.rtype == query_type_srv
    then record rr { srv = (do t ← rr.srv; some (record t { target = to_lower t.target })) }
    else rr

-- The name of the record is small too, but for OPT, whose name is not packed.
unfoldable pub lowered : ResourceRecord → ResourceRecord
unfolding lowered_data
lowered rr =
    let packed = lowered_data rr in
    if rr.rtype == query_type_opt then packed else record packed { name = to_lower rr.name }
