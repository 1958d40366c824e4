-- ===== src/Services/Dns.antt =====
-- pkg/services/dns/dns.go: the DNS server of the gateway. It answers from its own zones and asks the
-- host's resolver for all other names. The locks on the zones are held for a whole call.
pub mod Suffix
pub mod Zones
pub mod Answers
pub mod Asked
mod Tests
use gvisor_tap_vsock.Base.{
  ℕ, ◌+◌, Bool, true, false, Option, none, some, List, [], ◌∷◌, ◌++◌, Text, text_eq, nat_eq, ◌==◌,
  if◌then◌else◌, length, ◌&&◌, ◌||◌, not, cut_suffix,
}
use gvisor_tap_vsock.GoNet.{Ip}

-- types.Record and types.Zone; a compiled expression is the set of texts that it matches.
pub record Record : Type 0 where
  pub name : Text
  pub ip : Ip
  pub regexp : Option (Text → Bool)

pub record Zone : Type 0 where
  pub name : Text
  pub records : List Record
  pub default_ip : Ip

-- The types of questions and the response code that the code names, from miekg/dns
abbrev pub type_a : ℕ
type_a = 1

abbrev pub type_ns : ℕ
type_ns = 2

abbrev pub type_cname : ℕ
type_cname = 5

abbrev pub type_mx : ℕ
type_mx = 15

abbrev pub type_txt : ℕ
type_txt = 16

abbrev pub type_srv : ℕ
type_srv = 33

abbrev pub rcode_name_error : ℕ
rcode_name_error = 3

pub record Question : Type 0 where
  pub name : Text
  pub qtype : ℕ

pub record Srv : Type 0 where
  pub target : Text
  pub port : ℕ
  pub priority : ℕ
  pub weight : ℕ

-- The records of an answer. Their class is always INET and their time to live 0.
pub data Rr : Type 0 where
  a_rr : Text → Ip → Rr
  cname_rr : Text → Text → Rr
  mx_rr : Text → Text → ℕ → Rr
  ns_rr : Text → Text → Rr
  srv_rr : Text → Srv → Rr
  txt_rr : Text → List Text → Rr

pub record Msg : Type 0 where
  pub questions : List Question
  pub answers : List Rr
  pub rcode : ℕ
  pub recursion_available : Bool

-- The host's resolver, none on an error, and net.IP.To4, the empty slice where it is nil
pub record Resolver : Type 0 where
  pub lookup_ip_addr : Text → Option (List Ip)
  pub lookup_cname : Text → Option Text
  pub lookup_mx : Text → Option (List (Text × ℕ))
  pub lookup_ns : Text → Option (List Text)
  pub lookup_srv : Text → Option (List Srv)
  pub lookup_txt : Text → Option (List Text)
  pub to4 : Ip → Ip

-- A question either ends the whole of addAnswers or goes on to the next one.
pub data Answered : Type 0 where
  returns goes_on : Msg → Answered

abbrev pub answer : Msg → List Rr → Msg
answer m rrs = record m { answers = m.answers ++ rrs }

abbrev pub name_error : Msg → Msg
name_error m = record m { rcode = rcode_name_error }

-- (record.Name != "" && record.Name == withoutZone) || (record.Regexp != nil && ...)
unfoldable pub matches_regexp : Option (Text → Bool) → Text → Bool
matches_regexp none name = false
matches_regexp (some matches) name = matches name

unfoldable pub matches_record : Record → Text → Bool
unfolding matches_regexp
matches_record r name = not (r.name == []) && r.name == name || matches_regexp r.regexp name

-- The loop over the records of a zone, and the default address behind it. IP.Equal(net.IP(""))
-- holds of the empty address only.
unfoldable pub answer_zone : List Record → Ip → Question → Text → Msg → Msg
answer_zone [] [] q name m = name_error m
answer_zone [] (b ∷ default_ip) q name m = answer m (a_rr q.name (b ∷ default_ip) ∷ [])
answer_zone (r ∷ records) default_ip q name m =
    if matches_record r name
    then answer m (a_rr q.name r.ip ∷ [])
    else answer_zone records default_ip q name m

-- The loop over the zones; none if no zone's suffix fits the name
unfoldable pub answer_locally : List Zone → Question → Msg → Option Msg
answer_locally [] q m = none
answer_locally (z ∷ zones) q m = elim (cut_suffix q.name (b'.' ∷ z.name)) [
  | none ↦ answer_locally zones q m
  | some without_zone ↦
      some (if q.qtype == type_a then answer_zone z.records z.default_ip q without_zone m else m)
]

-- for _, ip := range ips: only the addresses of version 4
unfoldable pub a_rrs : (Ip → Ip) → Text → List Ip → List Rr
a_rrs to4 name [] = []
a_rrs to4 name (ip ∷ ips) =
    if length (to4 ip) == 4 then a_rr name (to4 ip) ∷ a_rrs to4 name ips else a_rrs to4 name ips

-- for _, mx := range records, and the same loop for the other types
unfoldable pub each_rr : {A : Type 0} → (A → Rr) → List A → List Rr
each_rr rr [] = []
each_rr rr (x ∷ xs) = rr x ∷ each_rr rr xs

-- if err != nil { m.Rcode = dns.RcodeNameError; return }
unfoldable pub upstream : {A : Type 0} → Option A → (A → List Rr) → Msg → Answered
upstream none rrs m = returns (name_error m)
upstream (some found) rrs m = goes_on (answer m (rrs found))

-- switch q.Qtype
unfoldable pub answer_upstream : Resolver → Question → Msg → Answered
unfolding upstream each_rr a_rrs
answer_upstream r q m =
    if q.qtype == type_a
    then upstream (r.lookup_ip_addr q.name) (a_rrs r.to4 q.name) m
    else if q.qtype == type_cname
    then upstream (r.lookup_cname q.name) (λ cname. cname_rr q.name cname ∷ []) m
    else if q.qtype == type_mx
    then upstream (r.lookup_mx q.name) (each_rr (λ mx. mx_rr q.name mx.0 mx.1)) m
    else if q.qtype == type_ns
    then upstream (r.lookup_ns q.name) (each_rr (ns_rr q.name)) m
    else if q.qtype == type_srv
    then upstream (r.lookup_srv q.name) (each_rr (srv_rr q.name)) m
    else if q.qtype == type_txt
    then upstream (r.lookup_txt q.name) (λ texts. txt_rr q.name texts ∷ []) m
    else goes_on m

unfoldable pub answer_question : List Zone → Resolver → Question → Msg → Answered
answer_question zones r q m = elim (answer_locally zones q m) [
  | some m' ↦ returns m'
  | none ↦ answer_upstream r q m
]

-- addAnswers, over the questions of the message
unfoldable pub add_answers : List Zone → Resolver → List Question → Msg → Msg
add_answers zones r [] m = m
add_answers zones r (q ∷ questions) m = elim (answer_question zones r q m) [
  | returns m' ↦ m'
  | goes_on m' ↦ add_answers zones r questions m'
]

-- What handle calls of miekg/dns
pub record DnsLib : Type 0 where
  pub set_reply : Msg → Msg
  pub edns0_udp_size : Msg → Option ℕ
  pub truncate : ℕ → Msg → Msg

-- handle: the message that is written
abbrev pub response_size : Option ℕ → ℕ → ℕ
response_size none size = size
response_size (some udp_size) size = udp_size

unfoldable pub handle : DnsLib → List Zone → Resolver → ℕ → Msg → Msg
handle lib zones r size request =
    let reply = record (lib.set_reply request) { recursion_available = true } in
    lib.truncate (response_size (lib.edns0_udp_size request) size)
      (add_answers zones r reply.questions reply)

-- handleTCP with dns.MaxMsgSize, handleUDP with dns.MinMsgSize
unfoldable pub handle_tcp : DnsLib → List Zone → Resolver → Msg → Msg
unfolding handle
handle_tcp lib zones r = handle lib zones r 65535

unfoldable pub handle_udp : DnsLib → List Zone → Resolver → Msg → Msg
unfolding handle
handle_udp lib zones r = handle lib zones r 512

-- addZone
unfoldable pub add_zone : Zone → List Zone → List Zone
add_zone req [] = req ∷ []
add_zone req (zone ∷ zones) =
    if zone.name == req.name
    then record req { records = req.records ++ zone.records } ∷ zones
    else zone ∷ add_zone req zones

-- The handler of /add: the method, and the body as the JSON decoder reads it
pub data Status : Type 0 where
  status_ok bad_request : Status

unfoldable pub add_endpoint : Bool → Option Zone → List Zone → Status × List Zone
add_endpoint false body zones = (bad_request, zones)
add_endpoint true none zones = (bad_request, zones)
add_endpoint true (some req) zones = (status_ok, add_zone req zones)
