-- ===== src/Services/Dns/Tests.antt =====
-- The server on the zones of cmd/gvproxy/main.go, and the theorems at instances.
use gvisor_tap_vsock.Base.{
  ℕ, ◌≡◌, refl, true, none, some, List, [], ◌∷◌, Text, text_eq, nat_eq, codes,
}
use gvisor_tap_vsock.GoNet.{Ip}
use gvisor_tap_vsock.Services.Dns.{
  Zone, Record, Question, Msg, a_rr, Resolver, answer_locally, answer_upstream, answer_question,
  add_answers, type_a, type_cname,
}
use gvisor_tap_vsock.Services.Dns.Answers.{InZone, add_answers_local}
use gvisor_tap_vsock.Services.Dns.Asked.{Adds, Asked, add_answers-Asked}

abbrev record_of : Text → Ip → Record
record_of name ip = record { name = name; ip = ip; regexp = none }

abbrev containers : Zone
containers = record {
  name = codes "containers.internal.";
  records =
      record_of (codes "gateway") (192 ∷ 168 ∷ 127 ∷ 1 ∷ [])
      ∷ record_of (codes "host") (192 ∷ 168 ∷ 127 ∷ 254 ∷ [])
      ∷ [];
  default_ip = [];
}

abbrev docker : Zone
docker = record containers { name = codes "docker.internal." }

abbrev zones : List Zone
zones = containers ∷ docker ∷ []

abbrev empty_msg : Msg
empty_msg = record { questions = []; answers = []; rcode = 0; recursion_available = true }

abbrev ask : Text → ℕ → Question
ask name qtype = record { name = name; qtype = qtype }

abbrev host_docker : Question
host_docker = ask (codes "host.docker.internal.") type_a

-- A resolver that knows one address of either version for every name, and nothing else.
abbrev first_four : Ip → Ip
first_four (a ∷ b ∷ c ∷ d ∷ []) = a ∷ b ∷ c ∷ d ∷ []
first_four _ = []

abbrev resolver : Resolver
resolver = record {
  lookup_ip_addr = λ name. some ((1 ∷ 2 ∷ 3 ∷ 4 ∷ []) ∷ (0 ∷ []) ∷ []);
  lookup_cname = λ name. none;
  lookup_mx = λ name. none;
  lookup_ns = λ name. none;
  lookup_srv = λ name. none;
  lookup_txt = λ name. none;
  to4 = first_four;
}

resolved :
    add_answers zones resolver (ask (codes "example.org.") type_a ∷ []) empty_msg
    ≡ record empty_msg { answers = a_rr (codes "example.org.") (1 ∷ 2 ∷ 3 ∷ 4 ∷ []) ∷ [] }
unfolding add_answers answer_question answer_locally answer_upstream
resolved = refl

in_docker : InZone zones host_docker
in_docker = record {
  before = containers ∷ [];
  zone = docker;
  after = [];
  without_zone = codes "host";
  split = refl;
  first = (refl, tt);
  suffix = refl;
}

abbrev cname_docker : Question
cname_docker = ask (codes "host.docker.internal.") type_cname

add_answers_local_example : add_answers zones resolver (cname_docker ∷ []) empty_msg ≡ empty_msg
add_answers_local_example = add_answers_local cname_docker empty_msg zones resolver [] (record {
  before = containers ∷ [];
  zone = docker;
  after = [];
  without_zone = codes "host";
  split = refl;
  first = (refl, tt);
  suffix = refl;
})

abbrev other_docker : Question
other_docker = ask (codes "other.docker.internal.") type_a

add_answers-Asked_example :
    Adds
      (Asked (host_docker ∷ []))
      empty_msg
      (add_answers zones resolver (host_docker ∷ []) empty_msg)
add_answers-Asked_example = add_answers-Asked zones resolver (host_docker ∷ []) empty_msg

abbrev more : Zone
more = record docker { records = record_of (codes "crc") (10 ∷ 0 ∷ 0 ∷ 1 ∷ []) ∷ [] }
