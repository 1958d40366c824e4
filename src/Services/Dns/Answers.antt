-- ===== src/Services/Dns/Answers.antt =====
-- What the server answers.
use gvisor_tap_vsock.Base.{
  ◌≡◌, refl, sym, ap, ◌∙◌, true, false, none, some, List, [], ◌∷◌, ◌++◌, Text, text_eq, nat_eq,
  ◌==◌, ==_iff, if◌then◌else◌, All, append-nil, cut_suffix,
}
use gvisor_tap_vsock.GoNet.{Ip}
use gvisor_tap_vsock.Services.Dns.{
  Zone, Record, Question, Msg, a_rr, Resolver, returns, type_a, matches_record, answer_zone,
  answer_locally, answer_question, add_answers, rcode_name_error,
}
use gvisor_tap_vsock.Services.Dns.Suffix.{cut_suffix_complete}

-- The first zone of the list whose suffix the name of the question has, and what stands before it.
pub record InZone (zones : List Zone) (q : Question) : Type 0 where
  pub before : List Zone
  pub zone : Zone
  pub after : List Zone
  pub without_zone : Text
  pub split : zones ≡ before ++ zone ∷ after
  pub first : All (λ z. cut_suffix q.name (b'.' ∷ z.name) ≡ none) before
  pub suffix : q.name ≡ without_zone ++ b'.' ∷ zone.name

module _ (q : Question) (m : Msg) where
  answer_locally-append :
      (before zones : List Zone)
      → All (λ z. cut_suffix q.name (b'.' ∷ z.name) ≡ none) before
      → answer_locally (before ++ zones) q m ≡ answer_locally zones q m
  unfolding answer_locally
  answer_locally-append [] zones h = refl
  answer_locally-append (z ∷ before) zones h =
      rw (h.0, answer_locally) (answer_locally-append before zones h.1)

  answer_locally_zone :
      {zones : List Zone} (i : InZone zones q)
      → answer_locally zones q m
        ≡ some (
            if q.qtype == type_a
            then answer_zone i.zone.records i.zone.default_ip q i.without_zone m
            else m)
  unfolding answer_locally
  answer_locally_zone {zones} i =
      let found : cut_suffix q.name (b'.' ∷ i.zone.name) ≡ some i.without_zone =
        ap (λ (t : Text). cut_suffix t (b'.' ∷ i.zone.name)) i.suffix
        ∙ cut_suffix_complete i.without_zone (b'.' ∷ i.zone.name) in
      ap (λ (zs : List Zone). answer_locally zs q m) i.split
      ∙ answer_locally-append i.before (i.zone ∷ i.after) i.first
      ∙ rw (found, answer_locally)

  answer_question_local :
      (zones : List Zone) (r : Resolver) (i : InZone zones q)
      → answer_question zones r q m
        ≡ returns (
            if q.qtype == type_a
            then answer_zone i.zone.records i.zone.default_ip q i.without_zone m
            else m)
  unfolding answer_question
  answer_question_local zones r i = rw (answer_locally_zone i, answer_question)

  -- A question for a name in one of the server's zones is answered from the first such zone, and
  -- ends the answer: the host's resolver is not asked, and further questions are not answered. A
  -- question of another type than A gets no record and no error.
  pub add_answers_local :
      (zones : List Zone) (r : Resolver) (questions : List Question) (i : InZone zones q)
      → add_answers zones r (q ∷ questions) m ≡ (
          if q.qtype == type_a
          then answer_zone i.zone.records i.zone.default_ip q i.without_zone m
          else m)
  unfolding add_answers
  add_answers_local zones r questions i = rw (answer_question_local zones r i, add_answers)

  answer_zone-append :
      (before records : List Record) (default_ip : Ip) (name : Text)
      → All (λ r. matches_record r name ≡ false) before
      → answer_zone (before ++ records) default_ip q name m
        ≡ answer_zone records default_ip q name m
  unfolding answer_zone
  answer_zone-append [] records default_ip name h = refl
  answer_zone-append (r ∷ before) records default_ip name h =
      rw h.0 (answer_zone-append before records default_ip name h.1)

  -- A question of type A for a name in one of the server's zones gets one record, with the address
  -- of the first record of the first such zone that matches the name before the zone's suffix.
  pub add_answers_record :
      (zones : List Zone) (r : Resolver) (questions : List Question) (i : InZone zones q)
      (before : List Record) (found : Record) (after : List Record)
      → q.qtype ≡ type_a
      → i.zone.records ≡ before ++ found ∷ after
      → All (λ record'. matches_record record' i.without_zone ≡ false) before
      → matches_record found i.without_zone ≡ true
      → add_answers zones r (q ∷ questions) m
        ≡ record m { answers = m.answers ++ a_rr q.name found.ip ∷ [] }
  unfolding answer_zone
  add_answers_record zones r questions i before found after a split none_before match =
      add_answers_local zones r questions i
      ∙ rw ((==_iff q.qtype type_a).1 a) (
          ap (λ (rs : List Record). answer_zone rs i.zone.default_ip q i.without_zone m) split
          ∙ answer_zone-append before (found ∷ after) i.zone.default_ip i.without_zone none_before
          ∙ rw match)

  -- If no record of that zone matches, a question of type A is answered with the zone's default
  -- address, and with the name error if it has none.
  pub add_answers_no_record :
      (zones : List Zone) (r : Resolver) (questions : List Question) (i : InZone zones q)
      → q.qtype ≡ type_a
      → All (λ record'. matches_record record' i.without_zone ≡ false) i.zone.records
      → add_answers zones r (q ∷ questions) m ≡ (
          if i.zone.default_ip == []
          then record m { rcode = rcode_name_error }
          else record m { answers = m.answers ++ a_rr q.name i.zone.default_ip ∷ [] })
  add_answers_no_record zones r questions i a no_match =
      add_answers_local zones r questions i
      ∙ rw ((==_iff q.qtype type_a).1 a) (
          ap (λ (rs : List Record). answer_zone rs i.zone.default_ip q i.without_zone m)
            (sym (append-nil i.zone.records))
          ∙ answer_zone-append i.zone.records [] i.zone.default_ip i.without_zone no_match
          ∙ at_end i.zone.default_ip)
    where
      at_end :
          (ip : Ip)
          → answer_zone [] ip q i.without_zone m ≡ (
              if ip == []
              then record m { rcode = rcode_name_error }
              else record m { answers = m.answers ++ a_rr q.name ip ∷ [] })
      at_end [] = unfold answer_zone in refl
      at_end (b ∷ ip) = unfold answer_zone in refl
