-- ===== src/Services/Dns/Asked.antt =====
-- Every record of an answer is one that was asked for; what becomes of the size of a response.
use gvisor_tap_vsock.Base.{
  ℕ, ◌≡◌, refl, sym, ap, ◌∙◌, ◌⊎◌, inl, inr, arith, Option, none, some, List, [], ◌∷◌, ◌++◌, Text,
  text_eq, nat_eq, ◌==◌, ==_iff, if◌then◌else◌, Bool-cases, Option-cases, All, All-append,
  append_assoc, append-nil, length, cut_suffix,
}
use gvisor_tap_vsock.GoNet.{Ip}
use gvisor_tap_vsock.Services.Dns.{
  Zone, Record, Question, Msg, Rr, a_rr, cname_rr, mx_rr, ns_rr, srv_rr, txt_rr, Resolver, Answered,
  returns, goes_on, name_error, type_a, type_cname, type_mx, type_ns, type_srv, type_txt,
  matches_record, answer_zone, answer_locally, a_rrs, each_rr, upstream, answer_upstream,
  answer_question, add_answers,
}

abbrev pub Answers : Question → Rr → Type 0
Answers q (a_rr name ip) = (name ≡ q.name) × (q.qtype ≡ type_a)
Answers q (cname_rr name target) = (name ≡ q.name) × (q.qtype ≡ type_cname)
Answers q (mx_rr name host pref) = (name ≡ q.name) × (q.qtype ≡ type_mx)
Answers q (ns_rr name host) = (name ≡ q.name) × (q.qtype ≡ type_ns)
Answers q (srv_rr name srv) = (name ≡ q.name) × (q.qtype ≡ type_srv)
Answers q (txt_rr name texts) = (name ≡ q.name) × (q.qtype ≡ type_txt)

-- The record answers one of the questions: it has its name and its type.
abbrev pub Asked : List Question → Rr → Type 0
Asked [] rr = ⊥
Asked (q ∷ questions) rr = Answers q rr ⊎ Asked questions rr

-- The answers of the second message are those of the first with records of the kind added.
abbrev pub Adds : (Rr → Type 0) → Msg → Msg → Type 0
Adds P m m' = (new : List Rr) × (m'.answers ≡ m.answers ++ new) × All P new

Adds-refl : (P : Rr → Type 0) (m m' : Msg) → m'.answers ≡ m.answers → Adds P m m'
Adds-refl P m m' e = ([], e ∙ sym (append-nil m.answers), tt)

All-mono : (P Q : Rr → Type 0) → ((rr : Rr) → P rr → Q rr) → (rrs : List Rr) → All P rrs → All Q rrs
All-mono P Q f [] h = tt
All-mono P Q f (rr ∷ rrs) h = (f rr h.0, All-mono P Q f rrs h.1)

module _ (q : Question) where
  answer_zone-Adds :
      (records : List Record) (default_ip : Ip) (name : Text) (m : Msg)
      → q.qtype ≡ type_a
      → Adds (Answers q) m (answer_zone records default_ip q name m)
  unfolding answer_zone
  answer_zone-Adds [] [] name m a = Adds-refl (Answers q) m (name_error m) refl
  answer_zone-Adds [] (b ∷ ip) name m a = (a_rr q.name (b ∷ ip) ∷ [], refl, ((refl, a), tt))
  answer_zone-Adds (r ∷ records) ip name m a = elim (Bool-cases (matches_record r name)) [
    | inl e ↦ rw e (a_rr q.name r.ip ∷ [], refl, ((refl, a), tt))
    | inr e ↦ rw e (answer_zone-Adds records ip name m a)
  ]

  answer_locally-Adds :
      (zones : List Zone) (m m' : Msg) → answer_locally zones q m ≡ some m' → Adds (Answers q) m m'
  unfolding answer_locally
  answer_locally-Adds [] m m' e = absurd (cc)
  answer_locally-Adds (z ∷ zones) m m' e = elim (Option-cases (cut_suffix q.name (b'.' ∷ z.name))) [
    | inl absent ↦ answer_locally-Adds zones m m' (rw (absent, answer_locally) at e)
    | inr (name, found) ↦ elim (Bool-cases (q.qtype == type_a)) [
      | inl a ↦
          let same : answer_zone z.records z.default_ip q name m ≡ m' = ground arith in
          rw (← same) (answer_zone-Adds z.records z.default_ip name m ((==_iff q.qtype type_a).0 a))
      | inr other ↦ let same : m ≡ m' = ground arith in rw (← same) (Adds-refl (Answers q) m m refl)
    ]
  ]

  a_rrs-All :
      (to4 : Ip → Ip) (ips : List Ip) → q.qtype ≡ type_a → All (Answers q) (a_rrs to4 q.name ips)
  unfolding a_rrs
  a_rrs-All to4 [] a = tt
  a_rrs-All to4 (ip ∷ ips) a = elim (Bool-cases (length (to4 ip) == 4)) [
    | inl e ↦ rw e ((refl, a), a_rrs-All to4 ips a)
    | inr e ↦ rw e (a_rrs-All to4 ips a)
  ]

  each_rr-All :
      {A : Type 0} (rr : A → Rr) (xs : List A)
      → ((x : A) → Answers q (rr x))
      → All (Answers q) (each_rr rr xs)
  unfolding each_rr
  each_rr-All rr [] h = tt
  each_rr-All rr (x ∷ xs) h = (h x, each_rr-All rr xs h)

-- What an `Answered` holds.
abbrev message : Answered → Msg
message (returns m) = m
message (goes_on m) = m

module _ (q : Question) where
  upstream-Adds :
      {A : Type 0} (found : Option A) (rrs : A → List Rr) (m : Msg)
      → ((x : A) → All (Answers q) (rrs x))
      → Adds (Answers q) m (message (upstream found rrs m))
  unfolding upstream
  upstream-Adds none rrs m h = Adds-refl (Answers q) m (name_error m) refl
  upstream-Adds (some x) rrs m h = (rrs x, refl, h x)

  Adds-if :
      (n : ℕ) (m : Msg) (x y : Answered)
      → (q.qtype ≡ n → Adds (Answers q) m (message x))
      → Adds (Answers q) m (message y)
      → Adds (Answers q) m (message (if q.qtype == n then x else y))
  Adds-if n m x y hx hy = elim (Bool-cases (q.qtype == n)) [
    | inl e ↦ rw e (hx ((==_iff q.qtype n).0 e))
    | inr e ↦ rw e hy
  ]

  answer_upstream-Adds :
      (r : Resolver) (m : Msg) → Adds (Answers q) m (message (answer_upstream r q m))
  unfolding answer_upstream
  answer_upstream-Adds r m =
      Adds-if type_a m _ _
        (λ t. upstream-Adds (r.lookup_ip_addr q.name) _ m (λ ips. a_rrs-All q r.to4 ips t))
        (Adds-if type_cname m _ _
          (λ t. upstream-Adds (r.lookup_cname q.name) _ m (λ c. ((refl, t), tt)))
          (Adds-if type_mx m _ _
            (λ t.
              upstream-Adds (r.lookup_mx q.name) _ m (λ xs. each_rr-All q _ xs (λ x. (refl, t))))
            (Adds-if type_ns m _ _
              (λ t.
                upstream-Adds (r.lookup_ns q.name) _ m (λ xs. each_rr-All q _ xs (λ x. (refl, t))))
              (Adds-if type_srv m _ _
                (λ t.
                  upstream-Adds (r.lookup_srv q.name) _ m
                    (λ xs. each_rr-All q _ xs (λ x. (refl, t))))
                (Adds-if type_txt m _ _
                  (λ t. upstream-Adds (r.lookup_txt q.name) _ m (λ c. ((refl, t), tt)))
                  (Adds-refl (Answers q) m m refl))))))

  answer_question-Adds :
      (zones : List Zone) (r : Resolver) (m : Msg)
      → Adds (Answers q) m (message (answer_question zones r q m))
  unfolding answer_question
  answer_question-Adds zones r m = elim (Option-cases (answer_locally zones q m)) [
    | inl absent ↦ rw (absent, answer_question) (answer_upstream-Adds r m)
    | inr (m', e) ↦ rw (e, answer_question) (answer_locally-Adds q zones m m' e)
  ]

-- Every record that the server adds to a message answers one of its questions: it has the
-- question's name, and the question asks for its type.
pub add_answers-Asked :
    (zones : List Zone) (r : Resolver) (questions : List Question) (m : Msg)
    → Adds (Asked questions) m (add_answers zones r questions m)
unfolding add_answers
add_answers-Asked zones r [] m = Adds-refl (Asked []) m m refl
add_answers-Asked zones r (q ∷ questions) m =
    go (answer_question zones r q m) (answer_question-Adds q zones r m)
      (add_answers-Asked zones r questions)
  where
    go :
        (a : Answered)
        → Adds (Answers q) m (message a)
        → ((m' : Msg) → Adds (Asked questions) m' (add_answers zones r questions m'))
        → Adds
            (Asked (q ∷ questions))
            m
            (elim a [ returns m' ↦ m' | goes_on m' ↦ add_answers zones r questions m' ])
    go (returns m') (new, e, h) k =
        (new, e, All-mono (Answers q) (Asked (q ∷ questions)) (λ rr a. inl a) new h)
    go (goes_on m') (new, e, h) k =
        let (more, e', h') = k m' in
        (
          new ++ more,
          e' ∙ ap (λ (rrs : List Rr). rrs ++ more) e ∙ append_assoc m.answers new more,
          All-append (Asked (q ∷ questions)) new more
              (All-mono (Answers q) (Asked (q ∷ questions)) (λ rr a. inl a) new h)
              (All-mono (Asked questions) (Asked (q ∷ questions)) (λ rr a. inr a) more h'),
        )
