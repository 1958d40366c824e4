-- ===== src/WinProxy/Arguments.antt =====
-- Which arguments the proxy accepts, and what it makes of them.
use gvisor_tap_vsock.Base.{
  ℕ, suc, ◌-◌, ◌%◌, ◌≤◌, ◌≡◌, refl, ap, Bool, true, false, arith, List, [], ◌∷◌, ◌++◌, Text, codes,
  text_eq, nat_eq, ◌==◌, ==_iff, ltb, not, ◌||◌, length, Bool-cases, inl, inr,
}
use gvisor_tap_vsock.WinProxy.{
  Entry, shows_version, bad_args, goes_on, entries, read_entries, read_args,
}

abbrev pub flat : List Entry → List Text
flat [] = []
flat (e ∷ rest) = e.source ∷ e.dest ∷ e.identity ∷ flat rest

abbrev pub debug_flag : Bool → List Text
debug_flag true = codes "-debug" ∷ []
debug_flag false = []

flat-entries : (args : List Text) → length args % 3 ≡ 0 → flat (entries args) ≡ args
unfolding entries
flat-entries [] h = refl
flat-entries (a ∷ []) h = absurd (omega (arith, h))
flat-entries (a ∷ b ∷ []) h = absurd (omega (arith, h))
flat-entries (a ∷ b ∷ c ∷ rest) h =
    ap (λ (t : List Text). a ∷ b ∷ c ∷ t) (flat-entries rest (omega (arith, h)))

whole_entries :
    (n : ℕ)
    → (ltb (suc (suc n)) 5 || not ((suc (suc n) - 2) % 3 == 0)) ≡ false
    → (3 ≤ n) × (n % 3 ≡ 0)
whole_entries n h = elim (Bool-cases (ltb (suc (suc n)) 5)) [
  | inl few ↦ absurd (let r : true ≡ false = rw (← h, few) refl in cc)
  | inr enough ↦ elim (Bool-cases ((suc (suc n) - 2) % 3 == 0)) [
    | inl divides ↦
        let left : suc (suc n) - 2 ≡ n = omega arith in
        let zero_left : (suc (suc n) - 2) % 3 ≡ 0 = (==_iff ((suc (suc n) - 2) % 3) 0).0 divides in
        (ground (arith, enough), rw⁻¹ left zero_left)
    | inr others ↦ absurd (let r : true ≡ false = rw (← h, enough, others) refl in cc)
  ]
]

some_entries : (rest : List Text) → 3 ≤ length rest → 1 ≤ length (entries rest)
unfolding entries
some_entries [] h = absurd (omega (arith, h))
some_entries (a ∷ []) h = absurd (omega (arith, h))
some_entries (a ∷ b ∷ []) h = absurd (omega (arith, h))
some_entries (a ∷ b ∷ c ∷ rest) h = omega arith

read_entries-goes_on :
    (debug d : Bool) (args : List Text) (name state_dir : Text) (es : List Entry)
    → read_entries debug args ≡ goes_on d name state_dir es
    → (d ≡ debug) × (args ≡ name ∷ state_dir ∷ flat es) × (1 ≤ length es)
unfolding read_entries
read_entries-goes_on debug d [] name state_dir es e = absurd (cc)
read_entries-goes_on debug d (a ∷ []) name state_dir es e = absurd (cc)
read_entries-goes_on debug d (a ∷ b ∷ rest) name state_dir es e =
    elim (Bool-cases
      (ltb (length (a ∷ b ∷ rest)) 5 || not ((length (a ∷ b ∷ rest) - 2) % 3 == 0))) [
        | inl refused ↦
            absurd (let r : bad_args ≡ goes_on d name state_dir es = rw (← e, refused) refl in cc)
        | inr fine ↦
            let r : goes_on debug a b (entries rest) ≡ goes_on d name state_dir es =
              rw (← e, fine) refl in
            let (enough, threes) = whole_entries (length rest) fine in
            let same : entries rest ≡ es = cc in
            let spelled = flat-entries rest threes in
            (cc, rw (← same, spelled) (cc), rw (← same) (some_entries rest enough))
      ]

-- The proxy goes on only with the arguments that spell what it goes on with: an optional -debug, the
-- name, the directory, and at least one entry of three arguments, in this order and with nothing
-- behind them.
pub read_args-goes_on :
    (program : Text) (args : List Text) (d : Bool) (name state_dir : Text) (es : List Entry)
    → read_args (program ∷ args) ≡ goes_on d name state_dir es
    → (args ≡ debug_flag d ++ name ∷ state_dir ∷ flat es) × (1 ≤ length es)
unfolding read_args
read_args-goes_on program [] d name state_dir es e = absurd (cc)
read_args-goes_on program (first ∷ rest) d name state_dir es e =
    elim (Bool-cases (first == codes "-version")) [
      | inl version ↦
          absurd
            (let r : shows_version ≡ goes_on d name state_dir es = rw (← e, version) refl in cc)
      | inr other ↦ elim (Bool-cases (first == codes "-debug")) [
        | inl debug ↦
            let r : read_entries true rest ≡ goes_on d name state_dir es =
              rw (← e, other, debug) refl in
            let (flagged, spelled, some_there) =
              read_entries-goes_on true d rest name state_dir es r in
            let dash : first ≡ codes "-debug" = (==_iff first (codes "-debug")).0 debug in
            (rw (flagged, dash, spelled) refl, some_there)
        | inr plain ↦
            let r : read_entries false (first ∷ rest) ≡ goes_on d name state_dir es =
              rw (← e, other, plain) refl in
            let (flagged, spelled, some_there) =
              read_entries-goes_on false d (first ∷ rest) name state_dir es r in
            (rw (flagged, spelled) refl, some_there)
      ]
    ]
