-- ===== src/Services/Dns/Suffix.antt =====
-- cut_suffix splits a text into what stands before a suffix and the suffix.
use gvisor_tap_vsock.Base.{
  ◌≡◌, refl, ap, inl, inr, arith, some, [], ◌∷◌, ◌++◌, Text, text_eq, nat_eq, list_beq,
  list_beq_iff, cut_suffix, length, length-append, Bool-cases, Option-cases,
}

pub cut_suffix_sound :
    (s suffix before : Text) → cut_suffix s suffix ≡ some before → s ≡ before ++ suffix
cut_suffix_sound [] suffix before e = ground (arith, list_beq_iff [] suffix)
cut_suffix_sound (c ∷ s) suffix before e = elim (Bool-cases (list_beq (c ∷ s) suffix)) [
  | inl same ↦ ground (arith, list_beq_iff (c ∷ s) suffix)
  | inr differ ↦ elim (Option-cases (cut_suffix s suffix)) [
    | inl none_left ↦ ground arith
    | inr (t, found) ↦
        let here : before ≡ c ∷ t = ground arith in
        rw here (ap (λ (r : Text). c ∷ r) (cut_suffix_sound s suffix t found))
  ]
]

pub cut_suffix_complete :
    (before suffix : Text) → cut_suffix (before ++ suffix) suffix ≡ some before
cut_suffix_complete [] [] = refl
cut_suffix_complete [] (c ∷ suffix) = ground (arith, list_beq_iff (c ∷ suffix) (c ∷ suffix))
cut_suffix_complete (c ∷ before) suffix =
    elim (Bool-cases (list_beq (c ∷ (before ++ suffix)) suffix)) [
      | inl same ↦ absurd (
          omega (
            arith,
            ap length ((list_beq_iff (c ∷ (before ++ suffix)) suffix).0 same),
            length-append before suffix,
          ))
      | inr differ ↦ rw (differ, cut_suffix_complete before suffix)
    ]
