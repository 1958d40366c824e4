-- ===== src/Http/Server/Sorting.antt =====
-- The order in which the forwards are listed.
use mathlib.Core.List.{Perm, Mem, mem-cons_self, mem-cons_of_mem}
use mathlib.Core.List.Perm
use gvisor_tap_vsock.Base.{
  ◌≡◌, inl, inr, Bool, true, false, some, List, [], ◌∷◌, Text, text_eq, nat_eq, ◌==◌, GoMap, lookup,
  Bool-cases,
}
use gvisor_tap_vsock.Http.Server.{insert_sorted, sort_slice, values}

module _ {A : Type 0} (less : A → A → Bool) where
  -- No element is less than the one before it.
  abbrev pub InOrder : List A → Type 0
  InOrder [] = Unit
  InOrder (x ∷ []) = Unit
  InOrder (x ∷ y ∷ ys) = (less y x ≡ false) × InOrder (y ∷ ys)

  insert_sorted-perm : (x : A) (ys : List A) → Perm (insert_sorted less x ys) (x ∷ ys)
  unfolding insert_sorted
  insert_sorted-perm x [] = Perm.rfl
  insert_sorted-perm x (y ∷ ys) = elim (Bool-cases (less y x)) [
    | inl e ↦ rw e (Perm.trans (Perm.cons y (insert_sorted-perm x ys)) (Perm.swap x y ys))
    | inr e ↦ rw e Perm.rfl
  ]

  pub sort_slice-perm : (xs : List A) → Perm (sort_slice less xs) xs
  unfolding sort_slice
  sort_slice-perm [] = Perm.rfl
  sort_slice-perm (x ∷ xs) =
      Perm.trans (insert_sorted-perm x (sort_slice less xs)) (Perm.cons x (sort_slice-perm xs))

  module _ (asym : (x y : A) → less x y ≡ true → less y x ≡ false) where
    tail-InOrder : (x : A) (ys : List A) → InOrder (x ∷ ys) → InOrder ys
    tail-InOrder x [] h = tt
    tail-InOrder x (y ∷ ys) h = h.1

    insert_sorted-above :
        (x b : A) (ys : List A)
        → less x b ≡ false
        → InOrder (b ∷ ys)
        → InOrder (insert_sorted less x ys)
        → InOrder (b ∷ insert_sorted less x ys)
    unfolding insert_sorted
    insert_sorted-above x b [] above h i = (above, tt)
    insert_sorted-above x b (y ∷ ys) above h i = elim (Bool-cases (less y x)) [
      | inl e ↦ rw e (h.0, (rw e at i))
      | inr e ↦ rw e (above, (rw e at i))
    ]

    insert_sorted-InOrder : (x : A) (ys : List A) → InOrder ys → InOrder (insert_sorted less x ys)
    unfolding insert_sorted
    insert_sorted-InOrder x [] h = tt
    insert_sorted-InOrder x (y ∷ ys) h = elim (Bool-cases (less y x)) [
      | inl e ↦ rw e (
          insert_sorted-above x y ys (asym y x e) h
            (insert_sorted-InOrder x ys (tail-InOrder y ys h)))
      | inr e ↦ rw e (e, h)
    ]

    pub sort_slice-InOrder : (xs : List A) → InOrder (sort_slice less xs)
    unfolding sort_slice
    sort_slice-InOrder [] = tt
    sort_slice-InOrder (x ∷ xs) =
        insert_sorted-InOrder x (sort_slice less xs) (sort_slice-InOrder xs)

-- What a map holds is among its values.
pub lookup-mem :
    {V : Type 0} (k : Text) (v : V) (m : GoMap Text V) → lookup k m ≡ some v → Mem v (values m)
unfolding lookup
lookup-mem k v [] e = absurd (cc)
lookup-mem k v ((other, w) ∷ m) e = elim (Bool-cases (other == k)) [
  | inl same ↦
      let found : some w ≡ some v = rw same at e in
      let here : w ≡ v = cc found in rw here mem-cons_self
  | inr differ ↦ mem-cons_of_mem w (lookup-mem k v m (rw differ at e))
]
