-- ===== src/Services/Forwarder/UdpProxy/Keys.antt =====
-- The keys of the connection table tell addresses apart.
use gvisor_tap_vsock.Base.{
  ℕ, zero, suc, ◌+◌, ◌*◌, ◌<◌, ◌≤◌, ◌≡◌, refl, sym, ap, ◌∙◌, arith, some, [], ◌∷◌, ◌++◌, Text,
  nat_eq, length, take, drop, All, length-drop, ◌⊎◌, inl, inr,
}
use gvisor_tap_vsock.Services.Forwarder.UdpProxy.{UdpAddr, big_endian, new_conn_track_key}

abbrev pub IsBytes : Text → Type 0
IsBytes = All (λ b. b < 256)

big_endian_cancel :
    (n m : ℕ) (xs ys : Text)
    → length xs ≡ length ys
    → IsBytes xs
    → IsBytes ys
    → big_endian n xs ≡ big_endian m ys
    → (n ≡ m) × (xs ≡ ys)
unfolding big_endian
big_endian_cancel n m [] [] l bx by e = (e, refl)
big_endian_cancel n m [] (y ∷ ys) l bx by e = absurd (omega (arith, l))
big_endian_cancel n m (x ∷ xs) [] l bx by e = absurd (omega (arith, l))
big_endian_cancel n m (x ∷ xs) (y ∷ ys) l bx by e =
    let (head, tail) =
      big_endian_cancel (n * 256 + x) (m * 256 + y) xs ys (omega (arith, l)) bx.1 by.1 e in
    let same : n ≡ m = omega (arith, head, bx.0, by.0) in
    let byte : x ≡ y = omega (arith, head, bx.0, by.0) in (same, cc (byte, tail))

take-IsBytes : (n : ℕ) (xs : Text) → IsBytes xs → IsBytes (take n xs)
take-IsBytes zero xs b = tt
take-IsBytes (suc n) [] b = tt
take-IsBytes (suc n) (x ∷ xs) b = (b.0, take-IsBytes n xs b.1)

drop-IsBytes : (n : ℕ) (xs : Text) → IsBytes xs → IsBytes (drop n xs)
drop-IsBytes zero xs b = b
drop-IsBytes (suc n) [] b = tt
drop-IsBytes (suc n) (x ∷ xs) b = drop-IsBytes n xs b.1

length-take : (n : ℕ) (xs : Text) → n ≤ length xs → length (take n xs) ≡ n
length-take zero xs l = refl
length-take (suc n) [] l = absurd (omega (arith, l))
length-take (suc n) (x ∷ xs) l = ap suc (length-take n xs (omega (arith, l)))

take-drop : (n : ℕ) (xs : Text) → take n xs ++ drop n xs ≡ xs
take-drop zero xs = refl
take-drop (suc n) [] = refl
take-drop (suc n) (x ∷ xs) = ap (λ (t : Text). x ∷ t) (take-drop n xs)

take-all : (n : ℕ) (xs : Text) → length xs ≡ n → take n xs ≡ xs
take-all zero [] l = refl
take-all zero (x ∷ xs) l = absurd (omega (arith, l))
take-all (suc n) [] l = refl
take-all (suc n) (x ∷ xs) l = ap (λ (t : Text). x ∷ t) (take-all n xs (omega (arith, l)))

key_of_4 :
    (a : UdpAddr) → length a.ip ≡ 4 → new_conn_track_key a ≡ some ((0, big_endian 0 a.ip), a.port)
unfolding new_conn_track_key
key_of_4 a l = ground (arith, l)

key_of_16 :
    (a : UdpAddr)
    → length a.ip ≡ 16
    → new_conn_track_key a
      ≡ some ((big_endian 0 (take 8 a.ip), big_endian 0 (take 8 (drop 8 a.ip))), a.port)
unfolding new_conn_track_key
key_of_16 a l = ground (arith, l)

module _ (xs ys : Text) (l : length xs ≡ 16) (l' : length ys ≡ 16) (bx : IsBytes xs)
    (by : IsBytes ys) where
  halves :
      big_endian 0 (take 8 xs) ≡ big_endian 0 (take 8 ys)
      → big_endian 0 (take 8 (drop 8 xs)) ≡ big_endian 0 (take 8 (drop 8 ys))
      → xs ≡ ys
  halves high low =
      let first =
        (big_endian_cancel 0 0 (take 8 xs) (take 8 ys)
          (length-take 8 xs (omega (arith, l)) ∙ sym (length-take 8 ys (omega (arith, l'))))
          (take-IsBytes 8 xs bx) (take-IsBytes 8 ys by) high).1 in
      let low' =
        rw
          (
            take-all 8 (drop 8 xs) (rw l at (length-drop 8 xs)),
            take-all 8 (drop 8 ys) (rw l' at (length-drop 8 ys)),
          )
          at low in
      let second =
        (big_endian_cancel 0 0 (drop 8 xs) (drop 8 ys)
          (omega (arith, length-drop 8 xs, length-drop 8 ys, l, l')) (drop-IsBytes 8 xs bx)
          (drop-IsBytes 8 ys by) low').1 in
      sym (take-drop 8 xs) ∙ rw (first, second) (take-drop 8 ys)

-- Two addresses of the same family, of 4 or of 16 bytes, have the same key only if they are the same
-- address and port.
pub new_conn_track_key_injective :
    (a b : UdpAddr) (key : (ℕ × ℕ) × ℕ)
    → (length a.ip ≡ 4) ⊎ (length a.ip ≡ 16)
    → length a.ip ≡ length b.ip
    → IsBytes a.ip
    → IsBytes b.ip
    → new_conn_track_key a ≡ some key
    → new_conn_track_key b ≡ some key
    → (a.ip ≡ b.ip) × (a.port ≡ b.port)
new_conn_track_key_injective a b key (inl four) l ba bb ka kb =
    let ka' = key_of_4 a four in
    let kb' = key_of_4 b (sym l ∙ four) in
    let low : big_endian 0 a.ip ≡ big_endian 0 b.ip = cc in
    let port : a.port ≡ b.port = cc in ((big_endian_cancel 0 0 a.ip b.ip l ba bb low).1, port)
new_conn_track_key_injective a b key (inr sixteen) l ba bb ka kb =
    let ka' = key_of_16 a sixteen in
    let kb' = key_of_16 b (sym l ∙ sixteen) in
    let high : big_endian 0 (take 8 a.ip) ≡ big_endian 0 (take 8 b.ip) = cc in
    let low : big_endian 0 (take 8 (drop 8 a.ip)) ≡ big_endian 0 (take 8 (drop 8 b.ip)) = cc in
    let port : a.port ≡ b.port = cc in
    (halves a.ip b.ip sixteen (sym l ∙ sixteen) ba bb high low, port)
