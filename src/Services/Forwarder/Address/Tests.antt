-- ===== src/Services/Forwarder/Address/Tests.antt =====
-- An address whose port does not fit 16 bits.
use gvisor_tap_vsock.Base.{◌≡◌, refl, false, [], ◌∷◌, codes}
use gvisor_tap_vsock.Services.Forwarder.Address.{atoi, tcpip_address, address, tcpip_address_lem}

wrapped_port :
    tcpip_address (λ t. 10 ∷ 0 ∷ 0 ∷ 1 ∷ []) 1 (codes "vm:65616")
    ≡ address (record { nic = 1; addr = 10 ∷ 0 ∷ 0 ∷ 1 ∷ []; port = 80 })
unfolding atoi
wrapped_port =
    tcpip_address_lem (λ t. 10 ∷ 0 ∷ 0 ∷ 1 ∷ []) 1 (codes "vm") (codes "65616")
      ((λ e. cc), ((λ e. cc), tt))
      ((λ e. cc), ((λ e. cc), ((λ e. cc), ((λ e. cc), ((λ e. cc), tt))))) (false, 65616) refl
