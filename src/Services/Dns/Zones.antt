-- ===== src/Services/Dns/Zones.antt =====
-- addZone on the list of zones, seen as a map from names.
use gvisor_tap_vsock.Base.{
  ◌≡◌, refl, ◌≢◌, inl, inr, arith, Option, none, some, List, [], ◌∷◌, ◌++◌, Text, text_eq, nat_eq,
  ◌==◌, ==_iff, if◌then◌else◌, map, Bool-cases,
}
use gvisor_tap_vsock.Services.Dns.{Zone, add_zone}

-- The zone of a name.
unfoldable pub zone_named : Text → List Zone → Option Zone
zone_named name [] = none
zone_named name (z ∷ zones) = if z.name == name then some z else zone_named name zones

-- The records that a zone had stand behind those of the request; its default address is gone.
abbrev pub merged : Zone → Option Zone → Zone
merged req none = req
merged req (some z) = record req { records = req.records ++ z.records }

-- After /add the zone of the request's name is the request's, its records before those that the
-- zone had, and the zones of all other names are as they were.
pub zone_named-add_zone :
    (req : Zone) (name : Text) (zones : List Zone)
    → zone_named name (add_zone req zones) ≡ (
        if req.name == name
        then some (merged req (zone_named name zones))
        else zone_named name zones)
unfolding zone_named add_zone
zone_named-add_zone req name [] = refl
zone_named-add_zone req name (z ∷ zones) = ground (
  arith,
  zone_named-add_zone req name zones,
  ==_iff z.name req.name,
  ==_iff z.name name,
  ==_iff req.name name,
)

abbrev pub names : List Zone → List Text
names = map (λ z. z.name)

-- A request for a name that has a zone keeps the zones in their order; one for a new name adds its
-- zone at the end.
pub names-add_zone :
    (req : Zone) (zones : List Zone)
    → ((zone_named req.name zones ≢ none) → names (add_zone req zones) ≡ names zones)
      × ((zone_named req.name zones ≡ none) → add_zone req zones ≡ zones ++ req ∷ [])
unfolding zone_named add_zone
names-add_zone req [] = (λ h. absurd (h refl), λ h. refl)
names-add_zone req (z ∷ zones) = elim (Bool-cases (z.name == req.name)) [
  | inl same ↦ (λ h. rw same (ground (arith, ==_iff z.name req.name)), λ h. ground arith)
  | inr differ ↦
      let (kept, added) = names-add_zone req zones in
      (λ h. rw differ (rw (kept (rw differ at h))), λ h. rw differ (rw (added (rw differ at h))))
]
