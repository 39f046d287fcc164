-- ===== src/Vibe/Names/Tests.antt =====
-- Names of crates/chudbot-vibe/src/names.rs on concrete texts.
use chudbot.Common.{◌≡◌, ◌↔◌, refl, List, [], ◌∷◌, Text, codes, ok}
use chudbot.Vibe.Names.{NameAvailability, vibe_names, validate, check_batch}
use chudbot.Vibe.Names.Laws.{IsSiteName, validate-IsSiteName}

abbrev reserved : List Text
reserved = vibe_names (codes "Shop" ∷ [])

abbrev good : Text
good = codes "mortgage-curves"

accepted_name : validate reserved good ≡ ok tt
unfolding validate vibe_names
accepted_name = refl

batch :
    check_batch reserved (codes "shop" ∷ good ∷ codes "blog" ∷ []) (good ∷ [])
    ≡ ok (
        record { name = codes "shop"; availability = NameAvailability.invalid }
        ∷ record { name = good; availability = NameAvailability.unavailable }
        ∷ record { name = codes "blog"; availability = NameAvailability.available }
        ∷ [])
unfolding check_batch vibe_names
batch = refl

validate-IsSiteName_example : (validate reserved good ≡ ok tt) ↔ IsSiteName reserved good
validate-IsSiteName_example = validate-IsSiteName reserved good
