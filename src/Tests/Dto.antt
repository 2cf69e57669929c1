-- ===== src/Tests/Dto.antt =====
-- Values of common/dto at the sample JSON library, and the theorems of Dto there.
use ecommerce_platform.Prelude.{◌≡◌, refl, none, some, text, pos}
use ecommerce_platform.Dto.UserProfile
use ecommerce_platform.Dto.UserProfile.{profile_roundtrip}
use ecommerce_platform.Http.Error.{returns, ◌>>=◌}
use ecommerce_platform.Http.Json.{dump}
use ecommerce_platform.Parser.Integral.{fits}
use ecommerce_platform.Tests.Json.{sample_json}

abbrev nameless : UserProfile.UserProfile
nameless = record { user_id = pos 7; display_name = none }

profile_roundtrip_example :
    (dump sample_json (UserProfile.to_json sample_json nameless) >>= λ printed.
    UserProfile.from_json sample_json (sample_json.parse printed))
    ≡ returns (record { user_id = pos 7; display_name = some (text "") })
unfolding fits
profile_roundtrip_example = profile_roundtrip sample_json nameless refl refl
