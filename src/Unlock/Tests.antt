-- ===== src/Unlock/Tests.antt =====
-- A request with aliases, a repetition and an empty part.
use cfwarp_cli.Prelude.{◌≡◌, refl, some, String, List, [], ◌∷◌, tidy}
use cfwarp_cli.Prelude.Net.{split_commas}
use cfwarp_cli.Unlock.{normalize_service, is_supported, add_parts, add_items, normalize_services}

abbrev request : List String
request = "OpenAI, gemini" ∷ "yt,,chatgpt" ∷ []

request-listed : normalize_services request ≡ some ("chatgpt" ∷ "gemini" ∷ "youtube" ∷ [])
unfolding normalize_services add_items add_parts normalize_service is_supported split_commas tidy
request-listed = refl
