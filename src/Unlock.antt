-- ===== src/Unlock.antt =====
-- `NormalizeServices` of internal/unlock/probe.go: the services that a user asks to be probed.
pub mod Services
pub mod Evaluate
pub mod Results
mod Tests
use cfwarp_cli.Prelude.{
  Bool, true, false, ◌||◌, String, ◌==◌, Option, none, some, List, [], ◌∷◌, ◌++◌, any,
  if◌then◌else◌, tidy,
}
use cfwarp_cli.Prelude.Net.{split_commas}

unfoldable pub normalize_service : String → String
normalize_service name =
    let n = tidy name in
    if n == "" || n == "none"
    then ""
    else if n == "chatgpt" || n == "openai"
    then "chatgpt"
    else if n == "gemini" || n == "google-gemini"
    then "gemini"
    else if n == "claude" || n == "anthropic"
    then "claude"
    else if n == "youtube" || n == "youtube-premium" || n == "yt"
    then "youtube"
    else if n == "netflix"
    then "netflix"
    else n

unfoldable pub is_supported : String → Bool
is_supported name =
    name == "gemini"
    || name == "chatgpt"
    || name == "claude"
    || name == "netflix"
    || name == "youtube"

abbrev pub is_seen : List String → String → Bool
is_seen out name = any (λ seen. seen == name) out

-- The inner loop, from the services that are listed already; `none` for one that is not supported.
unfoldable pub add_parts : List String → List String → Option (List String)
add_parts out [] = some out
add_parts out (part ∷ parts) =
    let name = normalize_service part in
    let skipped = add_parts out parts in
    let added = add_parts (out ++ (name ∷ [])) parts in
    if name == ""
    then skipped
    else if is_supported name
    then if is_seen out name then skipped else added
    else none

abbrev then_items :
    (List String → Option (List String)) → Option (List String) → Option (List String)
then_items f none = none
then_items f (some out) = f out

unfoldable pub add_items : List String → List String → Option (List String)
add_items [] out = some out
add_items (item ∷ raw) out = then_items (add_items raw) (add_parts out (split_commas item))

unfoldable pub normalize_services : List String → Option (List String)
normalize_services raw = add_items raw []
