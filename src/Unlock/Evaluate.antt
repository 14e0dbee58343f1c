-- ===== src/Unlock/Evaluate.antt =====
-- internal/unlock/probe.go: what the pages of a service say of it. A `Fetch` gives the body and the
-- final address of a page, or the text of an error; `Patterns` are the first groups of the regular
-- expressions of package regexp.
use Prim.Native.String.{find, len}
use Prim.Native.Nat.{suc}
use cfwarp_cli.Prelude.{
  Bool, false, not, ◌&&◌, ◌||◌, String, ◌==◌, Option, none, some, List, [], ◌∷◌, nat_eq,
  if◌then◌else◌, to_lower, trim_space,
}
use cfwarp_cli.Unlock.{normalize_service}

-- `strings.Contains`.
abbrev pub contains : String → String → Bool
contains text part = not (nat_eq (find text part) (suc (len text)))

-- `Status` is a text.
abbrev pub status_available : String
status_available = "available"

abbrev pub status_unavailable : String
status_unavailable = "unavailable"

abbrev pub status_web_only : String
status_web_only = "web_only"

abbrev pub status_app_only : String
status_app_only = "app_only"

abbrev pub status_unknown : String
status_unknown = "unknown"

abbrev pub status_network_error : String
status_network_error = "network_error"

pub record ProbeResult : Type 0 where
  pub service : String
  pub status : String
  pub ok : Bool
  pub region : String
  pub detail : String
  pub supplement : Option String

pub record Patterns : Type 0 where
  pub gemini_region : String → Option String
  pub netflix_country_name : String → Option String
  pub netflix_region_code : String → Option String
  pub netflix_country_code : String → Option String
  pub youtube_context_region : String → Option String

-- Status, region and detail.
pub record Verdict : Type 0 where
  pub status : String
  pub region : String
  pub detail : String

abbrev pub group_or : String → Option String → String
group_or other none = other
group_or other (some g) = g

-- The first of the matches, trimmed.
abbrev pub first_group : Option String → String → String
first_group none other = other
first_group (some g) other = trim_space g

module _ (patterns : Patterns) where
  unfoldable pub evaluate_gemini : String → Verdict
  evaluate_gemini body =
      if contains body "45631641,null,true"
      then record {
        status = status_available;
        region = group_or "" (patterns.gemini_region body);
        detail = "gemini available";
      }
      else if contains (to_lower body) "not currently supported in your country"
      then record { status = status_unavailable; region = ""; detail = "gemini region blocked" }
      else record { status = status_unavailable; region = ""; detail = "gemini marker missing" }

  unfoldable pub extract_netflix_region : String → String
  extract_netflix_region body = first_group (patterns.netflix_country_name body) (
      first_group (patterns.netflix_region_code body)
        (first_group (patterns.netflix_country_code body) ""))

  unfoldable pub evaluate_netflix : String → String → Verdict
  evaluate_netflix title_a title_b =
      let a_unavailable = contains title_a "Oh no!" in
      let b_unavailable = contains title_b "Oh no!" in
      let region_a = extract_netflix_region title_a in
      let region_b = extract_netflix_region title_b in
      let region = if region_a == "" then region_b else region_a in
      if a_unavailable && b_unavailable
      then record { status = status_web_only; region = ""; detail = "netflix originals only" }
      else if not a_unavailable || not b_unavailable
      then record {
        status = status_available;
        region = if region == "" then "UNKNOWN" else region;
        detail = "netflix available";
      }
      else record { status = status_unavailable; region = ""; detail = "netflix unavailable" }

  unfoldable pub extract_youtube_premium_region : String → String
  extract_youtube_premium_region body = first_group (patterns.youtube_context_region body) ""

  unfoldable pub evaluate_youtube_premium : String → Verdict
  evaluate_youtube_premium body =
      let region = extract_youtube_premium_region body in
      if contains body "www.google.cn"
      then record {
        status = status_unavailable;
        region = "CN";
        detail = "youtube premium unavailable in CN";
      }
      else if contains (to_lower body) "premium is not available in your country"
      then record {
        status = status_unavailable;
        region = "";
        detail = "youtube premium unavailable";
      }
      else if contains body "ad-free"
      then record {
        status = status_available;
        region = if region == "" then "UNKNOWN" else region;
        detail = "youtube premium available";
      }
      else record { status = status_unknown; region = ""; detail = "youtube page parsing failed" }

unfoldable pub evaluate_chat_gpt : String → String → Verdict
evaluate_chat_gpt cookie_body ios_body =
    let unsupported_country = contains (to_lower cookie_body) "unsupported_country" in
    let vpn_blocked = contains (to_lower ios_body) "vpn" in
    if not unsupported_country && not vpn_blocked
    then record { status = status_available; region = ""; detail = "chatgpt available" }
    else if unsupported_country && vpn_blocked
    then record { status = status_unavailable; region = ""; detail = "chatgpt unavailable" }
    else if not unsupported_country && vpn_blocked
    then record { status = status_web_only; region = ""; detail = "chatgpt web-only" }
    else if unsupported_country && not vpn_blocked
    then record { status = status_app_only; region = ""; detail = "chatgpt app-only" }
    else record { status = status_unknown; region = ""; detail = "chatgpt unknown" }

unfoldable pub evaluate_claude : String → Verdict
evaluate_claude final_url =
    if final_url == "https://claude.ai/" || final_url == "https://claude.ai"
    then record { status = status_available; region = ""; detail = "claude available" }
    else if final_url == "https://www.anthropic.com/app-unavailable-in-region"
    then record { status = status_unavailable; region = ""; detail = "claude region blocked" }
    else if final_url == ""
    then record { status = status_network_error; region = ""; detail = "claude request failed" }
    else record { status = status_unknown; region = ""; detail = final_url }

pub data Page : Type 0 where
  page : String → String → Page
  fetch_error : String → Page

abbrev pub result_with : String → Option String → Verdict → ProbeResult
result_with service supplement v = record {
  service = service;
  status = v.status;
  ok = v.status == status_available;
  region = v.region;
  detail = v.detail;
  supplement = supplement;
}

abbrev pub failed_with : String → String → String → ProbeResult
failed_with service status detail = record {
  service = service;
  status = status;
  ok = false;
  region = "";
  detail = detail;
  supplement = none;
}

-- A verdict on the pages, or the first error of a fetch.
abbrev pub on_page : String → Page → (String → String → ProbeResult) → ProbeResult
on_page service (fetch_error e) f = failed_with service status_network_error e
on_page service (page body final_url) f = f body final_url

abbrev pub cdn_supplement : String → Option String
cdn_supplement info = if info == "" then none else some info

-- `fetch` gives the page of an address, `cdn` what `probeNetflixCDN` tells.
module _ (patterns : Patterns) (fetch : String → Page) (cdn : String) where
  unfoldable pub probe_gemini : ProbeResult
  probe_gemini =
      on_page "gemini" (fetch "https://gemini.google.com")
        λ body _. result_with "gemini" none (evaluate_gemini patterns body)

  unfoldable pub probe_chat_gpt : ProbeResult
  probe_chat_gpt =
      on_page "chatgpt" (fetch "https://api.openai.com/compliance/cookie_requirements") λ cookie _.
        on_page "chatgpt" (fetch "https://ios.chat.openai.com/")
          λ ios _. result_with "chatgpt" none (evaluate_chat_gpt cookie ios)

  unfoldable pub probe_claude : ProbeResult
  probe_claude =
      on_page "claude" (fetch "https://claude.ai/")
        λ _ final_url. result_with "claude" none (evaluate_claude final_url)

  unfoldable pub probe_netflix : ProbeResult
  probe_netflix = on_page "netflix" (fetch "https://www.netflix.com/title/81280792") λ title_a _.
      on_page "netflix" (fetch "https://www.netflix.com/title/70143836") λ title_b _.
        result_with "netflix" (cdn_supplement cdn) (evaluate_netflix patterns title_a title_b)

  unfoldable pub probe_you_tube : ProbeResult
  probe_you_tube =
      on_page "youtube" (fetch "https://www.youtube.com/premium")
        λ body _. result_with "youtube" none (evaluate_youtube_premium patterns body)

  unfoldable pub probe_with_client : String → ProbeResult
  probe_with_client service =
      if service == "gemini"
      then probe_gemini
      else if service == "chatgpt"
      then probe_chat_gpt
      else if service == "claude"
      then probe_claude
      else if service == "netflix"
      then probe_netflix
      else if service == "youtube"
      then probe_you_tube
      else failed_with service status_unknown "unsupported service"

  unfoldable pub probe_all : List String → List ProbeResult
  probe_all [] = []
  probe_all (service ∷ rest) = probe_with_client (normalize_service service) ∷ probe_all rest
