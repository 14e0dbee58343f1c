-- ===== src/Unlock/Results.antt =====
-- What the results of the probes say.
use mathlib.Core.Path.{subst}
use cfwarp_cli.Prelude.Lists.{All}
use cfwarp_cli.Unlock.{normalize_service}
use cfwarp_cli.Prelude.{
  sym, ap₂, List, [], ◌∷◌, map, ◌≡◌, refl, String, ◌==◌, eq_iff, Option, none, if_cases,
  if◌then◌else◌,
}
use cfwarp_cli.Unlock.Evaluate.{
  Patterns, Verdict, ProbeResult, Page, page, fetch_error, status_available, result_with, on_page,
  cdn_supplement, probe_gemini, probe_chat_gpt, probe_claude, probe_netflix, probe_you_tube,
  probe_with_client, probe_all,
}

-- A result for a service, which is fine exactly if its status says so.
pub record IsResult (service : String) (r : ProbeResult) : Type 0 where
  pub names_service : r.service ≡ service
  pub ok_available : r.ok ≡ (r.status == status_available)

result_with-IsResult :
    (service : String) (supplement : Option String) (v : Verdict)
    → IsResult service (result_with service supplement v)
result_with-IsResult service supplement v = record { names_service = refl; ok_available = refl }

on_page-IsResult :
    (service : String) (p : Page) (f : String → String → ProbeResult)
    → ((body final_url : String) → IsResult service (f body final_url))
    → IsResult service (on_page service p f)
on_page-IsResult service (page body final_url) f h = h body final_url
on_page-IsResult service (fetch_error e) f h = record { names_service = refl; ok_available = refl }

-- The result for a service that is told by its name.
named :
    (service name : String) {r other : ProbeResult}
    → IsResult name r
    → IsResult service other
    → IsResult service (if service == name then r else other)
named service name {r = r} h k =
    if_cases (IsResult service) (service == name)
      (λ e. subst (λ s. IsResult s r) (sym ((eq_iff service name).0 e)) h) (λ _. k)

module _ (patterns : Patterns) (fetch : String → Page) (cdn : String) where
  probe_gemini-IsResult : IsResult "gemini" (probe_gemini patterns fetch cdn)
  unfolding probe_gemini
  probe_gemini-IsResult =
      on_page-IsResult "gemini" (fetch "https://gemini.google.com") _
        λ body _. result_with-IsResult "gemini" none _

  probe_chat_gpt-IsResult : IsResult "chatgpt" (probe_chat_gpt patterns fetch cdn)
  unfolding probe_chat_gpt
  probe_chat_gpt-IsResult =
      on_page-IsResult "chatgpt" (fetch "https://api.openai.com/compliance/cookie_requirements") _
        λ cookie _.
          on_page-IsResult "chatgpt" (fetch "https://ios.chat.openai.com/") _
            λ ios _. result_with-IsResult "chatgpt" none _

  probe_claude-IsResult : IsResult "claude" (probe_claude patterns fetch cdn)
  unfolding probe_claude
  probe_claude-IsResult =
      on_page-IsResult "claude" (fetch "https://claude.ai/") _
        λ _ final_url. result_with-IsResult "claude" none _

  probe_netflix-IsResult : IsResult "netflix" (probe_netflix patterns fetch cdn)
  unfolding probe_netflix
  probe_netflix-IsResult =
      on_page-IsResult "netflix" (fetch "https://www.netflix.com/title/81280792") _ λ title_a _.
        on_page-IsResult "netflix" (fetch "https://www.netflix.com/title/70143836") _
          λ title_b _. result_with-IsResult "netflix" (cdn_supplement cdn) _

  probe_you_tube-IsResult : IsResult "youtube" (probe_you_tube patterns fetch cdn)
  unfolding probe_you_tube
  probe_you_tube-IsResult =
      on_page-IsResult "youtube" (fetch "https://www.youtube.com/premium") _
        λ body _. result_with-IsResult "youtube" none _

  probe_with_client-IsResult :
      (service : String) → IsResult service (probe_with_client patterns fetch cdn service)
  unfolding probe_with_client
  probe_with_client-IsResult service = named service "gemini" probe_gemini-IsResult (
      named service "chatgpt" probe_chat_gpt-IsResult (
        named service "claude" probe_claude-IsResult (
          named service "netflix" probe_netflix-IsResult (
            named service "youtube" probe_you_tube-IsResult
              (record { names_service = refl; ok_available = refl })))))

  -- Probing a list of services gives one result for each, in their order and under the service's own
  -- name, and a result is fine exactly if its status is "available".
  pub probe_all-IsResult :
      (services : List String)
      → (map (λ r. r.service) (probe_all patterns fetch cdn services)
          ≡ map normalize_service services)
        × All (λ r. r.ok ≡ (r.status == status_available)) (probe_all patterns fetch cdn services)
  unfolding probe_all
  probe_all-IsResult [] = (refl, tt)
  probe_all-IsResult (service ∷ rest) =
      let first = probe_with_client-IsResult (normalize_service service) in
      let others = probe_all-IsResult rest in
      (ap₂ (λ x l. x ∷ l) first.names_service others.0, (first.ok_available, others.1))
