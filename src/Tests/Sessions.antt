-- ===== src/Tests/Sessions.antt =====
-- Active response.
use astartis_codex_control_p.Base.{◌+◌, String, ◌≡◌, List, [], ◌∷◌}
use astartis_codex_control_p.Callbacks.{logging}
use astartis_codex_control_p.Response.{ActiveResponse, new_response, response_tier_of, serve}
use astartis_codex_control_p.Response.Sessions.{Call, serves, checks, run, events_of, serve-tier}

abbrev pivot : String
pivot = "10.0.0.55"

abbrev visits : List (Call logging)
visits =
    serves "s1" "/admin" "" 10
    ∷ serves "s2" "/admin" "10.0.0.55" 20
    ∷ checks "10.0.0.55"
    ∷ serves "s1" "/backup" "8.8.8.8" 30
    ∷ []

abbrev visited : ActiveResponse
visited = (run logging visits (new_response, [])).0

serve-tier_example :
    (serve logging "s1" "/admin" "" 40 visited []).0.response_tier
    ≡ response_tier_of (events_of "s1" visited.forensic_log + 1)
serve-tier_example = serve-tier logging visits [] [] "s1" "/admin" "" 40
