-- ===== src/Dispatcher/Extraction.antt =====
-- astartis/agents/controller/action_dispatcher: what is found in the output of an agent. The JSON
-- parser and the regular expressions are parameters.
use astartis_codex_control_p.Base.{
  String, Bool, ◌&&◌, ◌||◌, not, Option, none, some, List, [], ◌∷◌, ◌==◌, ltb, if◌then◌else◌,
  concat, is_empty,
}
use Prim.Native.String.{len}
use text.Mathlib.Text.{starts_with}

-- What the dispatcher uses of the JSON library; parse is none and value_text is none where it throws.
pub record Json (J : Type 0) : Type 0 where
  pub parse : String → Option J
  pub contains : J → String → Bool
  pub item : J → String → J
  pub is_array : J → Bool
  pub is_string : J → Bool
  pub elements : J → List J
  pub get_text : J → String
  pub dump : J → String
  pub value_text : J → String → Option String

-- The matches of the four regular expressions, in their order.
pub record Patterns : Type 0 where
  pub ipv4_matches : String → List String
  pub path_matches : String → List String
  pub session_matches : String → List String
  pub mac_matches : String → List String

-- The first match, or nothing.
unfoldable pub first_of : List String → String
first_of [] = ""
first_of (s ∷ ss) = s

unfoldable pub is_safe_ip : String → Bool
is_safe_ip ip =
    (ip == "127.0.0.1" || (ip == "::1" || ip == "0.0.0.0"))
    || ((starts_with ip "::" && ltb (len ip) 6)
        || (starts_with ip "192.168."
            || (starts_with ip "10."
                || (starts_with ip "172.16."
                    || (starts_with ip "172.17."
                        || (starts_with ip "172.18."
                            || (starts_with ip "172.19."
                                || (starts_with ip "172.2"
                                    || (starts_with ip "172.30."
                                        || starts_with ip "172.31.")))))))))

-- The loop of extract_ipv4 over the matches.
unfoldable pub first_unsafe : List String → String
unfolding is_safe_ip
first_unsafe [] = ""
first_unsafe (ip ∷ ips) = let rest = first_unsafe ips in if not (is_safe_ip ip) then ip else rest

unfoldable pub extract_ipv4 : Patterns → String → String
unfolding first_unsafe
extract_ipv4 patterns text = first_unsafe (patterns.ipv4_matches text)

unfoldable pub extract_filepath : Patterns → String → String
unfolding first_of
extract_filepath patterns text = first_of (patterns.path_matches text)

-- s if it is not empty, and otherwise t
unfoldable pub or_text : String → String → String
or_text s t = if is_empty s then t else s

module _ {J : Type 0} (json : Json J) where
  unfoldable pub text_of : J → String
  text_of j = if json.is_string j then json.get_text j else json.dump j

  unfoldable pub found_in : (String → String) → List J → String
  unfolding text_of or_text
  found_in extract [] = ""
  found_in extract (j ∷ js) = or_text (extract (text_of j)) (found_in extract js)

  -- The field that is an array of texts, or one text.
  unfoldable pub from_field : (String → String) → J → String → String
  unfolding found_in
  from_field extract j key =
      let field = json.item j key in
      if not (json.contains j key)
      then ""
      else if json.is_array field
      then found_in extract (json.elements field)
      else if json.is_string field
      then extract (json.get_text field)
      else ""

  -- The field that is an array of texts.
  unfoldable pub from_array : (String → String) → J → String → String
  unfolding found_in
  from_array extract j key =
      let field = json.item j key in
      if json.contains j key && json.is_array field
      then found_in extract (json.elements field)
      else ""

  -- The two passes of try_firewall_block and try_quarantine.
  unfoldable pub find_target : (String → String) → String → String → String → String
  unfolding from_field from_array or_text
  find_target extract key fallback output = elim (json.parse output) [
    | none ↦ extract output
    | some j ↦
        or_text (or_text (from_field extract j key) (from_array extract j fallback))
          (extract output)
  ]

  -- The match in the first element of an array.
  unfoldable pub from_first : (String → List String) → J → String → String
  unfolding text_of first_of
  from_first matches j key =
      let field = json.item j key in
      if json.contains j key && json.is_array field
      then elim (json.elements field) [ [] ↦ "" | j' ∷ js ↦ first_of (matches (text_of j')) ]
      else ""

  unfoldable pub session_of : Patterns → String → String → String
  unfolding from_first or_text concat
  session_of patterns output agent_name =
      let found : String = elim (json.parse output) [
        | none ↦ ""
        | some j ↦ from_first patterns.session_matches j "eradication_steps"
      ] in
      or_text found (concat ("session_ai_" ∷ agent_name ∷ []))

  -- The device and the resource.
  unfoldable pub device_of : Patterns → String → String × String
  unfolding from_first
  device_of patterns output = elim (json.parse output) [
    | none ↦ ("", "")
    | some j ↦
        let mac = from_first patterns.mac_matches j "recovery_checklist" in
        if json.contains j "zt_score" && is_empty mac
        then ("device_ai_flagged", elim (json.value_text j "zt_score") [ none ↦ "" | some s ↦ s ])
        else (mac, "")
  ]
