-- ===== src/Examples/EnvRuns.antt =====
-- config/ on the settings server.port, server.tls-cert and a map labels, and a small environment.
use sisyphus.Prelude.{
  ℕ, ◌+◌, ◌≡◌, refl, ◌&&◌, leb, true, false, none, some, List, [], ◌∷◌, if◌then◌else◌, drop, length,
  map,
}
use sisyphus.Prelude.Runes.{Text, Tables, codes, join, same}
use sisyphus.Config.Schema.{EnvNode, absent, node, no_child, child, resolve, env_tokens, leaf}
use sisyphus.Config.Overrides.{load_env_overrides}
use sisyphus.Config.Built.{add_struct_fields, add_struct_fields-IsBuilt, resolve_own_name}
use sisyphus.Config.Resolved.{IsBuilt, Names}
use sisyphus.Config.Overlay.{Holds, value_at, load_env_overrides-Names}

abbrev ascii_lower : ℕ → ℕ
ascii_lower c = if leb 65 c && leb c 90 then c + 32 else c

abbrev ascii : Tables
ascii = record {
  to_lower = ascii_lower;
  is_letter = λ c. leb 97 c && leb c 122;
  is_digit = λ c. leb 48 c && leb c 57;
  is_space = λ c. leb c 32;
}

abbrev text_field : EnvNode
text_field = node no_child [] false [] absent

abbrev labels : EnvNode
labels = node no_child [] true (codes "team" ∷ []) text_field

abbrev server_fields : List (Text × EnvNode)
server_fields = (codes "port", text_field) ∷ (codes "tls-cert", text_field) ∷ []

abbrev server : EnvNode
server = add_struct_fields ascii server_fields no_child []

abbrev top_fields : List (Text × EnvNode)
top_fields = (codes "server", server) ∷ (codes "labels", labels) ∷ []

abbrev schema : EnvNode
schema = add_struct_fields ascii top_fields no_child []

text_field-IsBuilt : IsBuilt ascii text_field
text_field-IsBuilt = (tt, tt, tt, λ e. cc)

schema-IsBuilt : IsBuilt ascii schema
schema-IsBuilt =
    add_struct_fields-IsBuilt ascii top_fields no_child []
      (
        add_struct_fields-IsBuilt ascii server_fields no_child []
            (text_field-IsBuilt, (text_field-IsBuilt, tt)) tt tt,
        ((tt, tt, text_field-IsBuilt, λ e. tt), tt),
      )
      tt tt

abbrev environ : List Text
environ = map codes (
    "APP_SERVER_TLS_CERT=c" ∷ "HOME=/" ∷ "APP_SERVER=x" ∷ "APP_LABELS_TEAM=t" ∷ "APP_LABELS_A_B=u=v"
    ∷ [])

own_name :
    resolve ascii schema (codes "server" ∷ codes "port" ∷ [])
    ≡ (some (codes "server" ∷ codes "port" ∷ []), true)
unfolding resolve add_struct_fields
own_name = refl

labels_set :
    value_at
      (load_env_overrides ascii none schema (codes "APP_") environ).0
      (codes "labels")
      (codes "a.b" ∷ [])
    ≡ some (codes "u=v")
unfolding load_env_overrides add_struct_fields
labels_set = refl

warned :
    (load_env_overrides ascii none schema (codes "APP_") environ).1
    ≡ (codes "APP_SERVER", codes "server" ∷ []) ∷ []
unfolding load_env_overrides add_struct_fields
warned = refl

load_env_overrides-Names_example :
    (name : Text) × Holds (codes "APP_") environ (name, codes "c")
    × Names ascii schema
        (env_tokens ascii (drop (length (codes "APP_")) name))
        (codes "server" ∷ codes "tls-cert" ∷ [])
        true
unfolding load_env_overrides add_struct_fields
load_env_overrides-Names_example =
    load_env_overrides-Names ascii schema (codes "APP_") environ (codes "server")
      (codes "tls-cert" ∷ []) (codes "c") (refl, refl) schema-IsBuilt refl

resolve_own_name_example :
    resolve ascii
      (node (child (codes "log_level") text_field no_child) [] true [] text_field)
      (codes "log" ∷ codes "level" ∷ [])
    ≡ (some (codes "log_level" ∷ []), true)
unfolding join same leaf
resolve_own_name_example =
    resolve_own_name ascii (child (codes "log_level") text_field no_child) [] true [] text_field
      (codes "log") (codes "level" ∷ []) refl tt refl
