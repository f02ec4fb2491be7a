-- ===== src/Examples/RedactRuns.antt =====
-- redact/redact.go on small documents and texts, with the tables of ASCII.
use sisyphus.Prelude.{
  ◌≡◌, ◌↔◌, refl, inl, inr, true, false, ◌&&◌, some, ◌+◌, leb, ◌==◌, if◌then◌else◌,
}
use sisyphus.Prelude.Runes.{Text, Tables, codes, same, lower, split, join, cut, trim}
use sisyphus.Redact.Keys.{segments, is_secret_key, secret_segment, selector_subjects}
use sisyphus.Redact.Rules.{says_secret, is_secret_key-rules}
use sisyphus.Redact.{
  Value, scalar, str, arr, obj, nil, cons, end, field, mask, walk, Codec, document, line,
  keeps_value,
}
use sisyphus.Redact.Hiding.{Agrees, walk_hides, document_hides}
use sisyphus.Redact.Lines.{AllAlike, line_hides}

abbrev ascii : Tables
ascii = record {
  to_lower = λ c. if leb b'A' c && leb c b'Z' then c + 32 else c;
  is_letter = λ c. leb b'a' c && leb c b'z';
  is_digit = λ c. leb b'0' c && leb c b'9';
  is_space = λ c. c == 32;
}

token_secret : is_secret_key ascii (codes "Api-Token") ≡ true
unfolding is_secret_key
token_secret = refl

token_env_named : is_secret_key ascii (codes "token_env") ≡ false
unfolding is_secret_key
token_env_named = refl

web_hook_fused : is_secret_key ascii (codes "web_hook") ≡ true
unfolding is_secret_key
web_hook_fused = refl

is_secret_key-rules_example :
    is_secret_key ascii (codes "token_env") ≡ says_secret (segments ascii (codes "token_env"))
is_secret_key-rules_example = is_secret_key-rules ascii (codes "token_env")

-- A list of one object, with a secret and a port.
abbrev settings : Text → Value
settings secret = arr (
    cons (obj (field (codes "pwd") (str secret) (field (codes "port") (scalar (codes "80")) end)))
      nil)

settings_walked : walk ascii (settings (codes "x")) ≡ settings mask
unfolding walk is_secret_key
settings_walked = refl

settings-agree : Agrees ascii (settings (codes "x")) (settings (codes "yz"))
unfolding Agrees is_secret_key
settings-agree = ((refl, tt, (refl, refl, tt)), tt)

walk_hides_example :
    (walk ascii (settings (codes "x")) ≡ walk ascii (settings (codes "yz")))
    ↔ Agrees ascii (settings (codes "x")) (settings (codes "yz"))
walk_hides_example = walk_hides ascii (settings (codes "x")) (settings (codes "yz"))

-- A codec for such objects alone: the text is the secret, and the port is rendered.
abbrev codec : Codec
codec = record { parse = λ s. some (settings s); render = λ v. some (codes "80") }

document_hides_example :
    (document ascii codec codec (codes "x") (codes "JSON") ≡ codes "80")
    × (document ascii codec codec (codes "yz") (codes "JSON") ≡ codes "80")
unfolding same lower
document_hides_example =
    document_hides ascii codec codec (codes "x") (codes "yz") (codes "JSON") (codes "80")
      (settings (codes "x")) (settings (codes "yz")) refl refl settings-agree refl

line_now : line ascii (codes "pwd: x") ≡ codes "pwd: \"••••••\""
unfolding line keeps_value is_secret_key mask join split cut trim
line_now = refl

line_hides_example :
    (line ascii (codes "a\npwd:x") ≡ line ascii (codes "a\npwd:yz"))
    ↔ AllAlike ascii (split 10 (codes "a\npwd:x")) (split 10 (codes "a\npwd:yz"))
line_hides_example = line_hides ascii refl (codes "a\npwd:x") (codes "a\npwd:yz")

alike : AllAlike ascii (split 10 (codes "a\npwd:x")) (split 10 (codes "a\npwd:yz"))
unfolding split segments lower trim secret_segment selector_subjects
alike = (
  inl refl,
  (
    inr (codes "pwd", (codes "x", refl, refl, refl, refl), (codes "yz", refl, refl, refl, refl)),
    tt,
  ),
)
