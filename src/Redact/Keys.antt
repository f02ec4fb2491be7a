-- ===== src/Redact/Keys.antt =====
-- IsSecretKey of redact/redact.go: which keys name a secret.
use sisyphus.Prelude.{
  Bool, true, false, not, ◌||◌, List, [], ◌∷◌, ◌++◌, ltb, length, any, if◌then◌else◌,
}
use sisyphus.Prelude.Runes.{Text, Tables, codes, same, contains, lower, fields_from}

unfoldable pub word_terms : List Text
word_terms =
    codes "secret"
    ∷ codes "password"
    ∷ codes "passwd"
    ∷ codes "passphrase"
    ∷ codes "passcode"
    ∷ codes "token"
    ∷ codes "apikey"
    ∷ codes "accesskey"
    ∷ codes "privatekey"
    ∷ codes "credential"
    ∷ codes "bearer"
    ∷ codes "cookie"
    ∷ codes "session"
    ∷ codes "signature"
    ∷ codes "webhook"
    ∷ codes "authorization"
    ∷ codes "authorisation"
    ∷ []

unfoldable pub exact_terms : List Text
exact_terms =
    codes "key"
    ∷ codes "keys"
    ∷ codes "pwd"
    ∷ codes "pwds"
    ∷ codes "otp"
    ∷ codes "otps"
    ∷ codes "salt"
    ∷ codes "salts"
    ∷ []

unfoldable pub fused_terms : List Text
fused_terms = codes "passphrase" ∷ codes "webhook" ∷ []

unfoldable pub selector_segments : List Text
selector_segments = codes "env" ∷ codes "id" ∷ codes "backend" ∷ codes "service" ∷ codes "name" ∷ []

unfoldable pub selector_subjects : List Text
selector_subjects = codes "secret" ∷ codes "secrets" ∷ codes "token" ∷ codes "tokens" ∷ []

-- Whether a set of texts has this one.
abbrev pub among : Text → List Text → Bool
among t ts = any (same t) ts

unfoldable pub segments : Tables → Text → List Text
unfolding lower fields_from
segments tables k = fields_from tables [] (lower tables k)

unfoldable pub secret_segment : Text → Bool
unfolding exact_terms word_terms same contains
secret_segment seg = if among seg exact_terms then true else any (contains seg) word_terms

-- strings.Join(segs, "")
unfoldable pub joined : List Text → Text
joined [] = []
joined (seg ∷ segs) = seg ++ joined segs

unfoldable pub fused_secret : List Text → Bool
unfolding fused_terms contains joined
fused_secret segs = if ltb (length segs) 2 then false else any (contains (joined segs)) fused_terms

pub record Marks : Type 0 where
  pub matched : Bool
  pub hard : Bool

-- One turn of the loop over the segments.
unfoldable pub mark : Text → Marks → Marks
mark seg m =
    if not (secret_segment seg)
    then m
    else if among seg selector_subjects
    then record m { matched = true }
    else record { matched = true; hard = true }

unfoldable pub mark_all : List Text → Marks → Marks
mark_all [] m = m
mark_all (seg ∷ segs) m = mark_all segs (mark seg m)

-- segs[len(segs)-1], where there is one.
abbrev pub last_or : Text → List Text → Text
last_or d [] = d
last_or d (seg ∷ segs) = last_or seg segs

abbrev pub judged : List Text → Marks → Bool
judged segs m =
    if not m.matched
    then fused_secret segs
    else if m.hard || ltb (length segs) 2
    then true
    else not (among (last_or [] segs) selector_segments)

abbrev pub judged_all : List Text → Bool
judged_all [] = false
judged_all (seg ∷ segs) =
    judged (seg ∷ segs) (mark_all (seg ∷ segs) (record { matched = false; hard = false }))

unfoldable pub is_secret_key : Tables → Text → Bool
unfolding segments mark mark_all secret_segment selector_subjects fused_secret selector_segments
is_secret_key tables k = judged_all (segments tables k)
