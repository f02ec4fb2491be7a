-- ===== src/Redact/Rules.antt =====
-- IsSecretKey of redact/redact.go by its rules, with no loop.
use sisyphus.Prelude.{
  ◌≡◌, refl, Bool, true, false, not, ◌&&◌, ◌||◌, List, [], ◌∷◌, arith, ltb, length, any,
  if◌then◌else◌,
}
use sisyphus.Prelude.Runes.{Text, Tables, contains}
use sisyphus.Redact.Keys.{
  fused_terms, selector_segments, selector_subjects, among, segments, secret_segment, joined,
  fused_secret, Marks, mark, mark_all, last_or, judged, judged_all, is_secret_key,
}

-- A segment that says secret, and is none of the subjects a selector may have.
abbrev pub is_hard : Text → Bool
is_hard seg = secret_segment seg && not (among seg selector_subjects)

mark-or :
    (seg : Text) (m : Marks)
    → mark seg m
      ≡ record { matched = m.matched || secret_segment seg; hard = m.hard || is_hard seg }
mark-or seg m = unfold mark in marked (secret_segment seg) (among seg selector_subjects) m
  where
    marked :
        (s t : Bool) (m : Marks)
        → (if not s
            then m
            else if t
            then record m { matched = true }
            else record { matched = true; hard = true })
          ≡ record { matched = m.matched || s; hard = m.hard || (s && not t) }
    marked s t m = ground arith

mark_all-any :
    (segs : List Text) (m : Marks)
    → mark_all segs m
      ≡ record { matched = m.matched || any secret_segment segs; hard = m.hard || any is_hard segs }
unfolding mark_all
mark_all-any [] m = ground arith
mark_all-any (seg ∷ segs) m = rw mark-or (
    rw
      (mark_all-any segs
        (record { matched = m.matched || secret_segment seg; hard = m.hard || is_hard seg }))
      (regrouped m.matched (secret_segment seg) (any secret_segment segs) m.hard (is_hard seg)
        (any is_hard segs)))
  where
    regrouped :
        (a b c d e f : Bool)
        → ◌≡◌ {A = Marks}
            (record { matched = (a || b) || c; hard = (d || e) || f })
            (record { matched = a || (b || c); hard = d || (e || f) })
    regrouped a b c d e f = ground arith

-- By its segments: a hard one makes a key secret; so does a soft one, but where the key has another
-- segment and ends in a selector; and where no segment says secret, those of a key that has two or
-- more may do so together.
abbrev pub says_secret : List Text → Bool
says_secret segs =
    any is_hard segs
    || (any secret_segment segs
        && (ltb (length segs) 2 || not (among (last_or [] segs) selector_segments)))
    || (not (any secret_segment segs)
        && not (ltb (length segs) 2)
        && any (contains (joined segs)) fused_terms)

hard-secret : (segs : List Text) → any is_hard segs ≡ true → any secret_segment segs ≡ true
hard-secret [] h = h
hard-secret (seg ∷ segs) h = ground (arith, hard-secret segs)

judged-rules :
    (segs : List Text)
    → judged segs
        (record { matched = false || any secret_segment segs; hard = false || any is_hard segs })
      ≡ says_secret segs
unfolding fused_secret
judged-rules segs = ground (arith, hard-secret segs)

judged_all-rules : (segs : List Text) → judged_all segs ≡ says_secret segs
judged_all-rules [] = refl
judged_all-rules (seg ∷ segs) =
    rw (mark_all-any (seg ∷ segs) (record { matched = false; hard = false }))
      (judged-rules (seg ∷ segs))

-- IsSecretKey, its loop and early returns, decides by the segments of the key: a segment that says
-- secret and is no subject of a selector makes it secret, wherever it stands; one that says secret
-- and is such a subject does so too, unless the key has another segment and ends in a selector; and
-- where no segment says secret, the key has to have two segments and a fused term in all of them
-- joined.
pub is_secret_key-rules :
    (tables : Tables) (k : Text) → is_secret_key tables k ≡ says_secret (segments tables k)
is_secret_key-rules tables k = unfold is_secret_key in judged_all-rules (segments tables k)
