-- ===== src/Crypt.antt =====
-- internal/crypt/crypt.go: AES-256-GCM sealing. The cipher is that of Go's library, an argument; the
-- random bytes that a call reads are one too.
use sisyphus.Prelude.{
  ℕ, zero, suc, ◌≡◌, refl, sym, ◌∙◌, ap, false, not, List, [], ◌∷◌, ◌++◌, arith, ltb, ◌==◌,
  if◌then◌else◌, length, take, drop,
}
use sisyphus.Fault.{Error, other, Result, ok, err}

abbrev pub Bytes : Type 0
Bytes = List ℕ

abbrev pub key_bytes : ℕ
key_bytes = 32

abbrev pub bad_key : Error
bad_key = other 10

abbrev pub too_short : Error
too_short = other 11

-- cipher.AEAD for a key. What was sealed opens, and nothing else does: Open recomputes the tag.
pub record Gcm : Type 0 where
  pub nonce_size : ℕ
  pub seal : Bytes → Bytes → Bytes → Bytes
  pub open_sealed : Bytes → Bytes → Bytes → Result Bytes

pub record GcmLaws (g : Gcm) : Type 0 where
  pub opens :
      (key nonce plain : Bytes) → g.open_sealed key nonce (g.seal key nonce plain) ≡ ok plain
  pub authentic :
      (key nonce sealed plain : Bytes)
      → g.open_sealed key nonce sealed ≡ ok plain
      → sealed ≡ g.seal key nonce plain

abbrev pub then_with : {A B : Type 0} → Result A → (A → Result B) → Result B
then_with (ok a) f = f a
then_with (err e) f = err e

-- make([]byte, KeyBytes) and rand.Read.
unfoldable pub new_key : Result Bytes → Result Bytes
new_key random = then_with random (λ k. ok k)

module _ (g : Gcm) where
  unfoldable pub encrypt : Result Bytes → Bytes → Bytes → Result Bytes
  encrypt random plain key =
      if not (length key == key_bytes)
      then err bad_key
      else then_with random (λ nonce. ok (nonce ++ g.seal key nonce plain))

  unfoldable pub decrypt : Bytes → Bytes → Result Bytes
  decrypt sealed key =
      if not (length key == key_bytes)
      then err bad_key
      else if ltb (length sealed) g.nonce_size
      then err too_short
      else g.open_sealed key (take g.nonce_size sealed) (drop g.nonce_size sealed)

take-append : (xs ys : Bytes) → take (length xs) (xs ++ ys) ≡ xs
take-append [] ys = refl
take-append (x ∷ xs) ys = ap (λ l. x ∷ l) (take-append xs ys)

drop-append : (xs ys : Bytes) → drop (length xs) (xs ++ ys) ≡ ys
drop-append [] ys = refl
drop-append (x ∷ xs) ys = drop-append xs ys

append-not-short : (xs ys : Bytes) → ltb (length (xs ++ ys)) (length xs) ≡ false
append-not-short [] ys = ground arith
append-not-short (x ∷ xs) ys = ground (arith, append-not-short xs ys)

pub take-append-drop : (n : ℕ) (xs : Bytes) → take n xs ++ drop n xs ≡ xs
take-append-drop zero xs = refl
take-append-drop (suc n) [] = refl
take-append-drop (suc n) (x ∷ xs) = ap (λ l. x ∷ l) (take-append-drop n xs)

module _ (g : Gcm) (laws : GcmLaws g) where
  -- What is sealed under a key of the right length decrypts under it.
  pub decrypt-encrypt :
      (nonce plain key : Bytes)
      → length key ≡ key_bytes
      → length nonce ≡ g.nonce_size
      → (sealed : Bytes) × (encrypt g (ok nonce) plain key ≡ ok sealed)
        × (decrypt g sealed key ≡ ok plain)
  unfolding encrypt decrypt
  decrypt-encrypt nonce plain key k n = (
    nonce ++ g.seal key nonce plain,
    ground arith,
    rw (← n) (
        rw
          (
            append-not-short nonce (g.seal key nonce plain),
            take-append nonce (g.seal key nonce plain),
            drop-append nonce (g.seal key nonce plain),
          )
          (ground (arith, laws.opens key nonce plain))),
  )

  -- What decrypts under a key was sealed under it.
  pub decrypt_authentic :
      (sealed key plain : Bytes)
      → decrypt g sealed key ≡ ok plain
      → (length key ≡ key_bytes) × ((nonce : Bytes) × (sealed ≡ nonce ++ g.seal key nonce plain))
  unfolding decrypt
  decrypt_authentic sealed key plain h =
      let opened : g.open_sealed key (take g.nonce_size sealed) (drop g.nonce_size sealed)
          ≡ ok plain =
        ground arith in
      (
        ground arith,
        (
          take g.nonce_size sealed,
          sym (take-append-drop g.nonce_size sealed)
              ∙ ap (λ l. take g.nonce_size sealed ++ l) (laws.authentic key _ _ plain opened),
        ),
      )
