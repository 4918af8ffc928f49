-- ===== src/Push/Crypto.antt =====
-- src/modules/push/push.crypto.ts: how a stored subscription is framed. node:crypto, its encodings and
-- JSON are not part of the repository, so they are the fields of `Crypto`.
use chat_app_backend.Prelude.{
  ℕ, ◌+◌, ◌-◌, ◌<◌, zero, suc, ◌≡◌, Bool, true, false, not, ◌&&◌, ltb, leb, All, All-append, ◌∙◌,
  sym, ap, subst, refl, Option, some, List, [], ◌∷◌, ◌++◌, length, take, drop, arith,
}
use mathlib.Core.Option

-- What the browser gives: the endpoint's URL and two keys.
pub record WebPushSubscription : Type 0 where
  pub endpoint : List ℕ
  pub p256dh : List ℕ
  pub auth : List ℕ

-- Texts are lists of UTF-16 code units, buffers lists of bytes. The cipher is AES-256-GCM under the
-- server's key.
pub record Crypto : Type 0 where
  pub to_utf8 : List ℕ → List ℕ
  pub from_utf8 : List ℕ → List ℕ
  pub to_base64 : List ℕ → List ℕ
  pub from_base64 : List ℕ → List ℕ
  -- From an iv and a plaintext: the ciphertext and the authentication tag.
  pub seal : List ℕ → List ℕ → List ℕ × List ℕ
  -- From an iv, a tag and a ciphertext; none where the tag is not that of the ciphertext.
  pub open_sealed : List ℕ → List ℕ → List ℕ → Option (List ℕ)
  pub to_json : WebPushSubscription → List ℕ
  pub of_json : List ℕ → Option WebPushSubscription
  pub sha256 : List ℕ → ℕ

abbrev pub is_low : ℕ → Bool
is_low u = leb 56320 u && ltb u 57344

abbrev pub is_high : ℕ → Bool
is_high u = leb 55296 u && ltb u 56320

-- Well-formed UTF-16, after a high surrogate or not: no surrogate stands alone. Of other texts the
-- encoding to UTF-8 replaces units.
abbrev pub well_formed : Bool → List ℕ → Bool
well_formed after_high [] = not after_high
well_formed true (u ∷ text) = is_low u && well_formed false text
well_formed false (u ∷ text) = (ltb u 65536 && not (is_low u)) && well_formed (is_high u) text

abbrev pub IsBytes : List ℕ → Type 0
IsBytes bytes = All (λ b. b < 256) bytes

-- What their manuals promise.
pub record IsCrypto (crypto : Crypto) : Type 0 where
  pub from_utf8-to_utf8 :
      (text : List ℕ)
      → well_formed false text ≡ true
      → crypto.from_utf8 (crypto.to_utf8 text) ≡ text
  pub to_utf8-IsBytes :
      (text : List ℕ) → well_formed false text ≡ true → IsBytes (crypto.to_utf8 text)
  pub from_base64-to_base64 :
      (bytes : List ℕ) → IsBytes bytes → crypto.from_base64 (crypto.to_base64 bytes) ≡ bytes
  -- For 12 bytes as the iv the ciphertext and the tag are bytes, the tag 16 of them, and they are opened.
  pub seal-IsBytes :
      (iv plain : List ℕ)
      → IsBytes iv
      → length iv ≡ 12
      → IsBytes plain
      → IsBytes (crypto.seal iv plain).0 × IsBytes (crypto.seal iv plain).1
  pub length-tag :
      (iv plain : List ℕ)
      → IsBytes iv
      → length iv ≡ 12
      → IsBytes plain
      → length (crypto.seal iv plain).1 ≡ 16
  pub open_sealed-seal :
      (iv plain : List ℕ)
      → IsBytes iv
      → length iv ≡ 12
      → IsBytes plain
      → crypto.open_sealed iv (crypto.seal iv plain).1 (crypto.seal iv plain).0 ≡ some plain

-- `data.subarray(from, to)`
abbrev pub subarray : ℕ → ℕ → List ℕ → List ℕ
subarray from to data_ = take (to - from) (drop from data_)

module _ (crypto : Crypto) where
  abbrev framed : List ℕ → List ℕ × List ℕ → List ℕ
  framed iv (ciphertext, tag) = iv ++ (tag ++ ciphertext)

  -- `iv` is what `randomBytes(12)` gives.
  unfoldable pub encrypt : List ℕ → List ℕ → List ℕ
  encrypt iv plaintext = crypto.to_base64 (framed iv (crypto.seal iv (crypto.to_utf8 plaintext)))

  -- It throws where the tag does not fit.
  unfoldable pub decrypt : List ℕ → Option (List ℕ)
  decrypt payload =
      let data_ = crypto.from_base64 payload in
      Option.map crypto.from_utf8
        (crypto.open_sealed (subarray 0 12 data_) (subarray 12 28 data_) (drop 28 data_))

  unfoldable pub hash_endpoint : List ℕ → ℕ
  hash_endpoint endpoint = crypto.sha256 (crypto.to_utf8 endpoint)

pub take-front : (xs ys : List ℕ) → take (length xs) (xs ++ ys) ≡ xs
take-front [] ys = refl
take-front (x ∷ xs) ys = ap (◌∷◌ x) (take-front xs ys)

pub drop-front : (xs ys : List ℕ) → drop (length xs) (xs ++ ys) ≡ ys
drop-front [] ys = refl
drop-front (x ∷ xs) ys = drop-front xs ys

suc_add : (m n : ℕ) → suc (m + n) ≡ suc m + n
suc_add m n = omega arith

drop-nil : (n : ℕ) → drop {A = ℕ} n [] ≡ []
drop-nil zero = refl
drop-nil (suc n) = refl

drop-drop : (m n : ℕ) (xs : List ℕ) → drop n (drop m xs) ≡ drop (m + n) xs
drop-drop zero n xs = ap (λ k. drop k xs) (omega arith)
drop-drop (suc m) n [] = drop-nil n ∙ sym (drop-nil (suc m + n))
drop-drop (suc m) n (x ∷ xs) =
    drop-drop m n xs ∙ subst (λ k. drop (m + n) xs ≡ drop k (x ∷ xs)) (suc_add m n) refl

-- A frame is taken apart at the lengths that it was put together from.
parts :
    (iv tag ciphertext : List ℕ)
    → length iv ≡ 12
    → length tag ≡ 16
    → (subarray 0 12 (iv ++ (tag ++ ciphertext)) ≡ iv)
      × ((subarray 12 28 (iv ++ (tag ++ ciphertext)) ≡ tag)
          × (drop 28 (iv ++ (tag ++ ciphertext)) ≡ ciphertext))
parts iv tag ciphertext h k =
    let rest : drop 12 (iv ++ (tag ++ ciphertext)) ≡ tag ++ ciphertext =
      subst (λ n. drop n (iv ++ (tag ++ ciphertext)) ≡ tag ++ ciphertext) h
        (drop-front iv (tag ++ ciphertext)) in
    (
      subst (λ n. take n (iv ++ (tag ++ ciphertext)) ≡ iv) h (take-front iv (tag ++ ciphertext)),
      (
        ap (take 16) rest
            ∙ subst (λ n. take n (tag ++ ciphertext) ≡ tag) k (take-front tag ciphertext),
        sym (drop-drop 12 16 (iv ++ (tag ++ ciphertext)))
            ∙ ap (drop 16) rest
            ∙ subst (λ n. drop n (tag ++ ciphertext) ≡ ciphertext) k (drop-front tag ciphertext),
      ),
    )

-- With 12 random bytes, what `encrypt` makes of a text with no lone surrogate `decrypt` makes the text
-- again, for any cipher and encodings that do what their manuals say.
pub decrypt-encrypt :
    (crypto : Crypto)
    → IsCrypto crypto
    → (iv plaintext : List ℕ) → IsBytes iv
    → length iv ≡ 12
    → well_formed false plaintext ≡ true
    → decrypt crypto (encrypt crypto iv plaintext) ≡ some plaintext
unfolding decrypt encrypt
decrypt-encrypt crypto laws iv plaintext b h wf =
    let plain = crypto.to_utf8 plaintext in
    let p = laws.to_utf8-IsBytes plaintext wf in
    let (ciphertext, tag) = crypto.seal iv plain in
    let (c, t) = laws.seal-IsBytes iv plain b h p in
    let (first, (second, third)) = parts iv tag ciphertext h (laws.length-tag iv plain b h p) in
    rw
      (
        laws.from_base64-to_base64 (iv ++ (tag ++ ciphertext)) (
            All-append (λ n. n < 256) iv (tag ++ ciphertext) b
              (All-append (λ n. n < 256) tag ciphertext t c)),
        first,
        second,
        third,
        laws.open_sealed-seal iv plain b h p,
        laws.from_utf8-to_utf8 plaintext wf,
      )
      refl
