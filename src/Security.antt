-- ===== src/Security.antt =====
-- Signature checks of src/razortrust/security.py, over the `cryptography` package and `base64`.
use razor_trust.Common.{ℕ, String, Bool, false, Option, none, some, List}

-- Ed25519 and base64 are libraries: a key, a signature and a message are bytes.
pub record Crypto : Type 1 where
  pub PublicKey : Type 0
  -- `base64.b64decode(s, validate=True)`; `none` is its `ValueError`
  pub b64decode : String → Option (List ℕ)
  -- `Ed25519PublicKey.from_public_bytes`; `none` is its `ValueError`
  pub from_public_bytes : List ℕ → Option PublicKey
  -- `public_key.verify`; `false` is its `InvalidSignature`
  pub verify : PublicKey → List ℕ → List ℕ → Bool

module _ (c : Crypto) where
  abbrev verify_decoded : Option c.PublicKey → Option (List ℕ) → List ℕ → Bool
  verify_decoded none signature message = false
  verify_decoded (some key) none message = false
  verify_decoded (some key) (some signature) message = c.verify key signature message

  abbrev load_key : Option (List ℕ) → Option c.PublicKey
  load_key none = none
  load_key (some bytes) = c.from_public_bytes bytes

  -- `verify_manifest`, of a manifest as its canonical JSON
  unfoldable pub verify_manifest : List ℕ → String → String → Bool
  verify_manifest message signature_b64 public_key_b64 =
      verify_decoded (load_key (c.b64decode public_key_b64)) (c.b64decode signature_b64) message
