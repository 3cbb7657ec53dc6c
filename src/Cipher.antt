-- ===== src/Cipher.antt =====
-- Worker identity at rest: backend/src/lib/oidCipher.ts. A buffer is the list of its bytes, a text its
-- UTF-8 bytes. The cipher of the platform (AES-256-GCM) is a parameter: `seal` yields the ciphertext
-- and the tag, `open_sealed` the plaintext unless the tag does not fit. Random bytes are arguments of
-- the operations that draw them.
pub mod Envelope
pub mod Laws
mod Tests
use fieldpro_pilot.Base.{
  ℕ, ◌+◌, ◌-◌, Bool, true, false, Option, none, some, List, [], ◌∷◌, ◌++◌, length, take, drop, not,
  if◌then◌else◌, ◌==◌, Text, text, eq_text,
}
use mathlib.Core.Option
use fieldpro_pilot.Cipher.Envelope.{Bytes, Blob, pack_blob, unpack_blob}

pub record Crypto : Type 0 where
  pub seal : Bytes → Bytes → Bytes → Bytes × Bytes
  pub open_sealed : Bytes → Bytes → Bytes → Bytes → Option Bytes

-- `OidCipherAdapter`; `none` where a call throws. `wrap_dek` is given what it draws at random.
pub record OidCipherAdapter : Type 0 where
  pub wrap_dek : Bytes → Bytes → Option (Bytes × Text)
  pub unwrap_dek : Bytes → Text → Option Bytes

-- what `encrypt` draws: the key of the record, the adapter's bytes, the iv
pub record Draw : Type 0 where
  pub dek : Bytes
  pub wrap_iv : Bytes
  pub data_iv : Bytes

abbrev pub static_key_id : Text
static_key_id = text "dev-static-v1"

module _ (crypto : Crypto) where
  unfoldable pub static_wrap : Bytes → Bytes → Bytes → Option (Bytes × Text)
  static_wrap kek iv dek =
      let sealed = crypto.seal kek iv dek in some (iv ++ (sealed.0 ++ sealed.1), static_key_id)

  unfoldable pub static_unwrap : Bytes → Bytes → Text → Option Bytes
  static_unwrap kek wrapped key_id =
      if not (eq_text key_id static_key_id)
      then none
      else if not (length wrapped == 60)
      then none
      else crypto.open_sealed kek (take 12 wrapped) (take 32 (drop 12 wrapped)) (drop 44 wrapped)

  -- `DevStaticKeyAdapter`
  unfoldable pub dev_static_key_adapter : Bytes → OidCipherAdapter
  unfolding static_wrap static_unwrap
  dev_static_key_adapter kek = record {
    wrap_dek = λ iv dek. static_wrap kek iv dek;
    unwrap_dek = λ wrapped key_id. static_unwrap kek wrapped key_id;
  }

  unfoldable pub encrypt : OidCipherAdapter → Draw → Bytes → Option (Bytes × Text)
  encrypt adapter draw plaintext = elim (adapter.wrap_dek draw.wrap_iv draw.dek) [
    | none ↦ none
    | some wrapped ↦
        let sealed = crypto.seal draw.dek draw.data_iv plaintext in
        Option.map (λ blob. (blob, wrapped.1)) (pack_blob wrapped.0 draw.data_iv sealed.1 sealed.0)
  ]

  -- the steps of `decrypt` up to the plaintext
  unfoldable pub recover : OidCipherAdapter → Text → Blob → Option Bytes
  recover adapter key_id blob = elim (adapter.unwrap_dek blob.wrapped_dek key_id) [
    | none ↦ none
    | some dek ↦ crypto.open_sealed dek blob.data_iv blob.data_ciphertext blob.data_tag
  ]

  unfoldable pub decipher : OidCipherAdapter → Bytes → Text → Option Bytes
  unfolding recover
  decipher adapter ciphertext key_id = elim (unpack_blob ciphertext) [
    | none ↦ none
    | some blob ↦ recover adapter key_id blob
  ]

-- `AzureKeyVaultAdapter`, whose methods throw
unfoldable pub azure_key_vault_adapter : OidCipherAdapter
azure_key_vault_adapter = record { wrap_dek = λ iv dek. none; unwrap_dek = λ wrapped key_id. none }

-- an entry of the audit log that `decrypt` writes
pub record AuditEntry : Type 0 where
  pub actor_oid : Text
  pub org_id : Text
  pub action : Text
  pub resource_id : Option Text
  pub reason : Text

-- what a call of `decrypt` is given besides the blob; absent claims are already replaced
pub record Access : Type 0 where
  pub actor_oid : Text
  pub org_id : Text
  pub reason : Text
  pub visit_id : Option Text

abbrev pub entry_of : Access → AuditEntry
entry_of access = record {
  actor_oid = access.actor_oid;
  org_id = access.org_id;
  action = text "admin.oid_decrypt";
  resource_id = access.visit_id;
  reason = access.reason;
}

-- the audit write; `works` says whether it succeeds, and a failure is only logged
unfoldable pub audited :
    Bool → Access → Option Bytes → List AuditEntry → Option Bytes × List AuditEntry
audited works access none log = (none, log)
audited works access (some plaintext) log =
    (some plaintext, if works then log ++ entry_of access ∷ [] else log)

unfoldable pub decrypt :
    Crypto
    → OidCipherAdapter
    → Bytes
    → Text
    → Bool
    → Access
    → List AuditEntry
    → Option Bytes × List AuditEntry
unfolding audited
decrypt crypto adapter ciphertext key_id works access log =
    audited works access (decipher crypto adapter ciphertext key_id) log

-- `assertCipherOperational`: true where the process may start
unfoldable pub assert_cipher_operational : Bool → OidCipherAdapter → Bytes → Bytes → Bool
assert_cipher_operational false adapter iv probe = true
assert_cipher_operational true adapter iv probe = elim (adapter.wrap_dek iv probe) [
  | none ↦ false
  | some wrapped ↦ elim (adapter.unwrap_dek wrapped.0 wrapped.1) [
    | none ↦ false
    | some dek ↦ eq_text dek probe
  ]
]
