-- ===== src/Release/Signature.antt =====
-- The signature of a release: src/egr/release/signature.py.
use enterprise_agi_runtime.Prelude.{String, Bool, false, not, none, some, ◌&&◌, ◌==◌, if◌then◌else◌}
use enterprise_agi_runtime.Prelude.Sort.{sorted, text_lt}
use enterprise_agi_runtime.Release.{Release, ReleaseSignature, Manifest, Site}

unfoldable pub manifest : Release → Manifest
manifest release = record {
  release = release.id;
  target = release.target;
  items = release.items;
  evidence = sorted text_lt release.evidence;
  created_by = release.created_by;
}

module _ (site : Site) where
  unfoldable pub manifest_hash : Release → String
  manifest_hash release = site.manifest_hash (manifest release)

  -- `sign`, with a master key (its id and its bytes)
  unfoldable pub signature_of : String × String → Release → String → ReleaseSignature
  signature_of key release actor = record {
    manifest_hash = manifest_hash release;
    key_id = key.0;
    value = site.hmac key.1 (manifest_hash release);
    signed_by = actor;
  }

  -- `verify`: the tests in their order.
  unfoldable pub verify : Release → Bool
  verify release = elim release.signature [
    | none ↦ false
    | some signature ↦ if signature.value == "" then false else elim site.master_key [
      | none ↦ false
      | some key ↦
          if not (manifest_hash release == signature.manifest_hash)
          then false
          else if not (signature.key_id == "") && not (signature.key_id == key.0)
          then false
          else site.hmac key.1 (manifest_hash release) == signature.value
    ]
  ]
