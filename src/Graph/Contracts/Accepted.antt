-- ===== src/Graph/Contracts/Accepted.antt =====
-- What the validators of evidence and of operation descriptors accept.
use codex_routecraft.Prelude.{Bool, not, String, [], ◌≡◌, ℕ, ◌==◌, and-eq-true}
use codex_routecraft.Core.Words.{Value, Fields, codes}
use codex_routecraft.Graph.Compiler.Shape.{is_digest, is_empty}
use codex_routecraft.Graph.Compiler.Issues.{append-eq-nil}
use codex_routecraft.Graph.Contracts.Patterns.Meaning.{IsTime}
use codex_routecraft.Graph.Contracts.Patterns.Paths.{HasNoPath}
use codex_routecraft.Graph.Contracts.Evidence.{
  keys_of, lacking, evidence_keys, evidence_classifications, gate_results, is_short_text,
  descriptor_keys, validate_operation_descriptor,
}
use codex_routecraft.Graph.Contracts.Entries.{
  HasKeys, lacking-Within, accepted, text_with-HasText, HasEntry, HasText-HasEntry, IsShort,
  is_short_text-IsShort, IsDigest, is_digest-IsDigest, IsWord,
}

-- What an accepted operation descriptor has.
pub record IsDescriptor (fields : Fields) : Type 0 where
  pub keys : HasKeys descriptor_keys fields
  pub kind : HasEntry IsShort fields "kind"
  pub target_scope : HasEntry IsShort fields "target_scope"
  pub parameters_hash : HasEntry IsDigest fields "parameters_hash"

-- A descriptor in which no error is found has exactly the three keys, a kind and a scope of at most
-- 120 characters that are not blank, and as the hash of the parameters "sha256:" with 64 hexadecimal
-- digits after these seven characters.
pub validate_operation_descriptor-IsDescriptor :
    (fields : Fields)
    → validate_operation_descriptor (Value.object fields) ≡ []
    → IsDescriptor fields
unfolding validate_operation_descriptor
validate_operation_descriptor-IsDescriptor fields e =
    let (e, hash) = append-eq-nil _ _ e in
    let (e, scope) = append-eq-nil _ _ e in
    let (keys, kind) = append-eq-nil _ _ e in
    let (missing, unknown) =
      (and-eq-true (is_empty (lacking descriptor_keys (keys_of fields)))
          (is_empty (lacking (keys_of fields) descriptor_keys))).0
        (accepted _ _ keys) in
    record {
      keys = (
        lacking-Within descriptor_keys (keys_of fields) missing,
        lacking-Within (keys_of fields) descriptor_keys unknown,
      );
      kind =
          HasText-HasEntry is_short_text IsShort fields "kind" is_short_text-IsShort
            (text_with-HasText is_short_text fields "kind" (accepted _ _ kind));
      target_scope =
          HasText-HasEntry is_short_text IsShort fields "target_scope" is_short_text-IsShort
            (text_with-HasText is_short_text fields "target_scope" (accepted _ _ scope));
      parameters_hash =
          HasText-HasEntry is_digest IsDigest fields "parameters_hash" is_digest-IsDigest
            (text_with-HasText is_digest fields "parameters_hash" (accepted _ _ hash));
    }

abbrev pub not_blank : String → Bool
not_blank s = not (s == "")

-- A statement that is not empty and shows no path.
abbrev IsShown : String → Type 0
IsShown s = (s ≡ "" → ⊥) × HasNoPath (codes s)

-- What an accepted piece of evidence has.
pub record IsEvidence (is_digit : ℕ → Bool) (fields : Fields) : Type 0 where
  pub keys : HasKeys evidence_keys fields
  pub classification : HasEntry (IsWord evidence_classifications) fields "classification"
  pub result : HasEntry (IsWord gate_results) fields "result"
  pub node_id : HasEntry (λ s. s ≡ "" → ⊥) fields "node_id"
  pub artifact_hash : HasEntry IsDigest fields "artifact_hash"
  pub created_at : HasEntry (IsTime is_digit) fields "created_at"
  pub statement : HasEntry IsShown fields "statement"
