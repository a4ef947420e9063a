-- ===== src/Generation/Contracts.antt =====
-- The records of src/zglab_rag/generation/contracts.py that a citation goes through. `S` is the type
-- of a score, which Python has as a float.
use zglab_rag.Prelude.{ℕ, Bool, Option, List, Text}

pub data Visibility : Type 0 where
  public private : Visibility

pub data EvidenceOrigin : Type 0 where
  personal web : EvidenceOrigin

pub record EvidenceItem (S : Type 0) : Type 0 where
  pub evidence_id : Text
  pub chunk_id : Option Text
  pub document_id : Option Text
  pub source_id : Option Text
  pub source_path : Text
  pub title : Text
  pub section_path : List Text
  pub content : Text
  pub revision : Option Text
  pub visibility : Visibility
  pub rank : ℕ
  pub score : S
  pub origin : EvidenceOrigin
  pub url : Option Text
  pub domain : Option Text

pub record GeneratedClaim : Type 0 where
  pub text : Text
  pub citations : List Text

pub record GeneratedAnswer : Type 0 where
  pub answer : Text
  pub claims : List GeneratedClaim
  pub citations : List Text
  pub insufficient_evidence : Bool

pub record AnswerSource (S : Type 0) : Type 0 where
  pub evidence_id : Text
  pub source_id : Option Text
  pub document_id : Option Text
  pub chunk_id : Option Text
  pub title : Text
  pub source_path : Text
  pub section_path : List Text
  pub source_url : Option Text
  pub score : Option S
  pub origin : EvidenceOrigin
  pub url : Option Text
  pub domain : Option Text
