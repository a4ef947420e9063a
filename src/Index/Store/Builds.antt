-- ===== src/Index/Store/Builds.antt =====
-- `KnowledgeIndexer.build` of src/zglab_rag/indexing/indexer.py, with its test of the embedding profile.
use zglab_rag.Prelude.{
  ◌≡◌, ◌≢◌, inl, inr, Bool-cases, refl, ◌∙◌, Bool, true, false, Option, none, some, List, map, Text,
  ◌==◌, beq_refl, text_eq, All,
}
use zglab_rag.Prelude.Dict.{Dict, lookup}
use zglab_rag.Index.Plan.{EmbeddingProfile, IndexPlan, needs_embedding, planned}
use zglab_rag.Index.Store.{SourceIndexInput, IndexDb, is_there, source_ids, all_chunks}
use zglab_rag.Index.Store.Apply.{
  built, Compatibility, same_profile, other_profile, refused, out_of_scope, other_profile_for,
  omits_some, compatibility_with, ensure_profile_compatible, plan_sources, with_plan, build,
}
use zglab_rag.Index.Store.Keeps.{IsNamed}
use zglab_rag.Index.Store.Converges.{AreIngested, unchanged_plan}
use zglab_rag.Index.Store.Synced.{IsBrought, apply-IsBrought}

-- The profile lets the build go on.
abbrev pub IsCompatible : Compatibility → Type 0
IsCompatible c = (c ≢ refused) × (c ≢ out_of_scope)

other_profile_for-rebuild :
    (rebuild omits : Bool) → other_profile_for rebuild omits ≡ other_profile → rebuild ≡ true
other_profile_for-rebuild false omits h = cc
other_profile_for-rebuild true omits h = refl

module _ {V : Type 0} (sha256 : Text → Text) (profile : EmbeddingProfile) (rebuild : Bool)
    (sources : List SourceIndexInput) (db : IndexDb V) where
  only_rebuild :
      (active : Option Text)
      → compatibility_with profile active rebuild (source_ids sources) db ≡ other_profile
      → rebuild ≡ true
  only_rebuild none h = cc
  only_rebuild (some active) h = elim (Bool-cases (active == profile.profile_id)) [
    | inl e ↦ cc (rw e at h)
    | inr e ↦
        other_profile_for-rebuild rebuild (omits_some (source_ids sources) db.sources) (rw e at h)
  ]

  active_same :
      (result : IndexDb V)
      → result.active_profile_id ≡ some profile.profile_id
      → ensure_profile_compatible profile false (source_ids sources) result ≡ same_profile
  unfolding ensure_profile_compatible
  active_same result h = rw (h, beq_refl profile.profile_id) refl

  -- The outcome of `build`: the tables that it leaves, with which a next plan asks for nothing.
  abbrev pub Builds : (IndexPlan → Option (Dict Text V)) → IndexPlan → Type 0
  Builds embed plan =
      (result : IndexDb V) × (build sha256 profile sources rebuild embed db ≡ built plan result)
      × (ensure_profile_compatible profile false (source_ids sources) result ≡ same_profile)
      × (plan_sources sha256 profile false sources result
          ≡ some (unchanged_plan (map (planned sha256 profile false) (all_chunks sources))))

  module _ (embed : IndexPlan → Option (Dict Text V)) (plan : IndexPlan) (embeddings : Dict Text V)
      (planned_so : plan_sources sha256 profile rebuild sources db ≡ some plan)
      (embedded_so : embed plan ≡ some embeddings) where
    brought_Builds :
        (reset : Bool) (document_of source_of : Text → Text)
        → build sha256 profile sources rebuild embed db
          ≡ with_plan sha256 profile sources embed reset
              (plan_sources sha256 profile rebuild sources db)
              db
        → IsBrought sha256 profile rebuild reset document_of source_of sources db plan embeddings
        → Builds embed plan
    brought_Builds reset document_of source_of h b = (
      b.result,
      h ∙ rw (planned_so, embedded_so, b.returns) refl,
      active_same b.result b.active,
      b.next,
    )

    module _ (document_of source_of : Text → Text) (n : IsNamed document_of source_of db)
        (i : AreIngested document_of source_of sources)
        (w : All
          (λ i. is_there (lookup i.chunk.chunk_id embeddings) ≡ true)
          (needs_embedding plan)) where
      compatible-Builds :
          (c : Compatibility)
          → ensure_profile_compatible profile rebuild (source_ids sources) db ≡ c
          → IsCompatible c
          → Builds embed plan
      unfolding build ensure_profile_compatible
      compatible-Builds same_profile e k = brought_Builds false document_of source_of (rw e refl) (
          apply-IsBrought sha256 profile rebuild false document_of source_of sources db plan
            embeddings n i (λ h. cc) planned_so w)
      compatible-Builds other_profile e k = brought_Builds true document_of source_of (rw e refl) (
          apply-IsBrought sha256 profile rebuild true document_of source_of sources db plan
            embeddings n i (λ h. only_rebuild db.active_profile_id e) planned_so w)
      compatible-Builds refused e k = absurd (k.0 refl)
      compatible-Builds out_of_scope e k = absurd (k.1 refl)

  -- Where the profile is compatible, the plan has no duplicate and the embeddings cover it, `build` succeeds,
  -- and the tables that it leaves are compatible with the profile and give a plan that asks for nothing: a
  -- second build embeds and deletes nothing.
  pub build-Builds :
      (embed : IndexPlan → Option (Dict Text V)) (plan : IndexPlan) (embeddings : Dict Text V)
      (document_of source_of : Text → Text)
      → IsNamed document_of source_of db
      → AreIngested document_of source_of sources
      → IsCompatible (ensure_profile_compatible profile rebuild (source_ids sources) db)
      → plan_sources sha256 profile rebuild sources db ≡ some plan
      → embed plan ≡ some embeddings
      → All (λ i. is_there (lookup i.chunk.chunk_id embeddings) ≡ true) (needs_embedding plan)
      → Builds embed plan
  build-Builds embed plan embeddings document_of source_of n i ok h e w =
      compatible-Builds embed plan embeddings h e document_of source_of n i w
        (ensure_profile_compatible profile rebuild (source_ids sources) db) refl ok
