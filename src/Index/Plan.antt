-- ===== src/Index/Plan.antt =====
-- src/zglab_rag/indexing/planner.py, over the records of models.py and the composition of texts.
pub mod Reference
pub mod Collected
pub mod Described
use zglab_rag.Prelude.{
  Bool, true, false, ◌&&◌, not, Option, none, some, List, [], ◌∷◌, ◌++◌, map, Text, codes, ◌==◌,
  text_eq, if◌then◌else◌, contains, keep,
}
use zglab_rag.Prelude.Dict.{Dict, lookup, insert}
use zglab_rag.Generation.Contracts.{Visibility}
use zglab_rag.Generation.Context.{join, text_or}

-- What the index reads of a chunk.
pub record KnowledgeChunk : Type 0 where
  pub chunk_id : Text
  pub document_id : Text
  pub source_id : Text
  pub title : Text
  pub section_path : List Text
  pub content : Text
  pub visibility : Visibility

pub data TextComposition : Type 0 where
  content_only contextual : TextComposition

unfoldable pub compose_document_text : KnowledgeChunk → TextComposition → Text
compose_document_text chunk content_only = chunk.content
compose_document_text chunk contextual =
    codes "Title: "
    ++ chunk.title
    ++ codes "\nSection: "
    ++ text_or (join (codes " > ") chunk.section_path) (codes "(root)")
    ++ codes "\n\n"
    ++ chunk.content

pub record EmbeddingProfile : Type 0 where
  pub profile_id : Text
  pub composition : TextComposition

pub record PlannedChunk : Type 0 where
  pub chunk : KnowledgeChunk
  pub embedding_text : Text
  pub embedding_input_hash : Text

pub record StoredChunkState : Type 0 where
  pub chunk_id : Text
  pub source_id : Text
  pub embedding_profile_id : Option Text
  pub embedding_input_hash : Option Text

pub record IndexPlan : Type 0 where
  pub new : List PlannedChunk
  pub changed : List PlannedChunk
  pub unchanged : List PlannedChunk
  pub deleted : List StoredChunkState

abbrev pub needs_embedding : IndexPlan → List PlannedChunk
needs_embedding plan = plan.new ++ plan.changed

abbrev pub is_some_of : Text → Option Text → Bool
is_some_of t none = false
is_some_of t (some s) = s == t

-- `{state.chunk_id: state for state in stored_states}`; of equal keys the last stays.
abbrev pub collect : Dict Text StoredChunkState → List StoredChunkState → Dict Text StoredChunkState
collect d [] = d
collect d (s ∷ ss) = collect (insert s.chunk_id s d) ss

abbrev pub by_chunk_id : List StoredChunkState → Dict Text StoredChunkState
by_chunk_id states = collect [] states

pub data Change : Type 0 where
  is_new is_changed is_unchanged : Change

abbrev pub add : Change → PlannedChunk → IndexPlan → IndexPlan
add is_new item plan = record plan { new = item ∷ plan.new }
add is_changed item plan = record plan { changed = item ∷ plan.changed }
add is_unchanged item plan = record plan { unchanged = item ∷ plan.unchanged }

abbrev pub added : Change → PlannedChunk → Option IndexPlan → Option IndexPlan
added change item none = none
added change item (some plan) = some (add change item plan)

abbrev pub not_in : List Text → Text × StoredChunkState → Bool
not_in current entry = not (contains entry.0 current)

abbrev pub gone : Dict Text StoredChunkState → List Text → List StoredChunkState
gone stored current = map (λ e. e.1) (keep (not_in current) stored)

module _ (sha256 : Text → Text) (profile : EmbeddingProfile) (force_rebuild : Bool) where
  -- The planned chunk; `embedding_input_hash` is the hash of its text.
  abbrev pub planned : KnowledgeChunk → PlannedChunk
  planned chunk =
      let text = compose_document_text chunk profile.composition in
      record { chunk = chunk; embedding_text = text; embedding_input_hash = sha256 text }

  abbrev pub is_current : PlannedChunk → StoredChunkState → Bool
  is_current item previous =
      is_some_of profile.profile_id previous.embedding_profile_id
      && is_some_of item.embedding_input_hash previous.embedding_input_hash

  -- The list that an item goes to.
  abbrev pub classify : PlannedChunk → Option StoredChunkState → Change
  classify item none = is_new
  classify item (some previous) =
      if force_rebuild
      then is_changed
      else if is_current item previous
      then is_unchanged
      else is_changed

  -- The loop over the chunks, after those of `current`; `none` is the `ValueError` of a duplicate.
  unfoldable pub plan_from :
      Dict Text StoredChunkState → List Text → List KnowledgeChunk → Option IndexPlan
  plan_from stored current [] =
      some (record { new = []; changed = []; unchanged = []; deleted = gone stored current })
  plan_from stored current (c ∷ cs) =
      let rest = plan_from stored (c.chunk_id ∷ current) cs in
      let item = planned c in
      if contains c.chunk_id current
      then none
      else added (classify item (lookup c.chunk_id stored)) item rest

  unfoldable pub build_index_plan : List KnowledgeChunk → List StoredChunkState → Option IndexPlan
  build_index_plan chunks stored_states = plan_from (by_chunk_id stored_states) [] chunks
