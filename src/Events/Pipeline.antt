-- ===== src/Events/Pipeline.antt =====
-- Observations and spans of the storage pipeline (crates/protocol/src/lib.rs).
use android_ebpf_studio.Prelude.{
  ℕ, zero, suc, ◌≡◌, refl, sym, ap, Bool, ◌∙◌, ◌↔◌, true, Option, List, [], ◌∷◌, eqb, eqb_iff, Eq,
  ℤ,
}
use android_ebpf_studio.Events.Block.{Text, IoOperation}
use android_ebpf_studio.Events.Node.{IoNodeKind}

pub data PipelineLayer : Type 0 where
  syscall vfs filesystem page_cache writeback bio block_queue : PipelineLayer
  block_device scsi ufs scheduler_context uic_context : PipelineLayer

-- The place of a layer in the declaration, which is its derived order.
unfoldable pub layer_rank : PipelineLayer → ℕ
layer_rank syscall = 0
layer_rank vfs = 1
layer_rank filesystem = 2
layer_rank page_cache = 3
layer_rank writeback = 4
layer_rank bio = 5
layer_rank block_queue = 6
layer_rank block_device = 7
layer_rank scsi = 8
layer_rank ufs = 9
layer_rank scheduler_context = 10
layer_rank uic_context = 11

-- The layer of a place, for the equality test.
abbrev layer_at : List PipelineLayer → ℕ → PipelineLayer
layer_at [] n = uic_context
layer_at (l ∷ ls) zero = l
layer_at (l ∷ ls) (suc n) = layer_at ls n

abbrev layers : List PipelineLayer
layers =
    syscall ∷ vfs ∷ filesystem ∷ page_cache ∷ writeback ∷ bio ∷ block_queue ∷ block_device ∷ scsi
    ∷ ufs ∷ scheduler_context ∷ []

layer_at-layer_rank : (a : PipelineLayer) → layer_at layers (layer_rank a) ≡ a
unfolding layer_rank
layer_at-layer_rank syscall = refl
layer_at-layer_rank vfs = refl
layer_at-layer_rank filesystem = refl
layer_at-layer_rank page_cache = refl
layer_at-layer_rank writeback = refl
layer_at-layer_rank bio = refl
layer_at-layer_rank block_queue = refl
layer_at-layer_rank block_device = refl
layer_at-layer_rank scsi = refl
layer_at-layer_rank ufs = refl
layer_at-layer_rank scheduler_context = refl
layer_at-layer_rank uic_context = refl

pub layer_beq_iff : (a b : PipelineLayer) → (eqb (layer_rank a) (layer_rank b) ≡ true) ↔ (a ≡ b)
layer_beq_iff a b = (
  λ h.
      sym (layer_at-layer_rank a)
      ∙ ap (layer_at layers) ((eqb_iff (layer_rank a) (layer_rank b)).0 h)
      ∙ layer_at-layer_rank b,
  λ h. (eqb_iff (layer_rank a) (layer_rank b)).1 (ap layer_rank h),
)

instance abbrev pub layer_eq : Eq PipelineLayer
layer_eq = record { test = λ a b. eqb (layer_rank a) (layer_rank b); decides = layer_beq_iff }

pub data PipelinePhase : Type 0 where
  begin end instant span : PipelinePhase

pub data CorrelationConfidence : Type 0 where
  exact probable context_only : CorrelationConfidence

pub record PipelineObservation : Type 0 where
  pub ts_ns : ℕ
  pub operation : Option IoOperation
  pub end_ts_ns : Option ℕ
  pub phase : PipelinePhase
  pub layer : PipelineLayer
  pub correlation_id : Option ℕ
  pub stage_key : Option ℕ
  pub sector : Option ℕ
  pub bytes : Option ℕ
  pub opcode : Option ℕ
  pub status : Option ℤ
  pub pid : ℕ
  pub tid : ℕ
  pub name : Text
  pub confidence : CorrelationConfidence

pub record PipelineSpan : Type 0 where
  pub layer : PipelineLayer
  pub operation : Option IoOperation
  pub bytes : Option ℕ
  pub pid : ℕ
  pub tid : ℕ
  pub start_ts_ns : ℕ
  pub end_ts_ns : ℕ
  pub duration_observed : Bool
  pub name : Text
  pub confidence : CorrelationConfidence
  pub source : Text
  pub opcode : Option ℕ
  pub status : Option ℤ

pub record IoPipeline : Type 0 where
  pub request_id : ℕ
  pub start_ts_ns : ℕ
  pub end_ts_ns : ℕ
  pub accounted_ns : ℕ
  pub unaccounted_ns : ℕ
  pub spans : List PipelineSpan

abbrev pub pipeline_node_kind : PipelineLayer → IoNodeKind
pipeline_node_kind PipelineLayer.syscall = IoNodeKind.syscall
pipeline_node_kind PipelineLayer.vfs = IoNodeKind.vfs
pipeline_node_kind PipelineLayer.filesystem = IoNodeKind.filesystem
pipeline_node_kind PipelineLayer.page_cache = IoNodeKind.page_cache
pipeline_node_kind PipelineLayer.writeback = IoNodeKind.writeback
pipeline_node_kind PipelineLayer.bio = IoNodeKind.bio
pipeline_node_kind PipelineLayer.block_queue = IoNodeKind.block_queue
pipeline_node_kind PipelineLayer.block_device = IoNodeKind.block_request
pipeline_node_kind PipelineLayer.scsi = IoNodeKind.scsi_command
pipeline_node_kind PipelineLayer.ufs = IoNodeKind.ufs_command
pipeline_node_kind PipelineLayer.scheduler_context = IoNodeKind.scheduler_context
pipeline_node_kind PipelineLayer.uic_context = IoNodeKind.uic_context
