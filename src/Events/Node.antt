-- ===== src/Events/Node.antt =====
-- Nodes and edges of a transaction graph (crates/protocol/src/lib.rs).
pub mod Weakest
use android_ebpf_studio.Prelude.{
  ℕ, zero, suc, ◌-◌, ◌≡◌, refl, sym, ap, ◌∙◌, ◌↔◌, Bool, true, false, Option, none, some, List, [],
  ◌∷◌, arith, leb, if◌then◌else◌, Eq,
}
use android_ebpf_studio.Events.Block.{Text, IoOperation}
use android_ebpf_studio.Events.File.{FileIdentity, PathSnapshot}

pub data IoNodeKind : Type 0 where
  file_operation syscall vfs filesystem page_cache writeback bio : IoNodeKind
  block_queue block_request scsi_command ufs_command scheduler_context uic_context : IoNodeKind

-- The place of a kind in the declaration, which is its derived order.
unfoldable pub kind_rank : IoNodeKind → ℕ
kind_rank file_operation = 0
kind_rank syscall = 1
kind_rank vfs = 2
kind_rank filesystem = 3
kind_rank page_cache = 4
kind_rank writeback = 5
kind_rank bio = 6
kind_rank block_queue = 7
kind_rank block_request = 8
kind_rank scsi_command = 9
kind_rank ufs_command = 10
kind_rank scheduler_context = 11
kind_rank uic_context = 12

abbrev kind_at : List IoNodeKind → ℕ → IoNodeKind
kind_at [] n = uic_context
kind_at (k ∷ ks) zero = k
kind_at (k ∷ ks) (suc n) = kind_at ks n

abbrev kinds : List IoNodeKind
kinds =
    file_operation ∷ syscall ∷ vfs ∷ filesystem ∷ page_cache ∷ writeback ∷ bio ∷ block_queue
    ∷ block_request ∷ scsi_command ∷ ufs_command ∷ scheduler_context ∷ uic_context ∷ []

kind_at-kind_rank : (a : IoNodeKind) → kind_at kinds (kind_rank a) ≡ a
unfolding kind_rank
kind_at-kind_rank file_operation = refl
kind_at-kind_rank syscall = refl
kind_at-kind_rank vfs = refl
kind_at-kind_rank filesystem = refl
kind_at-kind_rank page_cache = refl
kind_at-kind_rank writeback = refl
kind_at-kind_rank bio = refl
kind_at-kind_rank block_queue = refl
kind_at-kind_rank block_request = refl
kind_at-kind_rank scsi_command = refl
kind_at-kind_rank ufs_command = refl
kind_at-kind_rank scheduler_context = refl
kind_at-kind_rank uic_context = refl

pub kind_rank_differ : (a b : IoNodeKind) → kind_rank a ≡ kind_rank b → a ≡ b
kind_rank_differ a b h = sym (kind_at-kind_rank a) ∙ ap (kind_at kinds) h ∙ kind_at-kind_rank b

pub data IoOrigin : Type 0 where
  file filesystem_metadata journal garbage_collection checkpoint : IoOrigin
  writeback readahead swap unknown : IoOrigin

pub data EdgeConfidence : Type 0 where
  exact probable probable_async context_only : EdgeConfidence

unfoldable pub rank : EdgeConfidence → ℕ
rank exact = 3
rank probable = 2
rank probable_async = 1
rank context_only = 0

unfoldable pub weakest : EdgeConfidence → EdgeConfidence → EdgeConfidence
unfolding rank
weakest a b = if leb (rank a) (rank b) then a else b

abbrev confidence_beq : EdgeConfidence → EdgeConfidence → Bool
confidence_beq exact exact = true
confidence_beq probable probable = true
confidence_beq probable_async probable_async = true
confidence_beq context_only context_only = true
confidence_beq _ _ = false

pub confidence_beq_iff : (a b : EdgeConfidence) → (confidence_beq a b ≡ true) ↔ (a ≡ b)
confidence_beq_iff a b = ground arith

instance abbrev pub confidence_eq : Eq EdgeConfidence
confidence_eq = record { test = confidence_beq; decides = confidence_beq_iff }

pub data IoRelation : Type 0 where
  calls contains submits splits_into merged_into : IoRelation
  remaps_to dispatches completes_into causes_async context_for : IoRelation

pub record CorrelationEvidence : Type 0 where
  pub match_type : Text
  pub opaque_key : Option ℕ
  pub delta_ns : Option ℕ
  pub candidate_count : ℕ
  pub sector_match : Bool
  pub bytes_match : Bool
  pub task_match : Bool

pub record IoNode : Type 0 where
  pub node_id : ℕ
  pub transaction_id : Option ℕ
  pub kind : IoNodeKind
  pub start_ts_ns : ℕ
  pub end_ts_ns : Option ℕ
  pub origin : IoOrigin
  pub file : Option FileIdentity
  pub path : Option PathSnapshot
  pub operation : Option IoOperation
  pub bytes : Option ℕ
  pub pid : ℕ
  pub tid : ℕ
  pub name : Text

abbrev pub unwrap_or : Option ℕ → ℕ → ℕ
unwrap_or none d = d
unwrap_or (some n) d = n

abbrev pub end_or_start : IoNode → ℕ
end_or_start n = unwrap_or n.end_ts_ns n.start_ts_ns

abbrev pub duration_ns : IoNode → ℕ
duration_ns n = end_or_start n - n.start_ts_ns

abbrev is_additive_kind : IoNodeKind → Bool
is_additive_kind uic_context = false
is_additive_kind _ = true

abbrev pub additive : IoNode → Bool
additive n = is_additive_kind n.kind

pub record IoEdge : Type 0 where
  pub edge_id : ℕ
  pub transaction_id : Option ℕ
  pub from_node_id : ℕ
  pub to_node_id : ℕ
  pub relation : IoRelation
  pub confidence : EdgeConfidence
  pub evidence : List CorrelationEvidence

pub record RequestOrigin : Type 0 where
  pub ts_ns : ℕ
  pub request_id : ℕ
  pub origin_id : ℕ
  pub file : FileIdentity
  pub path : Option PathSnapshot
  pub origin : IoOrigin
  pub operation : IoOperation
  pub bytes : Option ℕ
  pub pid : ℕ
  pub tid : ℕ
  pub file_origin_confidence : EdgeConfidence
  pub request_lifetime_confidence : EdgeConfidence
  pub incomplete : Bool

abbrev pub exact_edge : ℕ → ℕ → ℕ → IoRelation → IoEdge
exact_edge edge_id from_node_id to_node_id relation = record {
  edge_id = edge_id;
  transaction_id = none;
  from_node_id = from_node_id;
  to_node_id = to_node_id;
  relation = relation;
  confidence = exact;
  evidence = [];
}

pub record FileOriginView : Type 0 where
  pub file : FileIdentity
  pub path : Option PathSnapshot
  pub confidence : EdgeConfidence
  pub incomplete : Bool
