-- ===== src/Events/File/Compatible.antt =====
-- What it means for two file identities to be compatible (`file_identities_compatible`,
-- crates/protocol/src/lib.rs).
use android_ebpf_studio.Prelude.{
  ℕ, ◌≡◌, refl, sym, ◌∙◌, ◌↔◌, true, Option, none, some, arith, nat_eq, pair_eq, ◌==◌,
}
use android_ebpf_studio.Events.File.{
  FileIdentity, file_identity_base_key, agree, file_identities_compatible,
}

-- What the first observation knows, the second says too.
abbrev Keeps : Option ℕ → Option ℕ → Type 0
Keeps none whole = Unit {0}
Keeps (some n) whole = whole ≡ some n

-- The identity of one file that the first may be a partial observation of.
record IsPartOf (part whole : FileIdentity) : Type 0 where
  pub base : file_identity_base_key part ≡ file_identity_base_key whole
  pub generation : Keeps part.inode_generation whole.inode_generation
  pub mount : Keeps part.mount_id whole.mount_id

abbrev joined : Option ℕ → Option ℕ → Option ℕ
joined none right = right
joined (some n) right = some n

agree_joined :
    (left right : Option ℕ)
    → agree left right ≡ true
    → Keeps left (joined left right) × Keeps right (joined left right)
agree_joined none none h = (tt, tt)
agree_joined none (some m) h = (tt, refl)
agree_joined (some n) none h = (refl, tt)
agree_joined (some n) (some m) h = ground (arith, nat_eq.decides n m)

agree_whole :
    (left right whole : Option ℕ) → Keeps left whole → Keeps right whole → agree left right ≡ true
agree_whole none right whole a b = refl
agree_whole (some n) none whole a b = refl
agree_whole (some n) (some m) whole a b = ground (arith, nat_eq.decides n m)

have_whole :
    (left right : FileIdentity)
    → file_identities_compatible left right ≡ true
    → (whole : FileIdentity) × IsPartOf left whole × IsPartOf right whole
unfolding file_identities_compatible
have_whole left right h =
    let base : file_identity_base_key left ≡ file_identity_base_key right =
      ground
        (arith, pair_eq.decides (file_identity_base_key left) (file_identity_base_key right)) in
    let generations = agree_joined left.inode_generation right.inode_generation (ground arith) in
    let mounts = agree_joined left.mount_id right.mount_id (ground arith) in
    (
      record left {
        inode_generation = joined left.inode_generation right.inode_generation;
        mount_id = joined left.mount_id right.mount_id;
      },
      record { base = refl; generation = generations.0; mount = mounts.0 },
      record { base = sym base; generation = generations.1; mount = mounts.1 },
    )

from_whole :
    (left right whole : FileIdentity)
    → IsPartOf left whole
    → IsPartOf right whole
    → file_identities_compatible left right ≡ true
unfolding file_identities_compatible
from_whole left right whole l r =
    let base : (file_identity_base_key left == file_identity_base_key right) ≡ true =
      (pair_eq.decides (file_identity_base_key left) (file_identity_base_key right)).1
        (l.base ∙ sym r.base) in
    rw
      (
        base,
        agree_whole left.inode_generation right.inode_generation whole.inode_generation l.generation
            r.generation,
        agree_whole left.mount_id right.mount_id whole.mount_id l.mount r.mount,
      )
      refl

-- Two identities are compatible exactly when there is one file that both may be observations of: the
-- same device and inode, with every generation and mount that either of them knows.
file_identities_compatible_iff :
    (left right : FileIdentity)
    → (file_identities_compatible left right ≡ true)
      ↔ ((whole : FileIdentity) × IsPartOf left whole × IsPartOf right whole)
file_identities_compatible_iff left right =
    (λ h. have_whole left right h, λ w. from_whole left right w.0 w.1 w.2)
