-- ===== src/Transaction/Inferred.antt =====
-- When a path is inferred for a node (`inferred_origin_path`): only where all eligible file operations
-- agree on it.
use android_ebpf_studio.Prelude.{
  ℕ, ◌≡◌, ◌≢◌, refl, sym, ◌∙◌, subst, ◌⊎◌, inl, inr, true, false, Option, none, some, List, [], ◌∷◌,
  arith, ltb, IsIn, Bool-cases, ◌==◌, nat_eq, option_eq, list_eq,
}
use android_ebpf_studio.Events.Block.{Text}
use android_ebpf_studio.Events.File.{FileIdentity, FileIo, PathSnapshot}
use android_ebpf_studio.Events.Node.{IoNode}
use android_ebpf_studio.Correlator.{is_some}
use android_ebpf_studio.Pipeline.{filter}
use android_ebpf_studio.Pipeline.Exclusive.{filter_sound}
use android_ebpf_studio.Transaction.Paths.{
  recorded_file_path, non_empty, snapshot_path, or_else, is_path_candidate, is_contemporaneous,
  prefer, eligible_files, latest_file, later_of, any_other_path, path_from, usable, unanimous,
  from_latest, inferred_for, inferred_origin_path,
}

later_of-cases :
    (g : FileIo) (o : Option FileIo) (f : FileIo) → later_of g o ≡ some f → (g ≡ f) ⊎ (o ≡ some f)
later_of-cases g none f e = inl (cc)
later_of-cases g (some h) f e = elim (Bool-cases (ltb h.end_ts_ns g.end_ts_ns)) [
  | inl later ↦ inl (let e' = rw later at e in cc)
  | inr earlier ↦ inr (rw earlier at e)
]

later_of-ne-none : (g : FileIo) (o : Option FileIo) → later_of g o ≢ none
later_of-ne-none g none e = cc
later_of-ne-none g (some h) e = elim (Bool-cases (ltb h.end_ts_ns g.end_ts_ns)) [
  | inl later ↦ let e' = rw later at e in cc
  | inr earlier ↦ let e' = rw earlier at e in cc
]

latest_file-IsIn : (fs : List FileIo) (f : FileIo) → latest_file fs ≡ some f → IsIn f fs
unfolding latest_file
latest_file-IsIn [] f e = cc
latest_file-IsIn (g ∷ gs) f e = elim (later_of-cases g (latest_file gs) f e) [
  | inl same ↦ inl same
  | inr later ↦ inr (latest_file-IsIn gs f later)
]

latest_file-none : (fs : List FileIo) → latest_file fs ≡ none → fs ≡ []
unfolding latest_file
latest_file-none [] e = refl
latest_file-none (g ∷ gs) e = absurd (later_of-ne-none g (latest_file gs) e)

any_other_path-false :
    (path : Text) (fs : List FileIo) (f : FileIo)
    → any_other_path path fs ≡ false
    → IsIn f fs
    → recorded_file_path f ≡ some path
unfolding any_other_path
any_other_path-false path [] f h i = absurd i
any_other_path-false path (g ∷ gs) f h (inl e) =
    subst (λ x. recorded_file_path x ≡ some path) e
      ((option_eq.decides (recorded_file_path g) (some path)).0 (ground arith))
any_other_path-false path (g ∷ gs) f h (inr i) = any_other_path-false path gs f (ground arith) i

any_other_path-true :
    (path : Text) (fs : List FileIo)
    → any_other_path path fs ≡ true
    → (f : FileIo) × IsIn f fs × (recorded_file_path f ≢ some path)
unfolding any_other_path
any_other_path-true path [] h = cc
any_other_path-true path (g ∷ gs) h = elim (Bool-cases (recorded_file_path g == some path)) [
  | inr other ↦ (g, inl refl, λ e. cc ((option_eq.decides (recorded_file_path g) (some path)).1 e))
  | inl same ↦ let (f, i, apart) = any_other_path-true path gs (ground arith) in (f, inr i, apart)
]

-- The snapshot that is taken has the recorded path.
path_from-path :
    (file : FileIo) (path : Text) (o : Option PathSnapshot) (own : Option Text)
    → or_else (non_empty (snapshot_path o)) (non_empty own) ≡ some path
    → (path_from file path (usable o)).path ≡ some path
path_from-path file path none own e = refl
path_from-path file path (some s) own e = go s.path refl e
  where
    go :
        (p : Option Text)
        → s.path ≡ p
        → or_else (non_empty p) (non_empty own) ≡ some path
        → (path_from file path (usable (some s))).path ≡ some path
    go none m h = rw m refl
    go (some []) m h = rw m refl
    go (some (c ∷ cs)) m h = rw m h

prefer-IsIn : (fs gs : List FileIo) (f : FileIo) → IsIn f (prefer fs gs) → IsIn f fs ⊎ IsIn f gs
prefer-IsIn [] gs f i = inr i
prefer-IsIn (h ∷ fs) gs f i = inl i

-- A file operation that was filtered has a path.
eligible-recorded :
    (node : IoNode) (identity : FileIdentity) (files : List FileIo) (start end : ℕ) (f : FileIo)
    → IsIn f (eligible_files node identity files start end)
    → is_some (recorded_file_path f) ≡ true
unfolding eligible_files is_path_candidate
eligible-recorded node identity files start end f i =
    let candidates = filter (is_path_candidate identity start end) files in
    elim (prefer-IsIn (filter (is_contemporaneous node) candidates) candidates f i) [
      | inl near ↦ candidate (filter_sound (is_contemporaneous node) candidates f near).0
      | inr far ↦ candidate far
    ]
  where
    candidate :
        IsIn f (filter (is_path_candidate identity start end) files)
        → is_some (recorded_file_path f) ≡ true
    candidate j =
        let passes = (filter_sound (is_path_candidate identity start end) files f j).1 in
        ground arith

-- What an inferred path, or none, says of the eligible file operations.
abbrev pub Inferred : List FileIo → Option PathSnapshot → Type 0
Inferred eligible (some s) =
    (path : Text) × (s.path ≡ some path)
    × (f : FileIo) × IsIn f eligible
    × ((g : FileIo) → IsIn g eligible → recorded_file_path g ≡ some path)
Inferred eligible none =
    (eligible ≡ [])
    ⊎ ((f : FileIo) × (g : FileIo) × IsIn f eligible
        × IsIn g eligible
        × (recorded_file_path f ≢ recorded_file_path g))

unanimous-Inferred :
    (eligible : List FileIo) (file : FileIo) (o : Option Text)
    → recorded_file_path file ≡ o
    → is_some o ≡ true
    → IsIn file eligible
    → Inferred eligible (unanimous eligible file o)
unfolding recorded_file_path
unanimous-Inferred eligible file none e h i = cc
unanimous-Inferred eligible file (some path) e h i =
    elim (Bool-cases (any_other_path path eligible)) [
      | inl split ↦
          let (g, j, apart) = any_other_path-true path eligible split in
          rw split (inr (g, file, j, i, λ same. apart (same ∙ e)))
      | inr agreed ↦ rw agreed (
        path,
        recorded file path e,
        file,
        i,
        λ g j. any_other_path-false path eligible g agreed j,
      )
    ]
  where
    recorded :
        (f : FileIo) (p : Text)
        → recorded_file_path f ≡ some p
        → (path_from f p (usable f.path_snapshot)).path ≡ some p
    recorded f p r = path_from-path f p f.path_snapshot f.path r

latest-Inferred :
    (eligible : List FileIo) (o : Option FileIo)
    → latest_file eligible ≡ o
    → ((f : FileIo) → IsIn f eligible → is_some (recorded_file_path f) ≡ true)
    → Inferred eligible (from_latest eligible o)
latest-Inferred eligible none e r = inl (latest_file-none eligible e)
latest-Inferred eligible (some file) e r =
    let i = latest_file-IsIn eligible file e in
    unanimous-Inferred eligible file (recorded_file_path file) refl (r file i) i

-- The path that is inferred for a node with a file is one that all eligible file operations recorded,
-- at least one; and none is inferred exactly when no operation is eligible or two of them recorded
-- different paths.
pub inferred_origin_path-Inferred :
    (node : IoNode) (identity : FileIdentity) (files : List FileIo) (block_start block_end : ℕ)
    → node.file ≡ some identity
    → Inferred
        (eligible_files node identity files block_start block_end)
        (inferred_origin_path node files block_start block_end)
unfolding inferred_origin_path
inferred_origin_path-Inferred node identity files block_start block_end e =
    let eligible = eligible_files node identity files block_start block_end in
    subst (λ o. Inferred eligible (inferred_for node o files block_start block_end)) (sym e)
      (latest-Inferred eligible (latest_file eligible) refl
        (eligible-recorded node identity files block_start block_end))
