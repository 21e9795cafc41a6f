-- ===== src/Toolchain/Leftovers.antt =====
-- The directories that are left behind PrepareAll.
use hacker_os_builder.Prelude.{
  Bool, true, false, ◌||◌, List, [], ◌∷◌, ◌++◌, if◌then◌else◌, Bytes, codes, equal, equal_refl, All,
  ◌≡◌, refl, sym, ap, ◌∙◌, ◌⊎◌, inl, inr, arith, append_assoc, Bool-cases,
}
use hacker_os_builder.Text.Search.{has_prefix, has_prefix_append}
use hacker_os_builder.Liveparse.{join_path}
use hacker_os_builder.System.{make_dirs, remove_all, Call, act, get_env, Answer}
use hacker_os_builder.System.Ends.{
  Ends, pure-Ends, ask-Ends, then-Ends, weaken-Ends, within-Ends, deferring-Ends, perform-Ends,
  each-Ends,
}
use hacker_os_builder.System.Always.{Always-Ends}
use hacker_os_builder.Toolchain.Calls.{Makes, fetch-Makes, missing_tools-Makes}
use hacker_os_builder.Toolchain.{
  Tool, build_tools, Manager, share_dir, tmp_dir, download_and_extract, fetch_tool, prepare_all,
}

-- A path that is the directory or below it.
abbrev pub inside : Bytes → Bytes → Bool
inside dir path = equal path dir || has_prefix path (dir ++ b'/' ∷ [])

unfoldable pub outside : Bytes → List Bytes → List Bytes
outside dir [] = []
outside dir (path ∷ paths) =
    let rest = outside dir paths in if inside dir path then rest else path ∷ rest

-- The paths that os.MkdirAll is asked for and succeeds with, without those that are inside one that
-- os.RemoveAll is called for afterwards, whatever it answers. The parents that os.MkdirAll makes on
-- its way, and what commands make, are not counted.
abbrev pub unremoved_dirs : List Bytes → (c : Call) → Answer c → List Bytes
unremoved_dirs s (act (make_dirs path mode)) ok = if ok then path ∷ s else s
unremoved_dirs s (act (remove_all path)) ok = outside path s
unremoved_dirs s _ answer = s

-- The two directories that stay.
abbrev pub IsKept : Manager → Bytes → Type 0
IsKept m path = (path ≡ m.bin_dir) ⊎ (path ≡ share_dir m)

abbrev IsKeptOr : Manager → Bytes → Bytes → Type 0
IsKeptOr m dir path = IsKept m path ⊎ (inside dir path ≡ true)

Makes-keeps :
    (Q : Bytes → Type 0) (s : List Bytes) (c : Call) (a : Answer c)
    → Makes Q (λ dir. ⊥) c
    → All Q s
    → All Q (unremoved_dirs s c a)
Makes-keeps Q s (act (make_dirs path mode)) true p h = (p, h)
Makes-keeps Q s (act (make_dirs path mode)) false p h = h
Makes-keeps Q s (act (remove_all path)) ok p h = absurd p
Makes-keeps Q s _ a p h = h

outside-IsKept :
    (m : Manager) (dir : Bytes) (s : List Bytes)
    → All (IsKeptOr m dir) s
    → All (IsKept m) (outside dir s)
unfolding outside
outside-IsKept m dir [] h = tt
outside-IsKept m dir (path ∷ s) (inr below, h) = rw below (outside-IsKept m dir s h)
outside-IsKept m dir (path ∷ s) (inl kept, h) = elim (Bool-cases (inside dir path)) [
  | inl below ↦ rw below (outside-IsKept m dir s h)
  | inr other ↦ rw other (kept, outside-IsKept m dir s h)
]

kept_or : (m : Manager) (dir : Bytes) (s : List Bytes) → All (IsKept m) s → All (IsKeptOr m dir) s
kept_or m dir [] h = tt
kept_or m dir (path ∷ s) h = (inl h.0, kept_or m dir s h.1)

inside_refl : (dir : Bytes) → inside dir dir ≡ true
inside_refl dir = rw (equal_refl dir) refl

inside_join : (dir name : Bytes) → inside dir (join_path dir name) ≡ true
inside_join dir name =
    let below : has_prefix (dir ++ b'/' ∷ name) (dir ++ b'/' ∷ []) ≡ true =
      ap (λ path. has_prefix path (dir ++ b'/' ∷ [])) (sym (append_assoc dir (b'/' ∷ []) name))
      ∙ has_prefix_append (dir ++ b'/' ∷ []) name in
    ground (arith, below)

-- A tool that is fetched leaves nothing of its own, whether it succeeds or fails.
download_and_extract-Ends :
    (m : Manager) (t : Tool) (s : List Bytes)
    → All (IsKept m) s
    → Ends unremoved_dirs (download_and_extract m t) (λ u. All (IsKept m)) (All (IsKept m)) s
unfolding download_and_extract
download_and_extract-Ends m t s h =
    let tmp = tmp_dir m t.binary in
    then-Ends unremoved_dirs _ _ (λ u. All (IsKeptOr m tmp)) _ _ s
      (within-Ends unremoved_dirs _ _ _ _ s (
        perform-Ends unremoved_dirs (make_dirs tmp 0o755) _ _ s
          (inr (inside_refl tmp), kept_or m tmp s h) h))
      λ u w k. deferring-Ends unremoved_dirs _ _ _ _ w (
        weaken-Ends unremoved_dirs _ (λ v. All (IsKeptOr m tmp)) _ (All (IsKeptOr m tmp)) _ w
          (λ v x i ok. outside-IsKept m tmp x i) (λ x i ok. outside-IsKept m tmp x i)
          (Always-Ends (Makes (IsKeptOr m tmp) (λ dir. ⊥)) unremoved_dirs _ (All (IsKeptOr m tmp)) w
            (Makes-keeps (IsKeptOr m tmp))
            (fetch-Makes m _ _ t tmp (inl (inr refl)) (inr (inside_join tmp (codes "extracted"))))
            k))

-- Whatever the host has and its commands do, and whether PrepareAll succeeds or fails: every
-- directory that it asks os.MkdirAll for with success, other than toolchain-bin and
-- toolchain-share/debootstrap, is one that it calls os.RemoveAll for afterwards, or below one. The
-- parents that os.MkdirAll makes on its way, and what commands make, are not counted.
pub prepare_all-left :
    (m : Manager) → Ends unremoved_dirs (prepare_all m) (λ m'. All (IsKept m)) (All (IsKept m)) []
unfolding prepare_all
prepare_all-left m =
    then-Ends unremoved_dirs _ _ (λ u. All (IsKept m)) _ _ []
      (within-Ends unremoved_dirs _ _ _ _ []
        (perform-Ends unremoved_dirs (make_dirs m.bin_dir 0o755) _ _ [] (inl refl, tt) tt))
      λ u s h.
        then-Ends unremoved_dirs _ _ (λ path. All (IsKept m)) _ _ s
          (ask-Ends unremoved_dirs (get_env (codes "PATH")) _ _ _ s
            λ path. pure-Ends unremoved_dirs path _ _ s h)
          λ path s h.
            then-Ends unremoved_dirs _ _ (λ missing. All (IsKept m)) _ _ s
              (Always-Ends (Makes (IsKept m) (λ dir. ⊥)) unremoved_dirs _ (All (IsKept m)) s
                (Makes-keeps (IsKept m)) (missing_tools-Makes m _ _ build_tools) h)
              λ missing s h.
                then-Ends unremoved_dirs _ _ (λ u. All (IsKept m)) _ _ s
                  (each-Ends unremoved_dirs (fetch_tool m) missing _ _ s
                    (λ t x i.
                      within-Ends unremoved_dirs _ _ _ _ x (download_and_extract-Ends m t x i))
                    h)
                  λ u s h. pure-Ends unremoved_dirs _ _ _ s h
