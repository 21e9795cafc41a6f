-- ===== src/Rootfs/Cleanup.antt =====
-- The files that are put into a rootfs for the time of its hooks.
use hacker_os_builder.Prelude.{
  List, [], ◌∷◌, if◌then◌else◌, Bytes, equal, equal_iff, All, ◌≡◌, refl, ◌⊎◌, inl, inr, Bool-cases,
  ℕ,
}
use hacker_os_builder.Liveparse.{HookScript}
use hacker_os_builder.System.{create_file, remove, Call, act, Answer}
use hacker_os_builder.System.Ends.{
  Ends, then-Ends, weaken-Ends, within-Ends, deferring-Ends, each-Ends,
}
use hacker_os_builder.System.Always.{
  Always, bind-Always, perform-Always, within-Always, each-Always, Always-Ends, deferring-Always,
}
use hacker_os_builder.Sandbox.{unshare, exec_internal, exec_in}
use hacker_os_builder.Rootfs.Files.{copy_file}
use hacker_os_builder.Rootfs.{Builder, stub_path, hook_path, run_hook, run_hooks}

unfoldable pub without : Bytes → List Bytes → List Bytes
without path [] = []
without path (p ∷ ps) = let rest = without path ps in if equal p path then rest else p ∷ rest

-- The files that are created and that os.Remove is not called for afterwards, whatever it answers.
abbrev pub not_removed : List Bytes → (c : Call) → Answer c → List Bytes
not_removed s (act (create_file path mode)) ok = path ∷ s
not_removed s (act (remove path)) ok = without path s
not_removed s _ answer = s

-- A call that creates no file but those of `Q`, and removes none.
abbrev Creates : (Bytes → Type 0) → Call → Type 0
Creates Q (act (create_file path mode)) = Q path
Creates Q (act (remove path)) = ⊥
Creates Q _ = Unit

Creates-keeps :
    (Q : Bytes → Type 0) (s : List Bytes) (c : Call) (a : Answer c)
    → Creates Q c
    → All Q s
    → All Q (not_removed s c a)
Creates-keeps Q s (act (create_file path mode)) ok p h = (p, h)
Creates-keeps Q s (act (remove path)) ok p h = absurd p
Creates-keeps Q s _ a p h = h

abbrev Either : Bytes → Bytes → Bytes → Type 0
Either stub hook path = (path ≡ stub) ⊎ (path ≡ hook)

without_hook :
    (stub hook : Bytes) (s : List Bytes)
    → All (Either stub hook) s
    → All (λ path. path ≡ stub) (without hook s)
unfolding without
without_hook stub hook [] h = tt
without_hook stub hook (p ∷ s) (inr e, h) = rw ((equal_iff p hook).1 e) (without_hook stub hook s h)
without_hook stub hook (p ∷ s) (inl e, h) = elim (Bool-cases (equal p hook)) [
  | inl same ↦ rw same (without_hook stub hook s h)
  | inr other ↦ rw other (e, without_hook stub hook s h)
]

only_stub :
    (stub hook : Bytes) (s : List Bytes) → All (λ path. path ≡ stub) s → All (Either stub hook) s
only_stub stub hook [] h = tt
only_stub stub hook (p ∷ s) h = (inl h.0, only_stub stub hook s h.1)

without_self : (path : Bytes) (s : List Bytes) → All (λ p. p ≡ path) s → without path s ≡ []
unfolding without
without_self path [] h = refl
without_self path (p ∷ s) (e, h) = rw ((equal_iff p path).1 e) (without_self path s h)

swap-Either :
    (stub hook : Bytes) (s : List Bytes) → All (Either stub hook) s → All (Either hook stub) s
swap-Either stub hook [] h = tt
swap-Either stub hook (p ∷ s) (inl e, h) = (inr e, swap-Either stub hook s h)
swap-Either stub hook (p ∷ s) (inr e, h) = (inl e, swap-Either stub hook s h)

copy_file-Creates :
    (Q : Bytes → Type 0) (src dst : Bytes) (mode : ℕ)
    → Q dst
    → Always (Creates Q) (copy_file src dst mode)
unfolding copy_file
copy_file-Creates Q src dst mode q = bind-Always _ _ _ (perform-Always _ _ tt) λ u.
    bind-Always _ _ _ (perform-Always _ _ tt) λ u. deferring-Always _ _ _ tt (
      bind-Always _ _ _ (perform-Always _ _ q) λ u.
        deferring-Always _ _ _ tt
          (bind-Always _ _ _ (perform-Always _ _ tt) λ u. perform-Always _ _ tt))

exec_in-Creates :
    (Q : Bytes → Type 0) (root command : Bytes) (args : List Bytes)
    → Always (Creates Q) (exec_in root command args)
unfolding exec_in exec_internal unshare
exec_in-Creates Q root command args =
    bind-Always _ _ _ (each-Always _ _ _ λ sub. within-Always _ _ _ (perform-Always _ _ tt))
      λ u. within-Always _ _ _ (perform-Always _ _ tt)

module _ (b : Builder) where
  -- Nothing but the stub and the copy of one hook.
  abbrev StubOrHook : List Bytes → Type 0
  StubOrHook t = (h : HookScript) × All (Either (stub_path b) (hook_path b h)) t

  run_hook-Ends :
      (h : HookScript) (s : List Bytes)
      → All (λ path. path ≡ stub_path b) s
      → Ends not_removed (run_hook b h) (λ u. All (λ path. path ≡ stub_path b)) StubOrHook s
  unfolding run_hook
  run_hook-Ends h s i =
      let copy = hook_path b h in
      let Q : Bytes → Type 0 = Either (stub_path b) copy in
      then-Ends not_removed _ _ (λ u. All Q) _ _ s
        (within-Ends not_removed _ _ _ _ s (
          weaken-Ends not_removed _ (λ u. All Q) _ (All Q) _ s (λ u t k. k) (λ t k. (h, k))
            (Always-Ends (Creates Q) not_removed _ (All Q) s (Creates-keeps Q)
              (copy_file-Creates Q h.path copy 0o755 (inr refl))
              (only_stub (stub_path b) copy s i))))
        λ u t k. deferring-Ends not_removed _ _ _ _ t (
          weaken-Ends not_removed _ (λ u. All Q) _ (All Q) _ t
            (λ u w j ok. without_hook (stub_path b) copy w j)
            (λ w j ok. (h, only_stub (stub_path b) copy _ (without_hook (stub_path b) copy w j)))
            (Always-Ends (Creates Q) not_removed _ (All Q) t (Creates-keeps Q)
              (within-Always _ _ _ (exec_in-Creates Q b.rootfs_dir _ [])) k))

  -- The hooks are run with the stub of sudo in place. Whatever the system answers: where they all
  -- succeed, os.Remove has been called for the stub and for every file that was created for a hook,
  -- after it was created; where one fails, it has been called for the stub too, and for every file
  -- that was created but the copies of one hook. Where os.Remove itself fails, the file stays.
  pub run_hooks-Ends :
      Ends not_removed
        (run_hooks b)
        (λ u t. t ≡ [])
        (λ t. (h : HookScript) × All (λ path. path ≡ hook_path b h) t)
        (stub_path b ∷ [])
  unfolding run_hooks
  run_hooks-Ends = deferring-Ends not_removed _ _ _ _ _ (
      weaken-Ends not_removed _ (λ u. All (λ path. path ≡ stub_path b)) _ StubOrHook _ _
        (λ u t k ok. without_self (stub_path b) t k)
        (λ t k ok. (k.0, without_hook (hook_path b k.0) (stub_path b) t (swap-Either _ _ t k.1)))
        (each-Ends not_removed (run_hook b) b.project.hooks _ _ _ run_hook-Ends (refl, tt)))
