-- ===== src/Toolchain/Ready.antt =====
-- What the tools are behind PrepareAll.
use hacker_os_builder.Prelude.{
  Bool, true, false, ◌||◌, List, [], ◌∷◌, if◌then◌else◌, Bytes, equal, equal_refl, equal_iff, mem,
  All, All-map, map, ◌≡◌, refl, subst, ◌⊎◌, inl, inr, arith, Bool-cases,
}
use hacker_os_builder.Liveparse.{join_path}
use hacker_os_builder.System.{stat, look_path, Call, act, Answer, Io, each}
use hacker_os_builder.System.Ends.{
  Ends, pure-Ends, ask-Ends, then-Ends, weaken-Ends, both-Ends, last-Ends, keeps-Ends, within-Ends,
  deferring-Ends, perform-Ends,
}
use hacker_os_builder.Toolchain.{
  Tool, build_tools, Manager, tool_available, look_further, missing_tools, unpack, fetch_into,
  download_and_extract, fetch_tool, prepare_all,
}

-- The paths that os.Stat has found, and the names that exec.LookPath has found.
abbrev pub seen : List Bytes → (c : Call) → Answer c → List Bytes
seen s (act (stat path)) ok = if ok then path ∷ s else s
seen s (act (look_path name)) ok = if ok then name ∷ s else s
seen s _ answer = s

mem_cons_if :
    (k p : Bytes) (ok : Bool) (s : List Bytes)
    → mem k s ≡ true
    → mem k (if ok then p ∷ s else s) ≡ true
unfolding mem
mem_cons_if k p ok s h = ground arith

seen_grows :
    (k : Bytes) (s : List Bytes) (c : Call) (a : Answer c)
    → mem k s ≡ true
    → mem k (seen s c a) ≡ true
seen_grows k s (act (stat path)) ok h = mem_cons_if k path ok s h
seen_grows k s (act (look_path name)) ok h = mem_cons_if k name ok s h
seen_grows k s _ a h = h

-- A tool was found in toolchain-bin, or by its name in the PATH.
abbrev pub IsReady : Manager → Bytes → List Bytes → Type 0
IsReady m binary s = (mem (join_path m.bin_dir binary) s || mem binary s) ≡ true

IsReady-grows :
    (m : Manager) (binary : Bytes) (s : List Bytes) (c : Call) (a : Answer c)
    → IsReady m binary s
    → IsReady m binary (seen s c a)
IsReady-grows m binary s c a h =
    ground (arith, seen_grows (join_path m.bin_dir binary) s c a, seen_grows binary s c a)

IsReady-stays :
    (m : Manager) {V : Type 0} (o : Io V) (binary : Bytes) (s : List Bytes)
    → IsReady m binary s
    → Ends seen o (λ v. IsReady m binary) (IsReady m binary) s
IsReady-stays m o binary s h = keeps-Ends seen o (IsReady m binary) s (IsReady-grows m binary) h

-- Ready, or in the list of those that are missing.
abbrev Sorted : Manager → List Tool → List Bytes → Tool → Type 0
Sorted m missing s t = IsReady m t.binary s ⊎ (mem t.binary (map (λ x. x.binary) missing) ≡ true)

mem_head : (k : Bytes) (s : List Bytes) → mem k (k ∷ s) ≡ true
unfolding mem
mem_head k s = rw (equal_refl k) refl

found_path :
    (m : Manager) (binary : Bytes) (s : List Bytes)
    → IsReady m binary (join_path m.bin_dir binary ∷ s)
found_path m binary s = rw (mem_head (join_path m.bin_dir binary) s) refl

found_name : (m : Manager) (binary : Bytes) (s : List Bytes) → IsReady m binary (binary ∷ s)
found_name m binary s = ground (arith, mem_head binary s)

look_further-Ends :
    (m : Manager) (binary : Bytes) (s : List Bytes) (there : Bool)
    → Ends seen
        (look_further binary there)
        (λ named t. named ≡ true → IsReady m binary t)
        (λ t. Unit {0})
        (if there then join_path m.bin_dir binary ∷ s else s)
look_further-Ends m binary s true = pure-Ends seen true _ _ _ λ e. found_path m binary s
look_further-Ends m binary s false =
    ask-Ends seen _ _ _ _ s λ named. pure-Ends seen named _ _ _ λ e. rw e (found_name m binary s)

tool_available-Ends :
    (m : Manager) (binary : Bytes) (s : List Bytes)
    → Ends seen
        (tool_available m binary)
        (λ there t. there ≡ true → IsReady m binary t)
        (λ t. Unit {0})
        s
unfolding tool_available
tool_available-Ends m binary s = ask-Ends seen _ _ _ _ s (look_further-Ends m binary s)

mem_cons : (k j : Bytes) (s : List Bytes) → mem k s ≡ true → mem k (j ∷ s) ≡ true
unfolding mem
mem_cons k j s h = ground arith

Sorted-longer :
    (m : Manager) (x : Tool) (missing : List Tool) (s : List Bytes) (t : Tool)
    → Sorted m missing s t
    → Sorted m (x ∷ missing) s t
Sorted-longer m x missing s t (inl h) = inl h
Sorted-longer m x missing s t (inr h) =
    inr (mem_cons t.binary x.binary (map (λ y. y.binary) missing) h)

sort_tool :
    (m : Manager) (x : Tool) (tools missing : List Tool) (there : Bool) (s : List Bytes)
    → (there ≡ true → IsReady m x.binary s)
    → All (Sorted m missing s) tools
    → All (Sorted m (if there then missing else x ∷ missing) s) (x ∷ tools)
sort_tool m x tools missing true s h k = (inl (h refl), k)
sort_tool m x tools missing false s h k = (
  inr (mem_head x.binary (map (λ y. y.binary) missing)),
  All-map (Sorted m missing s) (Sorted m (x ∷ missing) s) (Sorted-longer m x missing s) tools k,
)

missing_tools-Ends :
    (m : Manager) (tools : List Tool) (s : List Bytes)
    → Ends seen
        (missing_tools m tools)
        (λ missing t. All (Sorted m missing t) tools)
        (λ t. Unit {0})
        s
unfolding missing_tools
missing_tools-Ends m [] s = pure-Ends seen [] _ _ s tt
missing_tools-Ends m (x ∷ tools) s =
    then-Ends seen (tool_available m x.binary) _ _ _ _ s (tool_available-Ends m x.binary s)
      λ there t h.
        then-Ends seen (missing_tools m tools) _ _ _ _ t
          (weaken-Ends seen (missing_tools m tools) _ _ _ _ t (λ v u k. k) (λ u k. tt)
            (both-Ends seen (missing_tools m tools) _ (λ v u. there ≡ true → IsReady m x.binary u) _
              _ t (missing_tools-Ends m tools t)
              (keeps-Ends seen (missing_tools m tools) (λ u. there ≡ true → IsReady m x.binary u) t
                (λ u c a i e. IsReady-grows m x.binary u c a (i e)) h)))
          λ missing u k. pure-Ends seen _ _ _ u (sort_tool m x tools missing there u k.1 k.0)

unpack-Ends :
    (m : Manager) (x : Tool) (tmp : Bytes) (debs : List Bytes) (s : List Bytes)
    → Ends seen (unpack m x tmp debs) (λ u. IsReady m x.binary) (λ t. Unit {0}) s
unfolding unpack
unpack-Ends m x tmp debs s = last-Ends seen _ _ _ s λ u t. last-Ends seen _ _ _ t λ u t.
    last-Ends seen _ _ _ t λ u t. last-Ends seen _ _ _ t λ u t. last-Ends seen _ _ _ t λ u t.
      within-Ends seen _ _ _ _ t
        (perform-Ends seen (stat (join_path m.bin_dir x.binary)) _ _ t (found_path m x.binary t) tt)

download_and_extract-Ends :
    (m : Manager) (x : Tool) (s : List Bytes)
    → Ends seen (download_and_extract m x) (λ u. IsReady m x.binary) (λ t. Unit {0}) s
unfolding download_and_extract fetch_into
download_and_extract-Ends m x s = last-Ends seen _ _ _ s λ u t. deferring-Ends seen _ _ _ _ t (
    weaken-Ends seen _ (λ v. IsReady m x.binary) _ (λ t. Unit {0}) _ t (λ v w h ok. h)
      (λ w h ok. tt)
      (last-Ends seen _ _ _ t λ u t. last-Ends seen _ _ _ t λ debs t. unpack-Ends m x _ debs t))

each-IsReady :
    (m : Manager) (tools : List Tool) (s : List Bytes)
    → Ends seen
        (each (fetch_tool m) tools)
        (λ u t. All (λ x. IsReady m x.binary t) tools)
        (λ t. Unit {0})
        s
unfolding each
each-IsReady m [] s = pure-Ends seen tt _ _ s tt
each-IsReady m (x ∷ tools) s =
    then-Ends seen (fetch_tool m x) _ (λ u. IsReady m x.binary) _ _ s
      (within-Ends seen _ _ _ _ s (download_and_extract-Ends m x s))
      λ u t h.
        weaken-Ends seen (each (fetch_tool m) tools) _ _ _ _ t (λ u w k. (k.1, k.0)) (λ w k. tt)
          (both-Ends seen (each (fetch_tool m) tools) _ _ _ _ t (each-IsReady m tools t)
            (IsReady-stays m (each (fetch_tool m) tools) x.binary t h))

-- A missing tool is ready where all of them are.
IsReady-of_mem :
    (m : Manager) (binary : Bytes) (missing : List Tool) (s : List Bytes)
    → All (λ x. IsReady m x.binary s) missing
    → mem binary (map (λ x. x.binary) missing) ≡ true
    → IsReady m binary s
unfolding mem
IsReady-of_mem m binary [] s h e = cc
IsReady-of_mem m binary (x ∷ missing) s h e = elim (Bool-cases (equal x.binary binary)) [
  | inl same ↦ subst (λ b. IsReady m b s) ((equal_iff x.binary binary).0 same) h.0
  | inr other ↦ IsReady-of_mem m binary missing s h.1 (rw other at e)
]

IsReady-of_Sorted :
    (m : Manager) (missing : List Tool) (s : List Bytes)
    → All (λ x. IsReady m x.binary s) missing
    → (t : Tool) → Sorted m missing s t
    → IsReady m t.binary s
IsReady-of_Sorted m missing s h t (inl k) = k
IsReady-of_Sorted m missing s h t (inr k) = IsReady-of_mem m t.binary missing s h k

Sorted-grows :
    (m : Manager) (missing : List Tool) (s : List Bytes) (c : Call) (a : Answer c) (t : Tool)
    → Sorted m missing s t
    → Sorted m missing (seen s c a) t
Sorted-grows m missing s c a t (inl h) = inl (IsReady-grows m t.binary s c a h)
Sorted-grows m missing s c a t (inr h) = inr h

-- Where PrepareAll succeeds, whatever the host has and its commands do, each of the four tools of a
-- build was found at its name in toolchain-bin or, by exec.LookPath, in the PATH.
pub prepare_all-Ends :
    (m : Manager)
    → Ends seen
        (prepare_all m)
        (λ m' t. All (λ x. IsReady m x.binary t) build_tools)
        (λ t. Unit {0})
        []
unfolding prepare_all
prepare_all-Ends m = last-Ends seen _ _ _ [] λ u s. last-Ends seen _ _ _ s λ path s.
    then-Ends seen (missing_tools m build_tools) _ _ _ _ s (missing_tools-Ends m build_tools s)
      λ missing t sorted.
        then-Ends seen (each (fetch_tool m) missing) _ _ _ _ t
          (weaken-Ends seen (each (fetch_tool m) missing) _ _ _ _ t (λ u w k. k) (λ w k. tt)
            (both-Ends seen (each (fetch_tool m) missing) _ _ _ _ t (each-IsReady m missing t) (
              keeps-Ends seen (each (fetch_tool m) missing)
                (λ w. All (Sorted m missing w) build_tools) t
                (λ w c a. All-map _ _ (Sorted-grows m missing w c a) build_tools) sorted)))
          λ u w k.
            pure-Ends seen _ _ _ w (All-map _ _ (IsReady-of_Sorted m missing w k.0) build_tools k.1)
