-- ===== src/Hk/Insert/Lookup.antt =====
-- Insertion under a dotted key, and Get by a dotted path.
use mathlib.Core.Path.{subst}
use hacker_os_builder.Prelude.{
  ℕ, ◌<◌, some, List, [], ◌∷◌, Bytes, All, ◌≡◌, ◌≢◌, ◌∙◌, ap, sym, arith,
}
use hacker_os_builder.Text.Pieces.{join}
use hacker_os_builder.Hk.Errors.{ok}
use hacker_os_builder.Hk.OrderedMap.{get}
use hacker_os_builder.Hk.Path.Laws.{IsSegment, split_path-join}
use hacker_os_builder.Hk.Value.{HkValue, map}
use hacker_os_builder.Hk.Store.{Store, HkConfig}
use hacker_os_builder.Hk.Store.WellFormed.{IsWellFormed}
use hacker_os_builder.Hk.Config.{get_loop, get_segments, get_path}
use hacker_os_builder.Hk.Insert.{insert_at, insert_with_dot_expansion}
use hacker_os_builder.Hk.Insert.Leaf.{IsNew, IsPlainSegment, Inserted, rank_ne, set_at-Inserted}
use hacker_os_builder.Hk.Insert.Laws.{put_leaf-ok, insert_segments-Inserted}

module _ (s : Store) (rank : ℕ → ℕ) (target : ℕ) (value : HkValue) (wf : IsWellFormed s rank)
    (lt : target < s.next) (new : IsNew s rank value target) (s' : Store) where
  insert_at-Inserted :
      (p : Bytes) (ps : List Bytes)
      → insert_at s target (join (b'.' ∷ []) (p ∷ ps)) value (p ∷ ps) ≡ ok s'
      → Inserted s rank target s' value (p ∷ ps)
  unfolding insert_at join
  insert_at-Inserted p [] h =
      subst (λ t. Inserted s rank target t value (p ∷ [])) (put_leaf-ok s target p p value s' h)
        (set_at-Inserted s rank target p value wf lt new)
  insert_at-Inserted p (q ∷ ps) h =
      insert_segments-Inserted (q ∷ ps) s rank target [] (join (b'.' ∷ []) (p ∷ q ∷ ps)) value p wf
        lt new s' h

  insert-Inserted :
      (p : Bytes) (ps : List Bytes)
      → p ≢ []
      → All IsSegment (p ∷ ps)
      → insert_with_dot_expansion s target (join (b'.' ∷ []) (p ∷ ps)) value ≡ ok s'
      → Inserted s rank target s' value (p ∷ ps)
  unfolding insert_with_dot_expansion
  insert-Inserted p ps ne plain h = insert_at-Inserted p ps (
      sym
        (ap (insert_at s target (join (b'.' ∷ []) (p ∷ ps)) value) (split_path-join p ps ne plain))
      ∙ h)

get_segments-map :
    (c : HkConfig) (path name : Bytes) (segs : List Bytes) (m : ℕ)
    → get (c.store.cell c.sections) name ≡ some (map m)
    → get_segments c path (name ∷ segs) ≡ get_loop c.store path (map m) segs
unfolding get_segments
get_segments-map c path name segs m h = rw (h, get_segments)

-- Behind a successful insertion under the key "p.q.r" into the map of a section, Get of
-- "section.p.q.r" returns the value. The names are ASCII with no dot, quotation mark or '['.
pub get_path-insert :
    (c : HkConfig) (rank : ℕ → ℕ) (name p : Bytes) (ps : List Bytes) (target : ℕ) (value : HkValue)
    (s' : Store)
    → IsWellFormed c.store rank
    → c.sections < c.store.next
    → get (c.store.cell c.sections) name ≡ some (map target)
    → IsNew c.store rank value target
    → name ≢ []
    → p ≢ []
    → All IsSegment (name ∷ p ∷ ps)
    → All IsPlainSegment (p ∷ ps)
    → insert_with_dot_expansion c.store target (join (b'.' ∷ []) (p ∷ ps)) value ≡ ok s'
    → get_path (record { store = s'; sections = c.sections }) (join (b'.' ∷ []) (name ∷ p ∷ ps))
      ≡ ok value
unfolding get_path
get_path-insert c rank name p ps target value s' wf root there new ne ne' segs plain h =
    let up = wf.upward c.sections name target there in
    let i =
      insert-Inserted c.store rank target value wf (wf.in_use c.sections name target there) new s' p
        ps ne' segs.1 h in
    let after : HkConfig = record { store = s'; sections = c.sections } in
    let path = join (b'.' ∷ []) (name ∷ p ∷ ps) in
    let kept = i.frame c.sections root (rank_ne rank c.sections target up) (omega arith) in
    ap (get_segments after path) (split_path-join name (p ∷ ps) ne segs)
    ∙ get_segments-map after path name (p ∷ ps) target (ap (λ m. get m name) kept ∙ there)
    ∙ i.found path plain
