-- ===== src/Download/Checked.antt =====
-- The checksum of what internal/download/debostree.go stores.
use hacker_os_builder.Prelude.{
  Bool, true, false, not, none, some, if◌then◌else◌, Bytes, ◌≡◌, ◌≢◌, refl, Bool-cases,
  Option-cases, inl, inr, ◌∙◌, ap, sym,
}
use mathlib.Core.Path.{subst}
use hacker_os_builder.Download.{
  release_asset_name, checksums_asset_name, release_asset_url, parse_checksums_file, Network,
  Verdict, no_checksums, no_entry, matching, mismatch, equal_fold, compare_hash, verify_checksum,
  Download, written, not_fetched, not_made, not_written, not_executable, store_file, stored,
  download_deb_ostree,
}

stored_match :
    (hex hash path text : Bytes) (d : Download)
    → stored (compare_hash hex (some hash)) d ≡ written path text
    → equal_fold hex hash ≡ true
unfolding compare_hash
stored_match hex hash path text d h = elim (Bool-cases (equal_fold hex hash)) [
  | inl same ↦ same
  | inr other ↦ cc (rw other at h)
]

stored_written :
    (v : Verdict) (d : Download) (path text : Bytes)
    → stored v d ≡ written path text
    → d ≡ written path text
stored_written no_checksums d path text h = h
stored_written no_entry d path text h = h
stored_written matching d path text h = h
stored_written (mismatch e a) d path text h = cc

store_choice :
    (made wrote marked : Bool) (dest content path text : Bytes)
    → (if not made
        then not_made
        else if not wrote
        then not_written
        else if not marked
        then not_executable
        else written dest content)
      ≡ written path text
    → (dest ≡ path) × (content ≡ text)
store_choice false wrote marked dest content path text h = (cc, cc)
store_choice true false marked dest content path text h = (cc, cc)
store_choice true true false dest content path text h = (cc, cc)
store_choice true true true dest content path text h = (cc, cc)

store_content :
    (net : Network) (dir dest content path text : Bytes)
    → store_file net dir dest content ≡ written path text
    → (dest ≡ path) × (content ≡ text)
unfolding store_file
store_content net dir dest content path text h =
    store_choice (net.can_make_dir dir) (net.can_write dest) (net.can_chmod dest) dest content path
      text h

download_missing :
    (net : Network) (version dir dest : Bytes)
    → net.fetch (release_asset_url version release_asset_name) ≡ none
    → download_deb_ostree net version dir dest ≡ not_fetched
unfolding download_deb_ostree
download_missing net version dir dest h = rw (h, download_deb_ostree) refl

download_fetched :
    (net : Network) (version dir dest content : Bytes)
    → net.fetch (release_asset_url version release_asset_name) ≡ some content
    → download_deb_ostree net version dir dest
      ≡ stored (verify_checksum net version content) (store_file net dir dest content)
unfolding download_deb_ostree
download_fetched net version dir dest content h = rw (h, download_deb_ostree) refl

verify_checksum_entry :
    (net : Network) (version content sums hash : Bytes)
    → net.fetch (release_asset_url version checksums_asset_name) ≡ some sums
    → parse_checksums_file sums release_asset_name ≡ some hash
    → verify_checksum net version content ≡ compare_hash (net.sha256_hex content) (some hash)
unfolding verify_checksum
verify_checksum_entry net version content sums hash h k = rw (h, verify_checksum) (rw k refl)

not_fetched-written : (path text : Bytes) → not_fetched ≢ written path text
not_fetched-written path text e = cc

-- The content that was fetched is the one that is stored, at the path that was asked for.
download_content :
    (net : Network) (version dir dest path text : Bytes)
    → download_deb_ostree net version dir dest ≡ written path text
    → (dest ≡ path)
      × (net.fetch (release_asset_url version release_asset_name) ≡ some text)
      × (stored (verify_checksum net version text) (store_file net dir dest text)
          ≡ written path text)
download_content net version dir dest path text h =
    elim (Option-cases (net.fetch (release_asset_url version release_asset_name))) [
      | inl missing ↦
          absurd (
            not_fetched-written path text (sym (download_missing net version dir dest missing) ∙ h))
      | inr (content, fetched) ↦
          let kept = sym (download_fetched net version dir dest content fetched) ∙ h in
          let (at, same) = store_content net dir dest content path text (
            stored_written (verify_checksum net version content) (store_file net dir dest content)
              path text kept) in
          (
            at,
            fetched ∙ ap some same,
            subst
                (λ t.
                  stored (verify_checksum net version t) (store_file net dir dest t)
                  ≡ written path text)
                same kept,
          )
    ]

-- Where DownloadDebOstree stores a file, and the file of checksums can be fetched and has an entry
-- for the asset, what is stored is the asset of the version, at the path that was asked for, and
-- its SHA-256 is that entry, up to the case of letters.
pub download_deb_ostree-written :
    (net : Network) (version dir dest path text sums hash : Bytes)
    → download_deb_ostree net version dir dest ≡ written path text
    → net.fetch (release_asset_url version checksums_asset_name) ≡ some sums
    → parse_checksums_file sums release_asset_name ≡ some hash
    → (dest ≡ path)
      × (net.fetch (release_asset_url version release_asset_name) ≡ some text)
      × (equal_fold (net.sha256_hex text) hash ≡ true)
download_deb_ostree-written net version dir dest path text sums hash h published entry =
    let (at, fetched, kept) = download_content net version dir dest path text h in
    (
      at,
      fetched,
      stored_match (net.sha256_hex text) hash path text (store_file net dir dest text) (
          ap (λ v. stored v (store_file net dir dest text))
            (sym (verify_checksum_entry net version text sums hash published entry))
          ∙ kept),
    )
