-- ===== src/Files/Orphans.antt =====
-- `reconcileOrphans` and `openDownload` of apps/server/src/modules/files/index.ts. The file system and
-- what other requests do meanwhile are parameters.
use j_messenger.Common.{
  ℕ, suc, ◌-◌, Bool, not, ◌&&◌, ◌||◌, List, [], ◌∷◌, none, String, ltb, leb, same, if◌then◌else◌,
  take, select, update,
}
use j_messenger.Common.Results.{
  Result, ok, err, bad_request, not_found, internal, throw_if, or_throw, ◌>>=◌, ◌>>◌,
}
use j_messenger.Common.Sorting.{sort}
use j_messenger.Store.{Store, Context, FileRow, deleted}
use j_messenger.Conversations.{require_member}
use j_messenger.Files.{is_attached, lookup}
use j_messenger.Files.Upload.{valid_key, is_uploading, in_upload, FileDto, file_dto}

-- WHERE state='uploading' AND created_at<?
abbrev pub is_stale : ℕ → FileRow → Bool
is_stale before r = is_uploading r.state && ltb r.created_at before

abbrev pub older : FileRow → FileRow → Bool
older r q = leb r.created_at q.created_at

-- UPDATE files SET state='deleted',… WHERE id=? AND state='uploading'
unfoldable pub drop_upload : String → Store → Store
drop_upload id s = record s {
  files =
      update (in_upload id)
        (λ r. record r {
          state = deleted;
          filename = none;
          mime_type = "application/octet-stream";
          size_bytes = 0;
        })
        s.files;
}

-- The loop of `reconcileOrphans`: which objects can be removed, and what others do before each update
unfoldable pub reconcile_each :
    (String → Bool) → (String → Store → Store) → List FileRow → Store → Result ℕ × Store
reconcile_each removable meanwhile [] s = (ok 0, s)
reconcile_each removable meanwhile (r ∷ rs) s =
    let (rest, s') = reconcile_each removable meanwhile rs (drop_upload r.id (meanwhile r.id s)) in
    if valid_key r.object_key && removable r.object_key
    then (do n ← rest; ok (suc n), s')
    else (err internal, s)

-- `reconcileOrphans`
unfoldable pub reconcile_orphans :
    (String → Bool) → (String → Store → Store) → ℕ → ℕ → Store → Result ℕ × Store
reconcile_orphans removable meanwhile limit now s =
    if ltb limit 1 || ltb 1000 limit
    then (err bad_request, s)
    else reconcile_each removable meanwhile
        (take limit (sort older (select (is_stale (now - 3600000)) s.files))) s

-- `openDownload`, until it returns the stream; the file is looked up before the access is checked.
unfoldable pub open_download : Context → String → ℕ → Store → Store → Result FileDto
open_download c id now seen s = do
  r ← or_throw (lookup id seen) not_found
  throw_if (not (same r.server_id c.server_id) || not (is_attached r.state) || leb r.expires_at now)
      not_found
  require_member c r.conversation_id now s
  throw_if (not (valid_key r.object_key)) internal
  ok (file_dto r)
