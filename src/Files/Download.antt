-- ===== src/Files/Download.antt =====
-- Who gets at the stored files of apps/server/src/modules/files/index.ts.
use j_messenger.Common.{ℕ, ◌<◌, ◌≡◌, ◌↔◌, true, some, String, arith}
use j_messenger.Common.Results.{ok}
use j_messenger.Store.{Store, Context, FileRow, attached}
use j_messenger.Conversations.{assert_context, require_member}
use j_messenger.Conversations.Access.{IsMember, get_row_iff}
use j_messenger.Files.{lookup}
use j_messenger.Files.Upload.{valid_key, file_dto}
use j_messenger.Files.Orphans.{open_download}

require_member_iff :
    (c : Context) (id now : ℕ) (s : Store)
    → (require_member c id now s ≡ ok tt) ↔ ((assert_context c now s ≡ ok tt) × IsMember c id s)
unfolding require_member
require_member_iff c id now s =
    let (to, from) = get_row_iff c id s in
    (λ h. (ground arith, to (ground arith)), λ (known, m). ground (arith, from m))

-- A file whose object has a key can be downloaded exactly when it lies on the server of the caller's
-- session, is attached to a message and has not come to its end, the session is known, and the caller
-- is a member of the conversation that the file was uploaded to.
pub open_download_iff :
    (c : Context) (id : String) (now : ℕ) (seen s : Store) (r : FileRow)
    → lookup id seen ≡ some r
    → valid_key r.object_key ≡ true
    → (open_download c id now seen s ≡ ok (file_dto r)) ↔ (
        (r.server_id ≡ c.server_id)
        × (r.state ≡ attached)
        × (now < r.expires_at)
        × (assert_context c now s ≡ ok tt)
        × IsMember c r.conversation_id s)
unfolding open_download
open_download_iff c id now seen s r found keyed =
    let (to, from) = require_member_iff c r.conversation_id now s in
    (
      λ h.
          let member = to (ground arith) in
          (ground arith, ground arith, ground arith, member.0, member.1),
      λ (here, state, early, known, m). let let_in = from (known, m) in ground arith,
    )
