-- ===== src/Files/Quota.antt =====
-- The quota of `prepare` in apps/server/src/modules/files/index.ts, over the life of files.
use j_messenger.Common.{
  ℕ, ◌+◌, ◌≤◌, ◌≡◌, refl, sym, subst, inl, inr, Bool, true, false, List, [], ◌∷◌, ◌++◌, String,
  arith, update, exists, All, All-append,
}
use j_messenger.Common.Results.{ok, Result-cases, >>=-eq-ok}
use j_messenger.Store.{Store, Context, FileRow, ready}
use j_messenger.Files.{is_file}
use j_messenger.Files.Upload.{
  Received, add_piece, receive, store_object, in_upload, finish_upload, keep_object, begin_upload,
  upload, prepare,
}
use j_messenger.Files.Reservation.{
  Naming, Policy, Disk, UploadInput, Request, Piece, chunk, other, broken, reserved_bytes,
  check_upload, weight, used, new_file, reserve,
}

-- No server's files take more than the quota.
abbrev pub IsWithin : ℕ → Store → Type 0
IsWithin quota s = (server : String) → used server s.files ≤ quota

-- The row of an upload under way has the size that was reserved for it.
abbrev pub IsSized : String → ℕ → List FileRow → Type 0
IsSized id reserved rs = All (λ (r : FileRow). in_upload id r ≡ true → r.size_bytes ≡ reserved) rs

-- What others may do to the tables during an upload
pub record IsFrugal (quota : ℕ) (id : String) (reserved : ℕ) (f : Store → Store) : Type 0 where
  pub within : (s : Store) → IsWithin quota s → IsWithin quota (f s)
  pub sized : (s : Store) → IsSized id reserved s.files → IsSized id reserved (f s).files

used-append :
    (server : String) (rs : List FileRow) (r : FileRow)
    → used server (rs ++ r ∷ []) ≡ used server rs + weight server r
used-append server [] r = omega arith
used-append server (q ∷ rs) r = omega (arith, used-append server rs r)

pub used-update :
    (server : String) (p : FileRow → Bool) (f : FileRow → FileRow) (rs : List FileRow)
    → All (λ (r : FileRow). p r ≡ true → weight server (f r) ≤ weight server r) rs
    → used server (update p f rs) ≤ used server rs
used-update server p f [] h = omega arith
used-update server p f (r ∷ rs) h = ground (arith, used-update server p f rs h.1, h.0)

receive-bytes :
    (reserved : ℕ) (r e : Received) (ps : List Piece)
    → receive reserved r ps ≡ ok e
    → r.bytes ≤ reserved
    → e.bytes ≤ reserved
unfolding receive
receive-bytes reserved r e [] h le = ground arith
receive-bytes reserved r e (chunk p ∷ ps) h le =
    ground (arith, receive-bytes reserved (add_piece r p) e ps)
receive-bytes reserved r e (other ∷ ps) h le = cc
receive-bytes reserved r e (broken ∷ ps) h le = cc

store_object-bytes :
    (d : Disk) (i : UploadInput) (q : Request) (n : ℕ) → store_object d i q ≡ ok n → n ≤ q.reserved
unfolding store_object
store_object-bytes d i q n h =
    let start : Received = record { bytes = 0; head = []; stored = [] } in
    let (r, received, rest) = >>=-eq-ok (receive q.reserved start i.stream) _ h in
    let small = receive-bytes q.reserved start r i.stream received (omega arith) in
    ground (arith, small)

unused :
    (id : String) (reserved : ℕ) (rs : List FileRow)
    → exists (is_file id) rs ≡ false
    → IsSized id reserved rs
unused id reserved [] h = tt
unused id reserved (r ∷ rs) h = (λ u. ground arith, unused id reserved rs (ground arith))

-- The first transaction keeps the quota, and reserves the size.
reserve-IsWithin :
    (policy : Policy) (c : Context) (conversation : ℕ) (q : Request) (id key : String) (now : ℕ)
    (s s' : Store)
    → IsWithin policy.quota_bytes s
    → reserve policy c conversation q id key now s ≡ ok s'
    → IsWithin policy.quota_bytes s' × IsSized id q.reserved s'.files
unfolding reserve
reserve-IsWithin policy c conversation q id key now s s' w h =
    let new = new_file c conversation q id key now in
    let end : s'.files ≡ s.files ++ new ∷ [] = ground arith in
    let small : used c.server_id s.files + q.reserved ≤ policy.quota_bytes = ground arith in
    let fresh : exists (is_file id) s.files ≡ false = ground arith in
    (
      λ server. ground (arith, end, w server, used-append server s.files new),
      subst (IsSized id q.reserved) (sym end) (
          All-append (λ (r : FileRow). in_upload id r ≡ true → r.size_bytes ≡ q.reserved) s.files
            (new ∷ []) (unused id q.reserved s.files fresh) (λ _. refl, tt)),
    )

lighter :
    (server id : String) (reserved bytes : ℕ) (rs : List FileRow)
    → bytes ≤ reserved
    → IsSized id reserved rs
    → All
        (λ (r : FileRow).
          in_upload id r ≡ true
          → weight server (record r { state = ready; size_bytes = bytes }) ≤ weight server r)
        rs
lighter server id reserved bytes [] le h = tt
lighter server id reserved bytes (r ∷ rs) le h =
    (λ u. ground (arith, h.0 u), lighter server id reserved bytes rs le h.1)

finish_upload-IsWithin :
    (quota : ℕ) (id : String) (reserved bytes : ℕ) (s s' : Store)
    → IsWithin quota s
    → IsSized id reserved s.files
    → bytes ≤ reserved
    → finish_upload id bytes s ≡ ok s'
    → IsWithin quota s'
unfolding finish_upload
finish_upload-IsWithin quota id reserved bytes s s' w sized le h server =
    let f : FileRow → FileRow = λ r. record r { state = ready; size_bytes = bytes } in
    let end : s'.files ≡ update (in_upload id) f s.files = ground arith in
    let less =
      used-update server (in_upload id) f s.files
        (lighter server id reserved bytes s.files le sized) in
    ground (arith, end, less, w server)

upload-IsWithin :
    (d : Disk) (i : UploadInput) (q : Request) (id key : String) (quota : ℕ) (s : Store)
    → IsWithin quota s
    → IsSized id q.reserved s.files
    → IsWithin quota (upload d i q id key s).1
unfolding upload
upload-IsWithin d i q id key quota s w sized = elim (Result-cases (keep_object d i q key)) [
  | inr (e, failed) ↦ ground (arith, failed, w)
  | inl (bytes, kept) ↦ elim (Result-cases (finish_upload id bytes s)) [
    | inr (e, failed) ↦ ground (arith, kept, failed, w)
    | inl (s', finished) ↦
        let le : bytes ≤ q.reserved = store_object-bytes d i q bytes (ground arith) in
        ground (
          arith,
          kept,
          finished,
          finish_upload-IsWithin quota id q.reserved bytes s s' w sized le finished,
        )
  ]
]

check_upload-reserved :
    (p : Naming) (policy : Policy) (d : Disk) (c : Context) (conversation : ℕ) (i : UploadInput)
    (now : ℕ) (s : Store) (q : Request)
    → check_upload p policy d c conversation i now s ≡ ok q
    → q.reserved ≡ reserved_bytes i
unfolding check_upload
check_upload-reserved p policy d c conversation i now s q h = ground arith

-- Whatever the stream and the disk do, and however it ends, an upload leaves every server within the
-- quota, if all were before, and if what others do meanwhile keeps them within it and keeps the size
-- that the row of the upload has.
pub prepare-IsWithin :
    (p : Naming) (policy : Policy) (d : Disk) (meanwhile : Store → Store) (c : Context)
    (conversation : ℕ) (i : UploadInput) (id key : String) (now : ℕ) (seen s : Store)
    → IsFrugal policy.quota_bytes id (reserved_bytes i) meanwhile
    → IsWithin policy.quota_bytes s
    → IsWithin policy.quota_bytes
        (prepare p policy d meanwhile c conversation i id key now seen s).1
unfolding prepare
prepare-IsWithin p policy d meanwhile c conversation i id key now seen s frugal w =
    elim (Result-cases (check_upload p policy d c conversation i now seen)) [
      | inr (e, failed) ↦ ground (arith, failed, w)
      | inl (q, checked) ↦ elim (Result-cases (begin_upload policy c conversation q id key now s)) [
        | inr (e, failed) ↦ ground (arith, checked, failed, w)
        | inl (s', begun) ↦
            let size = check_upload-reserved p policy d c conversation i now seen q checked in
            let (within, sized) =
              reserve-IsWithin policy c conversation q id key now s s' w (ground arith) in
            let sized' : IsSized id (reserved_bytes i) s'.files =
              subst (λ n. IsSized id n s'.files) size sized in
            let kept : IsSized id q.reserved (meanwhile s').files =
              subst (λ n. IsSized id n (meanwhile s').files) (sym size) (frugal.sized s' sized') in
            ground (
              arith,
              checked,
              begun,
              upload-IsWithin d i q id key policy.quota_bytes (meanwhile s')
                  (frugal.within s' within) kept,
            )
      ]
    ]
