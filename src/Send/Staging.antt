-- ===== src/Send/Staging.antt =====
-- `stageSendAttachments` of internal/service/transactions.go.
use wechatcopilot.Prelude.{
  ℕ, suc, ◌+◌, ◌-◌, ◌≤◌, String, Bool, false, not, ◌||◌, List, [], ◌∷◌, ◌==◌, ◌≡◌, refl, ap, subst,
  ltb, length, if◌then◌else◌, Result, ok, err, ◌>>=◌, chain_steps, arith,
}
use wechatcopilot.Driver.{Attachment}
use wechatcopilot.Send.Transactions.{PreparedAttachment}

abbrev pub max_send_attachments : ℕ
max_send_attachments = 20

abbrev pub max_send_attachment_bytes : ℕ
max_send_attachment_bytes = 536870912

-- What the system makes of one source file: whether each call on it and on its copy succeeds, its size
-- when it is looked at, its size when it is read, and the digest of its first bytes.
pub record SourceFile : Type 0 where
  pub opens : Bool
  pub stats : Bool
  pub is_regular : Bool
  pub stat_size : ℕ
  pub creates : Bool
  pub copies : Bool
  pub read_size : ℕ
  pub digest : ℕ → String

-- `path/filepath` on texts, the files that the requested paths lead to, the paths of the copies, and
-- whether the staging directory can be made, synced and removed.
pub record Disk : Type 0 where
  pub clean : String → String
  pub base : String → String
  pub is_absolute : String → Bool
  pub is_valid : String → Bool
  pub file : ℕ → String → SourceFile
  pub destination : ℕ → String
  pub makes_directory : Bool
  pub syncs_directory : Bool

pub data StagingError : Type 0 where
  too_many not_absolute bad_name cannot_open cannot_inspect not_regular too_large cannot_create :
      StagingError
  cannot_copy no_directory : StagingError

-- `io.Copy` from a reader that is limited to one byte more than remains.
unfoldable pub written : ℕ → ℕ → ℕ
written remaining size = if ltb (suc remaining) size then suc remaining else size

unfoldable pub copy_of : Disk → ℕ → String → SourceFile → ℕ → PreparedAttachment × Attachment
copy_of d index name f n = (
  record { name = name; size = n; sha256 = f.digest n },
  record { kind = "file"; name = name; size = n; local_path = d.destination (suc index) },
)

unfoldable pub copied :
    Disk → ℕ → ℕ → String → SourceFile → Result StagingError (PreparedAttachment × Attachment)
copied d index remaining name f =
    let n = written remaining f.read_size in
    if not f.creates
    then err cannot_create
    else if not f.copies
    then err cannot_copy
    else if ltb remaining n
    then err too_large
    else ok (copy_of d index name f n)

unfoldable pub stage_file :
    Disk → ℕ → ℕ → String → SourceFile → Result StagingError (PreparedAttachment × Attachment)
stage_file d index remaining name f =
    if not f.opens
    then err cannot_open
    else if not f.stats
    then err cannot_inspect
    else if not f.is_regular
    then err not_regular
    else if ltb remaining f.stat_size
    then err too_large
    else copied d index remaining name f

-- The body of the loop.
unfoldable pub stage_one :
    Disk → ℕ → ℕ → Attachment → Result StagingError (PreparedAttachment × Attachment)
stage_one d index remaining a =
    let path = d.clean a.local_path in
    let name = d.base path in
    if a.local_path == "" || not (d.is_absolute path)
    then err not_absolute
    else if name == "." || name == "/" || not (d.is_valid name)
    then err bad_name
    else stage_file d index remaining name (d.file index path)

-- The loop, from an index and the bytes that were staged before.
unfoldable pub stage_each :
    Disk → ℕ → ℕ → List Attachment → Result StagingError (List PreparedAttachment × List Attachment)
stage_each d index total [] = ok ([], [])
stage_each d index total (a ∷ rest) = do
  one ← stage_one d index (max_send_attachment_bytes - total) a
  more ← stage_each d (suc index) (total + one.0.size) rest
  ok (one.0 ∷ more.0, one.1 ∷ more.1)

unfoldable pub synced :
    Disk
    → Result StagingError (List PreparedAttachment × List Attachment)
    → Result StagingError (List PreparedAttachment × List Attachment)
synced d (err e) = err e
synced d (ok r) = if d.syncs_directory then ok r else err no_directory

unfoldable pub stage_send_attachments :
    Disk → List Attachment → Result StagingError (List PreparedAttachment × List Attachment)
stage_send_attachments d [] = ok ([], [])
stage_send_attachments d (a ∷ rest) =
    if ltb max_send_attachments (length (a ∷ rest))
    then err too_many
    else if not d.makes_directory
    then err no_directory
    else synced d (stage_each d 0 0 (a ∷ rest))

unfoldable pub total_size : List PreparedAttachment → ℕ
total_size [] = 0
total_size (p ∷ rest) = p.size + total_size rest

ok_inj : {A : Type 0} {a b : A} → ◌≡◌ {A = Result StagingError A} (ok a) (ok b) → a ≡ b
ok_inj h = cc

copied-size :
    (d : Disk) (index remaining : ℕ) (name : String) (f : SourceFile)
    (r : PreparedAttachment × Attachment)
    → copied d index remaining name f ≡ ok r
    → r.0.size ≤ remaining
unfolding copied
copied-size d index remaining name f r h =
    let n = written remaining f.read_size in
    let e : copy_of d index name f n ≡ r = ground arith in
    let l : ltb remaining n ≡ false = ground arith in
    subst (λ (x : PreparedAttachment × Attachment). x.0.size ≤ remaining) e (fits n l)
  where
    fits : (n : ℕ) → ltb remaining n ≡ false → (copy_of d index name f n).0.size ≤ remaining
    fits n l = unfold copy_of in ground arith

stage_one-size :
    (d : Disk) (index remaining : ℕ) (a : Attachment) (r : PreparedAttachment × Attachment)
    → stage_one d index remaining a ≡ ok r
    → r.0.size ≤ remaining
unfolding stage_one stage_file
stage_one-size d index remaining a r h =
    copied-size d index remaining (d.base (d.clean a.local_path))
      (d.file index (d.clean a.local_path)) r (ground arith)

-- What the copies of these attachments are like, after this many bytes.
abbrev IsWithin : ℕ → List Attachment → List PreparedAttachment × List Attachment → Type 0
IsWithin total xs (previews, staged) =
    (total + total_size previews ≤ max_send_attachment_bytes)
    × (length previews ≡ length xs)
    × (length staged ≡ length xs)

stage_each-IsWithin :
    (d : Disk) (index total : ℕ) (xs : List Attachment)
    (r : List PreparedAttachment × List Attachment)
    → total ≤ max_send_attachment_bytes
    → stage_each d index total xs ≡ ok r
    → IsWithin total xs r
unfolding stage_each total_size
stage_each-IsWithin d index total [] r b h =
    subst (IsWithin total []) (ok_inj h) (omega (arith, b), refl, refl)
stage_each-IsWithin d index total (a ∷ rest) r b h =
    let (one, e, k) = chain_steps (stage_one d index (max_send_attachment_bytes - total) a) _ h in
    let (more, e', k') = chain_steps (stage_each d (suc index) (total + one.0.size) rest) _ k in
    let s = stage_one-size d index (max_send_attachment_bytes - total) a one e in
    let (t, l, m) =
      stage_each-IsWithin d (suc index) (total + one.0.size) rest more (omega (arith, s, b)) e' in
    subst (IsWithin total (a ∷ rest)) (ok_inj k') (omega (arith, t), ap suc l, ap suc m)

synced-ok :
    (d : Disk) (r : Result StagingError (List PreparedAttachment × List Attachment))
    (s : List PreparedAttachment × List Attachment)
    → synced d r ≡ ok s
    → r ≡ ok s
unfolding synced
synced-ok d (err e) s h = h
synced-ok d (ok r) s h = ground arith

-- Attachments that are staged are at most twenty, their copies have at most 512 MiB together, and there
-- is one copy and one preview for each that was requested.
pub stage_send_attachments-bounds :
    (d : Disk) (requested staged : List Attachment) (previews : List PreparedAttachment)
    → stage_send_attachments d requested ≡ ok (previews, staged)
    → (length requested ≤ 20)
      × (total_size previews ≤ 536870912)
      × (length previews ≡ length requested)
      × (length staged ≡ length requested)
unfolding stage_send_attachments
stage_send_attachments-bounds d [] staged previews h =
    let (t, l, m) =
      subst (IsWithin 0 []) (ok_inj h) (unfold total_size in (omega arith, refl, refl)) in
    (omega arith, omega (arith, t), l, m)
stage_send_attachments-bounds d (a ∷ rest) staged previews h =
    let few : ltb max_send_attachments (length (a ∷ rest)) ≡ false = ground arith in
    let made : synced d (stage_each d 0 0 (a ∷ rest)) ≡ ok (previews, staged) = ground arith in
    let (t, l, m) =
      stage_each-IsWithin d 0 0 (a ∷ rest) (previews, staged) (omega arith)
        (synced-ok d (stage_each d 0 0 (a ∷ rest)) (previews, staged) made) in
    (ground arith, omega (arith, t), l, m)
