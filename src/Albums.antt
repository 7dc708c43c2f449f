-- ===== src/Albums.antt =====
-- storage/telegram/telegram.go: how a batch is cut into the albums that are sent, and the parts of a split file
-- into albums. The kind of a file (its MIME type), the chat of a path, the seeks and the sending with
-- its retries are parameters. Sizes are not negative.
pub mod Inspection
pub mod Sending
mod Examples
use save_any_bot.Prelude.{
  ℕ, zero, suc, ◌*◌, ◌%◌, ◌^◌, ◌≤◌, ◌<◌, min, Bool, true, false, not, ◌&&◌, ◌||◌, String, Option,
  none, some, List, [], ◌∷◌, ◌++◌, ltb, leb, ◌==◌, str_eq, length, take, drop, if◌then◌else◌,
  Checked, ok, refused, and_then,
}

abbrev pub max_upload_file_size : ℕ
max_upload_file_size = 2097152000

abbrev pub premium_max_upload_file_size : ℕ
premium_max_upload_file_size = 4194304000

abbrev pub max_photo_size : ℕ
max_photo_size = 10485760

abbrev pub max_album_items : ℕ
max_album_items = 10

pub record TelegramConfig : Type 0 where
  pub skip_large : Bool
  pub force_file : Bool
  pub split_size_mb : ℕ

-- The limit for the account: a premium user has a higher one.
unfoldable pub max_upload_size : Bool → Bool → ℕ
max_upload_size is_bot is_premium =
    if not is_bot && is_premium then premium_max_upload_file_size else max_upload_file_size

-- The product is a signed 64-bit number, and one that is not positive counts as none.
unfoldable pub split_size : TelegramConfig → ℕ → ℕ
split_size c max_size =
    let size = c.split_size_mb * 1048576 % 2 ^ 64 in
    if size == 0 || leb (2 ^ 63) size then max_size else min size max_size

pub record BatchItem : Type 0 where
  pub storage_path : String
  pub size : ℕ
  pub source_group_key : String

pub record BatchMediaItem : Type 0 where
  pub item : BatchItem
  pub index : ℕ
  pub chat_id : ℕ
  pub album_eligible : Bool
  pub use_single_save : Bool

pub data Kind : Type 0 where
  video webp gif other_image other_kind : Kind

unfoldable pub is_image : Kind → Bool
is_image video = false
is_image webp = true
is_image gif = true
is_image other_image = true
is_image other_kind = false

unfoldable pub fits_album : Kind → Bool
fits_album video = true
fits_album other_image = true
fits_album webp = false
fits_album gif = false
fits_album other_kind = false

-- What the storage looks up of an item: the chat of its path and its kind, or the error of reading it.
pub record Inspect : Type 0 where
  pub chat_of : String → ℕ
  pub kind_of : BatchItem → Checked Kind

unfoldable pub eligible : TelegramConfig → BatchItem → Kind → Bool
unfolding is_image fits_album
eligible c item kind =
    not (c.force_file || is_image kind && leb max_photo_size item.size) && fits_album kind

unfoldable pub inspect_batch_item :
    TelegramConfig → ℕ → Inspect → ℕ → BatchItem → Checked BatchMediaItem
unfolding and_then split_size eligible
inspect_batch_item c max_size i index item =
    let single : BatchMediaItem = record {
      item = item;
      index = index;
      chat_id = i.chat_of item.storage_path;
      album_eligible = false;
      use_single_save = true;
    } in
    if c.skip_large && ltb max_size item.size || ltb (split_size c max_size) item.size
    then ok single
    else and_then (i.kind_of item) λ kind.
      ok (record single { album_eligible = eligible c item kind; use_single_save = false })

unfoldable pub inspect_all :
    TelegramConfig → ℕ → Inspect → ℕ → List BatchItem → Checked (List BatchMediaItem)
unfolding and_then inspect_batch_item
inspect_all c max_size i index [] = ok []
inspect_all c max_size i index (item ∷ items) =
    and_then (inspect_batch_item c max_size i index item)
      λ m. and_then (inspect_all c max_size i (suc index) items) λ ms. ok (m ∷ ms)

unfoldable pub stands_alone : BatchMediaItem → Bool
stands_alone m = m.use_single_save || not m.album_eligible || str_eq m.item.source_group_key ""

unfoldable pub joins : BatchMediaItem → BatchMediaItem → Bool
joins m next =
    not next.use_single_save
    && next.album_eligible
    && next.chat_id == m.chat_id
    && str_eq next.item.source_group_key m.item.source_group_key

-- The items that join an album with this room, and what follows them.
unfoldable pub album_of :
    ℕ → BatchMediaItem → List BatchMediaItem → List BatchMediaItem × List BatchMediaItem
unfolding joins
album_of zero m ms = ([], ms)
album_of (suc room) m [] = ([], [])
album_of (suc room) m (n ∷ ns) =
    let rest = album_of room m ns in if joins m n then (n ∷ rest.0, rest.1) else ([], n ∷ ns)

-- Each round uses up one item at least.
unfoldable pub plan_from : ℕ → List BatchMediaItem → List (List BatchMediaItem)
unfolding stands_alone album_of
plan_from zero ms = []
plan_from (suc fuel) [] = []
plan_from (suc fuel) (m ∷ ms) =
    let alone = plan_from fuel ms in
    let album = album_of 9 m ms in
    let later = plan_from fuel album.1 in
    if stands_alone m then (m ∷ []) ∷ alone else (m ∷ album.0) ∷ later

unfoldable pub plan_media_groups : List BatchMediaItem → List (List BatchMediaItem)
unfolding plan_from
plan_media_groups ms = plan_from (length ms) ms

-- What is sent for a group.
pub data Sent : Type 0 where
  single_save : BatchMediaItem → Sent
  media : BatchMediaItem → Sent
  album : List BatchMediaItem → Sent

unfoldable pub save_media_group : List BatchMediaItem → Sent
save_media_group [] = album []
save_media_group (m ∷ []) = if m.use_single_save then single_save m else media m
save_media_group (m ∷ n ∷ ms) = album (m ∷ n ∷ ms)

-- The groups up to the first that is not sent, which the result does not list.
unfoldable pub save_groups :
    (Sent → Option String) → List (List BatchMediaItem) → List Sent × Option String
unfolding save_media_group
save_groups send [] = ([], none)
save_groups send (g ∷ gs) =
    let rest = save_groups send gs in
    elim (send (save_media_group g)) [
      | some e ↦ ([], some e)
      | none ↦ (save_media_group g ∷ rest.0, rest.1)
    ]

unfoldable pub save_batch :
    TelegramConfig
    → ℕ
    → Inspect
    → (Sent → Option String)
    → List BatchItem
    → List Sent × Option String
unfolding inspect_all plan_media_groups save_groups
save_batch c max_size i send items = elim (inspect_all c max_size i 0 items) [
  | refused e ↦ ([], some e)
  | ok ms ↦ save_groups send (plan_media_groups ms)
]

module _ {ℓ} {A : Type ℓ} where
  -- The parts of a split file, ten at a time; each round uses up one at least.
  unfoldable pub batches_from : ℕ → List A → List (List A)
  batches_from zero parts = []
  batches_from (suc fuel) [] = []
  batches_from (suc fuel) (p ∷ ps) =
      take max_album_items (p ∷ ps) ∷ batches_from fuel (drop max_album_items (p ∷ ps))

  unfoldable pub album_batches : List A → List (List A)
  unfolding batches_from
  album_batches parts =
      if leb (length parts) max_album_items then parts ∷ [] else batches_from (length parts) parts
