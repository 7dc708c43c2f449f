-- ===== src/Albums/Sending.antt =====
-- The albums that storage/telegram/telegram.go sends for a batch.
use save_any_bot.Prelude.{
  ℕ, ◌≤◌, ◌<◌, ◌≡◌, ◌≢◌, true, false, String, Option, none, some, List, [], ◌∷◌, ◌++◌, length, All,
  ◌⊎◌,
}
use save_any_bot.Albums.{
  BatchItem, BatchMediaItem, TelegramConfig, Inspect, Sent, single_save, media, album,
}
use save_any_bot.Albums.Inspection.{Unread, AllInspected, Inspection}

-- The item joins the album of `m`.
abbrev Joins : BatchMediaItem → BatchMediaItem → Type 0
Joins m n =
    (n.use_single_save ≡ false)
    × (n.album_eligible ≡ true)
    × (n.chat_id ≡ m.chat_id)
    × (n.item.source_group_key ≡ m.item.source_group_key)

-- A group is one item, or at most ten that may stand in one album, of one chat and one source group.
abbrev pub IsAlbum : List BatchMediaItem → Type 0
IsAlbum [] = ⊥
IsAlbum (m ∷ []) = Unit
IsAlbum (m ∷ n ∷ ms) =
    (length (m ∷ n ∷ ms) ≤ 10)
    × (m.use_single_save ≡ false)
    × (m.album_eligible ≡ true)
    × (m.item.source_group_key ≢ "")
    × All (Joins m) (n ∷ ms)

record Cut (room : ℕ) (m : BatchMediaItem) (ms : List BatchMediaItem)
    (r : List BatchMediaItem × List BatchMediaItem) : Type 0 where
  whole : r.0 ++ r.1 ≡ ms
  small : length r.0 ≤ room
  shorter : length r.1 ≤ length ms
  joined : All (Joins m) r.0

unfoldable pub flatten {ℓ} : {A : Type ℓ} → List (List A) → List A
flatten [] = []
flatten (g ∷ gs) = g ++ flatten gs

record Planned (ms : List BatchMediaItem) (gs : List (List BatchMediaItem)) : Type 0 where
  whole : flatten gs ≡ ms
  albums : All IsAlbum gs

-- The items of what was sent.
unfoldable pub sent_items : Sent → List BatchMediaItem
sent_items (single_save m) = m ∷ []
sent_items (media m) = m ∷ []
sent_items (album ms) = ms

unfoldable pub all_sent : List Sent → List BatchMediaItem
unfolding sent_items
all_sent [] = []
all_sent (s ∷ ss) = sent_items s ++ all_sent ss

-- A file that is too large goes alone, by the way for single files; a group of several is an album.
abbrev pub IsProper : Sent → Type 0
IsProper (single_save m) = m.use_single_save ≡ true
IsProper (media m) = m.use_single_save ≡ false
IsProper (album ms) = (1 < length ms) × IsAlbum ms

-- What was sent, and what was not because of an error.
pub record Sends (send : Sent → Option String) (ms : List BatchMediaItem)
    (r : List Sent × Option String) : Type 0 where
  pub unsent : List BatchMediaItem
  pub whole : all_sent r.0 ++ unsent ≡ ms
  pub accepted : All (λ x. send x ≡ none) r.0
  pub complete :
      ((unsent ≡ []) × (r.1 ≡ none))
      ⊎ ((x : Sent) × (e : String) × (later : List BatchMediaItem) × (send x ≡ some e)
          × (r.1 ≡ some e)
          × (unsent ≡ sent_items x ++ later))
  pub proper : All IsProper r.0

-- What is sent for a batch: nothing, if an item cannot be read, and else what was found of the items.
pub data BatchSends (c : TelegramConfig) (max_size : ℕ) (i : Inspect) (send : Sent → Option String)
    (items : List BatchItem) : List Sent × Option String → Type 0 where
  unread : (e : String) → Unread i items e → BatchSends c max_size i send items ([], some e)
  sends :
      (ms : List BatchMediaItem) (r : List Sent × Option String)
      → AllInspected c max_size i items ms
      → Sends send ms r
      → BatchSends c max_size i send items r
