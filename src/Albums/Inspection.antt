-- ===== src/Albums/Inspection.antt =====
-- What storage/telegram/telegram.go finds of the items of a batch.
use save_any_bot.Prelude.{
  ℕ, suc, ◌*◌, ◌%◌, ◌^◌, ◌≤◌, ◌<◌, ◌≡◌, refl, ap, sym, subst, min, Bool, true, false, not, ◌&&◌,
  ◌||◌, List, [], ◌∷◌, ◌++◌, ltb, leb, ◌==◌, ◌⊎◌, inl, inr, Bool-cases, arith, String, Checked, ok,
  refused, and_then, if◌then◌else◌,
}
use save_any_bot.Albums.{
  TelegramConfig, BatchItem, BatchMediaItem, Kind, video, webp, gif, other_image, other_kind,
  Inspect, is_image, fits_album, eligible, split_size, inspect_batch_item, inspect_all,
}

-- The size from which a file is split: that of the settings in bytes, as a signed 64-bit number, if it
-- is positive and below the limit of the account.
pub data Limit (c : TelegramConfig) (max_size : ℕ) : ℕ → Type 0 where
  unset :
      (c.split_size_mb * 1048576 % 2 ^ 64 ≡ 0) ⊎ (2 ^ 63 ≤ c.split_size_mb * 1048576 % 2 ^ 64)
      → Limit c max_size max_size
  given :
      0 < c.split_size_mb * 1048576 % 2 ^ 64
      → c.split_size_mb * 1048576 % 2 ^ 64 < 2 ^ 63
      → Limit c max_size (min (c.split_size_mb * 1048576 % 2 ^ 64) max_size)

-- Whether a file of a kind may stand in an album: a video, and an image below 10 MiB that is neither WebP
-- nor GIF, unless files are to be sent as such.
pub data MayStand (c : TelegramConfig) (size : ℕ) : Kind → Bool → Type 0 where
  is_video : c.force_file ≡ false → MayStand c size video true
  small_image : c.force_file ≡ false → size < 10485760 → MayStand c size other_image true
  large_image : 10485760 ≤ size → MayStand c size other_image false
  forced : (k : Kind) → c.force_file ≡ true → MayStand c size k false
  is_webp : MayStand c size webp false
  is_gif : MayStand c size gif false
  is_other : MayStand c size other_kind false

pub data Inspected (c : TelegramConfig) (max_size : ℕ) (i : Inspect) (item : BatchItem)
    : BatchMediaItem → Type 0 where
  too_large :
      (m : BatchMediaItem) (limit : ℕ)
      → Limit c max_size limit
      → ((c.skip_large ≡ true) × (max_size < item.size)) ⊎ (limit < item.size)
      → m.item ≡ item
      → m.chat_id ≡ i.chat_of item.storage_path
      → m.use_single_save ≡ true
      → Inspected c max_size i item m
  looked_at :
      (m : BatchMediaItem) (limit : ℕ) (k : Kind)
      → Limit c max_size limit
      → (c.skip_large ≡ false) ⊎ (item.size ≤ max_size)
      → item.size ≤ limit
      → i.kind_of item ≡ ok k
      → MayStand c item.size k m.album_eligible
      → m.item ≡ item
      → m.chat_id ≡ i.chat_of item.storage_path
      → m.use_single_save ≡ false
      → Inspected c max_size i item m

abbrev pub AllInspected :
    TelegramConfig → ℕ → Inspect → List BatchItem → List BatchMediaItem → Type 0
AllInspected c n i [] [] = Unit
AllInspected c n i [] (m ∷ ms) = ⊥
AllInspected c n i (item ∷ items) [] = ⊥
AllInspected c n i (item ∷ items) (m ∷ ms) = Inspected c n i item m × AllInspected c n i items ms

-- An item that cannot be read.
pub record Unread (i : Inspect) (items : List BatchItem) (e : String) : Type 0 where
  pub before : List BatchItem
  pub after : List BatchItem
  pub item : BatchItem
  pub whole : items ≡ before ++ item ∷ after
  pub error : i.kind_of item ≡ refused e

abbrev pub Inspection :
    TelegramConfig → ℕ → Inspect → List BatchItem → Checked (List BatchMediaItem) → Type 0
Inspection c n i items (ok ms) = AllInspected c n i items ms
Inspection c n i items (refused e) = Unread i items e

split_size-Limit : (c : TelegramConfig) (n : ℕ) → Limit c n (split_size c n)
unfolding split_size
split_size-Limit c n = go (c.split_size_mb * 1048576 % 2 ^ 64) refl
  where
    go :
        (x : ℕ)
        → c.split_size_mb * 1048576 % 2 ^ 64 ≡ x
        → Limit c n (
            let size = c.split_size_mb * 1048576 % 2 ^ 64 in
            if size == 0 || leb (2 ^ 63) size then n else min size n)
    go x q =
        let size = c.split_size_mb * 1048576 % 2 ^ 64 in
        elim (Bool-cases (size == 0)) [
          | inl e ↦ rw e (unset (inl (ground (arith, e))))
          | inr e ↦ elim (Bool-cases (leb (2 ^ 63) size)) [
            | inl f ↦ rw (e, f) (unset (inr (ground (arith, f))))
            | inr f ↦ rw (e, f) (given (ground (arith, e)) (ground (arith, f)))
          ]
        ]

and_false : (b : Bool) → (b && false) ≡ false
and_false true = refl
and_false false = refl

kind-MayStand :
    (c : TelegramConfig) (size : ℕ) (k : Kind)
    → c.force_file ≡ false
    → MayStand c size k (not (is_image k && leb 10485760 size) && fits_album k)
unfolding is_image fits_album
kind-MayStand c size video f = is_video f
kind-MayStand c size webp f =
    subst (MayStand c size webp) (sym (and_false (not (true && leb 10485760 size)))) is_webp
kind-MayStand c size gif f =
    subst (MayStand c size gif) (sym (and_false (not (true && leb 10485760 size)))) is_gif
kind-MayStand c size other_image f = elim (Bool-cases (leb 10485760 size)) [
  | inl e ↦ rw e (large_image (ground (arith, e)))
  | inr e ↦ rw e (small_image f (ground (arith, e)))
]
kind-MayStand c size other_kind f = is_other

eligible-MayStand :
    (c : TelegramConfig) (item : BatchItem) (k : Kind) → MayStand c item.size k (eligible c item k)
unfolding eligible
eligible-MayStand c item k = go c.force_file refl
  where
    go :
        (b : Bool)
        → c.force_file ≡ b
        → MayStand c item.size k (not (b || is_image k && leb 10485760 item.size) && fits_album k)
    go true f = forced k f
    go false f = kind-MayStand c item.size k f

inspect_batch_item-Inspected :
    (c : TelegramConfig) (n : ℕ) (i : Inspect) (index : ℕ) (item : BatchItem)
    → ((m : BatchMediaItem) × (inspect_batch_item c n i index item ≡ ok m) × Inspected c n i item m)
      ⊎ ((e : String) × (inspect_batch_item c n i index item ≡ refused e)
          × (i.kind_of item ≡ refused e))
unfolding inspect_batch_item and_then
inspect_batch_item-Inspected c n i index item =
    let single : BatchMediaItem = record {
      item = item;
      index = index;
      chat_id = i.chat_of item.storage_path;
      album_eligible = false;
      use_single_save = true;
    } in
    elim (Bool-cases (c.skip_large && ltb n item.size)) [
      | inl e ↦ inl (
        single,
        rw e refl,
        too_large single (split_size c n) (split_size-Limit c n)
            (inl (ground (arith, e), ground (arith, e))) refl refl refl,
      )
      | inr e ↦ elim (Bool-cases (ltb (split_size c n) item.size)) [
        | inl f ↦ inl (
          single,
          rw (e, f) refl,
          too_large single (split_size c n) (split_size-Limit c n) (inr (ground (arith, f))) refl
              refl refl,
        )
        | inr f ↦ read (i.kind_of item) refl e f
      ]
    ]
  where
    fits : (b : Bool) → (b && ltb n item.size) ≡ false → (b ≡ false) ⊎ (item.size ≤ n)
    fits true e = inr (ground (arith, e))
    fits false e = inl refl

    read :
        (x : Checked Kind)
        → i.kind_of item ≡ x
        → (c.skip_large && ltb n item.size) ≡ false
        → ltb (split_size c n) item.size ≡ false
        → ((m : BatchMediaItem) × (inspect_batch_item c n i index item ≡ ok m)
            × Inspected c n i item m)
          ⊎ ((e : String) × (inspect_batch_item c n i index item ≡ refused e)
              × (i.kind_of item ≡ refused e))
    read (refused x) q e f = inr (x, unfold inspect_batch_item and_then in rw (e, f, q) refl, q)
    read (ok k) q e f =
        let m : BatchMediaItem = record {
          item = item;
          index = index;
          chat_id = i.chat_of item.storage_path;
          album_eligible = eligible c item k;
          use_single_save = false;
        } in
        inl (
          m,
          unfold inspect_batch_item and_then in rw (e, f, q) refl,
          looked_at m (split_size c n) k (split_size-Limit c n) (fits c.skip_large e)
              (ground (arith, f)) q (eligible-MayStand c item k) refl refl refl,
        )

pub inspect_all-Inspection :
    (c : TelegramConfig) (n : ℕ) (i : Inspect) (index : ℕ) (items : List BatchItem)
    → Inspection c n i items (inspect_all c n i index items)
unfolding inspect_all and_then
inspect_all-Inspection c n i index [] = tt
inspect_all-Inspection c n i index (item ∷ items) =
    elim (inspect_batch_item-Inspected c n i index item) [
      | inr (e, q, r) ↦
          rw q record { before = []; after = items; item = item; whole = refl; error = r }
      | inl (m, q, r) ↦ rw q (
          rest (inspect_all c n i (suc index) items)
            (inspect_all-Inspection c n i (suc index) items) m r)
    ]
  where
    rest :
        (x : Checked (List BatchMediaItem))
        → Inspection c n i items x
        → (m : BatchMediaItem) → Inspected c n i item m
        → Inspection c n i (item ∷ items) (and_then x λ ms. ok (m ∷ ms))
    rest (ok ms) h m r = unfold and_then in (r, h)
    rest (refused e) h m r =
        unfold and_then in
        record {
          before = item ∷ h.before;
          after = h.after;
          item = h.item;
          whole = ap (◌∷◌ item) h.whole;
          error = h.error;
        }
