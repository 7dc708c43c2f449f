-- ===== src/Aria2/Transfer.antt =====
-- `transferFiles`, `transferFile` and `removeFileIfNeeded` of core/tasks/aria2dl/execute.go. What the
-- disk has at a path is given by a function, as is the error of a save; the name and the extension
-- of a path are those of the library of paths.
pub mod Safe
use save_any_bot.Prelude.{
  ℕ, suc, Bool, true, false, String, Option, none, some, List, [], ◌∷◌, ◌==◌, str_eq, if◌then◌else◌,
}

pub record AriaFile : Type 0 where
  pub path : String
  pub selected : String

pub data OnDisk : Type 0 where
  missing readable : OnDisk
  stat_fails open_fails : String → OnDisk

pub data TransferError : Type 0 where
  no_status no_files none_transferred : TransferError
  cannot_stat cannot_open cannot_save : String → TransferError

-- The paths that were saved to the storage and those that were removed from the disk, in order.
pub record Transferred : Type 0 where
  pub saved : List String
  pub removed : List String
  pub error : Option TransferError

-- The end of `transferFile`: the file is saved, is not there, or an error.
pub data Sent : Type 0 where
  stored skipped : Sent
  fails : TransferError → Sent

save_result : Option String → Sent
save_result none = stored
save_result (some e) = fails (cannot_save e)

send_found : Option String → OnDisk → Sent
unfolding save_result
send_found save missing = skipped
send_found save readable = save_result save
send_found save (stat_fails e) = fails (cannot_stat e)
send_found save (open_fails e) = fails (cannot_open e)

module _ (extension : String → String) (on_disk : String → OnDisk) (save : String → Option String)
    (keep_file : Bool) where
  unfoldable pub transfer_file : String → Sent
  unfolding send_found
  transfer_file path = send_found (save path) (on_disk path)

  unfoldable pub remove_if_needed : String → Transferred → Transferred
  remove_if_needed path r = if keep_file then r else record r { removed = path ∷ r.removed }

  -- What the loop does with a file that it sent, before the rest of the files.
  unfoldable pub after_send : String → Sent → Transferred → Transferred
  unfolding remove_if_needed
  after_send path stored rest =
      let r = remove_if_needed path rest in record r { saved = path ∷ r.saved }
  after_send path skipped rest = remove_if_needed path rest
  after_send path (fails e) rest = record { saved = []; removed = []; error = some e }

  -- The file is to be saved: it is selected and no torrent.
  unfoldable pub is_wanted : AriaFile → Bool
  is_wanted f =
      if str_eq f.selected "true"
      then (if str_eq (extension f.path) ".torrent" then false else true)
      else false

  -- What the loop does with a file, before the rest of the files.
  unfoldable pub after_file : AriaFile → Transferred → Transferred
  unfolding transfer_file after_send remove_if_needed is_wanted
  after_file f rest =
      if is_wanted f
      then after_send f.path (transfer_file f.path) rest
      else if str_eq f.selected "true"
      then remove_if_needed f.path rest
      else rest

  -- The loop, with the count of the transferred files.
  unfoldable pub transfer_from : ℕ → List AriaFile → Transferred
  unfolding after_file is_wanted
  transfer_from count [] = record {
    saved = [];
    removed = [];
    error = if count == 0 then some none_transferred else none;
  }
  transfer_from count (f ∷ fs) =
      after_file f (transfer_from (if is_wanted f then suc count else count) fs)

  -- `transferFiles`, with the files of the status if it can be had.
  unfoldable pub transfer_files : Option (List AriaFile) → Transferred
  unfolding transfer_from
  transfer_files none = record { saved = []; removed = []; error = some no_status }
  transfer_files (some []) = record { saved = []; removed = []; error = some no_files }
  transfer_files (some (f ∷ fs)) = transfer_from 0 (f ∷ fs)
