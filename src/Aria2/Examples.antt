-- ===== src/Aria2/Examples.antt =====
-- Examples for the task of aria2.
use save_any_bot.Prelude.{
  ◌≡◌, refl, true, false, String, Option, none, some, [], ◌∷◌, str_eq, if◌then◌else◌,
}
use save_any_bot.Aria2.Wait.{Status, Client, ticks, waiting, wait_for_download}
use save_any_bot.Aria2.Wait.Follow.{Follows, wait_for_download-Follows}
use save_any_bot.Aria2.Transfer.{AriaFile, OnDisk, missing, readable, transfer_files}
use save_any_bot.Aria2.Transfer.Safe.{LosesNothing, transfer_files-LosesNothing}

abbrev metadata : Status
metadata = record {
  gid = "m";
  status = "complete";
  error_code = "";
  error_message = "";
  followed_by = "d" ∷ [];
}

abbrev content : Status
content = record {
  gid = "d";
  status = "complete";
  error_code = "";
  error_message = "";
  followed_by = [];
}

abbrev client : Client
client = record {
  tell_status = λ g. if str_eq g "m" then some metadata else none;
  tell_stopped = some (metadata ∷ content ∷ []);
  interrupted = false;
}

abbrev no_error : String → Option String
no_error g = none

wait_for_download-Follows_example :
    Follows "m"
      (ticks client ∷ ticks client ∷ [])
      (wait_for_download "m" (ticks client ∷ ticks client ∷ [])).gid
      (wait_for_download "m" (ticks client ∷ ticks client ∷ [])).ending
wait_for_download-Follows_example = wait_for_download-Follows (ticks client ∷ ticks client ∷ []) "m"

waits_on : (wait_for_download "m" (ticks client ∷ [])).ending ≡ waiting
unfolding wait_for_download
waits_on = refl

abbrev video_file : AriaFile
video_file = record { path = "cat.mp4"; selected = "true" }

abbrev torrent_file : AriaFile
torrent_file = record { path = "cat.torrent"; selected = "true" }

abbrev extension_of : String → String
extension_of p = if str_eq p "cat.torrent" then ".torrent" else ".mp4"

abbrev all_readable : String → OnDisk
all_readable p = readable

abbrev none_there : String → OnDisk
none_there p = missing

transfer_files-LosesNothing_example : LosesNothing extension_of all_readable (
    transfer_files extension_of all_readable no_error false (some (torrent_file ∷ video_file ∷ [])))
transfer_files-LosesNothing_example =
    transfer_files-LosesNothing extension_of all_readable no_error false
      (some (torrent_file ∷ video_file ∷ []))

saves_all :
    (transfer_files extension_of all_readable no_error false
      (some (torrent_file ∷ video_file ∷ []))).error
    ≡ none
unfolding transfer_files
saves_all = refl

-- A download of which no file is left on the disk ends without an error.
missing_succeeds :
    transfer_files extension_of none_there no_error true (some (video_file ∷ []))
    ≡ record { saved = []; removed = []; error = none }
unfolding transfer_files
missing_succeeds = refl
