-- ===== src/Split.antt =====
-- storage/telegram/split.go: the writer that cuts a byte stream into part files. The operating
-- system is a parameter: whether a part can be created or closed, and how many of the bytes of a
-- write a part takes. Bytes are numbers, and sizes are not negative.
pub mod Parts
mod Examples
use save_any_bot.Prelude.{
  ℕ, zero, suc, ◌+◌, ◌-◌, ◌≤◌, ◌<◌, Bool, true, false, not, ◌&&◌, ◌||◌, String, Option, none, some,
  List, [], ◌∷◌, ◌++◌, ltb, leb, ◌==◌, min, if◌then◌else◌, length, take, drop,
}

pub data SplitError : Type 0 where
  create_failed : ℕ → SplitError
  close_failed : ℕ → SplitError
  write_failed : ℕ → SplitError
  rename_failed : SplitError

-- `os.File` by part number. `accepts part size offered` is the `n` that `Write` returns for
-- `offered` bytes at a file of that size; the contract of io.Writer is that `n` is at most the number
-- offered and that a smaller one comes with an error.
pub record Disk : Type 0 where
  pub creates : ℕ → Bool
  pub closes : ℕ → Bool
  pub accepts : ℕ → ℕ → ℕ → ℕ
  pub renames : Bool
  pub accepts-le : (part size offered : ℕ) → accepts part size offered ≤ offered

-- A part file that was finished, or the one that is open.
pub record PartFile : Type 0 where
  pub number : ℕ
  pub content : List ℕ

pub record SplitWriter : Type 0 where
  pub part_size : ℕ
  pub current_part : ℕ
  pub current_size : ℕ
  pub current_file : Option PartFile
  pub finished : List PartFile  -- the files on disk that are closed, oldest first
  pub total_parts : ℕ

unfoldable pub new_split_writer : ℕ → SplitWriter
new_split_writer part_size = record {
  part_size = part_size;
  current_part = 0;
  current_size = 0;
  current_file = none;
  finished = [];
  total_parts = 0;
}

-- `partName` numbers the files from 1.
unfoldable pub part_number : ℕ → ℕ
part_number part_num = part_num + 1

module _ (disk : Disk) where
  -- The file handle after a failed close stays set, as in the source.
  open_part : SplitWriter → List PartFile → SplitWriter × Option SplitError
  unfolding part_number
  open_part w finished =
      if disk.creates w.current_part
      then (
        record w {
          finished = finished;
          current_file = some (record { number = part_number w.current_part; content = [] });
          current_size = 0;
          current_part = w.current_part + 1;
        },
        none,
      )
      else (w, some (create_failed w.current_part))

  next_part_from : SplitWriter → Option PartFile → SplitWriter × Option SplitError
  unfolding open_part
  next_part_from w none = open_part w w.finished
  next_part_from w (some file) =
      if disk.closes file.number
      then open_part w (w.finished ++ file ∷ [])
      else (w, some (close_failed file.number))

  unfoldable pub next_part : SplitWriter → SplitWriter × Option SplitError
  unfolding next_part_from
  next_part w = next_part_from w w.current_file

  needs_part : SplitWriter → Option PartFile → Bool
  needs_part w none = true
  needs_part w (some file) = leb w.part_size w.current_size

  ready : SplitWriter → SplitWriter × Option SplitError
  unfolding needs_part next_part
  ready w = if needs_part w w.current_file then next_part w else (w, none)

  -- One `Write` of the current file, of as many bytes as the part has room for.
  put_chunk : SplitWriter → Option PartFile → List ℕ → SplitWriter × ℕ × Bool
  put_chunk w none p = (w, 0, true)
  put_chunk w (some file) p =
      let to_write = min (length p) (w.part_size - w.current_size) in
      let n = disk.accepts file.number (length file.content) to_write in
      (
        record w {
          current_file = some (record file { content = file.content ++ take n p });
          current_size = w.current_size + n;
        },
        n,
        ltb n to_write,
      )

  -- One round of the loop of `Write` over the bytes left `p`, `written` of them being done; `next`
  -- goes on with the loop.
  after_chunk :
      (SplitWriter → List ℕ → ℕ → Option (SplitWriter × ℕ × Option SplitError))
      → List ℕ
      → ℕ
      → ℕ
      → SplitWriter × ℕ × Bool
      → Option (SplitWriter × ℕ × Option SplitError)
  after_chunk next p written part (w, n, true) = some (w, written + n, some (write_failed part))
  after_chunk next p written part (w, n, false) = next w (drop n p) (written + n)

  after_ready :
      (SplitWriter → List ℕ → ℕ → Option (SplitWriter × ℕ × Option SplitError))
      → List ℕ
      → ℕ
      → SplitWriter × Option SplitError
      → Option (SplitWriter × ℕ × Option SplitError)
  unfolding after_chunk put_chunk
  after_ready next p written (w, some e) = some (w, written, some e)
  after_ready next p written (w, none) =
      after_chunk next p written w.current_part (put_chunk w w.current_file p)

  -- The loop; `none` means that the fuel ran out.
  write_from : ℕ → SplitWriter → List ℕ → ℕ → Option (SplitWriter × ℕ × Option SplitError)
  unfolding ready after_ready
  write_from zero w p written = none
  write_from (suc fuel) w [] written = some (w, written, none)
  write_from (suc fuel) w (x ∷ xs) written =
      after_ready (write_from fuel) (x ∷ xs) written (ready w)

  -- Each round that goes on has written a byte at least, so this fuel is enough.
  unfoldable pub write : SplitWriter → List ℕ → Option (SplitWriter × ℕ × Option SplitError)
  unfolding write_from
  write w p = write_from (suc (length p)) w p 0

  close_file : Option PartFile → Option SplitError
  close_file none = none
  close_file (some file) = if disk.closes file.number then none else some (close_failed file.number)

  unfoldable pub close : SplitWriter → Option SplitError
  unfolding close_file
  close w = close_file w.current_file

  -- The writer after it, whether the single part was renamed to `.zip`, and the error.
  unfoldable pub finalize : SplitWriter → SplitWriter × Bool × Option SplitError
  finalize w =
      let w' = record w { total_parts = w.current_part } in
      if w'.total_parts == 1
      then (if disk.renames then (w', true, none) else (w', false, some rename_failed))
      else (w', false, none)
