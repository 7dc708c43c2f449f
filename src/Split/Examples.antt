-- ===== src/Split/Examples.antt =====
-- Five bytes of storage/telegram/split.go in parts of two.
use save_any_bot.Prelude.{ℕ, ◌≤◌, ◌≡◌, refl, true, some, none, List, [], ◌∷◌, arith}
use save_any_bot.Split.{Disk, PartFile, new_split_writer, write}
use save_any_bot.Split.Parts.{Wrote, write-Wrote, new_split_writer-Inv}

accepts_all : (part size offered : ℕ) → offered ≤ offered
accepts_all part size offered = omega arith

abbrev disk : Disk
disk = record {
  creates = λ _. true;
  closes = λ _. true;
  accepts = λ _ _ n. n;
  renames = true;
  accepts-le = accepts_all;
}

abbrev bytes : List ℕ
bytes = 1 ∷ 2 ∷ 3 ∷ 4 ∷ 5 ∷ []

abbrev finished : List PartFile
finished =
    record { number = 1; content = 1 ∷ 2 ∷ [] } ∷ record { number = 2; content = 3 ∷ 4 ∷ [] } ∷ []

five_bytes :
    write disk (new_split_writer 2) bytes
    ≡ some (
      record {
        part_size = 2;
        current_part = 3;
        current_size = 1;
        current_file = some (record { number = 3; content = 5 ∷ [] });
        finished = finished;
        total_parts = 0;
      },
      5,
      none,
    )
unfolding write new_split_writer
five_bytes = refl

write-Wrote_example :
    Wrote disk (new_split_writer 2) bytes 0 (write disk (new_split_writer 2) bytes)
unfolding new_split_writer
write-Wrote_example =
    write-Wrote disk (new_split_writer 2) bytes (omega arith) (new_split_writer-Inv 2)
