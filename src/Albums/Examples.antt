-- ===== src/Albums/Examples.antt =====
-- An example for the albums of Telegram: three photos of one album, one of them too large.
use save_any_bot.Prelude.{ok, ℕ, false, String, Option, none, List, [], ◌∷◌}
use save_any_bot.Albums.{BatchItem, TelegramConfig, Inspect, other_image, Sent}

abbrev config : TelegramConfig
config = record { skip_large = false; force_file = false; split_size_mb = 100 }

abbrev photo : String → ℕ → BatchItem
photo path size = record { storage_path = path; size = size; source_group_key = "album" }

abbrev photos : List BatchItem
photos = photo "a.jpg" 1000 ∷ photo "b.jpg" 900000000 ∷ photo "c.jpg" 2000 ∷ []

abbrev inspect : Inspect
inspect = record { chat_of = λ p. 1; kind_of = λ i. ok other_image }

abbrev sends : Sent → Option String
sends s = none
