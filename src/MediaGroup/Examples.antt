-- ===== src/MediaGroup/Examples.antt =====
-- Examples for the media groups: a file that arrives after the timer of its group fired.
use save_any_bot.Prelude.{◌≡◌, refl, List, [], ◌∷◌, ◌++◌, String}
use save_any_bot.MediaGroup.{MediaGroupKey, Step, arrives, fires, runs, new_handler, run}
use save_any_bot.MediaGroup.Conserves.{taken_of, arrived_of, run-conserves}
use save_any_bot.MediaGroup.Live.{IsLive, run-IsLive}

abbrev album : MediaGroupKey
album = record { chat_id = 1; user_id = 2; group_id = 3 }

abbrev late : List (Step String)
late =
    arrives album "a.jpg"
    ∷ arrives album "b.jpg"
    ∷ fires 1
    ∷ arrives album "c.jpg"
    ∷ runs album
    ∷ fires 2
    ∷ []

takes_all : taken_of album (run new_handler late).1 ≡ "a.jpg" ∷ "b.jpg" ∷ "c.jpg" ∷ []
unfolding taken_of run
takes_all = refl

run-conserves_example :
    taken_of album (run new_handler late).1 ++ (run new_handler late).0.groups album
    ≡ arrived_of album late
run-conserves_example = run-conserves new_handler late album

run-IsLive_example : IsLive (run new_handler late).0 album
run-IsLive_example = run-IsLive late album
