-- ===== src/Aria2/Transfer/Safe.antt =====
-- What `transferFiles` of core/tasks/aria2dl/execute.go saves and removes.
use save_any_bot.Prelude.{
  ℕ, suc, ◌+◌, ◌<◌, ◌≡◌, refl, ap, Bool, true, false, String, Option, none, some, List, [], ◌∷◌,
  str_eq, str_eq_refl, if◌then◌else◌, All, arith, Bool-cases, inl, inr,
}
use save_any_bot.Aria2.Transfer.{
  AriaFile, OnDisk, missing, readable, stat_fails, open_fails, Transferred, transfer_file,
  send_found, save_result, remove_if_needed, after_send, after_file, is_wanted, transfer_from,
  transfer_files,
}

unfoldable pub contains : String → List String → Bool
contains p [] = false
contains p (q ∷ qs) = let rest = contains p qs in if str_eq q p then true else rest

abbrev is_missing : OnDisk → Bool
is_missing missing = true
is_missing _ = false

abbrev is_readable : OnDisk → Bool
is_readable readable = true
is_readable _ = false

module _ (extension : String → String) (on_disk : String → OnDisk) where
  -- Nothing is lost with the path: it is a torrent, there is no file, or the file was saved.
  unfoldable pub may_go : List String → String → Bool
  unfolding contains
  may_go saved p =
      if str_eq (extension p) ".torrent"
      then true
      else if is_missing (on_disk p)
      then true
      else contains p saved

  may_go_more :
      (saved : List String) (p q : String) → may_go saved p ≡ true → may_go (q ∷ saved) p ≡ true
  unfolding may_go contains
  may_go_more saved p q h = ground (arith, h)

  All-more :
      (saved : List String) (q : String) (ps : List String)
      → All (λ p. may_go saved p ≡ true) ps
      → All (λ p. may_go (q ∷ saved) p ≡ true) ps
  All-more saved q [] h = tt
  All-more saved q (p ∷ ps) h = (may_go_more saved p q h.0, All-more saved q ps h.1)

  abbrev pub LosesNothing : Transferred → Type 0
  LosesNothing r = All (λ p. may_go r.saved p ≡ true) r.removed

module _ (extension : String → String) (on_disk : String → OnDisk) (save : String → Option String)
    (keep_file : Bool) where
  remove_if_needed-LosesNothing :
      (p : String) (r : Transferred)
      → may_go extension on_disk r.saved p ≡ true
      → LosesNothing extension on_disk r
      → LosesNothing extension on_disk (remove_if_needed extension on_disk save keep_file p r)
  unfolding remove_if_needed
  remove_if_needed-LosesNothing p r h x = elim (Bool-cases keep_file) [
    | inl e ↦ rw (e, remove_if_needed) x
    | inr e ↦ rw (e, remove_if_needed) (h, x)
  ]

  after_send-LosesNothing :
      (p : String) (d : OnDisk) (r : Transferred)
      → on_disk p ≡ d
      → LosesNothing extension on_disk r
      → LosesNothing extension on_disk
          (after_send extension on_disk save keep_file p (send_found (save p) d) r)
  unfolding after_send send_found save_result may_go contains remove_if_needed
  after_send-LosesNothing p missing r h x =
      remove_if_needed-LosesNothing p r (ground (arith, ap is_missing h)) x
  after_send-LosesNothing p readable r h x = sent (save p)
    where
      gone : may_go extension on_disk (p ∷ r.saved) p ≡ true
      gone = ground (arith, str_eq_refl p)

      sent :
          (o : Option String)
          → LosesNothing extension on_disk
              (after_send extension on_disk save keep_file p (save_result o) r)
      sent none = elim (Bool-cases keep_file) [
        | inl e ↦ rw (e, remove_if_needed) (All-more extension on_disk r.saved p r.removed x)
        | inr e ↦ rw (e, remove_if_needed) (gone, All-more extension on_disk r.saved p r.removed x)
      ]
      sent (some e) = tt
  after_send-LosesNothing p (stat_fails e) r h x = tt
  after_send-LosesNothing p (open_fails e) r h x = tt

  torrent_goes :
      (f : AriaFile) (saved : List String)
      → is_wanted extension on_disk save keep_file f ≡ false
      → str_eq f.selected "true" ≡ true
      → may_go extension on_disk saved f.path ≡ true
  unfolding is_wanted may_go
  torrent_goes f saved h e = ground (arith, h, e)

  after_file-LosesNothing :
      (f : AriaFile) (r : Transferred)
      → LosesNothing extension on_disk r
      → LosesNothing extension on_disk (after_file extension on_disk save keep_file f r)
  unfolding after_file transfer_file
  after_file-LosesNothing f r x = elim (Bool-cases (is_wanted extension on_disk save keep_file f)) [
    | inl e ↦ rw (e, after_file) (after_send-LosesNothing f.path (on_disk f.path) r refl x)
    | inr e ↦ elim (Bool-cases (str_eq f.selected "true")) [
      | inl c ↦
          rw (e, c, after_file)
            (remove_if_needed-LosesNothing f.path r (torrent_goes f r.saved e c) x)
      | inr c ↦ rw (e, c, after_file) x
    ]
  ]

  transfer_from-LosesNothing :
      (count : ℕ) (fs : List AriaFile)
      → LosesNothing extension on_disk (transfer_from extension on_disk save keep_file count fs)
  unfolding transfer_from
  transfer_from-LosesNothing count [] = tt
  transfer_from-LosesNothing count (f ∷ fs) =
      let n : ℕ = if is_wanted extension on_disk save keep_file f then suc count else count in
      after_file-LosesNothing f (transfer_from extension on_disk save keep_file n fs)
        (transfer_from-LosesNothing n fs)

  -- Whatever the files are and wherever the transfer stops, a path is removed from the disk only if
  -- it is a torrent's, nothing was there, or its file was saved to the storage.
  pub transfer_files-LosesNothing :
      (files : Option (List AriaFile))
      → LosesNothing extension on_disk (transfer_files extension on_disk save keep_file files)
  unfolding transfer_files
  transfer_files-LosesNothing none = tt
  transfer_files-LosesNothing (some []) = tt
  transfer_files-LosesNothing (some (f ∷ fs)) = transfer_from-LosesNothing 0 (f ∷ fs)

  -- The files that are to be saved and can be read.
  unfoldable pub wanted_paths : List AriaFile → List String
  wanted_paths [] = []
  wanted_paths (f ∷ fs) =
      let rest = wanted_paths fs in
      if is_wanted extension on_disk save keep_file f
      then (if is_readable (on_disk f.path) then f.path ∷ rest else rest)
      else rest

  unfoldable pub count_wanted : List AriaFile → ℕ
  count_wanted [] = 0
  count_wanted (f ∷ fs) =
      let rest = count_wanted fs in
      if is_wanted extension on_disk save keep_file f then suc rest else rest

  remove_if_needed-saved :
      (p : String) (r : Transferred)
      → ((remove_if_needed extension on_disk save keep_file p r).saved ≡ r.saved)
        × ((remove_if_needed extension on_disk save keep_file p r).error ≡ r.error)
  unfolding remove_if_needed
  remove_if_needed-saved p r = ground arith

  after_send-saved :
      (p : String) (d : OnDisk) (r : Transferred)
      → let a = after_send extension on_disk save keep_file p (send_found (save p) d) r in
        a.error ≡ none
        → (a.saved ≡ (if is_readable d then p ∷ r.saved else r.saved)) × (r.error ≡ none)
  unfolding after_send send_found save_result
  after_send-saved p missing r h = ground (arith, h, remove_if_needed-saved p r)
  after_send-saved p readable r h = sent (save p) h
    where
      sent :
          (o : Option String)
          → (after_send extension on_disk save keep_file p (save_result o) r).error ≡ none
          → ((after_send extension on_disk save keep_file p (save_result o) r).saved ≡ p ∷ r.saved)
            × (r.error ≡ none)
      sent none h = ground (arith, h, remove_if_needed-saved p r)
      sent (some e) h = ground (arith, h)
  after_send-saved p (stat_fails e) r h = ground (arith, h)
  after_send-saved p (open_fails e) r h = ground (arith, h)

  transfer_from-saved :
      (count : ℕ) (fs : List AriaFile)
      → (transfer_from extension on_disk save keep_file count fs).error ≡ none
      → ((transfer_from extension on_disk save keep_file count fs).saved ≡ wanted_paths fs)
        × (0 < count + count_wanted fs)
  unfolding transfer_from after_file transfer_file wanted_paths count_wanted
  transfer_from-saved count [] h = ground (arith, h)
  transfer_from-saved count (f ∷ fs) h =
      let n : ℕ = if is_wanted extension on_disk save keep_file f then suc count else count in
      let r = transfer_from extension on_disk save keep_file n fs in
      ground (
        arith,
        h,
        transfer_from-saved n fs,
        after_send-saved f.path (on_disk f.path) r,
        remove_if_needed-saved f.path r,
      )

  -- A transfer without an error has saved all the files of the status that are selected, no torrents
  -- and readable, in order and nothing else, and at least one file was selected that is no torrent,
  -- though it may be one that was not on the disk.
  pub transfer_files-saved :
      (f : AriaFile) (fs : List AriaFile)
      → (transfer_files extension on_disk save keep_file (some (f ∷ fs))).error ≡ none
      → ((transfer_files extension on_disk save keep_file (some (f ∷ fs))).saved
          ≡ wanted_paths (f ∷ fs))
        × (0 < count_wanted (f ∷ fs))
  unfolding transfer_files
  transfer_files-saved f fs h = ground (arith, transfer_from-saved 0 (f ∷ fs) h)
