-- ===== src/Batch/Element/Cache.antt =====
-- The cache files and the marks of `processBatch` in core/tasks/batchtfile/execute.go.
use save_any_bot.Prelude.{
  ◌≢◌, subst, str_eq_iff, All, ℕ, ◌≡◌, refl, ap, ◌∙◌, Bool, true, false, not, String, Option, none,
  some, List, [], ◌∷◌, if◌then◌else◌, str_eq, str_eq_refl, keep, arith, Bool-cases, inl, inr, ◌⊎◌,
}
use save_any_bot.TaskEvent.{TaskError}
use save_any_bot.Batch.Items.{
  ItemState, FailureStage, stage_cache, stage_download, mark_item_active, mark_item_downloaded,
}
use save_any_bot.Batch.Saving.{ProgressCall}
use save_any_bot.Batch.Groups.{TaskElement}
use save_any_bot.Batch.Element.{
  Chunk, Happens, Work, change, fail, record_chunks, create_cache, remove_path, remove_cache,
  unless_failed, complete_download, is_listed, unmark, guarded, already_processed,
}
use save_any_bot.Batch.Element.Download.{
  download_element, download_all, open_all, complete_downloads, save_opened, save_good,
  after_downloads, remove_all, process_batch,
}

-- Two works with the same cache files and marks.
record Same (w v : Work) : Type 0 where
  cache : v.cache ≡ w.cache
  marks : v.processing ≡ w.processing

Same-trans : (w v u : Work) → Same w v → Same v u → Same w u
Same-trans w v u a b = record { cache = b.cache ∙ a.cache; marks = b.marks ∙ a.marks }

change-Same : (id : String) (f : ItemState → ItemState) (w : Work) → Same w (change id f w)
unfolding change
change-Same id f w = record { cache = refl; marks = refl }

record_chunks-Same : (id : String) (cs : List Chunk) (w : Work) → Same w (record_chunks id cs w)
unfolding record_chunks change
record_chunks-Same id [] w = record { cache = refl; marks = refl }
record_chunks-Same id (c ∷ cs) w =
    let r = record_chunks-Same id cs _ in record { cache = r.cache; marks = r.marks }

open_all-Same : (elems : List (TaskElement × Happens)) (w : Work) → Same w (open_all elems w).0
unfolding open_all
open_all-Same [] w = record { cache = refl; marks = refl }
open_all-Same ((elem, h) ∷ elems) w = either h.stat (open_all-Same elems w)
  where
    either :
        (o : Option TaskError)
        → Same w (open_all elems w).0
        → Same w (unless_failed elem.id stage_cache o w λ v. open_all elems v).0
    either none s = unfold unless_failed in s
    either (some e) s = unfold unless_failed fail in change-Same elem.id _ w

complete_downloads-Same :
    (elems : List (TaskElement × Happens)) (w : Work) → Same w (complete_downloads elems w)
unfolding complete_downloads complete_download
complete_downloads-Same [] w = record { cache = refl; marks = refl }
complete_downloads-Same ((elem, h) ∷ elems) w =
    let r = complete_downloads-Same elems (complete_download elem.id h.size w) in
    record { cache = r.cache; marks = r.marks }

save_opened-Same :
    (good : List (TaskElement × Happens)) (calls : List ProgressCall) (error : Option TaskError)
    (now : ℕ) (r : Work × Option TaskError)
    → Same r.0 (save_opened good calls error now r).0
unfolding save_opened
save_opened-Same good calls error now (w, some e) = record { cache = refl; marks = refl }
save_opened-Same good calls error now (w, none) =
    let s = complete_downloads-Same good w in record { cache = s.cache; marks = s.marks }

save_good-Same :
    (calls : List ProgressCall) (error : Option TaskError) (now : ℕ)
    (good : List (TaskElement × Happens)) (w : Work)
    → Same w (save_good calls error now good w).0
unfolding save_good
save_good-Same calls error now [] w = record { cache = refl; marks = refl }
save_good-Same calls error now (g ∷ good) w =
    Same-trans w (open_all (g ∷ good) w).0 _ (open_all-Same (g ∷ good) w)
      (save_opened-Same (g ∷ good) calls error now (open_all (g ∷ good) w))

after_downloads-Same :
    (calls : List ProgressCall) (error : Option TaskError) (now : ℕ) (o : Option TaskError)
    (good : List (TaskElement × Happens)) (w : Work)
    → Same w (after_downloads calls error now o good w).0
unfolding after_downloads
after_downloads-Same calls error now (some e) good w = record { cache = refl; marks = refl }
after_downloads-Same calls error now none good w = save_good-Same calls error now good w

-- The paths that are left when those of some elements are removed.
unfoldable pub without : List (TaskElement × Happens) → List String → List String
unfolding remove_path
without [] c = c
without ((elem, h) ∷ elems) c = without elems (remove_path elem.local_path c)

unfoldable has_path : String → List (TaskElement × Happens) → Bool
has_path p [] = false
has_path p ((elem, h) ∷ elems) =
    let rest = has_path p elems in if str_eq p elem.local_path then true else rest

without-cons :
    (elems : List (TaskElement × Happens)) (p : String) (c : List String)
    → has_path p elems ≡ true
    → without elems (p ∷ c) ≡ without elems c
unfolding without has_path
without-cons [] p c h = absurd (ground (arith, h))
without-cons ((elem, x) ∷ elems) p c h = elim (Bool-cases (str_eq p elem.local_path)) [
  | inl e ↦ rw e refl
  | inr e ↦
      let in_rest : has_path p elems ≡ true = ground (arith, h, e) in
      rw e (without-cons elems p (remove_path elem.local_path c) in_rest)
]

-- Apart from the cache files of some elements the works are the same.
record Within (elems : List (TaskElement × Happens)) (w v : Work) : Type 0 where
  cache : without elems v.cache ≡ without elems w.cache
  marks : v.processing ≡ w.processing

Same-Within : (elems : List (TaskElement × Happens)) (w v : Work) → Same w v → Within elems w v
Same-Within elems w v s = record { cache = ap (without elems) s.cache; marks = s.marks }

Within-trans :
    (elems : List (TaskElement × Happens)) (w v u : Work)
    → Within elems w v
    → Within elems v u
    → Within elems w u
Within-trans elems w v u a b = record { cache = b.cache ∙ a.cache; marks = b.marks ∙ a.marks }

unless_failed-Within :
    (elems : List (TaskElement × Happens)) (id : String) (stage : FailureStage)
    (o : Option TaskError) (w v : Work) (body : Work → Work × Option TaskError)
    → Within elems w v
    → Within elems w (body v).0
    → Within elems w (unless_failed id stage o v body).0
unfolding unless_failed fail
unless_failed-Within elems id stage none w v body a b = b
unless_failed-Within elems id stage (some e) w v body a b =
    Within-trans elems w v _ a (Same-Within elems v _ (change-Same id _ v))

download_element-Within :
    (elems : List (TaskElement × Happens)) (elem : TaskElement) (h : Happens) (w : Work)
    → has_path elem.local_path elems ≡ true
    → Within elems w (download_element elem h w).0
unfolding download_element
download_element-Within elems elem h w p =
    let made = create_cache elem.local_path w in
    let loaded = record_chunks elem.id h.chunks made in
    let a : Within elems w made =
      unfold create_cache in
      record { cache = without-cons elems elem.local_path w.cache p; marks = refl } in
    let b =
      Within-trans elems w made loaded a
        (Same-Within elems made loaded (record_chunks-Same elem.id h.chunks made)) in
    unless_failed-Within elems elem.id stage_cache h.created w w _
      (record { cache = refl; marks = refl })
      (unless_failed-Within elems elem.id stage_download h.downloads w loaded _ b (
        unless_failed-Within elems elem.id stage_cache h.closed w loaded _ b (
          Within-trans elems w loaded _ b
            (Same-Within elems loaded _ (change-Same elem.id mark_item_downloaded loaded)))))

unlisted-keep :
    (id : String) (xs : List String)
    → is_listed id xs ≡ false
    → keep (λ x. not (str_eq x id)) (id ∷ xs) ≡ xs
unfolding is_listed
unlisted-keep id [] h = ground (arith, str_eq_refl id)
unlisted-keep id (x ∷ xs) h = ground (arith, h, str_eq_refl id, unlisted-keep id xs)

unmark-Within :
    (elems : List (TaskElement × Happens)) (ignore_errors : Bool) (id : String) (w : Work)
    (r : Work × Option TaskError)
    → is_listed id w.processing ≡ false
    → without elems r.0.cache ≡ without elems w.cache
    → r.0.processing ≡ id ∷ w.processing
    → Within elems w (unmark ignore_errors id r).work
unfolding unmark
unmark-Within elems ignore_errors id w (v, e) n c p = record {
  cache = c;
  marks = ap (keep (λ x. not (str_eq x id))) p ∙ unlisted-keep id w.processing n;
}

guarded-Within :
    (elems : List (TaskElement × Happens)) (ignore_errors : Bool) (elem : TaskElement) (now : ℕ)
    (body : Work → Work × Option TaskError) (w : Work)
    → ((v : Work) → Within elems v (body v).0)
    → Within elems w (guarded ignore_errors elem now body w).work
unfolding guarded
guarded-Within elems ignore_errors elem now body w go = either (is_listed elem.id w.processing) refl
  where
    marked : Work
    marked = record w { processing = elem.id ∷ w.processing }

    active : Work
    active = change elem.id (mark_item_active elem.stream now) marked

    either :
        (b : Bool)
        → is_listed elem.id w.processing ≡ b
        → Within elems w
            (if b
              then record { work = w; own = some already_processed; error = some already_processed }
              else unmark ignore_errors elem.id (body active)).work
    either true q = record { cache = refl; marks = refl }
    either false q =
        let a = change-Same elem.id (mark_item_active elem.stream now) marked in
        let s = go active in
        unmark-Within elems ignore_errors elem.id w (body active) q
          (s.cache ∙ ap (without elems) a.cache) (s.marks ∙ a.marks)

download_all-Within :
    (all : List (TaskElement × Happens)) (ignore_errors : Bool)
    (elems : List (TaskElement × Happens)) (w : Work)
    → ((p : String) → (has_path p elems ≡ false) ⊎ (has_path p all ≡ true))
    → Within all w (download_all ignore_errors elems w).work
unfolding download_all has_path
download_all-Within all ignore_errors [] w h = record { cache = refl; marks = refl }
download_all-Within all ignore_errors ((elem, x) ∷ elems) w h =
    let in_all : has_path elem.local_path all ≡ true =
      ground (arith, h elem.local_path, str_eq_refl elem.local_path) in
    let ran = guarded ignore_errors elem x.started (download_element elem x) w in
    let a : Within all w ran.work =
      guarded-Within all ignore_errors elem x.started (download_element elem x) w
        (λ v. download_element-Within all elem x v in_all) in
    Within-trans all w ran.work _ a
      (download_all-Within all ignore_errors elems ran.work (λ p. ground (arith, h p)))

remove_path_comm :
    (p q : String) (c : List String)
    → remove_path q (remove_path p c) ≡ remove_path p (remove_path q c)
unfolding remove_path
remove_path_comm p q [] = refl
remove_path_comm p q (x ∷ xs) = ground (arith, remove_path_comm p q xs)

remove_path_twice :
    (p : String) (c : List String) → remove_path p (remove_path p c) ≡ remove_path p c
unfolding remove_path
remove_path_twice p [] = refl
remove_path_twice p (x ∷ xs) = ground (arith, remove_path_twice p xs)

unlisted-remove_path :
    (p q : String) (c : List String) → is_listed q c ≡ false → is_listed q (remove_path p c) ≡ false
unfolding remove_path is_listed
unlisted-remove_path p q [] h = refl
unlisted-remove_path p q (x ∷ xs) h = ground (arith, h, unlisted-remove_path p q xs)

removed-remove_path : (p : String) (c : List String) → is_listed p (remove_path p c) ≡ false
unfolding remove_path is_listed
removed-remove_path p [] = refl
removed-remove_path p (x ∷ xs) = ground (arith, removed-remove_path p xs)

-- Removing the cache file of an element changes nothing apart from the files of the elements.
without-remove_path :
    (elems : List (TaskElement × Happens)) (p : String) (c : List String)
    → has_path p elems ≡ true
    → without elems (remove_path p c) ≡ without elems c
unfolding without has_path
without-remove_path [] p c h = absurd (ground (arith, h))
without-remove_path ((elem, x) ∷ elems) p c h = elim (Bool-cases (str_eq p elem.local_path)) [
  | inl e ↦
      let same : p ≡ elem.local_path = ground (arith, e, str_eq_iff p elem.local_path) in
      ap (without elems) (
        subst (λ q. remove_path q (remove_path p c) ≡ remove_path q c) same (remove_path_twice p c))
  | inr e ↦
      let in_rest : has_path p elems ≡ true = ground (arith, h, e) in
      ap (without elems) (remove_path_comm p elem.local_path c)
      ∙ without-remove_path elems p (remove_path elem.local_path c) in_rest
]

remove_cache-Within :
    (all : List (TaskElement × Happens)) (o : Option TaskError) (p : String)
    (r : Work × Option TaskError)
    → has_path p all ≡ true
    → Within all r.0 (remove_cache o p r).0
unfolding remove_cache
remove_cache-Within all none p (w, e) h = record {
  cache = without-remove_path all p w.cache h;
  marks = refl;
}
remove_cache-Within all (some err) p (w, e) h = record { cache = refl; marks = refl }

remove_all-Within :
    (all elems : List (TaskElement × Happens)) (r : Work × Option TaskError)
    → ((p : String) → (has_path p elems ≡ false) ⊎ (has_path p all ≡ true))
    → Within all r.0 (remove_all elems r).0
unfolding remove_all has_path
remove_all-Within all [] r h = record { cache = refl; marks = refl }
remove_all-Within all ((elem, x) ∷ elems) r h =
    let in_all : has_path elem.local_path all ≡ true =
      ground (arith, h elem.local_path, str_eq_refl elem.local_path) in
    let next = remove_cache x.removed elem.local_path r in
    Within-trans all r.0 next.0 _ (remove_cache-Within all x.removed elem.local_path r in_all)
      (remove_all-Within all elems next (λ p. ground (arith, h p)))

unlisted-remove_all :
    (elems : List (TaskElement × Happens)) (p : String) (r : Work × Option TaskError)
    → is_listed p r.0.cache ≡ false
    → is_listed p (remove_all elems r).0.cache ≡ false
unfolding remove_all
unlisted-remove_all [] p r h = h
unlisted-remove_all ((elem, x) ∷ elems) p r h =
    unlisted-remove_all elems p (remove_cache x.removed elem.local_path r) (go x.removed r h)
  where
    go :
        (o : Option TaskError) (r : Work × Option TaskError)
        → is_listed p r.0.cache ≡ false
        → is_listed p (remove_cache o elem.local_path r).0.cache ≡ false
    go none (w, e) h = unfold remove_cache in unlisted-remove_path elem.local_path p w.cache h
    go (some err) (w, e) h = unfold remove_cache in h

-- The cache file of the element is gone, if removing it went well.
abbrev pub IsCleaned : List String → TaskElement × Happens → Type 0
IsCleaned cache eh = (eh.1.removed ≢ none) ⊎ (is_listed eh.0.local_path cache ≡ false)

remove_all-IsCleaned :
    (elems : List (TaskElement × Happens)) (r : Work × Option TaskError)
    → All (IsCleaned (remove_all elems r).0.cache) elems
unfolding remove_all
remove_all-IsCleaned [] r = tt
remove_all-IsCleaned ((elem, x) ∷ elems) r =
    (go x.removed refl, remove_all-IsCleaned elems (remove_cache x.removed elem.local_path r))
  where
    go :
        (o : Option TaskError)
        → x.removed ≡ o
        → (x.removed ≢ none)
          ⊎ (is_listed elem.local_path (remove_all elems (remove_cache o elem.local_path r)).0.cache
              ≡ false)
    go none e = inr (
        unlisted-remove_all elems elem.local_path (remove_cache none elem.local_path r)
          (unfold remove_cache in removed-remove_path elem.local_path r.0.cache))
    go (some err) e = inl (λ n. absurd (cc (e, n)))

-- When the processing of a batch ends, whatever failed and at which element: the cache file of each
-- element is gone unless removing it gave an error, the files other than those of the elements are as
-- they were, and so are the marks of the elements that are being processed.
pub process_batch-cache :
    (ignore_errors : Bool) (elems : List (TaskElement × Happens)) (calls : List ProgressCall)
    (error : Option TaskError) (now : ℕ) (w : Work)
    → let v = (process_batch ignore_errors elems calls error now w).0 in
      All (IsCleaned v.cache) elems
      × (without elems v.cache ≡ without elems w.cache)
      × (v.processing ≡ w.processing)
unfolding process_batch
process_batch-cache ignore_errors elems calls error now w =
    let d = download_all ignore_errors elems w in
    let after = after_downloads calls error now d.error d.good d.work in
    let a = download_all-Within elems ignore_errors elems w (λ p. listed (has_path p elems)) in
    let s = after_downloads-Same calls error now d.error d.good d.work in
    let r = remove_all-Within elems elems after (λ p. listed (has_path p elems)) in
    (
      remove_all-IsCleaned elems after,
      r.cache ∙ ap (without elems) s.cache ∙ a.cache,
      r.marks ∙ s.marks ∙ a.marks,
    )
  where
    listed : (b : Bool) → (b ≡ false) ⊎ (b ≡ true)
    listed true = inr refl
    listed false = inl refl
