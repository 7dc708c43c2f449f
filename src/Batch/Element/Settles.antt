-- ===== src/Batch/Element/Settles.antt =====
-- How the record of an element ends after `processElement` of core/tasks/batchtfile/execute.go.
use save_any_bot.Prelude.{
  ℕ, refl, sym, subst, Bool, true, false, String, Option, none, some, List, [], ◌∷◌, if◌then◌else◌,
  str_eq_refl,
}
use save_any_bot.TaskEvent.{TaskError}
use save_any_bot.Batch.Items.{
  Items, FailureStage, stage_cache, stage_upload, stage_download, record_item_downloaded,
  mark_item_failed, mark_item_completed,
}
use save_any_bot.Batch.Items.Index.{item_of, WellIndexed, update_item-WellIndexed}
use save_any_bot.Batch.Upload.{start_upload, record_download_complete}
use save_any_bot.Batch.Upload.Records.{start_upload-items}
use save_any_bot.Batch.Saving.Loops.{
  is_end, EndsAs, update_item-EndsAs, mark_item_failed_end, mark_item_failed_again,
  update_item-EndsAs_again, mark_item_failed-KeepsId, mark_item_completed-KeepsId,
}
use save_any_bot.Batch.Groups.{TaskElement}
use save_any_bot.Batch.Element.{
  Happens, Work, change, fail, record_chunks, callback, run_attempts, settle_element,
  complete_download, upload_element, process_cached, create_cache, unless_failed, remove_cache,
  fail_each, end_stream, streamed_bytes, process_element,
}
use save_any_bot.Batch.Element.Touches.{
  Touches, Touches-refl, Touches-trans, items_of, update_item-Touches, callback-Touches,
  record_chunks-Touches, run_attempts-Touches, record_item_downloaded-KeepsId,
}

-- The record of `id` has ended as the error says, and the others are as they were.
pub record Settles (id : String) (t : Items) (r : Work × Option TaskError) : Type 0 where
  pub touches : Touches id t (items_of r.0)
  pub ended : EndsAs r.1 (items_of r.0) id

fail-Settles :
    (id : String) (stage : FailureStage) (e : TaskError) (t : Items) (w : Work)
    → Touches id t (items_of w)
    → Settles id t (fail id stage e w)
unfolding fail change
fail-Settles id stage e t w x = record {
  touches = Touches-trans id _ _ _ x (
      update_item-Touches id (items_of w) (mark_item_failed stage e)
        (mark_item_failed-KeepsId stage e) x.indexed);
  ended =
      update_item-EndsAs (some e) (items_of w) id id (mark_item_failed stage e) x.indexed
        (str_eq_refl id) (mark_item_failed_end stage e);
}

complete-Settles :
    (id : String) (t : Items) (w : Work)
    → Touches id t (items_of w)
    → Settles id t (change id mark_item_completed w, none)
unfolding change
complete-Settles id t w x = record {
  touches = Touches-trans id _ _ _ x (
      update_item-Touches id (items_of w) mark_item_completed mark_item_completed-KeepsId
        x.indexed);
  ended =
      update_item-EndsAs none (items_of w) id id mark_item_completed x.indexed (str_eq_refl id)
        (λ item. unfold mark_item_completed is_end in refl);
}

settle_element-Settles :
    (id : String) (size now : ℕ) (o : Option TaskError) (t : Items) (r : Work × FailureStage)
    → Touches id t (items_of r.0)
    → Settles id t (settle_element id size now o r)
unfolding settle_element callback
settle_element-Settles id size now (some e) t (w, stage) x = fail-Settles id stage e t w x
settle_element-Settles id size now none t (w, stage) x =
    complete-Settles id t (callback id size size now w)
      (Touches-trans id _ _ _ x (callback-Touches id w.uploads size size now x.indexed))

complete_download-Touches :
    (id : String) (size : ℕ) (t : Items) (w : Work)
    → Touches id t (items_of w)
    → Touches id t (items_of (complete_download id size w))
unfolding complete_download record_download_complete
complete_download-Touches id size t w x = Touches-trans id _ _ _ x (
    update_item-Touches id (items_of w) (record_item_downloaded size)
      (record_item_downloaded-KeepsId size) x.indexed)

upload_element-Settles :
    (limit : ℕ) (id : String) (h : Happens) (t : Items) (w : Work)
    → Touches id t (items_of w)
    → Settles id t (upload_element limit id h w)
unfolding upload_element
upload_element-Settles limit id h t w x =
    let counted = complete_download id h.size w in
    let begun : Work = record counted { uploads = (start_upload counted.uploads).0 } in
    let y = complete_download-Touches id h.size t w x in
    let z : Touches id t (items_of begun) =
      subst (Touches id t) (sym (start_upload-items counted.uploads)) y in
    settle_element-Settles id h.size h.ended h.result t
      (run_attempts limit id h.size 0 stage_upload h.attempts begun)
      (Touches-trans id _ _ _ z
        (run_attempts-Touches limit id h.size 0 stage_upload h.attempts begun z.indexed))

unless_failed-Settles :
    (id : String) (stage : FailureStage) (o : Option TaskError) (t : Items) (w : Work)
    (body : Work → Work × Option TaskError)
    → Touches id t (items_of w)
    → Settles id t (body w)
    → Settles id t (unless_failed id stage o w body)
unfolding unless_failed
unless_failed-Settles id stage none t w body x b = b
unless_failed-Settles id stage (some e) t w body x b = fail-Settles id stage e t w x

remove_cache-Settles :
    (id : String) (o : Option TaskError) (path : String) (t : Items) (r : Work × Option TaskError)
    → Settles id t r
    → Settles id t (remove_cache o path r)
unfolding remove_cache
remove_cache-Settles id o path t r s = go o r s
  where
    go :
        (o : Option TaskError) (r : Work × Option TaskError)
        → Settles id t r
        → Settles id t (remove_cache o path r)
    go none (w, e) s = record { touches = s.touches; ended = s.ended }
    go (some err) (w, e) s = s

fail_each-Touches :
    (id : String) (fs : List (FailureStage × TaskError)) (t : Items) (w : Work)
    → Touches id t (items_of w)
    → Touches id t (items_of (fail_each id fs w))
unfolding fail_each change
fail_each-Touches id [] t w x = x
fail_each-Touches id ((stage, e) ∷ fs) t w x =
    fail_each-Touches id fs t (change id (mark_item_failed stage e) w) (
      Touches-trans id _ _ _ x (
        update_item-Touches id (items_of w) (mark_item_failed stage e)
          (mark_item_failed-KeepsId stage e) x.indexed))

fail_each-EndsAs :
    (id : String) (e : TaskError) (fs : List (FailureStage × TaskError)) (w : Work)
    → WellIndexed (items_of w)
    → EndsAs (some e) (items_of w) id
    → EndsAs (some e) (items_of (fail_each id fs w)) id
unfolding fail_each change
fail_each-EndsAs id e [] w i h = h
fail_each-EndsAs id e ((stage, e') ∷ fs) w i h =
    fail_each-EndsAs id e fs (change id (mark_item_failed stage e') w)
      (update_item-WellIndexed (items_of w) id (mark_item_failed stage e')
        (mark_item_failed-KeepsId stage e') i)
      (update_item-EndsAs_again (some e) (items_of w) id (mark_item_failed stage e') i
        (mark_item_failed_again stage e e') h)

end_stream-Settles :
    (id : String) (fs : List (FailureStage × TaskError)) (t : Items) (w : Work)
    → Touches id t (items_of w)
    → Settles id t (end_stream id fs w)
unfolding end_stream fail_each fail
end_stream-Settles id [] t w x =
    let n = streamed_bytes (item_of (items_of w) id) in
    complete-Settles id t (complete_download id n w) (complete_download-Touches id n t w x)
end_stream-Settles id ((stage, e) ∷ fs) t w x =
    let y = fail-Settles id stage e t w x in
    let v = (fail id stage e w).0 in
    record {
      touches = fail_each-Touches id fs t v y.touches;
      ended = fail_each-EndsAs id e fs v y.touches.indexed y.ended;
    }

process_cached-Settles :
    (limit : ℕ) (elem : TaskElement) (h : Happens) (w : Work)
    → WellIndexed (items_of w)
    → Settles elem.id (items_of w) (process_cached limit elem h w)
unfolding process_cached create_cache
process_cached-Settles limit elem h w i =
    let id = elem.id in
    let t = items_of w in
    let v = record_chunks id h.chunks (create_cache elem.local_path w) in
    let x = record_chunks-Touches id h.chunks (create_cache elem.local_path w) i in
    unless_failed-Settles id stage_cache h.created t w _ (Touches-refl id t i) (
      remove_cache-Settles id h.removed elem.local_path t _ (
        unless_failed-Settles id stage_download h.downloads t v _ x (
          unless_failed-Settles id stage_cache h.stat t v _ x
            (upload_element-Settles limit id h t v x))))

-- When the processing of an element ends, in either mode and whatever failed, its record has ended as
-- the error says: it is completed if there is none; otherwise it is failed or completed, or stopped if
-- the error is the cancellation. The records of the other elements are as they were.
pub process_element-Settles :
    (limit : ℕ) (elem : TaskElement) (h : Happens) (w : Work)
    → WellIndexed w.uploads.items
    → Settles elem.id w.uploads.items (process_element limit elem h w)
unfolding process_element
process_element-Settles limit elem h w i = either elem.stream
  where
    either :
        (b : Bool)
        → Settles elem.id w.uploads.items (
            if b
            then end_stream elem.id h.failures (record_chunks elem.id h.chunks w)
            else process_cached limit elem h w)
    either true =
        end_stream-Settles elem.id h.failures w.uploads.items _
          (record_chunks-Touches elem.id h.chunks w i)
    either false = process_cached-Settles limit elem h w i
