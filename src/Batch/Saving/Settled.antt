-- ===== src/Batch/Saving/Settled.antt =====
-- The records of the elements after `saveBatchItems` of core/tasks/batchtfile/execute.go.
use save_any_bot.Prelude.{
  ℕ, ◌≡◌, refl, ap, ◌∙◌, sym, subst, true, false, String, Option, none, some, List, [], ◌∷◌,
  get_elem?, zero, suc, arith, str_eq, Bool-cases, inl, inr, ◌⊎◌,
}
use save_any_bot.TaskEvent.{TaskError}
use save_any_bot.Batch.Items.Index.{item_of, WellIndexed}
use save_any_bot.Batch.Upload.{Uploads, start_upload}
use save_any_bot.Batch.Upload.Records.{
  Spares, callback-Spares, callback-WellIndexed, start_upload-items,
}
use save_any_bot.Batch.Saving.{
  BatchItem, ProgressCall, make_calls, call_at, settle_batch, save_batch_items,
}
use save_any_bot.Batch.Saving.Loops.{in_batch, EndsAs, Loop, fail_all-Loop, complete_all-Loop}

call_at-Spares :
    (j : String) (u : Uploads) (c : ProgressCall) (o : Option BatchItem)
    → WellIndexed u.items
    → ((b : BatchItem) → o ≡ some b → str_eq b.id j ≡ false)
    → Spares j u.items (call_at u c o).0.items
unfolding call_at
call_at-Spares j u c none w h = record { indexed = w; same = refl }
call_at-Spares j u c (some b) w h = callback-Spares u b.id c.uploaded c.total c.now j w (h b refl)

call_at-WellIndexed :
    (u : Uploads) (c : ProgressCall) (o : Option BatchItem)
    → WellIndexed u.items
    → WellIndexed (call_at u c o).0.items
unfolding call_at
call_at-WellIndexed u c none w = w
call_at-WellIndexed u c (some b) w = callback-WellIndexed u b.id c.uploaded c.total c.now w

not_found-get_elem? :
    (j : String) (bs : List BatchItem) (i : ℕ) (b : BatchItem)
    → in_batch j bs ≡ false
    → get_elem? bs i ≡ some b
    → str_eq b.id j ≡ false
unfolding in_batch
not_found-get_elem? j [] i b h e = ground (arith, e)
not_found-get_elem? j (x ∷ xs) zero b h e =
    let same : x ≡ b = ground (arith, e) in
    ground (arith, h, ap (λ (y : BatchItem). str_eq y.id j) same)
not_found-get_elem? j (x ∷ xs) (suc i) b h e = not_found-get_elem? j xs i b (ground (arith, h)) e

make_calls-WellIndexed :
    (bs : List BatchItem) (u : Uploads) (cs : List ProgressCall)
    → WellIndexed u.items
    → WellIndexed (make_calls bs u cs).0.items
unfolding make_calls
make_calls-WellIndexed bs u [] w = w
make_calls-WellIndexed bs u (c ∷ cs) w =
    make_calls-WellIndexed bs (call_at u c (get_elem? bs c.place)).0 cs
      (call_at-WellIndexed u c (get_elem? bs c.place) w)

make_calls-item_of :
    (j : String) (bs : List BatchItem) (u : Uploads) (cs : List ProgressCall)
    → WellIndexed u.items
    → in_batch j bs ≡ false
    → item_of (make_calls bs u cs).0.items j ≡ item_of u.items j
unfolding make_calls
make_calls-item_of j bs u [] w h = refl
make_calls-item_of j bs u (c ∷ cs) w h =
    let x =
      call_at-Spares j u c (get_elem? bs c.place) w
        (λ b e. not_found-get_elem? j bs c.place b h e) in
    make_calls-item_of j bs (call_at u c (get_elem? bs c.place)).0 cs x.indexed h ∙ x.same

settle_batch-Loop :
    (now : ℕ) (j : String) (bs : List BatchItem) (error : Option TaskError) (u : Uploads)
    → WellIndexed u.items
    → Loop error j u.items bs (settle_batch now bs error u).0.items
unfolding settle_batch
settle_batch-Loop now j bs none u w = complete_all-Loop now j u bs w
settle_batch-Loop now j bs (some e) u w = fail_all-Loop e j u.items bs w

-- After the upload of a batch, whatever progress the storage reported and for whichever places, each
-- element of the batch has ended as the error says: all are completed if there is none, and
-- otherwise each is failed or completed, or stopped if the error is the cancellation. The records of
-- all other elements are as they were.
pub save_batch_items-EndsAs :
    (bs : List BatchItem) (cs : List ProgressCall) (error : Option TaskError) (now : ℕ)
    (u : Uploads) (j : String)
    → WellIndexed u.items
    → ((in_batch j bs ≡ true) × EndsAs error (save_batch_items bs cs error now u).0.items j)
      ⊎ ((in_batch j bs ≡ false)
          × (item_of (save_batch_items bs cs error now u).0.items j ≡ item_of u.items j))
unfolding save_batch_items
save_batch_items-EndsAs bs cs error now u j w =
    let started = (start_upload u).0 in
    let called = (make_calls bs started cs).0 in
    let w' : WellIndexed started.items = subst WellIndexed (sym (start_upload-items u)) w in
    let x = settle_batch-Loop now j bs error called (make_calls-WellIndexed bs started cs w') in
    elim (Bool-cases (in_batch j bs)) [
      | inl h ↦ inl (h, x.ended (inr h))
      | inr h ↦ inr (
        h,
        x.spared h
            ∙ make_calls-item_of j bs started cs w' h
            ∙ ap (λ t. item_of t j) (start_upload-items u),
      )
    ]
