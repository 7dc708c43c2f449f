-- ===== src/Batch/Saving/Loops.antt =====
-- The loops at the end of `saveBatchItems` of core/tasks/batchtfile/execute.go.
use save_any_bot.Prelude.{
  ℕ, ◌≡◌, refl, ap, ◌∙◌, sym, Bool, true, false, String, Option, none, some, List, [], ◌∷◌,
  if◌then◌else◌, arith, str_eq, str_eq_refl, Bool-cases, inl, inr, ◌⊎◌,
}
use save_any_bot.TaskEvent.{TaskError}
use save_any_bot.Batch.Items.{
  Items, ItemState, ItemPhase, FailureStage, waiting, downloading, transferring, downloaded,
  uploading, retrying, confirming, completed, failed, stopped, update_item, mark_item_failed,
  mark_item_completed, stage_batch_upload,
}
use save_any_bot.Batch.Items.Index.{
  item_of, WellIndexed, KeepsId, after, update_item-item_of, update_item-WellIndexed,
}
use save_any_bot.Batch.Upload.{Uploads, upload_callback}
use save_any_bot.Batch.Upload.Records.{callback-Spares, callback-WellIndexed, update_item-Spares}
use save_any_bot.Batch.Saving.{BatchItem, fail_all, complete_all}

unfoldable pub in_batch : String → List BatchItem → Bool
in_batch j [] = false
in_batch j (b ∷ bs) = let rest = in_batch j bs in if str_eq b.id j then true else rest

-- How an element of the batch may end: completed without an error; otherwise stopped by a
-- cancellation, or failed, unless it was completed before.
unfoldable pub is_end : Option TaskError → ItemPhase → Bool
is_end none completed = true
is_end none _ = false
is_end (some e) completed = true
is_end (some e) failed = true
is_end (some e) stopped = e.is_canceled
is_end (some e) _ = false

abbrev pub EndsAs : Option TaskError → Items → String → Type 0
EndsAs error t j = (item : ItemState) → item_of t j ≡ some item → is_end error item.phase ≡ true

after_some :
    (f : ItemState → ItemState) (o : Option ItemState) (item : ItemState)
    → after f o ≡ some item
    → (old : ItemState) × (item ≡ f old) × (o ≡ some old)
after_some f none item h = ground arith
after_some f (some old) item h = (old, ground (arith, h), refl)

-- An update that ends every record in the right way ends that of its element so.
pub update_item-EndsAs :
    (error : Option TaskError) (t : Items) (id j : String) (f : ItemState → ItemState)
    → WellIndexed t
    → str_eq id j ≡ true
    → ((item : ItemState) → is_end error (f item).phase ≡ true)
    → EndsAs error (update_item t id f).0 j
update_item-EndsAs error t id j f w h good item e =
    let p : after f (item_of t j) ≡ some item =
      ap (λ b. if b then after f (item_of t j) else item_of t j) (sym h)
      ∙ sym (update_item-item_of t id f j w)
      ∙ e in
    let (old, q, was) = after_some f (item_of t j) item p in
    ap (λ (i : ItemState). is_end error i.phase) q ∙ good old

-- A later failure does not undo an end.
pub mark_item_failed_again :
    (stage : FailureStage) (e e' : TaskError) (item : ItemState)
    → is_end (some e) item.phase ≡ true
    → is_end (some e) (mark_item_failed stage e' item).phase ≡ true
unfolding mark_item_failed is_end
mark_item_failed_again stage e e' item h = phased item.phase e'.is_canceled h
  where
    phased :
        (p : ItemPhase) (b : Bool)
        → is_end (some e) p ≡ true
        → let x : TaskError = record { is_canceled = b; message = e'.message } in
          is_end (some e) (mark_item_failed stage x (record item { phase = p })).phase ≡ true
    phased completed b g = refl
    phased failed b g = refl
    phased stopped true g = g
    phased stopped false g = refl
    phased waiting b g = absurd (ground (arith, g))
    phased downloading b g = absurd (ground (arith, g))
    phased transferring b g = absurd (ground (arith, g))
    phased downloaded b g = absurd (ground (arith, g))
    phased uploading b g = absurd (ground (arith, g))
    phased retrying b g = absurd (ground (arith, g))
    phased confirming b g = absurd (ground (arith, g))

pub mark_item_failed_end :
    (stage : FailureStage) (e : TaskError) (item : ItemState)
    → is_end (some e) (mark_item_failed stage e item).phase ≡ true
unfolding mark_item_failed is_end
mark_item_failed_end stage e item = phased item.phase e.is_canceled
  where
    phased :
        (p : ItemPhase) (b : Bool)
        → let e' : TaskError = record { is_canceled = b; message = e.message } in
          is_end (some e') (mark_item_failed stage e' (record item { phase = p })).phase ≡ true
    phased completed b = refl
    phased failed b = refl
    phased waiting true = refl
    phased waiting false = refl
    phased downloading true = refl
    phased downloading false = refl
    phased transferring true = refl
    phased transferring false = refl
    phased downloaded true = refl
    phased downloaded false = refl
    phased uploading true = refl
    phased uploading false = refl
    phased retrying true = refl
    phased retrying false = refl
    phased confirming true = refl
    phased confirming false = refl
    phased stopped true = refl
    phased stopped false = refl

pub mark_item_failed-KeepsId :
    (stage : FailureStage) (e : TaskError) → KeepsId (mark_item_failed stage e)
unfolding mark_item_failed
mark_item_failed-KeepsId stage e item = ground arith

pub mark_item_completed-KeepsId : KeepsId mark_item_completed
unfolding mark_item_completed
mark_item_completed-KeepsId item = refl

-- An update that keeps an end keeps that of its element.
pub update_item-EndsAs_again :
    (error : Option TaskError) (t : Items) (id : String) (f : ItemState → ItemState)
    → WellIndexed t
    → ((item : ItemState) → is_end error item.phase ≡ true → is_end error (f item).phase ≡ true)
    → EndsAs error t id
    → EndsAs error (update_item t id f).0 id
update_item-EndsAs_again error t id f w keeps ended item e =
    let p : after f (item_of t id) ≡ some item =
      ap (λ b. if b then after f (item_of t id) else item_of t id) (sym (str_eq_refl id))
      ∙ sym (update_item-item_of t id f id w)
      ∙ e in
    let (old, q, was) = after_some f (item_of t id) item p in
    ap (λ (i : ItemState). is_end error i.phase) q ∙ keeps old (ended old was)

-- What a loop over the batch makes of the record of `j`.
pub record Loop (error : Option TaskError) (j : String) (t : Items) (bs : List BatchItem)
    (t' : Items) : Type 0 where
  pub indexed : WellIndexed t'
  pub spared : in_batch j bs ≡ false → item_of t' j ≡ item_of t j
  pub ended : (EndsAs error t j ⊎ (in_batch j bs ≡ true)) → EndsAs error t' j

Loop-end : (error : Option TaskError) (j : String) (t : Items) → WellIndexed t → Loop error j t [] t
unfolding in_batch
Loop-end error j t w = record {
  indexed = w;
  spared = λ h. refl;
  ended = λ h. elim h [ inl x ↦ x | inr e ↦ ground (arith, e) ];
}

-- One round, which ends the record of its element and spares the others, before the rest.
Loop-step :
    (error : Option TaskError) (j : String) (t t' t'' : Items) (b : BatchItem) (bs : List BatchItem)
    → (str_eq b.id j ≡ true → EndsAs error t' j)
    → (str_eq b.id j ≡ false → item_of t' j ≡ item_of t j)
    → Loop error j t' bs t''
    → Loop error j t (b ∷ bs) t''
unfolding in_batch
Loop-step error j t t' t'' b bs good same x = elim (Bool-cases (str_eq b.id j)) [
  | inl e ↦ record {
    indexed = x.indexed;
    spared = λ h. ground (arith, e, h);
    ended = λ h. x.ended (inl (good e));
  }
  | inr e ↦ record {
    indexed = x.indexed;
    spared = λ h. x.spared (ground (arith, e, h)) ∙ same e;
    ended = λ h. elim h [
      | inl y ↦ x.ended (inl (λ item p. y item (sym (same e) ∙ p)))
      | inr y ↦ x.ended (inr (ground (arith, e, y)))
    ];
  }
]

pub fail_all-Loop :
    (e : TaskError) (j : String) (t : Items) (bs : List BatchItem)
    → WellIndexed t
    → Loop (some e) j t bs (fail_all e t bs)
unfolding fail_all
fail_all-Loop e j t [] w = Loop-end (some e) j t w
fail_all-Loop e j t (b ∷ bs) w =
    let f = mark_item_failed stage_batch_upload e in
    let t' = (update_item t b.id f).0 in
    Loop-step (some e) j t t' (fail_all e t' bs) b bs
      (λ h. update_item-EndsAs (some e) t b.id j f w h (mark_item_failed_end stage_batch_upload e))
      (λ h.
        (update_item-Spares t b.id j f (mark_item_failed-KeepsId stage_batch_upload e) w h).same)
      (fail_all-Loop e j t' bs
        (update_item-WellIndexed t b.id f (mark_item_failed-KeepsId stage_batch_upload e) w))

pub complete_all-Loop :
    (now : ℕ) (j : String) (u : Uploads) (bs : List BatchItem)
    → WellIndexed u.items
    → Loop none j u.items bs (complete_all now u bs).0.items
unfolding complete_all
complete_all-Loop now j u [] w = Loop-end none j u.items w
complete_all-Loop now j u (b ∷ bs) w =
    let u' = (upload_callback u b.id b.size b.size now).0 in
    let w' : WellIndexed u'.items = callback-WellIndexed u b.id b.size b.size now w in
    let u'' = record u' { items = (update_item u'.items b.id mark_item_completed).0 } in
    Loop-step none j u.items u''.items (complete_all now u'' bs).0.items b bs
      (λ h.
        update_item-EndsAs none u'.items b.id j mark_item_completed w' h
          (λ item. unfold mark_item_completed is_end in refl))
      (λ h.
        (update_item-Spares u'.items b.id j mark_item_completed mark_item_completed-KeepsId w'
          h).same
        ∙ (callback-Spares u b.id b.size b.size now j w h).same)
      (complete_all-Loop now j u'' bs
        (update_item-WellIndexed u'.items b.id mark_item_completed mark_item_completed-KeepsId w'))
